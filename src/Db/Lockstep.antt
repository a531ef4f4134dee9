-- ===== src/Db/Lockstep.antt =====
-- The fingerprint of a viewer moves whenever the viewer's entitlement to an object does.
use archon_vibe.Prelude.{
  String, ◌≡◌, refl, sym, ap, ◌∙◌, Bool-cases, inl, inr, Bool, true, false, ◌&&◌, ◌||◌, none, some,
  List, [], ◌∷◌, arith, map, filter, member, given_text, ◌==◌, string_eq, opt_beq, if◌then◌else◌,
}
use archon_vibe.Models.Enums.{value_of}
use archon_vibe.Models.Roles.{ObjectType, Role, role_eq, role_values, ic, nc, object_type_eq}
use archon_vibe.Models.Users.{User}
use archon_vibe.Broadcast.Data.{DataLevel, entitled_level, listed, shares_country}
use archon_vibe.Broadcast.Entitlement.{Subject, owns, entitled_level_lem}
use archon_vibe.Db.AccessVersion.{base_data_level, access_inputs, overlay_roles}

-- The overlay roles among the inputs, from whether the viewer holds each.
named : Bool → Bool → List String
named true true = "IC" ∷ "NC" ∷ []
named true false = "IC" ∷ []
named false true = "NC" ∷ []
named false false = []

named-by :
    (p : Role → Bool) (i n : Bool)
    → p ic ≡ i
    → p nc ≡ n
    → map (value_of role_values) (filter p overlay_roles) ≡ named i n
unfolding value_of named
named-by p true true a b = rw (a, b) refl
named-by p true false a b = rw (a, b) refl
named-by p false true a b = rw (a, b) refl
named-by p false false a b = rw (a, b) refl

named-overlay :
    (p : Role → Bool) → map (value_of role_values) (filter p overlay_roles) ≡ named (p ic) (p nc)
unfolding value_of named
named-overlay p = named-by p (p ic) (p nc) refl refl

named-nc : (i n : Bool) → member "NC" (named i n) ≡ n
unfolding named
named-nc true true = refl
named-nc true false = refl
named-nc false true = refl
named-nc false false = refl

abbrev coordinates : User → Bool
coordinates v = member nc v.roles

inputs_coordinates : (v : User) → member "NC" (access_inputs (some v)).roles ≡ coordinates v
unfolding access_inputs
inputs_coordinates v =
    ap (member "NC") (named-overlay (λ r. member r v.roles))
    ∙ named-nc (member ic v.roles) (coordinates v)

-- The level from its reasons: the Inner Circle, a coordinator's scope, an organizer's listing, a
-- membership, an ownership.
level_by : Bool → Bool → Bool → Bool → Bool → DataLevel
level_by i c l m k =
    if i || (c || (l || (m && k)))
    then DataLevel.full
    else if m
    then DataLevel.member
    else DataLevel.public

base_by : Bool → Bool → DataLevel
base_by i m = if i then DataLevel.full else if m then DataLevel.member else DataLevel.public

level_by-base_by :
    (i m i' m' c l k : Bool)
    → base_by i m ≡ base_by i' m'
    → level_by i c l m k ≡ level_by i' c l m' k
unfolding level_by base_by
level_by-base_by true m true m' c l k h = refl
level_by-base_by true m false true c l k h = cc
level_by-base_by true m false false c l k h = cc
level_by-base_by false true true m' c l k h = cc
level_by-base_by false false true m' c l k h = cc
level_by-base_by false true false true c l k h = refl
level_by-base_by false true false false c l k h = cc
level_by-base_by false false false true c l k h = cc
level_by-base_by false false false false c l k h = refl

abbrev scope : User → Subject → Bool
scope v o = coordinates v && (o.obj_type == ObjectType.promo || shares_country v o.country)

scope-same :
    (v w : User) (o : Subject)
    → coordinates v ≡ coordinates w
    → (if coordinates v then v.country else none) ≡ (if coordinates w then w.country else none)
    → scope v o ≡ scope w o
scope-same v w o a b = elim (Bool-cases (coordinates w)) [
  | inl y ↦ ground (arith, y, a, b)
  | inr n ↦ ground (arith, n, a)
]

entitled_level-level_by :
    (v : User) (o : Subject)
    → entitled_level o.obj_type o.uid o.country o.org_uids o.obj_user_uid (some v)
      ≡ level_by
          (member ic v.roles)
          (scope v o)
          (listed v.uid o.org_uids)
          (given_text v.vekn_id)
          (owns v o)
unfolding level_by
entitled_level-level_by v o = (entitled_level_lem v o).1

-- A write to a member that leaves the inputs of the fingerprint as they were changes the member's
-- access level to no object: whenever an entitlement moves, so do the inputs.
pub access_inputs-entitled_level :
    (v w : User) (o : Subject)
    → v.uid ≡ w.uid
    → access_inputs (some v) ≡ access_inputs (some w)
    → entitled_level o.obj_type o.uid o.country o.org_uids o.obj_user_uid (some v)
      ≡ entitled_level o.obj_type o.uid o.country o.org_uids o.obj_user_uid (some w)
unfolding access_inputs base_data_level base_by
access_inputs-entitled_level v w o same h =
    let level = ap (λ i. i.level) h in
    let official =
      sym (inputs_coordinates v) ∙ ap (λ i. member "NC" i.roles) h ∙ inputs_coordinates w in
    let c = scope-same v w o official (ap (λ i. i.country) h) in
    entitled_level-level_by v o
    ∙ level_by-base_by (member ic v.roles) (given_text v.vekn_id) (member ic w.roles)
        (given_text w.vekn_id) (scope v o) (listed v.uid o.org_uids) (owns v o) level
    ∙ (λ j. level_by (member ic w.roles) (c j) (listed (same j) o.org_uids) (given_text w.vekn_id) (
        (o.obj_type == ObjectType.user && o.uid == same j)
        || (o.obj_type == ObjectType.deck && opt_beq o.obj_user_uid (some (same j)))))
    ∙ sym (entitled_level-level_by w o)
