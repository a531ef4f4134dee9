-- ===== src/JudgeDirectory/Settled.antt =====
-- What a sync leaves a member with.
use archon_vibe.Prelude.{
  String, ◌≡◌, refl, sym, ap, subst, ◌∙◌, Bool, true, false, not, ◌&&◌, ◌||◌, Option, none, some,
  List, [], ◌∷◌, arith, ◌==◌, string_eq, ==-iff, ==-refl, opt_beq, any, member, filter,
  if◌then◌else◌, Bool-cases, inl, inr, member-append,
}
use archon_vibe.Prelude.Dict.{Dict, lookup}
use archon_vibe.Models.Roles.{Role, role_eq}
use archon_vibe.Models.Users.{User, Instant}
use archon_vibe.JudgeDirectory.Sync.{
  JudgeEntry, directory_roles, flat, wanted_roles, role_for, text_or_empty, synced_roles,
  same_roles, sync_member,
}
use archon_vibe.JudgeDirectory.Listed.{listed_role, listed_role-cases, wanted_roles-listed}

member-filter :
    (r : Role) (roles : List Role)
    → member r (filter (λ x. not (member x directory_roles)) roles)
      ≡ (not (member r directory_roles) && member r roles)
member-filter r [] = ground arith
member-filter r (x ∷ xs) = elim (Bool-cases (r == x)) [
  | inl e ↦
      (let same : r ≡ x = (==-iff r x).0 e in
        subst
          (λ y.
            member r (filter (λ x. not (member x directory_roles)) (y ∷ xs))
            ≡ (not (member r directory_roles) && member r (y ∷ xs)))
          same (ground (arith, member-filter r xs, ==-refl r)))
  | inr e ↦ ground (arith, e, member-filter r xs)
]

-- The roles that a member should have, as a test.
abbrev pub should_hold : Option Role → List Role → Role → Bool
should_hold role roles r =
    if member r directory_roles then opt_beq role (some r) else member r roles

synced_roles-member :
    (role : Option Role) (roles : List Role) (r : Role)
    → (opt_beq role none || opt_beq role (some Role.judge) || opt_beq role (some Role.sheriff))
      ≡ true
    → member r (synced_roles role roles) ≡ should_hold role roles r
synced_roles-member none roles r h = ground (arith, member-filter r roles)
synced_roles-member (some x) roles r h =
    member-append r (filter (λ x. not (member x directory_roles)) roles) (x ∷ [])
    ∙ ground (arith, h, member-filter r roles, ==-iff r x, ==-iff x r)

any-member :
    (r : Role) (xs ys : List Role)
    → any (λ x. not (member x ys)) xs ≡ false
    → member r xs ≡ true
    → member r ys ≡ true
any-member r [] ys h k = ground (arith, k)
any-member r (x ∷ xs) ys h k = elim (Bool-cases (r == x)) [
  | inl e ↦ subst (λ y. member y ys ≡ true) (sym ((==-iff r x).0 e)) (ground (arith, h))
  | inr e ↦ any-member r xs ys (ground (arith, h)) (ground (arith, k, e))
]

same_roles-member :
    (r : Role) (xs ys : List Role) → same_roles xs ys ≡ true → member r xs ≡ member r ys
same_roles-member r xs ys h = ground (arith, h, any-member r xs ys, any-member r ys xs)

-- The member after a sync, saved or not.
abbrev pub synced : Dict String (Option Role) → Instant → User → User
synced wanted now user = elim (sync_member wanted now user) [ none ↦ user | some u ↦ u ]

synced-member :
    (wanted : Dict String (Option Role)) (now : Instant) (user : User) (r : Role)
    → member r (synced wanted now user).roles
      ≡ member r (synced_roles (role_for wanted user) user.roles)
unfolding sync_member
synced-member wanted now user r =
    let after = synced_roles (role_for wanted user) user.roles in
    elim (Bool-cases (same_roles after user.roles)) [
      | inl e ↦ ground (arith, e, same_roles-member r after user.roles e)
      | inr e ↦ ground (arith, e)
    ]

-- After a sync a member holds Judge or Sheriff exactly as the directory lists the member's VEKN id, and
-- of the other roles exactly those held before.
pub synced-should_hold :
    (today vekn : String) (es : List JudgeEntry) (now : Instant) (user : User) (r : Role)
    → user.vekn_id ≡ some vekn
    → member r (synced (wanted_roles today es []) now user).roles
      ≡ should_hold (listed_role today vekn es none) user.roles r
synced-should_hold today vekn es now user r k =
    let wanted = wanted_roles today es [] in
    let role : role_for wanted user ≡ listed_role today vekn es none =
      ap (λ v. flat (lookup (text_or_empty v) wanted)) k ∙ wanted_roles-listed today vekn es in
    synced-member wanted now user r
    ∙ ap (λ x. member r (synced_roles x user.roles)) role
    ∙ synced_roles-member (listed_role today vekn es none) user.roles r
        (listed_role-cases today vekn es)

within_any :
    (xs ys : List Role)
    → ((r : Role) → member r xs ≡ true → member r ys ≡ true)
    → any (λ x. not (member x ys)) xs ≡ false
within_any [] ys h = refl
within_any (x ∷ xs) ys h =
    ground
      (arith, h x (ground (arith, ==-refl x)), within_any xs ys (λ r k. h r (ground (arith, k))))

same_roles-ext :
    (xs ys : List Role) → ((r : Role) → member r xs ≡ member r ys) → same_roles xs ys ≡ true
same_roles-ext xs ys h =
    ground (arith, within_any xs ys (λ r k. sym (h r) ∙ k), within_any ys xs (λ r k. h r ∙ k))

twice :
    (role : Option Role) (roles : List Role)
    → (opt_beq role none || opt_beq role (some Role.judge) || opt_beq role (some Role.sheriff))
      ≡ true
    → same_roles (synced_roles role (synced_roles role roles)) (synced_roles role roles) ≡ true
twice role roles h =
    same_roles-ext (synced_roles role (synced_roles role roles)) (synced_roles role roles) (λ r.
      ground (
        arith,
        synced_roles-member role roles r h,
        synced_roles-member role (synced_roles role roles) r h,
      ))

-- A sync settles: what it leaves of a member, a second sync with the same directory does not change.
pub synced-settles :
    (today vekn : String) (es : List JudgeEntry) (now later : Instant) (user : User)
    → user.vekn_id ≡ some vekn
    → sync_member (wanted_roles today es []) later (synced (wanted_roles today es []) now user)
      ≡ none
unfolding sync_member
synced-settles today vekn es now later user k =
    let wanted = wanted_roles today es [] in
    let after = synced_roles (role_for wanted user) user.roles in
    let role : role_for wanted user ≡ listed_role today vekn es none =
      ap (λ v. flat (lookup (text_or_empty v) wanted)) k ∙ wanted_roles-listed today vekn es in
    let again : same_roles (synced_roles (role_for wanted user) after) after ≡ true =
      twice (role_for wanted user) user.roles (
        ap (λ x. opt_beq x none || opt_beq x (some Role.judge) || opt_beq x (some Role.sheriff))
          role
        ∙ listed_role-cases today vekn es) in
    elim (Bool-cases (same_roles after user.roles)) [
      | inl e ↦ ground (arith, e)
      | inr e ↦ ground (arith, e, again)
    ]
