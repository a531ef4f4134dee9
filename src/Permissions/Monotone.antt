-- ===== src/Permissions/Monotone.antt =====
-- More roles never take an authority away: `check` of engine/src/permissions.rs.
use archon_vibe.Prelude.{
  ◌≡◌, refl, true, false, ◌&&◌, Option, none, some, List, [], ◌∷◌, arith, any, is_some, All, member,
}
use archon_vibe.Models.Roles.{Role, role_eq}
use archon_vibe.Permissions.Capability.{Capability, capability_eq}
use archon_vibe.Permissions.Matrix.{Rule, capabilities}
use archon_vibe.Permissions.Engine.{Request, find_rule, check_rule, check_found, check, allows}

-- Every role of the first actor is a role of the second.
abbrev pub Extends : List Role → List Role → Type 0
Extends rs rs' = (r : Role) → member r rs ≡ true → member r rs' ≡ true

any-Extends :
    (rs rs' wanted : List Role)
    → Extends rs rs'
    → any (λ r. member r rs) wanted ≡ true
    → any (λ r. member r rs') wanted ≡ true
any-Extends rs rs' [] more h = h
any-Extends rs rs' (w ∷ ws) more h = ground (arith, more w, any-Extends rs rs' ws more)

-- A row that refuses out of scope leaves no organizer to be heard after it.
abbrev IsOpen : Rule → Type 0
IsOpen r = (is_some r.deny_scope && r.organizer) ≡ false

capabilities-IsOpen : All IsOpen capabilities
capabilities-IsOpen = ground arith

find_rule-IsOpen :
    (c : Capability) (rs : List Rule) (r : Rule)
    → All IsOpen rs
    → find_rule c rs ≡ some r
    → IsOpen r
unfolding find_rule
find_rule-IsOpen c [] r all h = cc
find_rule-IsOpen c (x ∷ rs) r all h = ground (arith, all.0, find_rule-IsOpen c rs r all.1)

abbrev pub with_roles : Request → List Role → Request
with_roles req rs = record req { actor = record req.actor { roles = rs } }

check_rule-Extends :
    (rule : Rule) (req : Request) (rs : List Role)
    → IsOpen rule
    → Extends req.actor.roles rs
    → (check_rule rule req).allowed ≡ true
    → (check_rule rule (with_roles req rs)).allowed ≡ true
unfolding check_rule
check_rule-Extends rule req rs open_row more h = ground (
  arith,
  any-Extends req.actor.roles rs rule.global more,
  any-Extends req.actor.roles rs rule.same_country more,
)

check_found-Extends :
    (found : Option Rule) (req : Request) (rs : List Role)
    → ((r : Rule) → found ≡ some r → IsOpen r)
    → Extends req.actor.roles rs
    → (check_found found req).allowed ≡ true
    → (check_found found (with_roles req rs)).allowed ≡ true
unfolding check_found
check_found-Extends none req rs open_row more h = cc
check_found-Extends (some r) req rs open_row more h =
    check_rule-Extends r req rs (open_row r refl) more h

-- A request that is allowed stays allowed when the actor holds further roles, for every capability.
pub check-Extends :
    (c : Capability) (req : Request) (rs : List Role)
    → Extends req.actor.roles rs
    → allows c req ≡ true
    → allows c (with_roles req rs) ≡ true
unfolding check
check-Extends c req rs =
    check_found-Extends (find_rule c capabilities) req rs
      (λ r. find_rule-IsOpen c capabilities r capabilities-IsOpen)
