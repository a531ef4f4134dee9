-- ===== src/Permissions/Authority.antt =====
-- Who holds an authority, read off the roles: backend/src/permissions.py through the matrix of
-- engine/src/permissions.rs.
use archon_vibe.Prelude.{
  ◌≡◌, refl, ap, Bool, false, ◌&&◌, ◌||◌, some, List, [], ◌∷◌, map, arith, member, ◌==◌, string_eq,
}
use archon_vibe.Models.Enums.{of_value, value_of}
use archon_vibe.Models.Roles.{
  Role, role_eq, role_values, ic, nc, prince, ethics, ptc, pt, rulemonger, judge, sheriff, dev,
}
use archon_vibe.Models.Users.{User}
use archon_vibe.Models.Tournaments.{Tournament}
use archon_vibe.Permissions.Engine
use archon_vibe.Permissions.Engine.{UserContext, same_known_country}
use archon_vibe.Permissions.Checks.{
  parse_roles, user_to_context, check, can_edit_user, is_organizer,
}

-- A role's text is read back as the role.
read_role : (r : Role) → of_value role_values (value_of role_values r) ≡ some r
unfolding of_value value_of
read_role ic = refl
read_role nc = refl
read_role prince = refl
read_role ethics = refl
read_role ptc = refl
read_role pt = refl
read_role rulemonger = refl
read_role judge = refl
read_role sheriff = refl
read_role dev = refl

parse_roles-values : (rs : List Role) → parse_roles (map (value_of role_values) rs) ≡ rs
unfolding parse_roles
parse_roles-values [] = refl
parse_roles-values (r ∷ rs) =
    rw (read_role r, parse_roles) (ap (λ l. r ∷ l) (parse_roles-values rs))

-- What the engine reads of a member.
abbrev pub context_of : User → UserContext
context_of u = record { roles = u.roles; country = u.country; vekn_id = u.vekn_id; has_nda = false }

pub user_to_context_lem : (u : User) → user_to_context u ≡ context_of u
unfolding user_to_context
user_to_context_lem u = rw (parse_roles-values u.roles)

abbrev pub holds : User → Role → Bool
holds u r = member r u.roles

-- Profiles are edited by their owner, by the Inner Circle, and by a coordinator of the same country.
pub can_edit_user_lem :
    (actor target : User)
    → can_edit_user actor target ≡ (
        target.uid == actor.uid
        || (holds actor ic || (holds actor nc && same_known_country actor.country target.country)))
unfolding check Engine.check
can_edit_user_lem actor target = rw (user_to_context_lem actor) (ground arith)

-- A tournament is run by its listed organizers, the Inner Circle, and the coordinators of its
-- country; by no one else.
pub is_organizer_lem :
    (user : User) (t : Tournament)
    → is_organizer user t ≡ (
        member user.uid t.organizers_uids
        || (holds user ic || (holds user nc && same_known_country user.country t.country)))
unfolding check Engine.check
is_organizer_lem user t = rw (user_to_context_lem user) (ground arith)

-- The appointment matrix: what `can_change_role` grants, role by role, to an actor over a target.
abbrev pub may_appoint : UserContext → UserContext → Role → Bool
may_appoint actor target judge = false
may_appoint actor target sheriff = false
may_appoint actor target pt = Engine.has_role actor ic || Engine.has_role actor ptc
may_appoint actor target prince =
    Engine.has_role actor ic
    || (Engine.has_role actor nc && same_known_country actor.country target.country)
may_appoint actor target _ = Engine.has_role actor ic
