-- ===== src/Tests/Authority.antt =====
-- What an organizer, a player, a national coordinator and the Inner Circle may do.
use archon_vibe.Prelude.{◌≡◌, refl, true, some, [], ◌∷◌, string_eq, arith}
use archon_vibe.Models.Roles.{Role, role_eq}
use archon_vibe.Permissions.Capability.{Capability, capability_eq}
use archon_vibe.Permissions.Engine.{
  Request, request, allows, check, check_found, check_rule, find_rule,
}
use archon_vibe.Permissions.Checks.{can_delete_sanction}
use archon_vibe.Permissions.Authority.{context_of}
use archon_vibe.Permissions.SanctionAuthority.{can_delete_sanction_lem}
use archon_vibe.Permissions.Monotone.{Extends, with_roles, check-Extends}
use archon_vibe.Tests.Data.{alice, carol, cup, bans}

can_delete_sanction_lem_example : can_delete_sanction alice bans (some cup) ≡ true
can_delete_sanction_lem_example = can_delete_sanction_lem alice bans (some cup)

abbrev appeal : Request
appeal = request (context_of carol) "carol"

appeal_is_allowed : allows Capability.manage_promos appeal ≡ true
unfolding check check_found check_rule find_rule
appeal_is_allowed = refl

more_roles : Extends (Role.ic ∷ []) (Role.ic ∷ Role.judge ∷ [])
more_roles r h = ground (arith, h)

check-Extends_example :
    allows Capability.manage_promos (with_roles appeal (Role.ic ∷ Role.judge ∷ [])) ≡ true
check-Extends_example =
    check-Extends Capability.manage_promos appeal (Role.ic ∷ Role.judge ∷ []) more_roles
      appeal_is_allowed
