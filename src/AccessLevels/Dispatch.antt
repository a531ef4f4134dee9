-- ===== src/AccessLevels/Dispatch.antt =====
-- The dispatch tables of backend/src/access_levels.py. An object type is a text, and an unknown one
-- is an error. The answer `none` is a raise, `some none` an object that is not shown.
use archon_vibe.Prelude.{String, Option, none, some}
use archon_vibe.Json.{Fields}
use archon_vibe.Models.Enums.{of_value}
use archon_vibe.Models.Roles.{ObjectType, object_type_values}
use archon_vibe.AccessLevels.Users.{
  compute_user_public, compute_user_member, compute_user_api, compute_user_full,
}
use archon_vibe.AccessLevels.Tournaments.{
  compute_tournament_public, compute_tournament_member, compute_tournament_api,
  compute_tournament_full,
}
use archon_vibe.AccessLevels.Decks.{
  compute_deck_member, compute_deck_api, compute_deck_full, compute_league_public,
  compute_promo_public, compute_league_api,
}

abbrev pub Projection : Type 0
Projection = Option (Option Fields)

abbrev pub shown : Fields → Projection
shown d = some (some d)

abbrev pub invisible : Projection
invisible = some none

-- A projection that never hides its object, or that never raises, as an answer.
abbrev pub or_raise : Option Fields → Projection
or_raise none = none
or_raise (some d) = some (some d)

-- `_PUBLIC_DISPATCH`
abbrev pub public_dispatch : ObjectType → Fields → Projection
public_dispatch ObjectType.user d = some (compute_user_public d)
public_dispatch ObjectType.tournament d = shown (compute_tournament_public d)
public_dispatch ObjectType.sanction d = invisible
public_dispatch ObjectType.deck d = invisible
public_dispatch ObjectType.league d = shown (compute_league_public d)
public_dispatch ObjectType.promo d = shown (compute_promo_public d)

-- `_MEMBER_DISPATCH`
abbrev pub member_dispatch : ObjectType → Fields → Projection
member_dispatch ObjectType.user d = shown (compute_user_member d)
member_dispatch ObjectType.tournament d = shown (compute_tournament_member d)
member_dispatch ObjectType.sanction d = shown d
member_dispatch ObjectType.deck d = compute_deck_member d
member_dispatch ObjectType.league d = shown d
member_dispatch ObjectType.promo d = shown (compute_promo_public d)

-- `_API_DISPATCH`
abbrev pub api_dispatch : ObjectType → Fields → Projection
api_dispatch ObjectType.user d = some (compute_user_api d)
api_dispatch ObjectType.tournament d = or_raise (compute_tournament_api d)
api_dispatch ObjectType.sanction d = invisible
api_dispatch ObjectType.deck d = compute_deck_api d
api_dispatch ObjectType.league d = shown (compute_league_api d)
api_dispatch ObjectType.promo d = invisible

-- `_FULL_DISPATCH`
abbrev pub full_dispatch : ObjectType → Fields → Projection
full_dispatch ObjectType.user d = shown (compute_user_full d)
full_dispatch ObjectType.tournament d = shown (compute_tournament_full d)
full_dispatch ObjectType.deck d = shown (compute_deck_full d)
full_dispatch _ d = shown d

abbrev dispatch : (ObjectType → Fields → Projection) → String → Fields → Projection
dispatch table obj_type d = elim (of_value object_type_values obj_type) [
  | none ↦ none
  | some t ↦ table t d
]

unfoldable pub compute_public : String → Fields → Projection
unfolding of_value
compute_public obj_type d = dispatch public_dispatch obj_type d

unfoldable pub compute_member : String → Fields → Projection
unfolding of_value
compute_member obj_type d = dispatch member_dispatch obj_type d

unfoldable pub compute_api : String → Fields → Projection
unfolding of_value
compute_api obj_type d = dispatch api_dispatch obj_type d

-- A full projection that hides its object is an error.
abbrev require_shown : Projection → Option Fields
require_shown none = none
require_shown (some none) = none
require_shown (some (some d)) = some d

unfoldable pub compute_full : String → Fields → Option Fields
unfolding of_value
compute_full obj_type d = require_shown (dispatch full_dispatch obj_type d)
