-- ===== src/Sanctions/Create.antt =====
-- `create_sanction` of backend/src/routes/sanctions.py: the row that it saves, and what it reflects into
-- the tournament.
use archon_vibe.Prelude.{
  String, Bool, false, not, ◌&&◌, Option, none, some, List, ◌==◌, string_eq, opt_beq, is_none,
  given_text, if◌then◌else◌,
}
use archon_vibe.Prelude.Dict.{Dict, insert, values}
use archon_vibe.Prelude.Outcome.{Outcome, returned, raise_if, given, ◌>>=◌, ◌>>◌}
use archon_vibe.Models.SanctionKinds.{
  SanctionLevel, sanction_level_eq, SanctionCategory, SanctionSubcategory,
}
use archon_vibe.Models.TournamentKinds.{PlayerState}
use archon_vibe.Models.Users.{Instant, User}
use archon_vibe.Models.Tournaments.{Tournament, Sanction}
use archon_vibe.Permissions.Checks.{can_issue_sanction}
use archon_vibe.Sanctions.Validation.{validate_binding, validate_expiry}
use archon_vibe.Sanctions.Disqualification.{has_active_dq}
use archon_vibe.Sanctions.Requests.{
  CreateSanctionRequest, Reflection, untouched, standings, player, level_of, category_of,
  subcategory_of, round_beyond, tournament_at, expiry_of,
}

pub record Created : Type 0 where
  pub rows : Dict String Sanction
  pub reflection : Reflection

abbrev pub optional_subcategory :
    SanctionCategory → Option String → Outcome (Option SanctionSubcategory)
optional_subcategory category none = returned none
optional_subcategory category (some text) = do s ← subcategory_of category text; returned (some s)

-- Whether the player is disqualified from the tournament named, if one is.
abbrev pub disqualified_from : Option String → String → List Sanction → Bool
disqualified_from none user_uid rows = false
disqualified_from (some uid) user_uid rows = has_active_dq uid user_uid rows

abbrev pub reflection_of : SanctionLevel → String → Reflection
reflection_of level user_uid =
    if level == SanctionLevel.disqualification
    then player user_uid PlayerState.disqualified
    else if level == SanctionLevel.standings_adjustment
    then standings
    else untouched

-- A new row, drawn by its uid.
abbrev pub new_sanction :
    String
    → Instant
    → User
    → CreateSanctionRequest
    → SanctionLevel
    → SanctionCategory
    → Option SanctionSubcategory
    → Option Instant
    → Sanction
new_sanction uid now issuer request level category subcategory expires_at = record {
  uid = uid;
  modified = now;
  deleted_at = none;
  user_uid = request.user_uid;
  issued_by_uid = issuer.uid;
  tournament_uid = request.tournament_uid;
  level = level;
  category = category;
  subcategory = subcategory;
  round_number = request.round_number;
  description = request.description;
  issued_at = now;
  expires_at = expires_at;
  lifted_at = none;
  lifted_by_uid = none;
}

module _ (tournaments : String → Option Tournament) (users : String → Option User)
    (parse_date : String → Option Instant) where
  -- From the permission on.
  unfoldable pub issue :
      String
      → Instant
      → User
      → CreateSanctionRequest
      → SanctionLevel
      → SanctionCategory
      → Option SanctionSubcategory
      → Dict String Sanction
      → Outcome Created
  issue uid now u request level category subcategory rows = do
    raise_if (not (can_issue_sanction u level (tournament_at tournaments request.tournament_uid)))
        403 "You don't have permission to issue this type of sanction"
    raise_if (is_none (users request.user_uid)) 404 "Target user not found"
    expires_at ← expiry_of parse_date request.expires_at
    validate_expiry level expires_at now
    raise_if
        (level == SanctionLevel.disqualification
          && disqualified_from request.tournament_uid request.user_uid (values rows))
        409 "Player already has an active disqualification in this tournament"
    returned (record {
      rows = insert uid (new_sanction uid now u request level category subcategory expires_at) rows;
      reflection = reflection_of level request.user_uid;
    })

  unfoldable pub create_sanction :
      Option User
      → Option String
      → CreateSanctionRequest
      → String
      → Instant
      → Dict String Sanction
      → Outcome Created
  create_sanction user oauth_tournament request uid now rows = do
    u ← given user 401 "Authentication required"
    raise_if (given_text oauth_tournament && not (opt_beq request.tournament_uid oauth_tournament))
        403 "This token acts only on the tournament it was granted for"
    level ← level_of request.level
    validate_binding level request.tournament_uid
    category ← category_of request.category
    subcategory ← optional_subcategory category request.subcategory
    raise_if (level == SanctionLevel.standings_adjustment && is_none request.round_number) 400
        "round_number is required for standings_adjustment sanctions"
    raise_if (round_beyond request.round_number (tournament_at tournaments request.tournament_uid))
        400 "round_number exceeds tournament rounds"
    issue uid now u request level category subcategory rows
