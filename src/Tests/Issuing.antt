-- ===== src/Tests/Issuing.antt =====
-- A disqualification that the organizer issues, and the Inner Circle lifts.
use archon_vibe.Prelude.{String, ◌≡◌, refl, arith, true, Option, none, some, [], ◌∷◌, string_eq}
use archon_vibe.Prelude.Dict.{lookup, insert}
use archon_vibe.Prelude.Outcome.{returned}
use archon_vibe.Models.Users.{User, Instant}
use archon_vibe.Models.Tournaments.{Tournament}
use archon_vibe.Models.TournamentKinds.{PlayerState}
use archon_vibe.Sanctions.Requests.{CreateSanctionRequest, UpdateSanctionRequest, player}
use archon_vibe.Sanctions.Create.{Created, create_sanction, issue}
use archon_vibe.Sanctions.Update.{update_sanction}
use archon_vibe.Sanctions.Active.{IsSole}
use archon_vibe.Sanctions.Sole.{create_sanction-IsSole, update_sanction-IsSole}
use archon_vibe.Tests.Data.{alice, bob, carol, cup, bans}

abbrev tournaments : String → Option Tournament
tournaments uid = some cup

abbrev users : String → Option User
users uid = some bob

abbrev no_dates : String → Option Instant
no_dates text = none

abbrev ban : CreateSanctionRequest
ban = record {
  user_uid = "bob";
  level = "disqualification";
  category = "unsportsmanlike_conduct";
  subcategory = none;
  round_number = none;
  description = "";
  expires_at = none;
  tournament_uid = some "cup";
}

abbrev banned : Created
banned = record {
  rows = ("s1", record bans { round_number = none }) ∷ [];
  reflection = player "bob" PlayerState.disqualified;
}

alice_issues :
    create_sanction tournaments users no_dates (some alice) none ban "s1" 0 [] ≡ returned banned
unfolding create_sanction archon_vibe.Models.Enums.of_value
    archon_vibe.Sanctions.Validation.validate_binding issue
    archon_vibe.Permissions.Checks.can_issue_sanction
    archon_vibe.Permissions.Engine.Sanctions.can_issue_sanction archon_vibe.Permissions.Engine.check
    archon_vibe.Permissions.Checks.level_text archon_vibe.Permissions.Checks.user_to_context
    archon_vibe.Sanctions.Validation.validate_expiry
    archon_vibe.Sanctions.Disqualification.has_active_dq insert
alice_issues = refl

create_sanction-IsSole_example : IsSole "cup" "bob" banned.rows
create_sanction-IsSole_example =
    create_sanction-IsSole tournaments users no_dates "cup" "bob" (some alice) none ban "s1" 0 []
      banned (ground arith) alice_issues

abbrev lift : UpdateSanctionRequest
lift = record {
  level = none;
  category = none;
  subcategory = none;
  round_number = none;
  description = none;
  expires_at = none;
  lifted = some true;
}

abbrev lifted : Created
lifted = record {
  rows =
      (
        "s1",
        record bans {
          modified = 9;
          round_number = none;
          lifted_at = some 9;
          lifted_by_uid = some "carol";
        },
      )
      ∷ [];
  reflection = player "bob" PlayerState.playing;
}

carol_lifts :
    update_sanction tournaments no_dates (some carol) "s1" lift 9 banned.rows ≡ returned lifted
unfolding update_sanction lookup archon_vibe.Permissions.Checks.can_lift_sanction
    archon_vibe.Permissions.Engine.Sanctions.can_lift_sanction
    archon_vibe.Permissions.Checks.level_text archon_vibe.Permissions.Engine.check
    archon_vibe.Permissions.Checks.user_to_context archon_vibe.Sanctions.Update.edits
    archon_vibe.Sanctions.Update.level_after archon_vibe.Sanctions.Validation.validate_expiry
    archon_vibe.Sanctions.Update.save_update insert
    archon_vibe.Sanctions.Disqualification.dq_restore_state
carol_lifts = refl

update_sanction-IsSole_example : IsSole "cup" "bob" lifted.rows
update_sanction-IsSole_example =
    update_sanction-IsSole tournaments no_dates "cup" "bob" (some carol) "s1" lift 9 banned.rows
      lifted refl (ground arith) carol_lifts
