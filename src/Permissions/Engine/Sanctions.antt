-- ===== src/Permissions/Engine/Sanctions.antt =====
-- The sanction resolvers of engine/src/permissions.rs. A level is its text.
use archon_vibe.Prelude.{
  String, Bool, not, ◌||◌, Option, List, ◌==◌, string_eq, if◌then◌else◌, some, false,
}
use archon_vibe.Permissions.Capability.{
  issue_restricted_sanction, issue_tournament_sanction, lift_restricted_sanction,
  lift_tournament_sanction, delete_any_sanction, delete_organizer_sanction,
}
use archon_vibe.Permissions.Engine.{UserContext, PermissionResult, OwnedResource, request, check}

pub record SanctionContext : Type 0 where
  pub level : String
  pub tournament_country : Option String
  pub tournament_state : String
  pub tournament_organizers_uids : List String

abbrev pub restricted_level : String → Bool
restricted_level level = level == "suspension" || level == "probation"

abbrev pub organizer_issuable : String → Bool
organizer_issuable level =
    level == "caution"
    || level == "warning"
    || level == "standings_adjustment"
    || level == "disqualification"

unfoldable pub can_issue_sanction : UserContext → String → String → OwnedResource → PermissionResult
can_issue_sanction issuer uid level tournament =
    check (if restricted_level level then issue_restricted_sanction else issue_tournament_sanction)
      (record (request issuer uid) { resource = some tournament })

unfoldable pub can_lift_sanction : UserContext → String → SanctionContext → PermissionResult
can_lift_sanction user uid ctx =
    if restricted_level ctx.level
    then check lift_restricted_sanction (request user uid)
    else check lift_tournament_sanction
        (record (request user uid) { target_country = ctx.tournament_country })

unfoldable pub can_delete_sanction : UserContext → String → SanctionContext → PermissionResult
can_delete_sanction user uid ctx =
    let result = check delete_any_sanction (request user uid) in
    let tournament : OwnedResource = record {
      country = ctx.tournament_country;
      organizers_uids = ctx.tournament_organizers_uids;
      open_to_country_princes = false;
    } in
    if result.allowed || not (organizer_issuable ctx.level) || ctx.tournament_state == "Finished"
    then result
    else check delete_organizer_sanction (record (request user uid) { resource = some tournament })
