-- ===== src/Sanctions/Update.antt =====
-- `update_sanction_endpoint` of backend/src/routes/sanctions.py: lifting and editing a sanction.
use archon_vibe.Prelude.{
  ℕ, String, Bool, false, not, ◌&&◌, ◌||◌, Option, none, some, List, ◌==◌, string_eq, is_some,
  is_none, given_text, nonempty_text, if◌then◌else◌,
}
use archon_vibe.Prelude.Text.{strip}
use archon_vibe.Prelude.Dict.{Dict, lookup, insert, values}
use archon_vibe.Prelude.Outcome.{Outcome, returned, raise_if, given, ◌>>=◌, ◌>>◌}
use archon_vibe.Models.SanctionKinds.{
  SanctionLevel, sanction_level_eq, SanctionCategory, SanctionSubcategory,
}
use archon_vibe.Models.TournamentKinds.{PlayerState}
use archon_vibe.Models.Users.{Instant, User}
use archon_vibe.Models.Tournaments.{Tournament, Sanction}
use archon_vibe.Permissions.Checks.{can_lift_sanction, can_modify_sanction}
use archon_vibe.Sanctions.Validation.{validate_binding, validate_expiry}
use archon_vibe.Sanctions.Disqualification.{dq_restore_state}
use archon_vibe.Sanctions.Requests.{
  UpdateSanctionRequest, Reflection, untouched, standings, player, level_of, category_of,
  subcategory_of, beyond_rounds, tournament_at,
}
use archon_vibe.Sanctions.Create.{Created, disqualified_from}

abbrev pub is_true : Option Bool → Bool
is_true none = false
is_true (some b) = b

abbrev pub lifts : UpdateSanctionRequest → Sanction → Bool
lifts request s = is_true request.lifted && is_none s.lifted_at

abbrev pub has_modify_fields : UpdateSanctionRequest → Bool
has_modify_fields r =
    is_some r.level
    || (is_some r.category
        || (is_some r.subcategory
            || (is_some r.round_number || (is_some r.description || is_some r.expires_at))))

-- A new level is checked against the sanction's tournament.
unfoldable pub level_after : Option String → Sanction → Outcome SanctionLevel
level_after none s = returned s.level
level_after (some text) s = do
  level ← level_of text
  validate_binding level s.tournament_uid
  returned level

abbrev category_after : Option String → Sanction → Outcome SanctionCategory
category_after none s = returned s.category
category_after (some text) s = category_of text

abbrev subcategory_after :
    Option String → SanctionCategory → Sanction → Outcome (Option SanctionSubcategory)
subcategory_after none category s = returned s.subcategory
subcategory_after (some text) category s = do
  sub ← subcategory_of category text
  returned (some sub)

abbrev round_after : Option ℕ → Option Tournament → Sanction → Outcome (Option ℕ)
round_after none t s = returned s.round_number
round_after (some n) t s = do
  raise_if (beyond_rounds n t) 400 "round_number exceeds tournament rounds"
  returned (some n)

abbrev description_after : Option String → Sanction → Outcome String
description_after none s = returned s.description
description_after (some text) s = do
  raise_if (not (nonempty_text (strip text))) 400 "Description cannot be empty"
  returned (strip text)

abbrev expiry_after :
    (String → Option Instant) → Option String → Sanction → Outcome (Option Instant)
expiry_after parse_date none s = returned s.expires_at
expiry_after parse_date (some text) s = do
  d ← given (parse_date text) 400 "Invalid expires_at format (expected YYYY-MM-DD)"
  returned (some d)

-- The tournament that a sanction names, `""` included.
abbrev named_tournament : (String → Option Tournament) → Option String → Option Tournament
named_tournament tournaments none = none
named_tournament tournaments (some uid) = tournaments uid

abbrev pub counts_as_dq : Sanction → Bool
counts_as_dq s = s.level == SanctionLevel.disqualification && is_none s.lifted_at

abbrev restored_state :
    (String → Option Tournament) → Option String → String → List Sanction → PlayerState
restored_state tournaments none user_uid rows = PlayerState.disqualified
restored_state tournaments (some uid) user_uid rows =
    dq_restore_state uid user_uid (tournaments uid) rows

abbrev pub reflection_after :
    (String → Option Tournament) → Sanction → Sanction → List Sanction → Reflection
reflection_after tournaments s updated rows =
    if not (given_text s.tournament_uid)
    then untouched
    else if counts_as_dq updated && not (counts_as_dq s)
    then player s.user_uid PlayerState.disqualified
    else if counts_as_dq s && not (counts_as_dq updated)
    then player s.user_uid (restored_state tournaments s.tournament_uid s.user_uid rows)
    else if updated.level == SanctionLevel.standings_adjustment
        || s.level == SanctionLevel.standings_adjustment
    then standings
    else untouched

-- The fields that an edit may set.
pub record Edited : Type 0 where
  pub level : SanctionLevel
  pub category : SanctionCategory
  pub subcategory : Option SanctionSubcategory
  pub round_number : Option ℕ
  pub description : String
  pub expires_at : Option Instant

abbrev pub updated_row : Instant → User → Bool → Edited → Sanction → Sanction
updated_row now user lifting e s = record s {
  modified = now;
  level = e.level;
  category = e.category;
  subcategory = e.subcategory;
  round_number = e.round_number;
  description = e.description;
  expires_at = e.expires_at;
  lifted_at = if lifting then some now else s.lifted_at;
  lifted_by_uid = if lifting then some user.uid else s.lifted_by_uid;
}

module _ (tournaments : String → Option Tournament) (parse_date : String → Option Instant) where
  unfoldable pub edits : UpdateSanctionRequest → Sanction → Outcome Edited
  edits request s = do
    level ← level_after request.level s
    category ← category_after request.category s
    subcategory ← subcategory_after request.subcategory category s
    round_number ←
        round_after request.round_number (named_tournament tournaments s.tournament_uid) s
    raise_if (level == SanctionLevel.standings_adjustment && is_none round_number) 400
        "round_number is required for standings_adjustment sanctions"
    description ← description_after request.description s
    expires_at ← expiry_after parse_date request.expires_at s
    validate_expiry level expires_at s.issued_at
    returned (record {
      level = level;
      category = category;
      subcategory = subcategory;
      round_number = round_number;
      description = description;
      expires_at = expires_at;
    })

  -- The last check, and the row saved.
  unfoldable pub save_update : String → Sanction → Sanction → Dict String Sanction → Outcome Created
  save_update uid s updated rows = do
    raise_if
        (counts_as_dq updated
          && (not (counts_as_dq s)
              && (given_text s.tournament_uid
                  && disqualified_from s.tournament_uid s.user_uid (values rows))))
        409 "Player already has an active disqualification in this tournament"
    let saved = insert uid updated rows
    returned (record {
      rows = saved;
      reflection = reflection_after tournaments s updated (values saved);
    })

  unfoldable pub update_sanction :
      Option User
      → String
      → UpdateSanctionRequest
      → Instant
      → Dict String Sanction
      → Outcome Created
  update_sanction user uid request now rows = do
    u ← given user 401 "Authentication required"
    s ← given (lookup uid rows) 404 "Sanction not found"
    raise_if
        (lifts request s
          && not (can_lift_sanction u s (tournament_at tournaments s.tournament_uid)))
        403 "You don't have permission to lift this sanction"
    raise_if (has_modify_fields request && not (can_modify_sanction u)) 403
        "Only IC or Ethics can modify sanctions"
    e ← edits request s
    save_update uid s (updated_row now u (lifts request s) e s) rows
