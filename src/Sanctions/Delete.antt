-- ===== src/Sanctions/Delete.antt =====
-- `delete_sanction_endpoint` of backend/src/routes/sanctions.py: the row that it saves, and the
-- state that the player of a disqualification gets back.
use archon_vibe.Prelude.{
  String, not, ◌&&◌, Option, none, some, List, ◌==◌, string_eq, is_some, is_none, given_text,
  if◌then◌else◌,
}
use archon_vibe.Prelude.Dict.{Dict, lookup, insert, values}
use archon_vibe.Prelude.Outcome.{Outcome, returned, raise_if, given, ◌>>=◌, ◌>>◌}
use archon_vibe.Models.SanctionKinds.{SanctionLevel, sanction_level_eq}
use archon_vibe.Models.TournamentKinds.{PlayerState}
use archon_vibe.Models.Users.{Instant, User}
use archon_vibe.Models.Tournaments.{Tournament, Sanction}
use archon_vibe.Permissions.Checks.{can_delete_sanction}
use archon_vibe.Sanctions.Disqualification.{dq_restore_state}

-- The sanctions after the request, and the state that it gives to the player, if any.
pub record Deleted : Type 0 where
  pub rows : Dict String Sanction
  pub player_state : Option PlayerState

abbrev pub deleted_row : Instant → Sanction → Sanction
deleted_row now s = record s { modified = now; deleted_at = some now }

module _ (tournaments : String → Option Tournament) where
  abbrev pub tournament_of : Sanction → Option Tournament
  tournament_of s = elim s.tournament_uid [
    | none ↦ none
    | some uid ↦ if given_text (some uid) then tournaments uid else none
  ]

  -- `_dq_restore_state`, where a disqualification that counted is deleted.
  abbrev pub restored : Sanction → List Sanction → Option PlayerState
  restored s rows = elim s.tournament_uid [
    | none ↦ none
    | some uid ↦
        if s.level == SanctionLevel.disqualification
          && (is_none s.lifted_at && given_text (some uid))
        then some (dq_restore_state uid s.user_uid (tournaments uid) rows)
        else none
  ]

  unfoldable pub delete_sanction :
      Option User → String → Dict String Sanction → Instant → Outcome Deleted
  unfolding lookup insert dq_restore_state
  delete_sanction user uid rows now = do
    u ← given user 401 "Authentication required"
    s ← given (lookup uid rows) 404 "Sanction not found"
    raise_if (is_some s.deleted_at) 400 "Sanction already deleted"
    raise_if (not (can_delete_sanction u s (tournament_of s))) 403
        "You don't have permission to delete this sanction"
    let saved = insert uid (deleted_row now s) rows
    returned (record { rows = saved; player_state = restored s (values saved) })
