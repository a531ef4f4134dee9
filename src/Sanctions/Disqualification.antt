-- ===== src/Sanctions/Disqualification.antt =====
-- `_has_active_dq` and `_dq_restore_state` of
-- backend/src/routes/sanctions.py. The rows of a tournament's sanctions are those not deleted.
use archon_vibe.Prelude.{
  String, Bool, not, ◌&&◌, Option, none, some, List, [], ◌∷◌, ◌++◌, ◌==◌, string_eq, opt_beq,
  is_none, any, filter, if◌then◌else◌,
}
use archon_vibe.Models.SanctionKinds.{SanctionLevel, sanction_level_eq}
use archon_vibe.Models.TournamentKinds.{
  TournamentState, tournament_state_eq, PlayerState, TableState, table_state_eq,
}
use archon_vibe.Models.Tournaments.{Tournament, Table, Sanction}

-- `get_sanctions_for_tournament`
unfoldable pub sanctions_for_tournament : String → List Sanction → List Sanction
sanctions_for_tournament uid rows =
    filter (λ s. opt_beq s.tournament_uid (some uid) && is_none s.deleted_at) rows

abbrev pub is_active_dq : String → Sanction → Bool
is_active_dq user_uid s =
    s.user_uid == user_uid && (s.level == SanctionLevel.disqualification && is_none s.lifted_at)

unfoldable pub has_active_dq : String → String → List Sanction → Bool
unfolding sanctions_for_tournament
has_active_dq tournament_uid user_uid rows =
    any (is_active_dq user_uid) (sanctions_for_tournament tournament_uid rows)

abbrev pub is_live : Table → Bool
is_live t = not (t.state == TableState.finished) && not (t.state == TableState.cancelled)

abbrev pub live_rounds : List (List Table) → List Table
live_rounds [] = []
live_rounds (r ∷ rs) = filter is_live r ++ live_rounds rs

abbrev pub live_finals : Option Table → List Table
live_finals none = []
live_finals (some t) = if t.state == TableState.finished then [] else t ∷ []

abbrev pub sits_at : String → Table → Bool
sits_at user_uid t = any (λ s. s.player_uid == user_uid) t.seating

abbrev pub live_tables : Tournament → List Table
live_tables t = live_rounds t.rounds ++ live_finals t.finals

unfoldable pub dq_restore_state : String → String → Option Tournament → List Sanction → PlayerState
unfolding has_active_dq
dq_restore_state tournament_uid user_uid none rows =
    if has_active_dq tournament_uid user_uid rows
    then PlayerState.disqualified
    else PlayerState.finished
dq_restore_state tournament_uid user_uid (some t) rows =
    if has_active_dq tournament_uid user_uid rows
    then PlayerState.disqualified
    else if t.state == TournamentState.finished
    then PlayerState.finished
    else if any (sits_at user_uid) (live_tables t)
    then PlayerState.playing
    else PlayerState.checked_in
