-- ===== src/Live/JudgeCall.antt =====
-- `call_judge` of backend/src/routes/tournaments.py, up to the frame that it sends: the table's
-- label comes from the engine.
use archon_vibe.Prelude.{
  ℕ, zero, suc, String, Bool, not, ◌||◌, Option, none, some, List, [], ◌∷◌, ◌==◌, string_eq, length,
  any, nat_eq,
}
use archon_vibe.Prelude.Int.{ℤ, pos, pos_part, ltb_ℤ, leb_ℤ}
use archon_vibe.Prelude.Outcome.{Outcome, returned, raise_if, given, ◌>>=◌, ◌>>◌}
use archon_vibe.Models.TournamentKinds.{TournamentState, tournament_state_eq}
use archon_vibe.Models.Users.{User}
use archon_vibe.Models.Tournaments.{Tournament, Table}

-- `rounds[-1]`, for the rounds that there are
abbrev pub last_round : List (List Table) → Option (List Table)
last_round [] = none
last_round (r ∷ []) = some r
last_round (r ∷ s ∷ rest) = last_round (s ∷ rest)

abbrev pub get_elem? {ℓ} : {A : Type ℓ} → List A → ℕ → Option A
get_elem? [] n = none
get_elem? (x ∷ xs) zero = some x
get_elem? (x ∷ xs) (suc n) = get_elem? xs n

abbrev pub is_seated : User → Table → Bool
is_seated user table = any (λ s. s.player_uid == user.uid) table.seating

-- What the call tells the organizers: the tournament, the table, the player.
pub record JudgeCall : Type 0 where
  pub tournament_uid : String
  pub table : ℕ
  pub player_name : String
  pub organizer_uids : List String

unfoldable pub call_judge : Option User → Option Tournament → ℤ → Outcome JudgeCall
call_judge user tournament table = do
  u ← given user 401 "Authentication required"
  t ← given tournament 404 "Tournament not found"
  raise_if (not (t.state == TournamentState.playing)) 400 "Tournament is not playing"
  raise_if t.offline_mode 423 "Tournament is in offline mode"
  current_round ← given (last_round t.rounds) 400 "No active round"
  raise_if (ltb_ℤ table (pos 0) || leb_ℤ (pos (length current_round)) table) 400
      "Invalid table index"
  called ← given (get_elem? current_round (pos_part table)) 400 "Invalid table index"
  raise_if (not (is_seated u called)) 403 "You are not seated at this table"
  returned (record {
    tournament_uid = t.uid;
    table = pos_part table;
    player_name = u.name;
    organizer_uids = t.organizers_uids;
  })
