-- ===== src/Live/Timer.antt =====
-- The timer routes of backend/src/routes/tournaments.py. A handler takes what the session and the
-- row lock give it, the instants that it reads off the clock, and ends with the tournament that it
-- saves and broadcasts.
use archon_vibe.Prelude.{
  ℕ, String, ◌+◌, true, false, not, Option, none, some, [], ◌==◌, string_eq, ltb,
}
use archon_vibe.Prelude.Int.{ℤ, pos, pos_part, sub_ℕ, leb_ℤ}
use archon_vibe.Prelude.Dict.{Dict, lookup, insert}
use archon_vibe.Prelude.Outcome.{Outcome, returned, raise_if, given, ◌>>=◌, ◌>>◌}
use archon_vibe.Models.TournamentKinds.{TournamentState, tournament_state_eq}
use archon_vibe.Models.Users.{Instant, User}
use archon_vibe.Models.Tournaments.{Float, Tournament, fresh_timer}
use archon_vibe.Permissions.Checks.{is_organizer}

unfoldable pub validate_timer_tournament : User → Option Tournament → Outcome Tournament
validate_timer_tournament user tournament = do
  t ← given tournament 404 "Tournament not found"
  raise_if (not (is_organizer user t)) 403 "Organizer access required"
  raise_if t.offline_mode 423 "Tournament is in offline mode"
  raise_if (not (t.state == TournamentState.playing)) 400 "Tournament is not playing"
  returned t

-- `_save_timer_tx`, up to the write of the row
abbrev pub save_timer : Instant → Tournament → Tournament
save_timer saved t = record t { modified = saved }

unfoldable pub timer_start :
    Option User → Option Tournament → Instant → Instant → Outcome Tournament
unfolding validate_timer_tournament
timer_start user tournament now saved = do
  u ← given user 401 "Authentication required"
  t ← validate_timer_tournament u tournament
  raise_if (not t.timer.paused) 400 "Timer is already running"
  returned (
      save_timer saved (record t {
        timer = record {
          started_at = some now;
          elapsed_before_pause = t.timer.elapsed_before_pause;
          paused = false;
        };
      }))

-- What Python does with floats: their sum, and the seconds of a number of microseconds,
-- `timedelta.total_seconds`.
pub record Floats : Type 0 where
  pub add : Float → Float → Float
  pub total_seconds : ℤ → Float

-- The seconds since the timer started: below zero if the clock was set back.
abbrev pub since : Floats → Option Instant → Instant → Float
since floats none now = 0
since floats (some started) now = floats.total_seconds (sub_ℕ now started)

unfoldable pub timer_pause :
    Floats → Option User → Option Tournament → Instant → Instant → Outcome Tournament
unfolding validate_timer_tournament
timer_pause floats user tournament now saved = do
  u ← given user 401 "Authentication required"
  t ← validate_timer_tournament u tournament
  raise_if t.timer.paused 400 "Timer is already paused"
  returned (
      save_timer saved (record t {
        timer = record {
          started_at = none;
          elapsed_before_pause =
              floats.add t.timer.elapsed_before_pause (since floats t.timer.started_at now);
          paused = true;
        };
      }))

unfoldable pub timer_reset : Option User → Option Tournament → Instant → Outcome Tournament
unfolding validate_timer_tournament
timer_reset user tournament saved = do
  u ← given user 401 "Authentication required"
  t ← validate_timer_tournament u tournament
  returned (save_timer saved (record t { timer = fresh_timer; table_extra_time = [] }))

pub record AddTimeRequest : Type 0 where
  pub table : String
  pub seconds : ℤ

abbrev pub max_extra_time : ℕ
max_extra_time = 1800

-- `tournament.table_extra_time.get(table, 0)`
abbrev pub extra_time : String → Dict String ℕ → ℕ
extra_time table d = elim (lookup table d) [ none ↦ 0 | some n ↦ n ]

unfoldable pub timer_add_time :
    Option User → Option Tournament → AddTimeRequest → Instant → Outcome Tournament
unfolding validate_timer_tournament lookup insert
timer_add_time user tournament request saved = do
  u ← given user 401 "Authentication required"
  t ← validate_timer_tournament u tournament
  raise_if (leb_ℤ request.seconds (pos 0)) 400 "Seconds must be positive"
  let total = extra_time request.table t.table_extra_time + pos_part request.seconds
  raise_if (ltb max_extra_time total) 400 "Max 1800s (30 min) extra time per table"
  returned (
      save_timer saved
        (record t { table_extra_time = insert request.table total t.table_extra_time }))
