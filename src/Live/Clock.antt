-- ===== src/Live/Clock.antt =====
-- The round clock measures the time that it ran, whatever the pauses.
use archon_vibe.Prelude.{◌≡◌, true, false, none, some, List, [], ◌∷◌}
use archon_vibe.Prelude.Int.{sub_ℕ}
use archon_vibe.Prelude.Outcome.{Outcome, returned, ◌>>=◌}
use archon_vibe.Models.TournamentKinds.{TournamentState, tournament_state_eq}
use archon_vibe.Models.Users.{Instant, User}
use archon_vibe.Models.Tournaments.{Float, Tournament}
use archon_vibe.Permissions.Checks.{is_organizer}
use archon_vibe.Live.Timer.{Floats, timer_start, timer_pause}

-- A stretch of play: the instants at which the clock was started and paused, and those of the two
-- writes.
pub record Stretch : Type 0 where
  pub started : Instant
  pub paused : Instant
  pub start_saved : Instant
  pub pause_saved : Instant

-- An organizer starts and pauses the clock for each stretch in turn.
unfoldable pub run_clock : Floats → User → Tournament → List Stretch → Outcome Tournament
unfolding timer_start timer_pause
run_clock floats u t [] = returned t
run_clock floats u t (s ∷ rest) = do
  running ← timer_start (some u) (some t) s.started s.start_saved
  stopped ← timer_pause floats (some u) (some running) s.paused s.pause_saved
  run_clock floats u stopped rest

-- The seconds of the stretches, added in turn to what was there before.
abbrev pub add_played : Floats → Float → List Stretch → Float
add_played floats before [] = before
add_played floats before (s ∷ rest) =
    add_played floats (floats.add before (floats.total_seconds (sub_ℕ s.paused s.started))) rest

-- A tournament whose clock an organizer may start.
pub record IsPlayable (u : User) (t : Tournament) : Type 0 where
  pub organizer : is_organizer u t ≡ true
  pub online : t.offline_mode ≡ false
  pub playing : t.state ≡ TournamentState.playing

abbrev pub stopped_at : Floats → Tournament → Stretch → Tournament
stopped_at floats t s = record t {
  timer = record {
    started_at = none;
    elapsed_before_pause =
        floats.add t.timer.elapsed_before_pause (floats.total_seconds (sub_ℕ s.paused s.started));
    paused = true;
  };
  modified = s.pause_saved;
}
