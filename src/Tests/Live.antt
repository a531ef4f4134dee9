-- ===== src/Tests/Live.antt =====
-- A round of the cup: the clock, extra time, an announcement and a call for a judge.
use archon_vibe.Prelude.{◌≡◌, refl, true, false, some, List, [], ◌∷◌, ◌+◌}
use archon_vibe.Prelude.Int.{pos, pos_part}
use archon_vibe.Prelude.Outcome.{returned}
use archon_vibe.Models.Tournaments.{Tournament}
use archon_vibe.Permissions.Checks.{is_organizer}
use archon_vibe.Permissions.Authority.{is_organizer_lem}
use archon_vibe.Live.Timer.{Floats, timer_start, AddTimeRequest, validate_timer_tournament}
use archon_vibe.Live.JudgeCall.{call_judge, JudgeCall}
use archon_vibe.Live.Steps.{Step, IsSamePlay, Step-IsSamePlay}
use archon_vibe.Live.Clock.{Stretch}
use archon_vibe.Tests.Data.{alice, bob, cup}

alice_organizes : is_organizer alice cup ≡ true
alice_organizes = is_organizer_lem alice cup

abbrev running_cup : Tournament
running_cup = record cup {
  timer = record { started_at = some 100; elapsed_before_pause = 0; paused = false };
  modified = 101;
}

abbrev ten_minutes : AddTimeRequest
ten_minutes = record { table = "0"; seconds = pos 600 }

abbrev extended_cup : Tournament
extended_cup = record running_cup { table_extra_time = ("0", 1200) ∷ []; modified = 102 }

cup_starts : timer_start (some alice) (some cup) 100 101 ≡ returned running_cup
unfolding timer_start validate_timer_tournament
cup_starts = rw alice_organizes refl

-- Whole numbers in place of floats, for the tests.
abbrev whole_numbers : Floats
whole_numbers = record { add = λ a b. a + b; total_seconds = pos_part }

Step-IsSamePlay_example :
    (is_organizer alice cup ≡ true) × (cup.offline_mode ≡ false) × IsSamePlay cup running_cup
Step-IsSamePlay_example = Step-IsSamePlay {floats = whole_numbers} (Step.starts 100 101 cup_starts)

abbrev stretches : List Stretch
stretches =
    record { started = 100; paused = 400; start_saved = 101; pause_saved = 401 }
    ∷ record { started = 500; paused = 900; start_saved = 501; pause_saved = 901 }
    ∷ []

abbrev bobs_call : JudgeCall
bobs_call = record {
  tournament_uid = "cup";
  table = 0;
  player_name = "bob";
  organizer_uids = "alice" ∷ [];
}

call_judge_answers : call_judge (some bob) (some cup) (pos 0) ≡ returned bobs_call
unfolding call_judge
call_judge_answers = refl
