-- ===== src/Tests/Ratings.antt =====
-- A rating window over the end of a short month, and a player of one rated tournament.
use archon_vibe.Prelude.{
  ℕ, String, ◌≡◌, ◌≤◌, ◌+◌, ◌*◌, leb, if◌then◌else◌, refl, List, [], ◌∷◌, Bool, true, false, arith,
}
use archon_vibe.Prelude.Int.{◌+ℤ◌, ◌-ℤ◌}
use archon_vibe.Prelude.Dict.{lookup, insert}
use archon_vibe.Models.Users.{TournamentRatingEntry}
use archon_vibe.Ratings.Window.{Date, cutoff, roll_years}
use archon_vibe.Ratings.Results.{
  RatingEngine, Finished, FinalRow, entries_of, rate_events, rate_players, compute_entry,
  players_with_rounds, placed,
}
use archon_vibe.Ratings.Total.{sum_points}
use archon_vibe.Ratings.Rolled.{month_length, cutoff_lem}
use archon_vibe.Ratings.Earned.{earned, rate_events-earned}
use archon_vibe.Tests.Data.{cup}

abbrev last_of_august : Date
last_of_august = record { year = 2026; month = 8; day = 31 }

window : cutoff last_of_august ≡ record { year = 2025; month = 2; day = 28 }
unfolding cutoff roll_years ◌+ℤ◌ ◌-ℤ◌
window = refl

cutoff_lem_example :
    (1 ≤ (cutoff last_of_august).month)
    × ((cutoff last_of_august).month ≤ 12)
    × (12 * (cutoff last_of_august).year + (cutoff last_of_august).month + 18 ≡ 12 * 2026 + 8)
    × ((cutoff last_of_august).day ≡ (
        if leb 31 (month_length (cutoff last_of_august).year (cutoff last_of_august).month)
        then 31
        else month_length (cutoff last_of_august).year (cutoff last_of_august).month))
cutoff_lem_example = cutoff_lem last_of_august (ground arith) (ground arith) (ground arith)

abbrev row : String → ℕ → FinalRow
row uid rank = record {
  user_uid = uid;
  rank = rank;
  finalist_position = rank;
  disqualified = false;
  non_competing = false;
  no_show = false;
}

-- Twelve points for a win and four otherwise, for the tests.
abbrev simple : RatingEngine
simple = record {
  compute_final_standings = λ t. row "bob" 1 ∷ [];
  compute_rating_vp_gw = λ t sanctions uid. (4, 1);
  compute_rating_points = λ vp gw finalist count rank. vp + 8 * gw;
  attested_player_count = λ t. 10;
  ranking_eligibility = λ t. "eligible";
}

abbrev finished_cup : Finished
finished_cup = record { event = cup; name = "Cup"; date = "2026-05-01"; rank = ""; sanctions = [] }

rate_events-earned_example :
    entries_of "bob" (rate_events simple (finished_cup ∷ []) ("bob" ∷ "eve" ∷ []) [])
    ≡ earned simple (finished_cup ∷ []) "bob"
rate_events-earned_example =
    rate_events-earned simple (finished_cup ∷ []) "bob" ("bob" ∷ "eve" ∷ []) (refl, (refl, tt)) refl

bob_earns :
    sum_points (entries_of "bob" (rate_events simple (finished_cup ∷ []) ("bob" ∷ "eve" ∷ []) []))
    ≡ 12
unfolding rate_events rate_players compute_entry players_with_rounds placed lookup insert
bob_earns = refl

abbrev result : String → ℕ → TournamentRatingEntry
result uid points = record {
  tournament_uid = uid;
  tournament_name = uid;
  date = "2026-05-01";
  player_count = 10;
  rank = "";
  vp = 0;
  gw = 0;
  finalist_position = 0;
  points = points;
  position = 0;
}

abbrev results : List TournamentRatingEntry
results = result "a" 5 ∷ result "b" 20 ∷ result "c" 5 ∷ []

abbrev first_and_last : List Bool
first_and_last = true ∷ false ∷ true ∷ []
