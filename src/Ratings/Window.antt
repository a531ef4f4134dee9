-- ===== src/Ratings/Window.antt =====
-- The start of the rating window in `recompute_ratings_for_players` of backend/src/ratings.py: whole
-- calendar months before a date, on the last day of a month that is too short.
use archon_vibe.Prelude.{
  ℕ, zero, suc, ◌-◌, ◌%◌, Bool, not, ◌&&◌, ◌||◌, ◌==◌, nat_eq, leb, [], ◌∷◌, member, if◌then◌else◌,
}
use archon_vibe.Prelude.Int.{ℤ, pos, pos_part, neg_part, ◌+ℤ◌, ◌-ℤ◌, leb_ℤ}

abbrev pub rating_window_months : ℕ
rating_window_months = 18

-- `while m <= 0: y -= 1; m += 12`
unfoldable pub roll_years : ℕ → ℕ → ℤ → ℕ × ℤ
roll_years zero y m = (y, m)
roll_years (suc fuel) y m =
    let rest = roll_years fuel (y - 1) (m +ℤ pos 12) in if leb_ℤ m (pos 0) then rest else (y, m)

abbrev is_leap : ℕ → Bool
is_leap y = (y % 4 == 0) && (not (y % 100 == 0) || y % 400 == 0)

-- `calendar.monthrange(y, m)[1]`
abbrev pub days_in_month : ℕ → ℕ → ℕ
days_in_month y m =
    if m == 2
    then (if is_leap y then 29 else 28)
    else if member m (4 ∷ 6 ∷ 9 ∷ 11 ∷ [])
    then 30
    else 31

pub record Date : Type 0 where
  pub year : ℕ
  pub month : ℕ
  pub day : ℕ

abbrev pub date_in : ℕ → ℕ × ℤ → Date
date_in day (y, m) = record {
  year = y;
  month = pos_part m;
  day = if leb day (days_in_month y (pos_part m)) then day else days_in_month y (pos_part m);
}

-- The loop runs at most once for each twelve months below one.
unfoldable pub cutoff : Date → Date
cutoff d =
    let m = pos d.month -ℤ pos rating_window_months in
    date_in d.day (roll_years (suc (neg_part m)) d.year m)
