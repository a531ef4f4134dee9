-- ===== src/Ratings/Rolled.antt =====
-- The loop that brings a month into its year ends, and counts months exactly.
use archon_vibe.Prelude.{
  ℕ, zero, suc, ◌+◌, ◌-◌, ◌*◌, ◌%◌, ◌≤◌, ◌<◌, ◌≡◌, ◌||◌, ◌==◌, nat_eq, leb, if◌then◌else◌, arith,
  Bool-cases, inl, inr,
}
use archon_vibe.Prelude.Int.{ℤ, pos, pos_part, neg_part, ◌+ℤ◌, ◌-ℤ◌, leb_ℤ, +ℤ_parts, -ℤ_parts}
use archon_vibe.Ratings.Window.{roll_years, days_in_month, cutoff, Date, rating_window_months}

-- From a month of at most twelve, counted over years that are not used up, the loop ends in a month
-- from one to twelve, and the months that it takes from the years are those that it adds.
pub roll_years_lem :
    (fuel y : ℕ) (m : ℤ)
    → neg_part m < pos_part m + 12 * fuel
    → neg_part m < pos_part m + 12 * y
    → pos_part m ≤ 12
    → (1 ≤ pos_part (roll_years fuel y m).1)
      × (pos_part (roll_years fuel y m).1 ≤ 12)
      × (12 * (roll_years fuel y m).0 + pos_part (roll_years fuel y m).1 + neg_part m
          ≡ 12 * y + pos_part m)
unfolding roll_years
roll_years_lem zero y m f e b = ground (arith, f, e, b)
roll_years_lem (suc fuel) y m f e b =
    let next = m +ℤ pos 12 in
    elim (Bool-cases (leb_ℤ m (pos 0))) [
      | inr k ↦ ground (arith, f, e, b, k)
      | inl k ↦
          (let ih =
              roll_years_lem fuel (y - 1) next (ground (arith, +ℤ_parts m (pos 12), k, f))
                (ground (arith, +ℤ_parts m (pos 12), k, e))
                (ground (arith, +ℤ_parts m (pos 12), k, e)) in
            ground (arith, k, ih.0, ih.1, ih.2, e, +ℤ_parts m (pos 12)))
    ]

-- The lengths of the months of the Gregorian calendar, by their rules.
abbrev pub month_length : ℕ → ℕ → ℕ
month_length y m =
    if m == 2
    then (if y % 400 == 0 then 29 else if y % 100 == 0 then 28 else if y % 4 == 0 then 29 else 28)
    else if m == 4 || (m == 6 || (m == 9 || m == 11))
    then 30
    else 31

days_in_month-month_length : (y m : ℕ) → 1 ≤ m → m ≤ 12 → days_in_month y m ≡ month_length y m
days_in_month-month_length y m l u = ground (arith, l, u)

-- The rating window starts exactly eighteen calendar months before a date: the loop over the months
-- ends, in a month from one to twelve, and the day is the date's own where that month has it, and
-- the last day of that month where it is shorter.
pub cutoff_lem :
    (d : Date)
    → 2 ≤ d.year
    → 1 ≤ d.month
    → d.month ≤ 12
    → (1 ≤ (cutoff d).month)
      × ((cutoff d).month ≤ 12)
      × (12 * (cutoff d).year + (cutoff d).month + 18 ≡ 12 * d.year + d.month)
      × ((cutoff d).day ≡ (
          if leb d.day (month_length (cutoff d).year (cutoff d).month)
          then d.day
          else month_length (cutoff d).year (cutoff d).month))
unfolding cutoff
cutoff_lem d y l u =
    let m = pos d.month -ℤ pos rating_window_months in
    let parts = -ℤ_parts (pos d.month) (pos rating_window_months) in
    let r =
      roll_years_lem (suc (neg_part m)) d.year m (ground arith) (ground (arith, parts, y))
        (ground (arith, parts, u)) in
    (
      r.0,
      r.1,
      ground (arith, r.2, parts),
      ground (
        arith,
        days_in_month-month_length (roll_years (suc (neg_part m)) d.year m).0
            (pos_part (roll_years (suc (neg_part m)) d.year m).1) r.0 r.1,
      ),
    )
