-- ===== src/Sanctions/Active.antt =====
-- Counting the active disqualifications of a player from a tournament.
use archon_vibe.Prelude.{
  ℕ, String, ◌≡◌, ◌≤◌, ◌+◌, refl, sym, ap, ◌∙◌, arith, Bool, true, false, ◌&&◌, Option, none, some,
  [], ◌∷◌, ◌==◌, string_eq, ==-iff, opt_beq, is_none, if◌then◌else◌, Bool-cases, opt_beq-holds, inl,
  inr,
}
use archon_vibe.Prelude.Dict.{Dict, lookup, insert, values}
use archon_vibe.Models.SanctionKinds.{SanctionLevel, sanction_level_eq}
use archon_vibe.Models.Tournaments.{Sanction}
use archon_vibe.Sanctions.Disqualification.{is_active_dq, has_active_dq, sanctions_for_tournament}
use archon_vibe.Sanctions.Create.{disqualified_from}

-- The sanction is an active disqualification of the player from the tournament.
abbrev pub disqualifies : String → String → Sanction → Bool
disqualifies tournament_uid user_uid s =
    (opt_beq s.tournament_uid (some tournament_uid) && is_none s.deleted_at)
    && is_active_dq user_uid s

abbrev one_if : Bool → ℕ
one_if b = if b then 1 else 0

abbrev count : (Sanction → Bool) → Dict String Sanction → ℕ
count p [] = 0
count p ((k, s) ∷ rows) = one_if (p s) + count p rows

abbrev was : (Sanction → Bool) → Option Sanction → Bool
was p none = false
was p (some s) = p s

count-insert :
    (p : Sanction → Bool) (k : String) (s : Sanction) (rows : Dict String Sanction)
    → count p (insert k s rows) + one_if (was p (lookup k rows)) ≡ count p rows + one_if (p s)
unfolding insert lookup
count-insert p k s [] = ground arith
count-insert p k s ((j, x) ∷ rows) = elim (Bool-cases (j == k)) [
  | inl e ↦ ground (arith, e)
  | inr e ↦ ground (arith, e, count-insert p k s rows)
]

none_active :
    (t u : String) (rows : Dict String Sanction)
    → has_active_dq t u (values rows) ≡ false
    → count (disqualifies t u) rows ≡ 0
unfolding has_active_dq sanctions_for_tournament
none_active t u [] h = refl
none_active t u ((k, s) ∷ rows) h =
    elim (Bool-cases (opt_beq s.tournament_uid (some t) && is_none s.deleted_at)) [
      | inl e ↦ ground (arith, e, h, none_active t u rows)
      | inr e ↦ ground (arith, e, h, none_active t u rows)
    ]

-- At most one of the sanctions disqualifies the player from the tournament.
abbrev pub IsSole : String → String → Dict String Sanction → Type 0
IsSole t u rows = count (disqualifies t u) rows ≤ 1

-- A row that may disqualify only where none did keeps the count.
pub insert-IsSole :
    (t u uid : String) (s : Sanction) (rows : Dict String Sanction)
    → IsSole t u rows
    → (disqualifies t u s ≡ true → count (disqualifies t u) rows ≡ 0)
    → IsSole t u (insert uid s rows)
insert-IsSole t u uid s rows sole fresh = elim (Bool-cases (disqualifies t u s)) [
  | inl e ↦
      (let zero_before = fresh e in
        ground (arith, e, zero_before, count-insert (disqualifies t u) uid s rows))
  | inr e ↦ ground (arith, e, sole, count-insert (disqualifies t u) uid s rows)
]

-- What a sanction that disqualifies a player says of its tournament and player.
pub disqualifies-parts :
    (t u : String) (s : Sanction)
    → disqualifies t u s ≡ true
    → (s.tournament_uid ≡ some t)
      × (s.user_uid ≡ u)
      × (s.level == SanctionLevel.disqualification ≡ true)
      × (is_none s.lifted_at ≡ true)
      × (is_none s.deleted_at ≡ true)
disqualifies-parts t u s h = (
  opt_beq-holds s.tournament_uid (some t) (ground (arith, h)),
  (==-iff s.user_uid u).0 (ground (arith, h)),
  ground (arith, h),
  ground (arith, h),
  ground (arith, h),
)

pub from_named :
    (t u : String) (tournament_uid : Option String) (user_uid : String)
    (rows : Dict String Sanction)
    → tournament_uid ≡ some t
    → user_uid ≡ u
    → disqualified_from tournament_uid user_uid (values rows) ≡ false
    → count (disqualifies t u) rows ≡ 0
from_named t u tournament_uid user_uid rows e k h =
    none_active t u rows (sym (λ i. disqualified_from (e i) (k i) (values rows)) ∙ h)

pub replaced :
    (t p uid : String) (s updated : Sanction) (rows : Dict String Sanction)
    → lookup uid rows ≡ some s
    → IsSole t p rows
    → disqualifies t p s ≡ true
    → IsSole t p (insert uid updated rows)
replaced t p uid s updated rows found sole d =
    let known : was (disqualifies t p) (lookup uid rows) ≡ true =
      ap (was (disqualifies t p)) found ∙ d in
    elim (Bool-cases (disqualifies t p updated)) [
      | inl e ↦ ground (arith, known, e, sole, count-insert (disqualifies t p) uid updated rows)
      | inr e ↦ ground (arith, known, e, sole, count-insert (disqualifies t p) uid updated rows)
    ]
