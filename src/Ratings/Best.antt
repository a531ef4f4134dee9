-- ===== src/Ratings/Best.antt =====
-- The total is that of the best results, and it is reached.
use archon_vibe.Prelude.{ℕ, ◌≤◌, Bool, true, false, List, [], ◌∷◌, All}
use archon_vibe.Models.Users.{TournamentRatingEntry}

-- The entries that a mask marks.
unfoldable pub select : List Bool → List TournamentRatingEntry → List TournamentRatingEntry
select [] es = []
select (b ∷ bs) [] = []
select (true ∷ bs) (e ∷ es) = e ∷ select bs es
select (false ∷ bs) (e ∷ es) = select bs es

abbrev pub IsBelow : ℕ → List TournamentRatingEntry → Type 0
IsBelow b es = All (λ e. e.points ≤ b) es

abbrev pub IsDescending : List TournamentRatingEntry → Type 0
IsDescending [] = Unit
IsDescending (e ∷ es) = IsBelow e.points es × IsDescending es
