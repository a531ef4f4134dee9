-- ===== src/Ratings/Total.antt =====
-- The rating of a player from the entries: `recompute_ratings_for_players` of backend/src/ratings.py.
use archon_vibe.Prelude.{
  ℕ, ◌+◌, Bool, true, false, ◌&&◌, ◌||◌, Option, none, some, List, [], ◌∷◌, ◌==◌, nat_eq, string_eq,
  ltb, text_ltb, take, if◌then◌else◌,
}
use archon_vibe.Models.Users.{TournamentRatingEntry, CategoryRating}

abbrev pub top_n : ℕ
top_n = 8

-- `key(a) < key(b)` for the key (-points, tournament uid)
abbrev pub before : TournamentRatingEntry → TournamentRatingEntry → Bool
before a b =
    ltb b.points a.points || (b.points == a.points && text_ltb a.tournament_uid b.tournament_uid)

-- An entry goes before those that it does not come after.
unfoldable pub insert_entry :
    TournamentRatingEntry → List TournamentRatingEntry → List TournamentRatingEntry
insert_entry x [] = x ∷ []
insert_entry x (y ∷ ys) =
    let rest = insert_entry x ys in if before y x then y ∷ rest else x ∷ y ∷ ys

-- `entries.sort(key=...)`, which keeps the order of entries with equal keys
unfoldable pub sort_entries : List TournamentRatingEntry → List TournamentRatingEntry
sort_entries [] = []
sort_entries (x ∷ xs) = insert_entry x (sort_entries xs)

abbrev pub sum_points : List TournamentRatingEntry → ℕ
sum_points [] = 0
sum_points (e ∷ es) = e.points + sum_points es

unfoldable pub category_rating : List TournamentRatingEntry → CategoryRating
category_rating entries = record {
  total = sum_points (take top_n (sort_entries entries));
  tournaments = sort_entries entries;
}

-- `a == b` on entries, field by field
abbrev pub same_entry : TournamentRatingEntry → TournamentRatingEntry → Bool
same_entry a b =
    a.tournament_uid == b.tournament_uid
    && (a.tournament_name == b.tournament_name
        && (a.date == b.date
            && (a.player_count == b.player_count
                && (a.rank == b.rank
                    && (a.vp == b.vp
                        && (a.gw == b.gw
                            && (a.finalist_position == b.finalist_position
                                && (a.points == b.points && a.position == b.position))))))))

unfoldable pub same_entries : List TournamentRatingEntry → List TournamentRatingEntry → Bool
same_entries [] [] = true
same_entries [] (b ∷ bs) = false
same_entries (a ∷ es) [] = false
same_entries (a ∷ es) (b ∷ bs) = same_entry a b && same_entries es bs

abbrev pub same_rating : CategoryRating → Option CategoryRating → Bool
same_rating r none = false
same_rating r (some old) = r.total == old.total && same_entries r.tournaments old.tournaments

-- The rating that is saved for a member, unless it is the one there already.
unfoldable pub rating_change :
    Option CategoryRating → List TournamentRatingEntry → Option CategoryRating
rating_change old entries =
    if same_rating (category_rating entries) old then none else some (category_rating entries)
