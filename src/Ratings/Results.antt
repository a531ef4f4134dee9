-- ===== src/Ratings/Results.antt =====
-- Which results of which tournaments a rating counts: backend/src/ratings.py. What the engine says of a
-- tournament is a parameter; victory points are counted in halves.
use archon_vibe.Prelude.{
  ℕ, String, Bool, not, ◌&&◌, ◌||◌, Option, none, some, List, [], ◌∷◌, ◌++◌, ◌==◌, string_eq,
  nat_eq, opt_beq, any, member, filter, nonempty_text, is_none, if◌then◌else◌,
}
use archon_vibe.Prelude.Dict.{Dict, lookup, insert}
use archon_vibe.Models.SanctionKinds.{SanctionLevel, sanction_level_eq}
use archon_vibe.Models.TournamentKinds.{PlayerState, player_state_eq}
use archon_vibe.Models.Users.{TournamentRatingEntry}
use archon_vibe.Models.Tournaments.{Tournament, Table, Seat, Standing, Sanction}

-- A row of the engine's final placement sheet.
pub record FinalRow : Type 0 where
  pub user_uid : String
  pub rank : ℕ
  pub finalist_position : ℕ
  pub disqualified : Bool
  pub non_competing : Bool
  pub no_show : Bool

pub record RatingEngine : Type 0 where
  pub compute_final_standings : Tournament → List FinalRow
  pub compute_rating_vp_gw : Tournament → List Sanction → String → ℕ × ℕ
  pub compute_rating_points : ℕ → ℕ → ℕ → ℕ → String → ℕ
  pub attested_player_count : Tournament → ℕ
  pub ranking_eligibility : Tournament → String

-- A finished tournament, with what an entry says of it besides, and its sanctions.
pub record Finished : Type 0 where
  pub event : Tournament
  pub name : String
  pub date : String
  pub rank : String
  pub sanctions : List Sanction

abbrev seated_at : List Seat → List String
seated_at [] = []
seated_at (s ∷ ss) =
    let rest = seated_at ss in if nonempty_text s.player_uid then s.player_uid ∷ rest else rest

abbrev seated_in : List Table → List String
seated_in [] = []
seated_in (t ∷ ts) = seated_at t.seating ++ seated_in ts

abbrev seated_rounds : List (List Table) → List String
seated_rounds [] = []
seated_rounds (r ∷ rs) = seated_in r ++ seated_rounds rs

abbrev seated_final : Option Table → List String
seated_final none = []
seated_final (some t) = seated_at t.seating

abbrev scored : List Standing → List String
scored [] = []
scored (s ∷ ss) =
    let rest = scored ss in
    if not (s.gw == 0) || (not (s.vp == 0) || not (s.tp == 0)) then s.user_uid ∷ rest else rest

-- The set as a list.
unfoldable pub players_with_rounds : Tournament → List String
players_with_rounds t = elim t.rounds [
  | [] ↦ scored t.standings
  | r ∷ rs ↦ seated_rounds (r ∷ rs) ++ seated_final t.finals
]

unfoldable pub placed : List FinalRow → Dict String (ℕ × ℕ) → Dict String (ℕ × ℕ)
placed [] positions = positions
placed (s ∷ ss) positions = placed ss (
    if s.disqualified || (s.non_competing || s.no_show)
    then positions
    else insert s.user_uid (s.rank, s.finalist_position) positions)

abbrev pub final_positions : RatingEngine → Tournament → Dict String (ℕ × ℕ)
final_positions engine t = placed (engine.compute_final_standings t) []

abbrev pub is_disqualified : Tournament → List Sanction → String → Bool
is_disqualified t sanctions uid =
    any (λ p. opt_beq p.user_uid (some uid) && p.state == PlayerState.disqualified) t.players
    || any
        (λ s.
          s.user_uid == uid
          && (s.level == SanctionLevel.disqualification
              && (is_none s.lifted_at && is_none s.deleted_at)))
        sanctions

abbrev pub is_non_competing : Tournament → String → Bool
is_non_competing t uid = any (λ p. opt_beq p.user_uid (some uid) && p.non_competing) t.players

abbrev position_of : Option (ℕ × ℕ) → ℕ × ℕ
position_of none = (0, 0)
position_of (some p) = p

unfoldable pub compute_entry :
    RatingEngine → Finished → String → ℕ → Dict String (ℕ × ℕ) → TournamentRatingEntry
compute_entry engine f uid count positions =
    let (vp, gw) = engine.compute_rating_vp_gw f.event f.sanctions uid in
    let (position, finalist) = position_of (lookup uid positions) in
    record {
      tournament_uid = f.event.uid;
      tournament_name = f.name;
      date = f.date;
      player_count = count;
      rank = f.rank;
      vp = vp;
      gw = gw;
      finalist_position = finalist;
      points = engine.compute_rating_points vp gw finalist count f.rank;
      position = position;
    }

-- The entries of each player so far.
abbrev pub Entries : Type 0
Entries = Dict String (List TournamentRatingEntry)

abbrev pub entries_of : String → Entries → List TournamentRatingEntry
entries_of uid entries = elim (lookup uid entries) [ none ↦ [] | some es ↦ es ]

-- The loop over the players of one tournament.
unfoldable pub rate_players : RatingEngine → Finished → List String → Entries → Entries
rate_players engine f [] entries = entries
rate_players engine f (uid ∷ uids) entries = rate_players engine f uids (
    if is_disqualified f.event f.sanctions uid || is_non_competing f.event uid
    then entries
    else insert uid
        (entries_of uid entries
          ++ compute_entry engine f uid (engine.attested_player_count f.event)
              (final_positions engine f.event)
            ∷ [])
        entries)

-- The loop over the tournaments; the players asked for are a set, as a list without repetitions.
unfoldable pub rate_events : RatingEngine → List Finished → List String → Entries → Entries
rate_events engine [] uids entries = entries
rate_events engine (f ∷ fs) uids entries = rate_events engine fs uids (
    if engine.ranking_eligibility f.event == "eligible"
    then rate_players engine f (filter (λ uid. member uid (players_with_rounds f.event)) uids)
        entries
    else entries)
