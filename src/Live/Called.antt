-- ===== src/Live/Called.antt =====
-- When a player's call for a judge goes out.
use archon_vibe.Prelude.{
  ℕ, zero, suc, ◌≡◌, ◌<◌, true, false, some, List, [], ◌∷◌, string_eq, length, arith, Option-cases,
  inl, inr, ==-iff,
}
use archon_vibe.Prelude.Int.{ℤ, pos, pos_part}
use archon_vibe.Prelude.Outcome.{returned}
use archon_vibe.Models.TournamentKinds.{TournamentState, tournament_state_eq}
use archon_vibe.Models.Users.{User}
use archon_vibe.Models.Tournaments.{Tournament, Table}
use archon_vibe.Live.JudgeCall.{JudgeCall, call_judge, last_round, get_elem?, is_seated}

get_elem?-lt {ℓ} :
    {A : Type ℓ} (xs : List A) (n : ℕ) (x : A) → get_elem? xs n ≡ some x → n < length xs
get_elem?-lt [] n x h = ground arith
get_elem?-lt (y ∷ ys) zero x h = ground arith
get_elem?-lt (y ∷ ys) (suc n) x h = ground (arith, get_elem?-lt ys n x h)

-- A call goes out if the tournament is being played, online, and the caller sits at the table of
-- that index in the round that runs; it names the tournament, the table, the caller and all the
-- organizers.
pub call_judge-goes_out :
    (u : User) (t : Tournament) (n : ℕ) (round : List Table) (table : Table)
    → t.state ≡ TournamentState.playing
    → t.offline_mode ≡ false
    → last_round t.rounds ≡ some round
    → get_elem? round n ≡ some table
    → is_seated u table ≡ true
    → call_judge (some u) (some t) (pos n)
      ≡ returned (record {
        tournament_uid = t.uid;
        table = n;
        player_name = u.name;
        organizer_uids = t.organizers_uids;
      })
unfolding call_judge
call_judge-goes_out u t n round table h1 h2 h3 h4 h5 =
    ground (arith, ==-iff t.state TournamentState.playing, get_elem?-lt round n table h4)

-- And only then: a call that goes out comes from a player seated at that table in the last round
-- of a tournament that is being played and is not offline.
pub call_judge-IsSeated :
    (u : User) (t : Tournament) (i : ℤ) (c : JudgeCall)
    → call_judge (some u) (some t) i ≡ returned c
    → (t.state ≡ TournamentState.playing)
      × (t.offline_mode ≡ false)
      × (c.tournament_uid ≡ t.uid)
      × (c.organizer_uids ≡ t.organizers_uids)
      × (pos c.table ≡ i)
      × ((round : List Table) × (last_round t.rounds ≡ some round)
          × ((table : Table) × (get_elem? round c.table ≡ some table) × (is_seated u table ≡ true)))
unfolding call_judge
call_judge-IsSeated u t i c h = elim (Option-cases (last_round t.rounds)) [
  | inl e ↦ ground (arith, e)
  | inr (round, e) ↦ elim (Option-cases (get_elem? round (pos_part i))) [
    | inl f ↦ ground (arith, e, f)
    | inr (table, f) ↦ (
      ground (arith, e, f, ==-iff t.state TournamentState.playing),
      ground (arith, e, f),
      ground (arith, e, f),
      ground (arith, e, f),
      ground (arith, e, f),
      (round, e, (table, ground (arith, e, f), ground (arith, e, f))),
    )
  ]
]
