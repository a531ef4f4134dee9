-- ===== src/Ratings/Earned.antt =====
-- The loop over tournaments and players gives each player the entries of the tournaments that count.
use archon_vibe.Prelude.{
  String, ◌≡◌, refl, sym, ap, subst, ◌∙◌, Bool, true, false, not, ◌&&◌, ◌||◌, List, [], ◌∷◌, ◌++◌,
  arith, ◌==◌, string_eq, ==-iff, ==-refl, member, filter, if◌then◌else◌, Bool-cases, inl, inr,
}
use archon_vibe.Prelude.Dict.{lookup, insert, lookup-insert}
use archon_vibe.Models.Users.{TournamentRatingEntry}
use archon_vibe.Ratings.Results.{
  RatingEngine, Finished, Entries, entries_of, rate_players, rate_events, compute_entry,
  final_positions, is_disqualified, is_non_competing, players_with_rounds,
}

abbrev pub IsSetOf : List String → Type 0
IsSetOf [] = Unit
IsSetOf (x ∷ xs) = (member x xs ≡ false) × IsSetOf xs

abbrev pub entry_for : RatingEngine → Finished → String → TournamentRatingEntry
entry_for engine f uid =
    compute_entry engine f uid (engine.attested_player_count f.event)
      (final_positions engine f.event)

abbrev pub competes : Finished → String → Bool
competes f uid = not (is_disqualified f.event f.sanctions uid || is_non_competing f.event uid)

-- The tournament counts for the player.
abbrev pub counts : RatingEngine → Finished → String → Bool
counts engine f uid =
    engine.ranking_eligibility f.event == "eligible"
    && (member uid (players_with_rounds f.event) && competes f uid)

-- The entries of the tournaments that count for a player, in their order.
unfoldable pub earned : RatingEngine → List Finished → String → List TournamentRatingEntry
earned engine [] uid = []
earned engine (f ∷ fs) uid =
    if counts engine f uid
    then entry_for engine f uid ∷ earned engine fs uid
    else earned engine fs uid

entries_of-insert :
    (uid key : String) (es : List TournamentRatingEntry) (entries : Entries)
    → entries_of uid (insert key es entries) ≡ (if key == uid then es else entries_of uid entries)
entries_of-insert uid key es entries = ground (arith, lookup-insert uid key es entries)

rate_players-other :
    (engine : RatingEngine) (f : Finished) (uid : String) (uids : List String) (entries : Entries)
    → member uid uids ≡ false
    → entries_of uid (rate_players engine f uids entries) ≡ entries_of uid entries
unfolding rate_players
rate_players-other engine f uid [] entries h = refl
rate_players-other engine f uid (x ∷ xs) entries h =
    let es = entries_of x entries ++ entry_for engine f x ∷ [] in
    elim (Bool-cases (competes f x)) [
      | inl c ↦ ground (
        arith,
        h,
        c,
        ==-iff x uid,
        ==-iff uid x,
        rate_players-other engine f uid xs (insert x es entries),
        entries_of-insert uid x es entries,
      )
      | inr c ↦ ground (arith, h, c, rate_players-other engine f uid xs entries)
    ]

++-[] : (es : List TournamentRatingEntry) → es ++ [] ≡ es
++-[] [] = refl
++-[] (e ∷ es) = ap (λ x. e ∷ x) (++-[] es)

last_step :
    (es : List TournamentRatingEntry) (b : Bool) (x : TournamentRatingEntry)
    (rest : List TournamentRatingEntry)
    → (es ++ (if b then x ∷ [] else [])) ++ rest ≡ es ++ (if b then x ∷ rest else rest)
last_step [] true x rest = refl
last_step [] false x rest = refl
last_step (e ∷ es) b x rest = ap (λ t. e ∷ t) (last_step es b x rest)

first_player :
    (engine : RatingEngine) (f : Finished) (uid x : String) (xs : List String) (entries : Entries)
    → uid ≡ x
    → member x xs ≡ false
    → entries_of uid (rate_players engine f (x ∷ xs) entries) ≡ (
        if competes f uid
        then entries_of uid entries ++ entry_for engine f uid ∷ []
        else entries_of uid entries)
unfolding rate_players
first_player engine f uid x xs entries same s =
    subst
      (λ y. entries_of y (rate_players engine f (x ∷ xs) entries) ≡ (
        if competes f y
        then entries_of y entries ++ entry_for engine f y ∷ []
        else entries_of y entries))
      (sym same)
      (let es = entries_of x entries ++ entry_for engine f x ∷ [] in
        elim (Bool-cases (competes f x)) [
          | inl c ↦ ground (
            arith,
            s,
            c,
            ==-refl x,
            rate_players-other engine f x xs (insert x es entries),
            entries_of-insert x x es entries,
          )
          | inr c ↦ ground (arith, s, c, rate_players-other engine f x xs entries)
        ])

rate_players_lem :
    (engine : RatingEngine) (f : Finished) (uid : String) (uids : List String) (entries : Entries)
    → IsSetOf uids
    → member uid uids ≡ true
    → entries_of uid (rate_players engine f uids entries) ≡ (
        if competes f uid
        then entries_of uid entries ++ entry_for engine f uid ∷ []
        else entries_of uid entries)
unfolding rate_players
rate_players_lem engine f uid [] entries s h = ground (arith, h)
rate_players_lem engine f uid (x ∷ xs) entries s h = elim (Bool-cases (uid == x)) [
  | inl e ↦ first_player engine f uid x xs entries ((==-iff uid x).0 e) s.0
  | inr e ↦
      (let es = entries_of x entries ++ entry_for engine f x ∷ [] in
        elim (Bool-cases (competes f x)) [
          | inl c ↦ ground (
            arith,
            h,
            e,
            c,
            s,
            ==-iff x uid,
            ==-iff uid x,
            rate_players_lem engine f uid xs (insert x es entries) s.1,
            entries_of-insert uid x es entries,
          )
          | inr c ↦ ground (arith, h, e, c, s, rate_players_lem engine f uid xs entries s.1)
        ])
]

member-kept :
    (uid : String) (played uids : List String)
    → member uid (filter (λ x. member x played) uids) ≡ (member uid uids && member uid played)
member-kept uid played [] = ground arith
member-kept uid played (x ∷ xs) = elim (Bool-cases (uid == x)) [
  | inl e ↦
      subst
        (λ y.
          member uid (filter (λ z. member z played) (y ∷ xs))
          ≡ (member uid (y ∷ xs) && member uid played))
        ((==-iff uid x).0 e) (ground (arith, member-kept uid played xs, ==-refl uid))
  | inr e ↦ ground (arith, e, member-kept uid played xs)
]

kept-IsSetOf :
    (played uids : List String) → IsSetOf uids → IsSetOf (filter (λ x. member x played) uids)
kept-IsSetOf played [] s = tt
kept-IsSetOf played (x ∷ xs) s =
    ground (arith, s, member-kept x played xs, kept-IsSetOf played xs s.1)

one_event :
    (engine : RatingEngine) (f : Finished) (uid : String) (uids : List String) (entries : Entries)
    → IsSetOf uids
    → member uid uids ≡ true
    → entries_of uid (
        if engine.ranking_eligibility f.event == "eligible"
        then rate_players engine f
            (filter (λ uid. member uid (players_with_rounds f.event)) uids)
            entries
        else entries)
      ≡ entries_of uid entries ++ (if counts engine f uid then entry_for engine f uid ∷ [] else [])
one_event engine f uid uids entries s h =
    let played = players_with_rounds f.event in
    let kept = filter (λ x. member x played) uids in
    elim (Bool-cases (member uid played)) [
      | inl p ↦ ground (
        arith,
        p,
        h,
        ++-[] (entries_of uid entries),
        rate_players_lem engine f uid kept entries (kept-IsSetOf played uids s)
            (member-kept uid played uids ∙ ground (arith, p, h)),
      )
      | inr p ↦ ground (
        arith,
        p,
        h,
        ++-[] (entries_of uid entries),
        rate_players-other engine f uid kept entries
            (member-kept uid played uids ∙ ground (arith, p, h)),
      )
    ]

rate_events_from :
    (engine : RatingEngine) (fs : List Finished) (uid : String) (uids : List String)
    (entries : Entries)
    → IsSetOf uids
    → member uid uids ≡ true
    → entries_of uid (rate_events engine fs uids entries)
      ≡ entries_of uid entries ++ earned engine fs uid
unfolding rate_events earned
rate_events_from engine [] uid uids entries s h = sym (++-[] (entries_of uid entries))
rate_events_from engine (f ∷ fs) uid uids entries s h =
    rate_events_from engine fs uid uids _ s h
    ∙ ap (λ es. es ++ earned engine fs uid) (one_event engine f uid uids entries s h)
    ∙ last_step (entries_of uid entries) (counts engine f uid) (entry_for engine f uid)
        (earned engine fs uid)

-- A recomputation gives each player asked for the entries of exactly the tournaments that count: those
-- that the engine finds eligible, in which the player played and was neither disqualified nor a
-- stand-in, one entry each and in the order in which they were read.
pub rate_events-earned :
    (engine : RatingEngine) (fs : List Finished) (uid : String) (uids : List String)
    → IsSetOf uids
    → member uid uids ≡ true
    → entries_of uid (rate_events engine fs uids []) ≡ earned engine fs uid
unfolding lookup
rate_events-earned engine fs uid uids s h = rate_events_from engine fs uid uids [] s h
