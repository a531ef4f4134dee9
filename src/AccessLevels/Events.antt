-- ===== src/AccessLevels/Events.antt =====
-- What the projections of tournaments and decks withhold.
use archon_vibe.Prelude.{
  String, ◌≡◌, refl, sym, subst, ap, ◌∙◌, Bool, true, false, Option, none, some, List, [], ◌∷◌,
  arith, member, string_eq, if◌then◌else◌, some-injective, Option-cases, Bool-cases, inl, inr,
}
use archon_vibe.Json.{Json, Items, nil, cons, Fields, get, pick, without, has}
use archon_vibe.Json.Laws.{
  get-put, get-pick, get-without, all_in, all_in-member, none_in, none_in-member,
  eq_false_of_member,
}
use archon_vibe.AccessLevels.Tournaments.{
  tournament_public_fields, tournament_member_exclude, tournament_api_exclude, player_api_exclude,
  compute_tournament_public, compute_tournament_member, api_players, cons_player, players_of,
  with_players, compute_tournament_api,
}

pick-hides :
    (ks hidden : List String) (d : Fields) (k : String)
    → none_in hidden ks ≡ true
    → member k hidden ≡ true
    → get k (pick ks d) ≡ none
pick-hides ks hidden d k h m = ground (arith, get-pick k ks d, none_in-member k hidden ks h m)

without-hides :
    (ks hidden : List String) (d : Fields) (k : String)
    → all_in hidden ks ≡ true
    → member k hidden ≡ true
    → get k (without ks d) ≡ none
without-hides ks hidden d k h m = ground (arith, get-without k ks d, all_in-member k hidden ks h m)

public-hides :
    (d : Fields) (k : String) (online : Bool)
    → member k tournament_member_exclude ≡ true
    → get k (
        if online
        then without ("venue_url" ∷ []) (pick tournament_public_fields d)
        else pick tournament_public_fields d)
      ≡ none
unfolding none_in
public-hides d k true m = ground (
  arith,
  get-without k ("venue_url" ∷ []) (pick tournament_public_fields d),
  pick-hides tournament_public_fields tournament_member_exclude d k refl m,
)
public-hides d k false m = pick-hides tournament_public_fields tournament_member_exclude d k refl m

with_players-hides :
    (ps : Option Items) (d p : Fields) (k : String)
    → member k tournament_member_exclude ≡ true
    → with_players ps d ≡ some p
    → get k p ≡ none
unfolding with_players all_in
with_players-hides none d p k m h = cc
with_players-hides (some ps) d p k m h =
    subst (λ q. get k q ≡ none) (some-injective h)
      (get-put k "players" (Json.arr ps) (without tournament_api_exclude d)
        ∙ rw (eq_false_of_member "players" k tournament_member_exclude refl m)
            (without-hides tournament_api_exclude tournament_member_exclude d k refl m))

-- The code that checks a player in, and what the server notes on pushes to the VEKN calendar and on
-- the reporting of the winning deck.
abbrev pub bookkeeping : List String
bookkeeping =
    "checkin_code" ∷ "vekn_pushed_at" ∷ "vekn_results_stale" ∷ "vekn_event_absent_at"
    ∷ "twda_status" ∷ []

abbrev pub join_link : String
join_link = "venue_url"

public-join_link :
    (d : Fields) (online : Bool)
    → (if online
        then get join_link (
            if online
            then without (join_link ∷ []) (pick tournament_public_fields d)
            else pick tournament_public_fields d)
        else none)
      ≡ none
public-join_link d true = get-without join_link (join_link ∷ []) (pick tournament_public_fields d)
public-join_link d false = refl

-- The check-in code and the server's notes reach neither visitors nor members, and members get every
-- other field as it is; the link by which an online tournament is joined does not reach visitors.
pub tournament_hides_bookkeeping :
    (d : Fields) (k : String)
    → (get k (compute_tournament_member d) ≡ (if member k bookkeeping then none else get k d))
      × ((if member k bookkeeping then get k (compute_tournament_public d) else none) ≡ none)
      × ((if has "online" d then get join_link (compute_tournament_public d) else none) ≡ none)
unfolding compute_tournament_public compute_tournament_member
tournament_hides_bookkeeping d k = (
  get-without k tournament_member_exclude d,
  elim (Bool-cases (member k bookkeeping)) [
    | inl noted ↦ rw noted (public-hides d k (has "online" d) noted)
    | inr other ↦ rw other refl
  ],
  public-join_link d (has "online" d),
)

-- Nor do they reach the public API.
pub tournament_api_hides_bookkeeping :
    (d p : Fields) (k : String)
    → member k tournament_member_exclude ≡ true
    → compute_tournament_api d ≡ some p
    → get k p ≡ none
unfolding compute_tournament_api
tournament_api_hides_bookkeeping d p k = with_players-hides (players_of (get "players" d)) d p k

-- The roster of the API projection: the same players in the same order, without the withheld fields.
abbrev pub IsApiRoster : Items → Items → Type 0
IsApiRoster nil nil = Unit
IsApiRoster (cons (Json.obj p) ps) (cons (Json.obj q) qs) =
    ((k : String) → get k q ≡ (if member k player_api_exclude then none else get k p))
    × IsApiRoster ps qs
IsApiRoster _ _ = ⊥

cons_player-IsApiRoster :
    (p : Fields) (ps : Items) (o : Option Items) (qs : Items)
    → ((rs : Items) → o ≡ some rs → IsApiRoster ps rs)
    → cons_player (without player_api_exclude p) o ≡ some qs
    → IsApiRoster (cons (Json.obj p) ps) qs
unfolding cons_player
cons_player-IsApiRoster p ps none qs ih h = cc
cons_player-IsApiRoster p ps (some rs) qs ih h =
    subst (IsApiRoster (cons (Json.obj p) ps)) (some-injective h)
      (λ k. get-without k player_api_exclude p, ih rs refl)

api_players-IsApiRoster : (ps qs : Items) → api_players ps ≡ some qs → IsApiRoster ps qs
unfolding api_players
api_players-IsApiRoster nil qs h = subst (IsApiRoster nil) (some-injective h) tt
api_players-IsApiRoster (cons (Json.obj p) ps) qs h =
    cons_player-IsApiRoster p ps (api_players ps) qs (api_players-IsApiRoster ps) h
api_players-IsApiRoster (cons _ ps) qs h = cc

-- What a published roster has to be.
abbrev pub IsRosterOf : Option Json → Option Json → Type 0
IsRosterOf (some (Json.arr ps)) (some (Json.arr qs)) = IsApiRoster ps qs
IsRosterOf _ _ = ⊥

with_players-IsRosterOf :
    (j : Option Json) (d p : Fields)
    → with_players (players_of j) d ≡ some p
    → IsRosterOf j (get "players" p)
unfolding with_players players_of
with_players-IsRosterOf (some (Json.arr ps)) d p h = elim (Option-cases (api_players ps)) [
  | inl e ↦ absurd (cc (e, h))
  | inr (qs, e) ↦
      let found : with_players (some qs) d ≡ some p = sym (ap (λ o. with_players o d) e) ∙ h in
      subst (λ q. IsRosterOf (some (Json.arr ps)) (get "players" q)) (some-injective found)
        (rw (get-put "players" "players" (Json.arr qs) (without tournament_api_exclude d))
          (api_players-IsApiRoster ps qs e))
]
with_players-IsRosterOf none d p h = cc
with_players-IsRosterOf _ d p h = cc

-- The public API shows the roster whole: each player in place, without the four withheld fields and
-- with every other field unchanged.
pub compute_tournament_api-IsRosterOf :
    (d p : Fields)
    → compute_tournament_api d ≡ some p
    → IsRosterOf (get "players" d) (get "players" p)
unfolding compute_tournament_api
compute_tournament_api-IsRosterOf d p h = with_players-IsRosterOf (get "players" d) d p h
