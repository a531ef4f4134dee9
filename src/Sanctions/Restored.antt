-- ===== src/Sanctions/Restored.antt =====
-- Deleting a disqualification gives the player back the state that the play calls for.
use archon_vibe.Prelude.{
  String, ◌≡◌, refl, ap, ◌∙◌, Bool, true, false, not, ◌&&◌, ◌||◌, Option, none, some, List, [], ◌∷◌,
  ◌++◌, arith, ◌==◌, string_eq, opt_beq, ==-iff, is_none, any, filter, given_text, if◌then◌else◌,
}
use archon_vibe.Prelude.Dict.{Dict, lookup, insert, values, IsDistinct}
use archon_vibe.Prelude.Outcome.{returned}
use archon_vibe.Models.SanctionKinds.{SanctionLevel, sanction_level_eq}
use archon_vibe.Models.TournamentKinds.{
  TournamentState, tournament_state_eq, PlayerState, TableState, table_state_eq,
}
use archon_vibe.Models.Users.{Instant, User}
use archon_vibe.Models.Tournaments.{Tournament, Table, Sanction}
use archon_vibe.Sanctions.Disqualification.{
  is_active_dq, has_active_dq, sanctions_for_tournament, dq_restore_state, is_live, live_rounds,
  live_finals, sits_at, live_tables,
}
use archon_vibe.Sanctions.Delete.{Deleted, deleted_row, delete_sanction, restored}

-- A row that disqualifies the player in the tournament: neither deleted nor lifted.
abbrev pub counts : String → String → Sanction → Bool
counts tournament_uid user_uid s =
    (opt_beq s.tournament_uid (some tournament_uid) && is_none s.deleted_at)
    && (s.user_uid == user_uid
        && (s.level == SanctionLevel.disqualification && is_none s.lifted_at))

any-filter {ℓ} :
    {A : Type ℓ} (p q : A → Bool) (xs : List A) → any p (filter q xs) ≡ any (λ x. q x && p x) xs
any-filter p q [] = refl
any-filter p q (x ∷ xs) = ground (arith, any-filter p q xs)

any-append {ℓ} :
    {A : Type ℓ} (p : A → Bool) (xs ys : List A) → any p (xs ++ ys) ≡ (any p xs || any p ys)
any-append p [] ys = refl
any-append p (x ∷ xs) ys = ground (arith, any-append p xs ys)

has_active_dq-any :
    (t u : String) (rows : List Sanction) → has_active_dq t u rows ≡ any (counts t u) rows
unfolding has_active_dq sanctions_for_tournament
has_active_dq-any t u rows = any-filter (is_active_dq u) _ rows

-- A row under another key disqualifies the player in the tournament.
unfoldable pub another_counts : String → String → String → Dict String Sanction → Bool
another_counts uid t u [] = false
another_counts uid t u ((k, s) ∷ d) = (not (k == uid) && counts t u s) || another_counts uid t u d

another_counts-absent :
    (uid t u : String) (d : Dict String Sanction)
    → lookup uid d ≡ none
    → another_counts uid t u d ≡ any (counts t u) (values d)
unfolding another_counts lookup
another_counts-absent uid t u [] h = refl
another_counts-absent uid t u ((k, s) ∷ d) h = ground (arith, another_counts-absent uid t u d)

any-insert :
    (uid t u : String) (s : Sanction) (d : Dict String Sanction)
    → IsDistinct d
    → counts t u s ≡ false
    → any (counts t u) (values (insert uid s d)) ≡ another_counts uid t u d
unfolding another_counts insert IsDistinct
any-insert uid t u s [] k h = ground (arith, h)
any-insert uid t u s ((j, r) ∷ d) (new, k) h =
    ground (arith, h, ==-iff j uid, another_counts-absent j t u d new, any-insert uid t u s d k h)

-- A seat at a table of a round that is neither finished nor cancelled, or at finals that are not
-- finished.
abbrev pub is_playing : String → Tournament → Bool
is_playing u c =
    let has_seat : Table → Bool = λ t. any (λ s. s.player_uid == u) t.seating in
    any
      (any (λ t.
        (not (t.state == TableState.finished) && not (t.state == TableState.cancelled))
        && has_seat t))
      c.rounds
    || elim c.finals [ none ↦ false | some t ↦ not (t.state == TableState.finished) && has_seat t ]

-- The state that the play calls for.
abbrev pub state_of_play : String → Option Tournament → PlayerState
state_of_play u none = PlayerState.finished
state_of_play u (some c) =
    if c.state == TournamentState.finished
    then PlayerState.finished
    else if is_playing u c
    then PlayerState.playing
    else PlayerState.checked_in

any-live_rounds :
    (p : Table → Bool) (rs : List (List Table))
    → any p (live_rounds rs) ≡ any (any (λ t. is_live t && p t)) rs
any-live_rounds p [] = refl
any-live_rounds p (r ∷ rs) = ground (
  arith,
  any-append p (filter is_live r) (live_rounds rs),
  any-filter p is_live r,
  any-live_rounds p rs,
)

any-live_finals :
    (p : Table → Bool) (o : Option Table)
    → any p (live_finals o)
      ≡ elim o [ none ↦ false | some t ↦ not (t.state == TableState.finished) && p t ]
any-live_finals p none = refl
any-live_finals p (some t) = ground arith

any-live_tables : (u : String) (c : Tournament) → any (sits_at u) (live_tables c) ≡ is_playing u c
any-live_tables u c = ground (
  arith,
  any-append (sits_at u) (live_rounds c.rounds) (live_finals c.finals),
  any-live_rounds (sits_at u) c.rounds,
  any-live_finals (sits_at u) c.finals,
)

dq_restore_state_lem :
    (t u : String) (found : Option Tournament) (rows : List Sanction)
    → dq_restore_state t u found rows
      ≡ (if has_active_dq t u rows then PlayerState.disqualified else state_of_play u found)
unfolding dq_restore_state
dq_restore_state_lem t u none rows = refl
dq_restore_state_lem t u (some c) rows = ground (arith, any-live_tables u c)

module _ (tournaments : String → Option Tournament) where
  delete_sanction-result :
      (u : User) (uid : String) (s : Sanction) (rows : Dict String Sanction) (now : Instant)
      (r : Deleted)
      → lookup uid rows ≡ some s
      → delete_sanction tournaments (some u) uid rows now ≡ returned r
      → r ≡ record {
        rows = insert uid (deleted_row now s) rows;
        player_state = restored tournaments s (values (insert uid (deleted_row now s) rows));
      }
  unfolding delete_sanction
  delete_sanction-result u uid s rows now r found h = ground (arith, found, h)

  restored-dq :
      (s : Sanction) (t : String) (rows : List Sanction)
      → s.tournament_uid ≡ some t
      → given_text (some t) ≡ true
      → s.level ≡ SanctionLevel.disqualification
      → s.lifted_at ≡ none
      → restored tournaments s rows ≡ some (dq_restore_state t s.user_uid (tournaments t) rows)
  restored-dq s t rows a b c d = ground (arith, ==-iff s.level SanctionLevel.disqualification)

  -- Deleting a disqualification that is not lifted leaves the player disqualified if another
  -- disqualification of that player in that tournament, neither deleted nor lifted, is on record.
  -- Else the player gets back the state that the play calls for: finished, if the tournament is over
  -- or is no longer there; else playing, with a seat at a round's table that is neither finished nor
  -- cancelled or at unfinished finals; else checked in.
  pub delete_sanction-restores :
      (u : User) (uid t : String) (s : Sanction) (rows : Dict String Sanction) (now : Instant)
      (r : Deleted)
      → IsDistinct rows
      → lookup uid rows ≡ some s
      → s.tournament_uid ≡ some t
      → given_text (some t) ≡ true
      → s.level ≡ SanctionLevel.disqualification
      → s.lifted_at ≡ none
      → delete_sanction tournaments (some u) uid rows now ≡ returned r
      → r.player_state
        ≡ some (
            if another_counts uid t s.user_uid rows
            then PlayerState.disqualified
            else state_of_play s.user_uid (tournaments t))
  delete_sanction-restores u uid t s rows now r k found a b c d h =
      let after = values (insert uid (deleted_row now s) rows) in
      let others =
        has_active_dq-any t s.user_uid after
        ∙ any-insert uid t s.user_uid (deleted_row now s) rows k (ground arith) in
      ap (λ x. x.player_state) (delete_sanction-result u uid s rows now r found h)
      ∙ restored-dq s t after a b c d
      ∙ ap some (
          dq_restore_state_lem t s.user_uid (tournaments t) after
          ∙ ap
              (λ b.
                if b then PlayerState.disqualified else state_of_play s.user_uid (tournaments t))
              others)
