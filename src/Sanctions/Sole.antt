-- ===== src/Sanctions/Sole.antt =====
-- A player has at most one active disqualification from a tournament, whatever is created or changed.
use archon_vibe.Prelude.{
  String, ◌≡◌, sym, subst, arith, Bool, true, false, not, ◌&&◌, Option, none, some, ◌==◌, string_eq,
  ==-refl, given_text, nonempty_text, Bool-cases, Option-cases, inl, inr,
}
use archon_vibe.Prelude.Dict.{Dict, lookup, insert, values}
use archon_vibe.Prelude.Outcome.{returned, Outcome-cases}
use archon_vibe.Models.SanctionKinds.{
  SanctionLevel, sanction_level_eq, SanctionCategory, SanctionSubcategory,
}
use archon_vibe.Models.Users.{Instant, User}
use archon_vibe.Models.Tournaments.{Tournament, Sanction}
use archon_vibe.Sanctions.Requests.{
  CreateSanctionRequest, UpdateSanctionRequest, expiry_of, level_of, category_of,
}
use archon_vibe.Sanctions.Create.{
  Created, disqualified_from, new_sanction, optional_subcategory, issue, create_sanction,
}
use archon_vibe.Sanctions.Update.{
  counts_as_dq, updated_row, edits, lifts, save_update, update_sanction, Edited,
}
use archon_vibe.Sanctions.Active.{
  disqualifies, IsSole, insert-IsSole, disqualifies-parts, from_named, replaced,
}

module _ (tournaments : String → Option Tournament) (users : String → Option User)
    (parse_date : String → Option Instant) where
  issue-inv :
      (uid : String) (now : Instant) (u : User) (request : CreateSanctionRequest)
      (level : SanctionLevel) (category : SanctionCategory)
      (subcategory : Option SanctionSubcategory) (rows : Dict String Sanction) (created : Created)
      → issue tournaments users parse_date uid now u request level category subcategory rows
        ≡ returned created
      → (expires_at : Option Instant) × (created.rows
          ≡ insert uid (new_sanction uid now u request level category subcategory expires_at) rows)
        × ((level == SanctionLevel.disqualification
              && disqualified_from request.tournament_uid request.user_uid (values rows))
            ≡ false)
  unfolding issue
  issue-inv uid now u request level category subcategory rows created h =
      elim (Outcome-cases (expiry_of parse_date request.expires_at)) [
        | inr bad ↦ absurd (ground (arith, h, bad))
        | inl (expires_at, e) ↦ (expires_at, ground (arith, h, e), ground (arith, h, e))
      ]

  issue-IsSole :
      (t p uid : String) (now : Instant) (u : User) (request : CreateSanctionRequest)
      (level : SanctionLevel) (category : SanctionCategory)
      (subcategory : Option SanctionSubcategory) (rows : Dict String Sanction) (created : Created)
      → IsSole t p rows
      → issue tournaments users parse_date uid now u request level category subcategory rows
        ≡ returned created
      → IsSole t p created.rows
  issue-IsSole t p uid now u request level category subcategory rows created sole h =
      let (expires_at, saved, checked) =
        issue-inv uid now u request level category subcategory rows created h in
      let s = new_sanction uid now u request level category subcategory expires_at in
      subst (IsSole t p) (sym saved) (
        insert-IsSole t p uid s rows sole (λ d.
          let (in_t, of_p, level_, lifted_, deleted_) = disqualifies-parts t p s d in
          from_named t p request.tournament_uid request.user_uid rows in_t of_p
            (ground (arith, level_, checked))))

  -- Creating a sanction keeps it so that no player has two active disqualifications from a tournament.
  pub create_sanction-IsSole :
      (t p : String) (user : Option User) (oauth_tournament : Option String)
      (request : CreateSanctionRequest) (uid : String) (now : Instant) (rows : Dict String Sanction)
      (created : Created)
      → IsSole t p rows
      → create_sanction tournaments users parse_date user oauth_tournament request uid now rows
        ≡ returned created
      → IsSole t p created.rows
  unfolding create_sanction
  create_sanction-IsSole t p none oauth_tournament request uid now rows created sole h =
      absurd (ground (arith, h))
  create_sanction-IsSole t p (some u) oauth_tournament request uid now rows created sole h =
      elim (Outcome-cases (level_of request.level)) [
        | inr bad ↦ absurd (ground (arith, h, bad))
        | inl (level, l) ↦ elim (Outcome-cases (category_of request.category)) [
          | inr bad ↦ absurd (ground (arith, h, l, bad))
          | inl (category, c) ↦
              elim (Outcome-cases (optional_subcategory category request.subcategory)) [
                | inr bad ↦ absurd (ground (arith, h, l, c, bad))
                | inl (subcategory, s) ↦
                    issue-IsSole t p uid now u request level category subcategory rows created sole
                      (ground (arith, h, l, c, s))
              ]
        ]
      ]

module _ (tournaments : String → Option Tournament) (parse_date : String → Option Instant) where
  save_update-inv :
      (uid : String) (s updated : Sanction) (rows : Dict String Sanction) (created : Created)
      → save_update tournaments parse_date uid s updated rows ≡ returned created
      → (created.rows ≡ insert uid updated rows)
        × ((counts_as_dq updated
              && (not (counts_as_dq s)
                  && (given_text s.tournament_uid
                      && disqualified_from s.tournament_uid s.user_uid (values rows))))
            ≡ false)
  unfolding save_update
  save_update-inv uid s updated rows created h = (ground (arith, h), ground (arith, h))

  save_update-IsSole :
      (t p uid : String) (now : Instant) (user : User) (lifting : Bool) (e : Edited) (s : Sanction)
      (rows : Dict String Sanction) (created : Created)
      → nonempty_text t ≡ true
      → lookup uid rows ≡ some s
      → IsSole t p rows
      → save_update tournaments parse_date uid s (updated_row now user lifting e s) rows
        ≡ returned created
      → IsSole t p created.rows
  save_update-IsSole t p uid now user lifting e s rows created n found sole h =
      let updated = updated_row now user lifting e s in
      let (saved, checked) = save_update-inv uid s updated rows created h in
      subst (IsSole t p) (sym saved) (elim (Bool-cases (disqualifies t p s)) [
        | inl d ↦ replaced t p uid s updated rows found sole d
        | inr d ↦ insert-IsSole t p uid updated rows sole (λ k.
            let (in_t, of_p, level_, lifted_, deleted_) = disqualifies-parts t p updated k in
            from_named t p s.tournament_uid s.user_uid rows in_t of_p (
              ground (
                arith,
                d,
                k,
                in_t,
                of_p,
                level_,
                lifted_,
                deleted_,
                checked,
                n,
                ==-refl p,
                ==-refl t,
              )))
      ])

  -- Lifting or editing a sanction keeps it so that no player has two active disqualifications from a
  -- tournament: an edit that would make a second one is refused.
  pub update_sanction-IsSole :
      (t p : String) (user : Option User) (uid : String) (request : UpdateSanctionRequest)
      (now : Instant) (rows : Dict String Sanction) (updated : Created)
      → nonempty_text t ≡ true
      → IsSole t p rows
      → update_sanction tournaments parse_date user uid request now rows ≡ returned updated
      → IsSole t p updated.rows
  unfolding update_sanction
  update_sanction-IsSole t p none uid request now rows updated n sole h = absurd (ground (arith, h))
  update_sanction-IsSole t p (some u) uid request now rows updated n sole h =
      elim (Option-cases (lookup uid rows)) [
        | inl missing ↦ absurd (ground (arith, h, missing))
        | inr (s, found) ↦ elim (Outcome-cases (edits tournaments parse_date request s)) [
          | inr bad ↦ absurd (ground (arith, h, found, bad))
          | inl (e, made) ↦
              save_update-IsSole t p uid now u (lifts request s) e s rows updated n found sole
                (ground (arith, h, found, made))
        ]
      ]
