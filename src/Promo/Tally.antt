-- ===== src/Promo/Tally.antt =====
-- The recomputation over rows that all concern the promos that are recomputed: nothing raises, and
-- the loops are these total functions.
use archon_vibe.Prelude.{
  String, ◌≡◌, refl, Bool, true, false, ◌&&◌, some, List, [], ◌∷◌, arith, string_eq, ==-iff,
  given_text, member, Bool-cases, inl, inr, if◌then◌else◌, ◌∙◌, ap,
}
use archon_vibe.Prelude.Rows.{every}
use archon_vibe.Prelude.Dict.{lookup, insert, contains, lookup-insert}
use archon_vibe.Promo.{
  PromoHolding, PromoLedgerKind, PromoLedgerEntry, Holdings, holders, holding_of, change, credit,
  debit, text_of, and_then, apply_entry, apply_entries, Attribution, apply_attributions,
  no_holdings, aggregate,
}

-- An update of a holding, whether or not the promo is there.
unfoldable pub entered : String → String → (PromoHolding → PromoHolding) → Holdings → Holdings
unfolding lookup insert
entered p u f hs = insert p (insert u (f (holding_of p u hs)) (holders p hs)) hs

unfoldable pub tally_entry : PromoLedgerKind → PromoLedgerEntry → Holdings → Holdings
unfolding entered
tally_entry PromoLedgerKind.intake e hs = entered e.promo_uid e.from_uid (credit e.qty) hs
tally_entry PromoLedgerKind.assignment e hs =
    entered e.promo_uid e.from_uid (debit e.qty)
      (if given_text e.to_uid then entered e.promo_uid (text_of e.to_uid) (credit e.qty) hs else hs)
tally_entry PromoLedgerKind.distribution e hs = entered e.promo_uid e.from_uid (debit e.qty) hs

unfoldable pub tally_entries : List PromoLedgerEntry → Holdings → Holdings
unfolding tally_entry
tally_entries [] hs = hs
tally_entries (e ∷ es) hs = tally_entries es (tally_entry e.kind e hs)

unfoldable pub tally_attributions : List Attribution → Holdings → Holdings
unfolding entered
tally_attributions [] hs = hs
tally_attributions (a ∷ as_) hs =
    tally_attributions as_ (entered a.promo_uid a.holder_uid (debit a.qty) hs)

unfoldable pub tally : List String → List PromoLedgerEntry → List Attribution → Holdings
unfolding tally_entries tally_attributions no_holdings
tally targets entries attributions =
    tally_attributions attributions (tally_entries entries (no_holdings targets))

change-entered :
    (p u : String) (f : PromoHolding → PromoHolding) (hs : Holdings)
    → contains p hs ≡ true
    → change p u f hs ≡ some (entered p u f hs)
unfolding change entered
change-entered p u f hs h = ground (arith, h)

entered-contains :
    (p u q : String) (f : PromoHolding → PromoHolding) (hs : Holdings)
    → contains q hs ≡ true
    → contains q (entered p u f hs) ≡ true
unfolding entered
entered-contains p u q f hs h =
    ground (arith, h, lookup-insert q p (insert u (f (holding_of p u hs)) (holders p hs)) hs)

credited-contains :
    (b : Bool) (p u q : String) (x : PromoHolding → PromoHolding) (hs : Holdings)
    → contains q hs ≡ true
    → contains q (if b then entered p u x hs else hs) ≡ true
credited-contains true p u q x hs h = entered-contains p u q x hs h
credited-contains false p u q x hs h = h

apply_entry-tally_entry :
    (k : PromoLedgerKind) (e : PromoLedgerEntry) (hs : Holdings)
    → contains e.promo_uid hs ≡ true
    → apply_entry k e hs ≡ some (tally_entry k e hs)
unfolding apply_entry tally_entry
apply_entry-tally_entry PromoLedgerKind.intake e hs h =
    change-entered e.promo_uid e.from_uid (credit e.qty) hs h
apply_entry-tally_entry PromoLedgerKind.distribution e hs h =
    change-entered e.promo_uid e.from_uid (debit e.qty) hs h
apply_entry-tally_entry PromoLedgerKind.assignment e hs h =
    elim (Bool-cases (given_text e.to_uid)) [
      | inr nobody ↦ rw nobody (change-entered e.promo_uid e.from_uid (debit e.qty) hs h)
      | inl somebody ↦ rw somebody (
          ap (λ o. and_then o (change e.promo_uid e.from_uid (debit e.qty)))
            (change-entered e.promo_uid (text_of e.to_uid) (credit e.qty) hs h)
          ∙ change-entered e.promo_uid e.from_uid (debit e.qty)
              (entered e.promo_uid (text_of e.to_uid) (credit e.qty) hs)
              (entered-contains e.promo_uid (text_of e.to_uid) e.promo_uid (credit e.qty) hs h))
    ]

tally_entry-contains :
    (k : PromoLedgerKind) (e : PromoLedgerEntry) (q : String) (hs : Holdings)
    → contains q hs ≡ true
    → contains q (tally_entry k e hs) ≡ true
unfolding tally_entry
tally_entry-contains PromoLedgerKind.intake e q hs h =
    entered-contains e.promo_uid e.from_uid q (credit e.qty) hs h
tally_entry-contains PromoLedgerKind.distribution e q hs h =
    entered-contains e.promo_uid e.from_uid q (debit e.qty) hs h
tally_entry-contains PromoLedgerKind.assignment e q hs h =
    entered-contains e.promo_uid e.from_uid q (debit e.qty)
      (if given_text e.to_uid then entered e.promo_uid (text_of e.to_uid) (credit e.qty) hs else hs)
      (credited-contains (given_text e.to_uid) e.promo_uid (text_of e.to_uid) q (credit e.qty) hs h)

every_mono {ℓ} :
    {A : Type ℓ} (p q : A → Bool) (xs : List A)
    → ((x : A) → p x ≡ true → q x ≡ true)
    → every p xs ≡ true
    → every q xs ≡ true
unfolding every
every_mono p q [] f h = refl
every_mono p q (x ∷ xs) f h = ground (arith, h, f x, every_mono p q xs f)

-- Every row is of a promo that is recomputed.
abbrev pub are_known : List String → List PromoLedgerEntry → List Attribution → Bool
are_known targets es as_ =
    every (λ e. member e.promo_uid targets) es && every (λ a. member a.promo_uid targets) as_

apply_entries-tally_entries :
    (es : List PromoLedgerEntry) (hs : Holdings)
    → every (λ e. contains e.promo_uid hs) es ≡ true
    → apply_entries es hs ≡ some (tally_entries es hs)
unfolding apply_entries tally_entries every
apply_entries-tally_entries [] hs h = refl
apply_entries-tally_entries (e ∷ es) hs h =
    let first = apply_entry-tally_entry e.kind e hs (ground (arith, h)) in
    let others =
      every_mono (λ (x : PromoLedgerEntry). contains x.promo_uid hs)
        (λ x. contains x.promo_uid (tally_entry e.kind e hs)) es
        (λ x k. tally_entry-contains e.kind e x.promo_uid hs k) (ground (arith, h)) in
    ap (λ o. and_then o (apply_entries es)) first
    ∙ apply_entries-tally_entries es (tally_entry e.kind e hs) others

tally_entries-contains :
    (es : List PromoLedgerEntry) (q : String) (hs : Holdings)
    → contains q hs ≡ true
    → contains q (tally_entries es hs) ≡ true
unfolding tally_entries
tally_entries-contains [] q hs h = h
tally_entries-contains (e ∷ es) q hs h =
    tally_entries-contains es q _ (tally_entry-contains e.kind e q hs h)

apply_attributions-tally_attributions :
    (as_ : List Attribution) (hs : Holdings)
    → every (λ a. contains a.promo_uid hs) as_ ≡ true
    → apply_attributions as_ hs ≡ some (tally_attributions as_ hs)
unfolding apply_attributions tally_attributions every
apply_attributions-tally_attributions [] hs h = refl
apply_attributions-tally_attributions (a ∷ as_) hs h =
    let first = change-entered a.promo_uid a.holder_uid (debit a.qty) hs (ground (arith, h)) in
    let next = entered a.promo_uid a.holder_uid (debit a.qty) hs in
    let others =
      every_mono (λ (x : Attribution). contains x.promo_uid hs) (λ x. contains x.promo_uid next) as_
        (λ x k. entered-contains a.promo_uid a.holder_uid x.promo_uid (debit a.qty) hs k)
        (ground (arith, h)) in
    ap (λ o. and_then o (apply_attributions as_)) first
    ∙ apply_attributions-tally_attributions as_ next others

no_holdings-contains :
    (q : String) (ps : List String) → member q ps ≡ true → contains q (no_holdings ps) ≡ true
unfolding no_holdings lookup
no_holdings-contains q [] h = ground (arith, h)
no_holdings-contains q (p ∷ ps) h =
    ground (arith, h, ==-iff p q, ==-iff q p, no_holdings-contains q ps)

-- No row raises, and the aggregates are those of the total functions.
pub aggregate-tally :
    (targets : List String) (es : List PromoLedgerEntry) (as_ : List Attribution)
    → are_known targets es as_ ≡ true
    → aggregate targets es as_ ≡ some (tally targets es as_)
unfolding aggregate tally
aggregate-tally targets es as_ h =
    let start = no_holdings targets in
    let rows =
      every_mono (λ (x : PromoLedgerEntry). member x.promo_uid targets)
        (λ x. contains x.promo_uid start) es (λ x k. no_holdings-contains x.promo_uid targets k)
        (ground (arith, h)) in
    let reports =
      every_mono (λ (x : Attribution). member x.promo_uid targets)
        (λ x. contains x.promo_uid (tally_entries es start)) as_
        (λ x k.
          tally_entries-contains es x.promo_uid start (no_holdings-contains x.promo_uid targets k))
        (ground (arith, h)) in
    ap (λ o. and_then o (apply_attributions as_)) (apply_entries-tally_entries es start rows)
    ∙ apply_attributions-tally_attributions as_ (tally_entries es start) reports
