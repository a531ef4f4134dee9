-- ===== src/Promo/Conservation.antt =====
-- Assignments move stock between holders and make or lose none of it.
use archon_vibe.Prelude.{
  true, some, String, ◌≡◌, refl, sym, ap, ◌∙◌, List, [], ◌∷◌, arith, ◌==◌, string_eq, ==-iff,
  given_text, if◌then◌else◌,
}
use archon_vibe.Prelude.Int.{
  ℤ, pos, ◌+ℤ◌, ◌-ℤ◌, +ℤ_parts, -ℤ_parts, eq_of_parts, add_zero, add_assoc, add_comm, add_sub,
}
use archon_vibe.Prelude.Dict.{Dict, lookup, insert, lookup-insert}
use archon_vibe.Promo.{
  PromoHolding, PromoLedgerKind, PromoLedgerEntry, Holdings, holders, holding_in, holding_of,
  credit, debit, Attribution, no_holdings, text_of, aggregate,
}
use archon_vibe.Promo.Tally.{
  entered, tally_entry, tally_entries, tally_attributions, tally, are_known, aggregate-tally,
}
use archon_vibe.Promo.Balance.{when}

-- What all the holders of one promo have left.
unfoldable pub stock : Dict String PromoHolding → ℤ
stock [] = pos 0
stock ((u, h) ∷ d) = h.remaining +ℤ stock d

swap : (x q s : ℤ) → (x +ℤ q) +ℤ s ≡ (x +ℤ s) +ℤ q
swap x q s = add_assoc x q s ∙ ap (λ y. x +ℤ y) (add_comm q s) ∙ sym (add_assoc x s q)

stock-insert :
    (u : String) (h : PromoHolding) (q : ℤ) (d : Dict String PromoHolding)
    → h.remaining ≡ (holding_in u d).remaining +ℤ q
    → stock (insert u h d) ≡ stock d +ℤ q
unfolding stock insert lookup
stock-insert u h q [] e = ground (arith, add_comm (pos 0) q, add_zero q, add_zero h.remaining)
stock-insert u h q ((w, k) ∷ d) e =
    ground
      (arith, stock-insert u h q d, swap k.remaining q (stock d), add_assoc k.remaining (stock d) q)

stock-entered :
    (p u q : String) (f : PromoHolding → PromoHolding) (x : ℤ) (hs : Holdings)
    → ((h : PromoHolding) → (f h).remaining ≡ h.remaining +ℤ x)
    → stock (holders q (entered p u f hs)) ≡ stock (holders q hs) +ℤ when (p == q) x
unfolding entered
stock-entered p u q f x hs k = ground (
  arith,
  ==-iff p q,
  add_zero (stock (holders q hs)),
  stock-insert u (f (holding_of p u hs)) x (holders p hs) (k (holding_of p u hs)),
  lookup-insert q p (insert u (f (holding_of p u hs)) (holders p hs)) hs,
)

-- What a row of the ledger adds to the stock of all holders together: an intake its quantity, an
-- assignment to somebody nothing, and what leaves the ledger is taken away.
abbrev pub net : PromoLedgerKind → PromoLedgerEntry → ℤ
net PromoLedgerKind.intake e = e.qty
net PromoLedgerKind.assignment e = if given_text e.to_uid then pos 0 else pos 0 -ℤ e.qty
net PromoLedgerKind.distribution e = pos 0 -ℤ e.qty

cancel : (q : ℤ) → q +ℤ (pos 0 -ℤ q) ≡ pos 0
cancel q = eq_of_parts _ _ (omega (arith, +ℤ_parts q (pos 0 -ℤ q), -ℤ_parts (pos 0) q))

debit-remaining : (q : ℤ) (h : PromoHolding) → (debit q h).remaining ≡ h.remaining +ℤ (pos 0 -ℤ q)
debit-remaining q h = ground (arith, add_zero h.remaining, add_sub h.remaining (pos 0) q)

tally_entry-net :
    (k : PromoLedgerKind) (e : PromoLedgerEntry) (q : String) (hs : Holdings)
    → stock (holders q (tally_entry k e hs))
      ≡ stock (holders q hs) +ℤ when (e.promo_uid == q) (net k e)
unfolding tally_entry
tally_entry-net PromoLedgerKind.intake e q hs =
    stock-entered e.promo_uid e.from_uid q (credit e.qty) e.qty hs (λ h. refl)
tally_entry-net PromoLedgerKind.assignment e q hs = ground (
  arith,
  stock-entered e.promo_uid e.from_uid q (debit e.qty) (pos 0 -ℤ e.qty)
      (if given_text e.to_uid then entered e.promo_uid (text_of e.to_uid) (credit e.qty) hs else hs)
      (debit-remaining e.qty),
  stock-entered e.promo_uid (text_of e.to_uid) q (credit e.qty) e.qty hs (λ h. refl),
  add_assoc (stock (holders q hs)) e.qty (pos 0 -ℤ e.qty),
  cancel e.qty,
  add_zero (stock (holders q hs)),
)
tally_entry-net PromoLedgerKind.distribution e q hs =
    stock-entered e.promo_uid e.from_uid q (debit e.qty) (pos 0 -ℤ e.qty) hs (debit-remaining e.qty)

unfoldable pub brought_in : List PromoLedgerEntry → String → ℤ
brought_in [] q = pos 0
brought_in (e ∷ es) q = when (e.promo_uid == q) (net e.kind e) +ℤ brought_in es q

unfoldable pub handed_out : List Attribution → String → ℤ
handed_out [] q = pos 0
handed_out (a ∷ as_) q = when (a.promo_uid == q) (pos 0 -ℤ a.qty) +ℤ handed_out as_ q

tally_entries-net :
    (es : List PromoLedgerEntry) (q : String) (hs : Holdings)
    → stock (holders q (tally_entries es hs)) ≡ stock (holders q hs) +ℤ brought_in es q
unfolding tally_entries brought_in
tally_entries-net [] q hs = sym (add_zero _)
tally_entries-net (e ∷ es) q hs = ground (
  arith,
  tally_entries-net es q (tally_entry e.kind e hs),
  tally_entry-net e.kind e q hs,
  add_assoc (stock (holders q hs)) (when (e.promo_uid == q) (net e.kind e)) (brought_in es q),
)

tally_attributions-net :
    (as_ : List Attribution) (q : String) (hs : Holdings)
    → stock (holders q (tally_attributions as_ hs)) ≡ stock (holders q hs) +ℤ handed_out as_ q
unfolding tally_attributions handed_out
tally_attributions-net [] q hs = sym (add_zero _)
tally_attributions-net (a ∷ as_) q hs = ground (
  arith,
  tally_attributions-net as_ q (entered a.promo_uid a.holder_uid (debit a.qty) hs),
  stock-entered a.promo_uid a.holder_uid q (debit a.qty) (pos 0 -ℤ a.qty) hs
      (debit-remaining a.qty),
  add_assoc (stock (holders q hs)) (when (a.promo_uid == q) (pos 0 -ℤ a.qty)) (handed_out as_ q),
)

no_holdings-stock : (q : String) (ps : List String) → stock (holders q (no_holdings ps)) ≡ pos 0
unfolding no_holdings lookup stock
no_holdings-stock q [] = refl
no_holdings-stock q (p ∷ ps) = ground (arith, no_holdings-stock q ps)

tally-conserves :
    (targets : List String) (es : List PromoLedgerEntry) (as_ : List Attribution) (q : String)
    → stock (holders q (tally targets es as_)) ≡ brought_in es q +ℤ handed_out as_ q
unfolding tally
tally-conserves targets es as_ q = ground (
  arith,
  tally_attributions-net as_ q (tally_entries es (no_holdings targets)),
  tally_entries-net es q (no_holdings targets),
  no_holdings-stock q targets,
  add_comm (pos 0) (brought_in es q),
  add_zero (brought_in es q),
)

-- Over rows and reports of the promos that are recomputed, the recomputation does not raise, and what
-- all the holders of a promo then have left together is what its intakes brought in, less its
-- distributions, its assignments to nobody and what tournaments report: an assignment from one
-- holder to another, itself included, changes nothing in the total.
pub aggregate-conserves :
    (targets : List String) (es : List PromoLedgerEntry) (as_ : List Attribution) (q : String)
    → are_known targets es as_ ≡ true
    → (hs : Holdings) × (aggregate targets es as_ ≡ some hs)
      × (stock (holders q hs) ≡ brought_in es q +ℤ handed_out as_ q)
aggregate-conserves targets es as_ q known =
    (tally targets es as_, aggregate-tally targets es as_ known, tally-conserves targets es as_ q)
