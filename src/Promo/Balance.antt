-- ===== src/Promo/Balance.antt =====
-- The aggregates are the balances of the ledger, and stock is neither made nor lost by assignments.
use archon_vibe.Prelude.{
  true, some, String, ◌≡◌, refl, sym, Bool, ◌&&◌, List, [], ◌∷◌, arith, ◌==◌, string_eq, ==-iff,
  given_text, if◌then◌else◌,
}
use archon_vibe.Prelude.Int.{ℤ, pos, ◌+ℤ◌, ◌-ℤ◌, add_zero, sub_zero, add_assoc, add_comm, add_sub}
use archon_vibe.Prelude.Dict.{lookup, insert, lookup-insert}
use archon_vibe.Promo.{
  PromoHolding, no_holding, PromoLedgerKind, PromoLedgerEntry, Holdings, holders, holding_of,
  credit, debit, Attribution, no_holdings, text_of, aggregate,
}
use archon_vibe.Promo.Tally.{
  entered, tally_entry, tally_entries, tally_attributions, tally, are_known, aggregate-tally,
}

holding_of-entered :
    (p u q v : String) (f : PromoHolding → PromoHolding) (hs : Holdings)
    → holding_of q v (entered p u f hs)
      ≡ (if p == q && u == v then f (holding_of p u hs) else holding_of q v hs)
unfolding entered
holding_of-entered p u q v f hs = ground (
  arith,
  ==-iff p q,
  ==-iff u v,
  lookup-insert q p (insert u (f (holding_of p u hs)) (holders p hs)) hs,
  lookup-insert v u (f (holding_of p u hs)) (holders p hs),
)

-- What a ledger row moves into the stock of one holder of one promo.
abbrev pub when : Bool → ℤ → ℤ
when b x = if b then x else pos 0

abbrev pub entry_moves : PromoLedgerKind → PromoLedgerEntry → String → String → ℤ
entry_moves PromoLedgerKind.intake e q v = when (e.promo_uid == q && e.from_uid == v) e.qty
entry_moves PromoLedgerKind.assignment e q v =
    when (given_text e.to_uid && (e.promo_uid == q && text_of e.to_uid == v)) e.qty
    -ℤ when (e.promo_uid == q && e.from_uid == v) e.qty
entry_moves PromoLedgerKind.distribution e q v =
    pos 0 -ℤ when (e.promo_uid == q && e.from_uid == v) e.qty

-- The laws of ℤ for one quantity taken from or added to a stock.
ints :
    (x q : ℤ)
    → (x +ℤ pos 0 ≡ x)
      × (x -ℤ q ≡ x +ℤ (pos 0 -ℤ q))
      × ((x +ℤ q) -ℤ q ≡ x +ℤ (q -ℤ q))
      × (q -ℤ pos 0 ≡ q)
      × (pos 0 -ℤ pos 0 ≡ pos 0)
ints x q = (
  add_zero x,
  ground (arith, add_zero x, add_sub x (pos 0) q),
  add_sub x q q,
  sub_zero q,
  sub_zero (pos 0),
)

tally_entry-moves :
    (k : PromoLedgerKind) (e : PromoLedgerEntry) (q v : String) (hs : Holdings)
    → (holding_of q v (tally_entry k e hs)).remaining
      ≡ (holding_of q v hs).remaining +ℤ entry_moves k e q v
unfolding tally_entry
tally_entry-moves PromoLedgerKind.intake e q v hs = ground (
  arith,
  ints (holding_of q v hs).remaining e.qty,
  ==-iff e.promo_uid q,
  ==-iff e.from_uid v,
  holding_of-entered e.promo_uid e.from_uid q v (credit e.qty) hs,
)
tally_entry-moves PromoLedgerKind.assignment e q v hs = ground (
  arith,
  ints (holding_of q v hs).remaining e.qty,
  ==-iff e.promo_uid q,
  ==-iff e.from_uid v,
  ==-iff (text_of e.to_uid) v,
  ==-iff (text_of e.to_uid) e.from_uid,
  holding_of-entered e.promo_uid e.from_uid q v (debit e.qty) (
      if given_text e.to_uid then entered e.promo_uid (text_of e.to_uid) (credit e.qty) hs else hs),
  holding_of-entered e.promo_uid (text_of e.to_uid) q v (credit e.qty) hs,
)
tally_entry-moves PromoLedgerKind.distribution e q v hs = ground (
  arith,
  ints (holding_of q v hs).remaining e.qty,
  ==-iff e.promo_uid q,
  ==-iff e.from_uid v,
  holding_of-entered e.promo_uid e.from_uid q v (debit e.qty) hs,
)

-- The rows of a list, and the reports of a list, summed up.
unfoldable pub moved : List PromoLedgerEntry → String → String → ℤ
moved [] q v = pos 0
moved (e ∷ es) q v = entry_moves e.kind e q v +ℤ moved es q v

abbrev pub report_moves : Attribution → String → String → ℤ
report_moves a q v = pos 0 -ℤ when (a.promo_uid == q && a.holder_uid == v) a.qty

unfoldable pub reported : List Attribution → String → String → ℤ
reported [] q v = pos 0
reported (a ∷ as_) q v = report_moves a q v +ℤ reported as_ q v

tally_entries-moved :
    (es : List PromoLedgerEntry) (q v : String) (hs : Holdings)
    → (holding_of q v (tally_entries es hs)).remaining
      ≡ (holding_of q v hs).remaining +ℤ moved es q v
unfolding tally_entries moved
tally_entries-moved [] q v hs = sym (add_zero _)
tally_entries-moved (e ∷ es) q v hs = ground (
  arith,
  tally_entries-moved es q v (tally_entry e.kind e hs),
  tally_entry-moves e.kind e q v hs,
  add_assoc (holding_of q v hs).remaining (entry_moves e.kind e q v) (moved es q v),
)

tally_attribution-moves :
    (a : Attribution) (q v : String) (hs : Holdings)
    → (holding_of q v (entered a.promo_uid a.holder_uid (debit a.qty) hs)).remaining
      ≡ (holding_of q v hs).remaining +ℤ report_moves a q v
tally_attribution-moves a q v hs = ground (
  arith,
  ints (holding_of q v hs).remaining a.qty,
  ==-iff a.promo_uid q,
  ==-iff a.holder_uid v,
  holding_of-entered a.promo_uid a.holder_uid q v (debit a.qty) hs,
)

tally_attributions-reported :
    (as_ : List Attribution) (q v : String) (hs : Holdings)
    → (holding_of q v (tally_attributions as_ hs)).remaining
      ≡ (holding_of q v hs).remaining +ℤ reported as_ q v
unfolding tally_attributions reported
tally_attributions-reported [] q v hs = sym (add_zero _)
tally_attributions-reported (a ∷ as_) q v hs = ground (
  arith,
  tally_attributions-reported as_ q v (entered a.promo_uid a.holder_uid (debit a.qty) hs),
  tally_attribution-moves a q v hs,
  add_assoc (holding_of q v hs).remaining (report_moves a q v) (reported as_ q v),
)

no_holdings-empty : (q v : String) (ps : List String) → holding_of q v (no_holdings ps) ≡ no_holding
unfolding no_holdings lookup
no_holdings-empty q v [] = refl
no_holdings-empty q v (p ∷ ps) = ground (arith, no_holdings-empty q v ps)

tally-balance :
    (targets : List String) (es : List PromoLedgerEntry) (as_ : List Attribution) (q v : String)
    → (holding_of q v (tally targets es as_)).remaining ≡ moved es q v +ℤ reported as_ q v
unfolding tally
tally-balance targets es as_ q v = ground (
  arith,
  tally_attributions-reported as_ q v (tally_entries es (no_holdings targets)),
  tally_entries-moved es q v (no_holdings targets),
  no_holdings-empty q v targets,
  add_comm (pos 0) (moved es q v),
  add_zero (moved es q v),
)

-- Over rows and reports of the promos that are recomputed, the recomputation does not raise, and for
-- every promo and every holder the recomputed `remaining` is the sum of what the ledger's rows and
-- the tournaments' reports move in and out of that holder's stock, in whatever order they come: an
-- intake and an assignment received add, an assignment given, a distribution and a report take away.
pub aggregate-balance :
    (targets : List String) (es : List PromoLedgerEntry) (as_ : List Attribution) (q v : String)
    → are_known targets es as_ ≡ true
    → (hs : Holdings) × (aggregate targets es as_ ≡ some hs)
      × ((holding_of q v hs).remaining ≡ moved es q v +ℤ reported as_ q v)
aggregate-balance targets es as_ q v known =
    (tally targets es as_, aggregate-tally targets es as_ known, tally-balance targets es as_ q v)
