-- ===== src/Promo.antt =====
-- backend/src/promo_stock.py: the stock of each holder of a promo, recomputed from the ledger and
-- from what tournaments report as handed out.
pub mod Tally
pub mod Balance
pub mod Conservation
pub mod Members
use archon_vibe.Prelude.{
  String, Bool, Option, none, some, List, [], ◌∷◌, ◌==◌, string_eq, given_text, if◌then◌else◌,
}
use archon_vibe.Models.Users.{Instant}
use archon_vibe.Prelude.Int.{ℤ, pos, ◌+ℤ◌, ◌-ℤ◌}
use archon_vibe.Prelude.Dict.{Dict, lookup, insert}

pub record PromoHolding : Type 0 where
  pub assigned : ℤ
  pub remaining : ℤ

abbrev pub no_holding : PromoHolding
no_holding = record { assigned = pos 0; remaining = pos 0 }

pub data PromoLedgerKind : Type 0 where
  intake assignment distribution : PromoLedgerKind

pub record PromoLedgerEntry : Type 0 where
  pub uid : String
  pub kind : PromoLedgerKind
  pub promo_uid : String
  pub qty : ℤ
  pub from_uid : String
  pub to_uid : Option String
  pub note : String
  pub happened_at : Instant
  pub created_by : String
  pub created_at : Instant

-- `promo_uid -> holder_uid -> aggregate`
abbrev pub Holdings : Type 0
Holdings = Dict String (Dict String PromoHolding)

abbrev pub holders : String → Holdings → Dict String PromoHolding
holders p hs = elim (lookup p hs) [ none ↦ [] | some d ↦ d ]

abbrev pub holding_in : String → Dict String PromoHolding → PromoHolding
holding_in u d = elim (lookup u d) [ none ↦ no_holding | some h ↦ h ]

abbrev pub holding_of : String → String → Holdings → PromoHolding
holding_of p u hs = holding_in u (holders p hs)

-- `hold(p, u)`, which adds an empty holding where the promo has none for the holder, and the update
-- of what it returns; `none` where the promo is not among those that are recomputed, which raises.
unfoldable pub change : String → String → (PromoHolding → PromoHolding) → Holdings → Option Holdings
unfolding lookup insert
change p u f hs = elim (lookup p hs) [
  | none ↦ none
  | some d ↦ some (insert p (insert u (f (holding_in u d)) d) hs)
]

-- What follows a step that may raise.
abbrev pub and_then : Option Holdings → (Holdings → Option Holdings) → Option Holdings
and_then none step = none
and_then (some hs) step = step hs

abbrev pub credit : ℤ → PromoHolding → PromoHolding
credit qty h = record { assigned = h.assigned +ℤ qty; remaining = h.remaining +ℤ qty }

abbrev pub debit : ℤ → PromoHolding → PromoHolding
debit qty h = record h { remaining = h.remaining -ℤ qty }

abbrev pub text_of : Option String → String
text_of none = ""
text_of (some s) = s

-- One round of the loop over the ledger.
unfoldable pub apply_entry : PromoLedgerKind → PromoLedgerEntry → Holdings → Option Holdings
unfolding change
apply_entry PromoLedgerKind.intake e hs = change e.promo_uid e.from_uid (credit e.qty) hs
apply_entry PromoLedgerKind.assignment e hs =
    and_then
      (if given_text e.to_uid
        then change e.promo_uid (text_of e.to_uid) (credit e.qty) hs
        else some hs)
      (change e.promo_uid e.from_uid (debit e.qty))
apply_entry PromoLedgerKind.distribution e hs = change e.promo_uid e.from_uid (debit e.qty) hs

unfoldable pub apply_entries : List PromoLedgerEntry → Holdings → Option Holdings
unfolding apply_entry
apply_entries [] hs = some hs
apply_entries (e ∷ es) hs = and_then (apply_entry e.kind e hs) (apply_entries es)

-- What a live tournament reports: a promo, the holder it came from, a quantity.
pub record Attribution : Type 0 where
  pub promo_uid : String
  pub holder_uid : String
  pub qty : ℤ

unfoldable pub apply_attributions : List Attribution → Holdings → Option Holdings
unfolding change
apply_attributions [] hs = some hs
apply_attributions (a ∷ as_) hs =
    and_then (change a.promo_uid a.holder_uid (debit a.qty) hs) (apply_attributions as_)

-- The empty aggregates of the promos that are recomputed.
unfoldable pub no_holdings : List String → Holdings
no_holdings [] = []
no_holdings (p ∷ ps) = (p, []) ∷ no_holdings ps

-- The loop over the ledger, then the loop over the reports; `none` where a row raises.
unfoldable pub aggregate : List String → List PromoLedgerEntry → List Attribution → Option Holdings
unfolding apply_entries apply_attributions no_holdings
aggregate targets entries attributions =
    and_then (apply_entries entries (no_holdings targets)) (apply_attributions attributions)
