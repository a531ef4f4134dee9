-- ===== src/Tests/Stock.antt =====
-- A box of twenty promos taken in by one holder, half of it handed on, and a tournament's report.
use archon_vibe.Prelude.{Option, String, string_eq, ◌≡◌, refl, none, some, List, [], ◌∷◌}
use archon_vibe.Prelude.Int.{ℤ, pos, ◌+ℤ◌, ◌-ℤ◌}
use archon_vibe.Prelude.Dict.{Dict, lookup}
use archon_vibe.Prelude.Rows.{every}
use archon_vibe.Promo.{
  Holdings, PromoLedgerKind, PromoLedgerEntry, Attribution, aggregate, apply_entries, apply_entry,
  change, no_holdings, holding_of, holders,
}
use archon_vibe.Promo.Balance.{moved, reported, aggregate-balance}
use archon_vibe.Promo.Conservation.{stock, brought_in, handed_out, aggregate-conserves}
use archon_vibe.Promo.Members.{IsDuplicateFree}

abbrev entry : String → PromoLedgerKind → ℤ → String → Option String → PromoLedgerEntry
entry uid kind qty from_uid to_uid = record {
  uid = uid;
  kind = kind;
  promo_uid = "p";
  qty = qty;
  from_uid = from_uid;
  to_uid = to_uid;
  note = "";
  happened_at = 0;
  created_by = "carol";
  created_at = 0;
}

abbrev ledger : List PromoLedgerEntry
ledger =
    entry "1" PromoLedgerKind.intake (pos 20) "ic" none
    ∷ entry "2" PromoLedgerKind.assignment (pos 10) "ic" (some "nc")
    ∷ []

abbrev reports : List Attribution
reports = record { promo_uid = "p"; holder_uid = "nc"; qty = pos 4 } ∷ []

aggregate-balance_example :
    (hs : Holdings) × (aggregate ("p" ∷ []) ledger reports ≡ some hs)
    × ((holding_of "p" "nc" hs).remaining ≡ pos 6)
unfolding moved reported every ◌+ℤ◌ ◌-ℤ◌
aggregate-balance_example = aggregate-balance ("p" ∷ []) ledger reports "p" "nc" refl

aggregate-conserves_example :
    (hs : Holdings) × (aggregate ("p" ∷ []) ledger reports ≡ some hs)
    × (stock (holders "p" hs) ≡ pos 16)
unfolding brought_in handed_out every ◌+ℤ◌ ◌-ℤ◌
aggregate-conserves_example = aggregate-conserves ("p" ∷ []) ledger reports "p" refl

-- A row of a promo that is not recomputed raises.
other_promo_raises : aggregate ("q" ∷ []) ledger [] ≡ none
unfolding aggregate apply_entries apply_entry change no_holdings lookup
other_promo_raises = refl

one_promo : IsDuplicateFree ("p" ∷ [])
unfolding IsDuplicateFree
one_promo = (refl, tt)

abbrev old_stock : Dict String ℤ
old_stock = ("p", pos 1) ∷ ("q", pos 2) ∷ []
