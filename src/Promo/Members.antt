-- ===== src/Promo/Members.antt =====
-- The second half of `_recompute` (backend/src/promo_stock.py): the stock that each member record
-- carries.
use archon_vibe.Prelude.{
  String, ◌≡◌, refl, Bool, true, false, given_text, Option, none, some, List, [], ◌∷◌, arith, ◌==◌,
  string_eq, ==-iff, All, member, Option-cases, inl, inr, if◌then◌else◌,
}
use archon_vibe.Prelude.Int.{ℤ}
use archon_vibe.Prelude.Dict.{
  Dict, lookup, insert, remove, IsDistinct, lookup-insert, lookup-remove, insert-IsDistinct,
}
use archon_vibe.Promo.{
  PromoHolding, PromoLedgerKind, PromoLedgerEntry, Holdings, holders, holding_of, credit, debit,
  text_of, Attribution, no_holdings,
}
use archon_vibe.Promo.Tally.{entered, tally_entry, tally_entries, tally_attributions, tally}

-- `user_stocks[user_uid]`, empty where the user has none
abbrev pub stocks_of : String → Dict String (Dict String ℤ) → Dict String ℤ
stocks_of u us = elim (lookup u us) [ none ↦ [] | some d ↦ d ]

-- The inner loop, over the holders of one promo.
unfoldable pub note_holders :
    String → Dict String PromoHolding → Dict String (Dict String ℤ) → Dict String (Dict String ℤ)
unfolding lookup insert
note_holders p [] us = us
note_holders p ((u, h) ∷ d) us =
    note_holders p d (insert u (insert p h.remaining (stocks_of u us)) us)

unfoldable pub note_promos : Holdings → Dict String (Dict String ℤ) → Dict String (Dict String ℤ)
unfolding note_holders
note_promos [] us = us
note_promos ((p, d) ∷ hs) us = note_promos hs (note_holders p d us)

-- `user_stocks`, before the members that hold a stale key are added with nothing.
abbrev pub user_stocks : Holdings → Dict String (Dict String ℤ)
user_stocks hs = note_promos hs []

-- `merged`: each recomputed promo is set, or dropped where the member holds none of it.
unfoldable pub merge_stock : List String → Dict String ℤ → Dict String ℤ → Dict String ℤ
unfolding lookup insert remove
merge_stock [] stocks merged = merged
merge_stock (p ∷ ps) stocks merged =
    merge_stock ps stocks
      (elim (lookup p stocks) [ some q ↦ insert p q merged | none ↦ remove p merged ])

abbrev pub left : Option PromoHolding → Option ℤ
left none = none
left (some h) = some h.remaining

lookup-stocks_of-insert :
    (u v p q : String) (x : ℤ) (us : Dict String (Dict String ℤ))
    → lookup q (stocks_of v (insert u (insert p x (stocks_of u us)) us)) ≡ (
        if u == v
        then if p == q then some x else lookup q (stocks_of v us)
        else lookup q (stocks_of v us))
lookup-stocks_of-insert u v p q x us = ground (
  arith,
  ==-iff u v,
  ==-iff p q,
  lookup-insert v u (insert p x (stocks_of u us)) us,
  lookup-insert q p x (stocks_of u us),
)

note_holders-lookup :
    (p q v : String) (d : Dict String PromoHolding) (us : Dict String (Dict String ℤ))
    → IsDistinct d
    → lookup q (stocks_of v (note_holders p d us)) ≡ (
        if p == q
        then elim (lookup v d) [ some h ↦ some h.remaining | none ↦ lookup q (stocks_of v us) ]
        else lookup q (stocks_of v us))
unfolding note_holders IsDistinct lookup
note_holders-lookup p q v [] us k = ground arith
note_holders-lookup p q v ((u, h) ∷ d) us (new, k) = ground (
  arith,
  ==-iff u v,
  ==-iff p q,
  note_holders-lookup p q v d (insert u (insert p h.remaining (stocks_of u us)) us) k,
  lookup-stocks_of-insert u v p q h.remaining us,
)

-- No holder stands twice under a promo, and no promo twice, as in the dictionaries of the source.
unfoldable pub IsTable : Holdings → Type 0
IsTable hs = IsDistinct hs × All (λ e. IsDistinct (e.1)) hs

note_promos-lookup :
    (q v : String) (hs : Holdings) (us : Dict String (Dict String ℤ))
    → IsDistinct hs
    → All (λ e. IsDistinct (e.1)) hs
    → lookup q (stocks_of v (note_promos hs us)) ≡ elim (lookup v (holders q hs)) [
      | some h ↦ some h.remaining
      | none ↦ lookup q (stocks_of v us)
    ]
unfolding note_promos IsDistinct lookup
note_promos-lookup q v [] us k ks = refl
note_promos-lookup q v ((p, d) ∷ hs) us (new, k) (j, js) = ground (
  arith,
  ==-iff p q,
  note_promos-lookup q v hs (note_holders p d us) k js,
  note_holders-lookup p q v d us j,
)

merge_stock-lookup :
    (ps : List String) (stocks merged : Dict String ℤ) (q : String)
    → lookup q (merge_stock ps stocks merged)
      ≡ (if member q ps then lookup q stocks else lookup q merged)
unfolding merge_stock
merge_stock-lookup [] stocks merged q = refl
merge_stock-lookup (p ∷ ps) stocks merged q = elim (Option-cases (lookup p stocks)) [
  | inl e ↦ ground (
    arith,
    e,
    ==-iff q p,
    ==-iff p q,
    merge_stock-lookup ps stocks (remove p merged) q,
    lookup-remove q p merged,
  )
  | inr (x, e) ↦ ground (
    arith,
    e,
    ==-iff q p,
    ==-iff p q,
    merge_stock-lookup ps stocks (insert p x merged) q,
    lookup-insert q p x merged,
  )
]

-- Every write of the recomputation keeps the tables without double keys.
All-insert :
    (p : String) (d : Dict String PromoHolding) (hs : Holdings)
    → IsDistinct d
    → All (λ e. IsDistinct (e.1)) hs
    → All (λ e. IsDistinct (e.1)) (insert p d hs)
unfolding insert
All-insert p d [] k ks = (k, tt)
All-insert p d ((q, c) ∷ hs) k (j, js) = ground (arith, All-insert p d hs k js)

holders-IsDistinct :
    (p : String) (hs : Holdings) → All (λ e. IsDistinct (e.1)) hs → IsDistinct (holders p hs)
unfolding lookup IsDistinct
holders-IsDistinct p [] ks = tt
holders-IsDistinct p ((q, c) ∷ hs) (j, js) = ground (arith, holders-IsDistinct p hs js)

entered-IsTable :
    (p u : String) (f : PromoHolding → PromoHolding) (hs : Holdings)
    → IsTable hs
    → IsTable (entered p u f hs)
unfolding entered IsTable
entered-IsTable p u f hs (k, ks) =
    let dk =
      insert-IsDistinct u (f (holding_of p u hs)) (holders p hs) (holders-IsDistinct p hs ks) in
    (insert-IsDistinct p _ hs k, All-insert p _ hs dk ks)

credited-IsTable :
    (b : Bool) (p u : String) (q : ℤ) (hs : Holdings)
    → IsTable hs
    → IsTable (if b then entered p u (credit q) hs else hs)
credited-IsTable true p u q hs t = entered-IsTable p u (credit q) hs t
credited-IsTable false p u q hs t = t

tally_entry-IsTable :
    (k : PromoLedgerKind) (e : PromoLedgerEntry) (hs : Holdings)
    → IsTable hs
    → IsTable (tally_entry k e hs)
unfolding tally_entry
tally_entry-IsTable PromoLedgerKind.intake e hs t =
    entered-IsTable e.promo_uid e.from_uid (credit e.qty) hs t
tally_entry-IsTable PromoLedgerKind.assignment e hs t =
    entered-IsTable e.promo_uid e.from_uid (debit e.qty) _
      (credited-IsTable (given_text e.to_uid) e.promo_uid (text_of e.to_uid) e.qty hs t)
tally_entry-IsTable PromoLedgerKind.distribution e hs t =
    entered-IsTable e.promo_uid e.from_uid (debit e.qty) hs t

tally_entries-IsTable :
    (es : List PromoLedgerEntry) (hs : Holdings) → IsTable hs → IsTable (tally_entries es hs)
unfolding tally_entries
tally_entries-IsTable [] hs t = t
tally_entries-IsTable (e ∷ es) hs t = tally_entries-IsTable es _ (tally_entry-IsTable e.kind e hs t)

tally_attributions-IsTable :
    (as_ : List Attribution) (hs : Holdings) → IsTable hs → IsTable (tally_attributions as_ hs)
unfolding tally_attributions
tally_attributions-IsTable [] hs t = t
tally_attributions-IsTable (a ∷ as_) hs t =
    tally_attributions-IsTable as_ _ (entered-IsTable a.promo_uid a.holder_uid (debit a.qty) hs t)

-- The promos that are recomputed are a set: none is named twice.
unfoldable pub IsDuplicateFree : List String → Type 0
IsDuplicateFree [] = Unit
IsDuplicateFree (p ∷ ps) = (member p ps ≡ false) × IsDuplicateFree ps

no_holdings-absent :
    (p : String) (ps : List String) → member p ps ≡ false → lookup p (no_holdings ps) ≡ none
unfolding no_holdings lookup
no_holdings-absent p [] h = refl
no_holdings-absent p (q ∷ ps) h = ground (arith, ==-iff p q, ==-iff q p, no_holdings-absent p ps)

no_holdings-IsTable : (ps : List String) → IsDuplicateFree ps → IsTable (no_holdings ps)
unfolding no_holdings IsTable IsDistinct IsDuplicateFree
no_holdings-IsTable [] k = (tt, tt)
no_holdings-IsTable (p ∷ ps) (k, ks) =
    let rest = no_holdings-IsTable ps ks in ((no_holdings-absent p ps k, rest.0), (tt, rest.1))

aggregate-IsTable :
    (targets : List String) (es : List PromoLedgerEntry) (as_ : List Attribution)
    → IsDuplicateFree targets
    → IsTable (tally targets es as_)
unfolding tally
aggregate-IsTable targets es as_ k =
    tally_attributions-IsTable as_ _ (tally_entries-IsTable es _ (no_holdings-IsTable targets k))

-- After a recomputation over rows of the recomputed promos a member's stock names, for each recomputed promo, exactly what the
-- member's holding of it has left, nothing where the member holds none of it (a stale entry is
-- dropped), and for every other promo what it named before.
pub merge_stock_lem :
    (targets : List String) (es : List PromoLedgerEntry) (as_ : List Attribution)
    (old : Dict String ℤ) (v q : String)
    → IsDuplicateFree targets
    → lookup q (merge_stock targets (stocks_of v (user_stocks (tally targets es as_))) old) ≡ (
        if member q targets
        then left (lookup v (holders q (tally targets es as_)))
        else lookup q old)
unfolding IsTable lookup
merge_stock_lem targets es as_ old v q k =
    let t = aggregate-IsTable targets es as_ k in
    ground (
      arith,
      merge_stock-lookup targets (stocks_of v (user_stocks (tally targets es as_))) old q,
      note_promos-lookup q v (tally targets es as_) [] t.0 t.1,
    )
