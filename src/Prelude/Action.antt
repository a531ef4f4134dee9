-- ===== src/Prelude/Action.antt =====
-- A handler over a database whose statements commit one by one: what was written before a raise
-- stays written.
use Prim.Native.Nat.{ℕ}
use Prim.Native.String.{String}
use mathlib.Core.Bool.{Bool}
use mathlib.Core.Option.{Option}
use archon_vibe.Prelude.Outcome
use archon_vibe.Prelude.Outcome.{Outcome, returned, raised}

abbrev pub Action : Type 0 → Type 0 → Type 0
Action S A = S → S × Outcome A

module _ {S A : Type 0} where
  abbrev pub settled : Outcome A → Action S A
  settled o s = (s, o)

  abbrev pub pass : A → Action S A
  pass a s = (s, returned a)

  abbrev pub reads : (S → A) → Action S A
  reads f s = (s, returned (f s))

abbrev pub writes : {S : Type 0} → (S → S) → Action S (Unit {0})
writes f s = (f s, returned tt)

infixl 5 ◌>>=◌ ◌>>◌
abbrev pub ◌>>=◌ : {S A B : Type 0} → Action S A → (A → Action S B) → Action S B
◌>>=◌ m k s =
    let (after, o) = m s in elim o [ raised e ↦ (after, raised e) | returned a ↦ k a after ]

abbrev pub ◌>>◌ : {S B : Type 0} → Action S (Unit {0}) → Action S B → Action S B
m >> k = m >>= λ _. k

abbrev pub raise_if : {S : Type 0} → Bool → ℕ → String → Action S (Unit {0})
raise_if test status detail = settled (Outcome.raise_if test status detail)

abbrev pub given : {S A : Type 0} → Option A → ℕ → String → Action S A
given o status detail = settled (Outcome.given o status detail)
