-- ===== src/Prelude/Rows.antt =====
-- Tables as lists of rows: the first row that a test finds, and updates of the rows that it finds.
use mathlib.Core.Path.{◌≡◌, refl, sym, ap, ◌∙◌}
use mathlib.Core.Bool.{Bool, true, ◌&&◌}
use mathlib.Core.Option.{Option, none, some}
use mathlib.Core.Logic.{inl, inr}
use mathlib.Core.List.{List, [], ◌∷◌, ◌++◌}
use native.Mathlib.Omega.{arith}
use archon_vibe.Prelude.Tests.{if◌then◌else◌, Bool-cases, some-injective}

module _ {ℓ} {A : Type ℓ} where
  -- `SELECT ... WHERE p`, the first row
  unfoldable pub find : (A → Bool) → List A → Option A
  find p [] = none
  find p (x ∷ xs) = if p x then some x else find p xs

  -- `UPDATE ... WHERE p`
  unfoldable pub update : (A → Bool) → (A → A) → List A → List A
  update p f [] = []
  update p f (x ∷ xs) = (if p x then f x else x) ∷ update p f xs

  -- `all(p(x) for x in xs)`
  unfoldable pub every : (A → Bool) → List A → Bool
  every p [] = true
  every p (x ∷ xs) = p x && every p xs

  pub find-holds : (p : A → Bool) (xs : List A) (x : A) → find p xs ≡ some x → p x ≡ true
  unfolding find
  find-holds p [] x h = ground arith
  find-holds p (y ∷ ys) x h = ground (arith, find-holds p ys x)

  pub every-append :
      (p : A → Bool) (xs ys : List A) → every p (xs ++ ys) ≡ (every p xs && every p ys)
  unfolding every
  every-append p [] ys = refl
  every-append p (x ∷ xs) ys = ground (arith, every-append p xs ys)

  -- A search that found a row finds what an update of that row puts in its place.
  pub find-update :
      (p q : A → Bool) (found new : A) (xs : List A)
      → p new ≡ true
      → q found ≡ true
      → find p xs ≡ some found
      → find p (update q (λ x. new) xs) ≡ some new
  unfolding find update
  find-update p q found new [] k j h = ground (arith, h)
  find-update p q found new (x ∷ xs) k j h = elim (Bool-cases (p x)) [
    | inl hit ↦
        ground
          (arith, some-injective (sym (ap (λ b. if b then some x else find p xs) hit) ∙ h), j, k)
    | inr miss ↦ ground (arith, miss, h, k, find-update p q found new xs k j)
  ]

  -- Rows that are added come after the one that is found.
  pub find-append :
      (p : A → Bool) (xs ys : List A) (x : A) → find p xs ≡ some x → find p (xs ++ ys) ≡ some x
  unfolding find
  find-append p [] ys x h = ground (arith, h)
  find-append p (z ∷ zs) ys x h = ground (arith, h, find-append p zs ys x)
