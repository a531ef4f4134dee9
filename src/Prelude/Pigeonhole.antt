-- ===== src/Prelude/Pigeonhole.antt =====
-- A dict whose keys all stand in a list has at most as many entries as the list has elements.
use archon_vibe.Prelude.{
  ◌+◌, ◌≤◌, ◌≡◌, ◌≢◌, true, none, List, [], ◌∷◌, arith, length, member, Eq, ◌==◌, ==-iff,
  if◌then◌else◌, Bool-cases, inl, inr,
}
use archon_vibe.Prelude.Dict.{Dict, lookup, insert, IsDistinct, keys}

module _ {ℓ} {K : Type ℓ} ⦃e : Eq K⦄ where
  remove_one : K → List K → List K
  remove_one k [] = []
  remove_one k (j ∷ ks) = if k == j then ks else j ∷ remove_one k ks

  length-remove_one :
      (k : K) (ks : List K) → member k ks ≡ true → length (remove_one k ks) + 1 ≡ length ks
  unfolding remove_one
  length-remove_one k [] h = cc
  length-remove_one k (j ∷ ks) h = ground (arith, length-remove_one k ks)

  member-remove_one :
      (j k : K) (ks : List K) → j ≢ k → member j ks ≡ true → member j (remove_one k ks) ≡ true
  unfolding remove_one
  member-remove_one j k [] ne h = h
  member-remove_one j k (i ∷ ks) ne h =
      ground (arith, ==-iff k i, ==-iff j i, member-remove_one j k ks ne)

  unfoldable pub AllIn : List K → List K → Type 0
  AllIn ks [] = Unit
  AllIn ks (j ∷ js) = (member j ks ≡ true) × AllIn ks js

module _ {ℓ κ} {K : Type ℓ} {V : Type κ} ⦃e : Eq K⦄ where
  absent-AllIn :
      (k : K) (ks : List K) (d : Dict K V)
      → lookup k d ≡ none
      → AllIn ks (keys d)
      → AllIn (remove_one k ks) (keys d)
  unfolding lookup AllIn
  absent-AllIn k ks [] h a = tt
  absent-AllIn k ks ((j, v) ∷ d) h a = elim (Bool-cases (j == k)) [
    | inl same ↦ absurd (ground (arith, same))
    | inr other ↦ (
      member-remove_one j k ks (ground (arith, ==-iff j k)) a.0,
      absent-AllIn k ks d (ground arith) a.1,
    )
  ]

  pub length-le-of-AllIn :
      (ks : List K) (d : Dict K V) → IsDistinct d → AllIn ks (keys d) → length d ≤ length ks
  unfolding IsDistinct AllIn
  length-le-of-AllIn ks [] h a = omega arith
  length-le-of-AllIn ks ((k, v) ∷ d) h a =
      let smaller = length-le-of-AllIn (remove_one k ks) d h.1 (absent-AllIn k ks d h.0 a.1) in
      omega (arith, length-remove_one k ks a.0)

  pub AllIn-insert :
      (ks : List K) (k : K) (v : V) (d : Dict K V)
      → member k ks ≡ true
      → AllIn ks (keys d)
      → AllIn ks (keys (insert k v d))
  unfolding insert AllIn
  AllIn-insert ks k v [] h a = (h, tt)
  AllIn-insert ks k v ((j, w) ∷ d) h a = ground (arith, AllIn-insert ks k v d h a.1)
