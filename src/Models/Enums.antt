-- ===== src/Models/Enums.antt =====
-- What `StrEnum` gives a string enumeration: an equality, a member for a text, a text for a member.
use archon_vibe.Prelude.{
  ℕ, zero, suc, String, ◌≡◌, ap, Option, none, some, List, [], ◌∷◌, nat_beq, nat_beq_iff, Eq, ◌==◌,
  string_eq, if◌then◌else◌,
}

module _ {ℓ} {A : Type ℓ} where
  -- Equality of the members, by an injective numbering.
  abbrev pub eq_by : (index : A → ℕ) → ((a b : A) → index a ≡ index b → a ≡ b) → Eq A
  eq_by index injective = record {
    equals = λ a b. nat_beq (index a) (index b);
    equals_iff = λ a b. (
      λ h. injective a b ((nat_beq_iff (index a) (index b)).0 h),
      λ e. (nat_beq_iff (index a) (index b)).1 (ap index e),
    );
  }

  abbrev pub member_at : A → List (A × String) → ℕ → A
  member_at d [] n = d
  member_at d ((a, t) ∷ rest) zero = a
  member_at d ((a, t) ∷ rest) (suc n) = member_at d rest n

  -- `Enum(text)`: the member with this text, or `none` where Python raises `ValueError`.
  unfoldable pub of_value : List (A × String) → String → Option A
  of_value [] s = none
  of_value ((a, t) ∷ rest) s = if t == s then some a else of_value rest s

  -- `member.value`.
  unfoldable pub value_of : ⦃e : Eq A⦄ → List (A × String) → A → String
  value_of [] a = ""
  value_of ((b, t) ∷ rest) a = if b == a then t else value_of rest a
