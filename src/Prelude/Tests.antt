-- ===== src/Prelude/Tests.antt =====
-- Boolean tests, the conditional, and equality as an interface.
use Prim.Native.Nat.{ℕ, compare, Ordering}
use Prim.Native.String.{String, ◌++◌ as text_append, compare as compare_text}
use mathlib.Core.Path.{◌≡◌, refl, ap}
use mathlib.Core.Logic.{◌↔◌, ◌⊎◌, inl, inr}
use mathlib.Core.Bool.{Bool, true, false}
use mathlib.Core.Option.{Option, none, some}
use native.Mathlib.Omega.{arith}
use text.Mathlib.Text.{◌==◌ as str_eq}
use text.Mathlib.TextEquality.{eq_iff}

abbrev pub ltb : ℕ → ℕ → Bool
ltb a b = elim (compare a b) [ Ordering.lt ↦ true | _ ↦ false ]

abbrev pub leb : ℕ → ℕ → Bool
leb a b = elim (compare a b) [ Ordering.gt ↦ false | _ ↦ true ]

abbrev pub nat_beq : ℕ → ℕ → Bool
nat_beq a b = elim (compare a b) [ Ordering.eq ↦ true | _ ↦ false ]

infix 1 if◌then◌else◌
abbrev pub if◌then◌else◌ {ℓ} : {A : Type ℓ} → Bool → A → A → A
if true then x else y = x
if false then x else y = y

pub nat_beq_iff : (a b : ℕ) → (nat_beq a b ≡ true) ↔ (a ≡ b)
nat_beq_iff a b = ground arith

pub Bool-cases : (b : Bool) → (b ≡ true) ⊎ (b ≡ false)
Bool-cases true = inl refl
Bool-cases false = inr refl

pub Option-cases {ℓ} : {A : Type ℓ} (o : Option A) → (o ≡ none) ⊎ ((a : A) × (o ≡ some a))
Option-cases none = inl refl
Option-cases (some a) = inr (a, refl)

-- Equality that decides the path type, as Python's `==` does on the values compared here.
pub record Eq {ℓ} (A : Type ℓ) : Type ℓ where
  pub equals : A → A → Bool
  pub equals_iff : (x y : A) → (equals x y ≡ true) ↔ (x ≡ y)

instance abbrev pub string_eq : Eq String
string_eq = record { equals = str_eq; equals_iff = eq_iff }

instance abbrev pub nat_eq : Eq ℕ
nat_eq = record { equals = nat_beq; equals_iff = nat_beq_iff }

-- The test `x == y`.
infix 50 ◌==◌
abbrev pub ◌==◌ {ℓ} : {A : Type ℓ} ⦃eq : Eq A⦄ → A → A → Bool
◌==◌ {A} ⦃eq⦄ x y = eq.equals x y

pub ==-iff {ℓ} : {A : Type ℓ} ⦃eq : Eq A⦄ (x y : A) → ((x == y) ≡ true) ↔ (x ≡ y)
==-iff ⦃eq⦄ = eq.equals_iff

pub ==-refl {ℓ} : {A : Type ℓ} ⦃eq : Eq A⦄ (x : A) → (x == x) ≡ true
==-refl ⦃eq⦄ x = (eq.equals_iff x x).1 refl

-- Equality of optional values, `None` included.
abbrev pub opt_beq {ℓ} : {A : Type ℓ} ⦃e : Eq A⦄ → Option A → Option A → Bool
opt_beq none none = true
opt_beq none (some b) = false
opt_beq (some a) none = false
opt_beq ⦃e⦄ (some a) (some b) = e.equals a b

abbrev pub is_some {ℓ} : {A : Type ℓ} → Option A → Bool
is_some none = false
is_some (some a) = true

abbrev pub is_none {ℓ} : {A : Type ℓ} → Option A → Bool
is_none none = true
is_none (some a) = false

-- `text or default` and `if text:`: the empty text counts as absent.
abbrev pub nonempty_text : String → Bool
nonempty_text s = elim (str_eq s "") [ true ↦ false | false ↦ true ]

-- `if text:` on an optional text.
abbrev pub given_text : Option String → Bool
given_text none = false
given_text (some s) = nonempty_text s

-- Concatenation of texts.
infixr 65 ◌<>◌
abbrev pub ◌<>◌ : String → String → String
s <> t = text_append s t

pub some-injective {ℓ} : {A : Type ℓ} {a b : A} → some a ≡ some b → a ≡ b
some-injective h = cc

pub opt_beq-holds {ℓ} : {A : Type ℓ} ⦃e : Eq A⦄ (a b : Option A) → opt_beq a b ≡ true → a ≡ b
opt_beq-holds none none h = refl
opt_beq-holds none (some b) h = ground (arith, h)
opt_beq-holds (some a) none h = ground (arith, h)
opt_beq-holds (some a) (some b) h = ap some ((==-iff a b).0 h)

-- `s < t`, by code points
abbrev pub text_ltb : String → String → Bool
text_ltb s t = elim (compare_text s t) [ Ordering.lt ↦ true | _ ↦ false ]
