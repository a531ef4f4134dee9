-- ===== src/Prelude/Outcome.antt =====
-- What a handler of the web server ends with: a value, or an `HTTPException` that it raises.
use Prim.Native.Nat.{ℕ}
use Prim.Native.String.{String}
use mathlib.Core.Path.{◌≡◌, refl}
use mathlib.Core.Logic.{◌⊎◌, inl, inr}
use mathlib.Core.Bool.{Bool, true, false}
use mathlib.Core.Option.{Option, none, some}

pub record HttpException : Type 0 where
  pub status_code : ℕ
  pub detail : String

pub data Outcome {ℓ} (A : Type ℓ) : Type ℓ where
  returned : A → Outcome A
  raised : HttpException → Outcome A

-- `raise HTTPException(status_code, detail)`
abbrev pub raise {ℓ} : {A : Type ℓ} → ℕ → String → Outcome A
raise status detail = raised (record { status_code = status; detail = detail })

infixl 5 ◌>>=◌ ◌>>◌
abbrev pub ◌>>=◌ {ℓ κ} : {A : Type ℓ} {B : Type κ} → Outcome A → (A → Outcome B) → Outcome B
returned a >>= f = f a
raised e >>= f = raised e

abbrev pub ◌>>◌ {ℓ} : {B : Type ℓ} → Outcome (Unit {0}) → Outcome B → Outcome B
m >> k = m >>= λ _. k

-- `if test: raise HTTPException(...)`
abbrev pub raise_if : Bool → ℕ → String → Outcome (Unit {0})
raise_if true status detail = raise status detail
raise_if false status detail = returned tt

-- `if not x: raise HTTPException(...)` on an optional value
abbrev pub given {ℓ} : {A : Type ℓ} → Option A → ℕ → String → Outcome A
given none status detail = raise status detail
given (some a) status detail = returned a

pub returned-injective {ℓ} : {A : Type ℓ} {a b : A} → returned a ≡ returned b → a ≡ b
returned-injective h = cc

abbrev pub is_refused {ℓ} : {A : Type ℓ} → Outcome A → Bool
is_refused (returned a) = false
is_refused (raised e) = true

pub Outcome-cases {ℓ} :
    {A : Type ℓ} (o : Outcome A) → ((a : A) × (o ≡ returned a)) ⊎ is_refused o ≡ true
Outcome-cases (returned a) = inl (a, refl)
Outcome-cases (raised e) = inr refl
