-- ===== src/Base/Raising.antt =====
-- A call that returns or raises. `Outcome E A` is the result, with the exceptions as a data type
-- of the component; `Exec S E A` also keeps the state that the call leaves behind.
use mathlib.Core.Path.{◌≡◌, refl}
use native.Mathlib.Omega.{arith}
use mathlib.Core.Bool.{Bool, true, false}
use mathlib.Core.Logic.{◌⊎◌, inl, inr}

pub data Outcome {ℓ κ} (E : Type ℓ) (A : Type κ) : Type (ℓ ⊔ κ) where
  ok : A → Outcome E A
  raised : E → Outcome E A

module _ {ℓ κ} {E : Type ℓ} {A B : Type κ} where
  infixl 5 ◌>>=◌
  abbrev pub ◌>>=◌ : Outcome E A → (A → Outcome E B) → Outcome E B
  ok a >>= f = f a
  raised e >>= f = raised e

module _ {ℓ κ} {E : Type ℓ} {B : Type κ} where
  infixl 5 ◌>>◌
  -- `if not test: raise e`, and then the rest.
  abbrev pub ◌>>◌ : Outcome E (Unit {0}) → Outcome E B → Outcome E B
  ok a >> k = k
  raised e >> k = raised e

module _ {ℓ} {E : Type ℓ} where
  abbrev pub require : Bool → E → Outcome E (Unit {0})
  require true e = ok tt
  require false e = raised e

  -- `if test: raise e`
  abbrev pub forbid : Bool → E → Outcome E (Unit {0})
  forbid true e = raised e
  forbid false e = ok tt

pub Outcome-cases {ℓ κ} :
    {E : Type ℓ} {A : Type κ} (r : Outcome E A)
    → ((a : A) × (r ≡ ok a)) ⊎ ((e : E) × (r ≡ raised e))
Outcome-cases (ok a) = inl (a, refl)
Outcome-cases (raised e) = inr (e, refl)

-- Total correctness: the call returns, and what it returns satisfies `P`.
abbrev pub Returns {ℓ κ} : {E : Type ℓ} {A : Type κ} → (A → Type 0) → Outcome E A → Type 0
Returns P (ok a) = P a
Returns P (raised e) = ⊥

-- Partial correctness: what the call returns, if it returns, satisfies `P`.
abbrev pub Yields {ℓ κ} : {E : Type ℓ} {A : Type κ} → (A → Type 0) → Outcome E A → Type 0
Yields P (ok a) = P a
Yields P (raised e) = Unit

pub ok-injective {ℓ κ} :
    {E : Type ℓ} {A : Type κ} {a b : A} → ◌≡◌ {A = Outcome E A} (ok a) (ok b) → a ≡ b
ok-injective q = ground arith

pub require-true {ℓ} :
    {E : Type ℓ} (b : Bool) (e : E) (u : Unit {0}) → require b e ≡ ok u → b ≡ true
require-true true e u h = refl
require-true false e u h = absurd (ground arith)

pub forbid-false {ℓ} :
    {E : Type ℓ} (b : Bool) (e : E) (u : Unit {0}) → forbid b e ≡ ok u → b ≡ false
forbid-false true e u h = absurd (ground arith)
forbid-false false e u h = refl
