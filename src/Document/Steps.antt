-- ===== src/Document/Steps.antt =====
-- What a chain of the tools' steps ensures of its result.
use mathlib.Core.Path.{subst}
use ouf_api_gateway.Base.{
  Bool, true, false, require, Outcome, ok, raised, ok-injective, ◌≡◌, refl, arith, Yields,
}
use ouf_api_gateway.Document.{ToolError, ◌>>=◌}

-- `Yields` as a record, for which the steps of a chain are found from the goal.
pub record Ensures {A : Type 0} (P : A → Type 0) (r : Outcome ToolError A) : Type 0 where
  pub yields : Yields P r

pub Ensures-bind :
    {A B : Type 0} {P : B → Type 0} {m : Outcome ToolError A} {f : A → Outcome ToolError B}
    → ((a : A) → m ≡ ok a → Ensures P (f a))
    → Ensures P (m >>= f)
unfolding ◌>>=◌
Ensures-bind {m = ok a} h = h a refl
Ensures-bind {m = raised e} h = record { yields = tt }

pub Ensures-ok : {A : Type 0} {P : A → Type 0} {a : A} → P a → Ensures P (ok a)
Ensures-ok h = record { yields = h }

pub of-Ensures :
    {A : Type 0} (P : A → Type 0) (r : Outcome ToolError A) (a : A) → Ensures P r → r ≡ ok a → P a
of-Ensures P (ok b) a h q = subst P (ok-injective q) h.yields
of-Ensures P (raised e) a h q = absurd (ground arith)

-- The first step of a chain that returns, and the rest of it.
pub then-ok :
    {A B : Type 0} (m : Outcome ToolError A) (f : A → Outcome ToolError B) {b : B}
    → (m >>= f) ≡ ok b
    → (a : A) × (m ≡ ok a) × (f a ≡ ok b)
unfolding ◌>>=◌
then-ok (ok a) f h = (a, refl, h)
then-ok (raised e) f h = absurd (ground arith)

-- A test that goes through.
pub Ensures-require :
    {P : Unit {0} → Type 0} (b : Bool) (e : ToolError) → (b ≡ true → P tt) → Ensures P (require b e)
Ensures-require true e h = record { yields = h refl }
Ensures-require false e h = record { yields = tt }
