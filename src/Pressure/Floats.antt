-- ===== src/Pressure/Floats.antt =====
-- The Python floats of tools/operational_pressure.py: a type with its comparison, the quotient of
-- two integers and the literals of the source. `IsOrdered` is what IEEE 754 gives for them.
use ouf_api_gateway.Base.{ℕ, ◌≡◌, Bool, true, false}

pub record Floats : Type 1 where
  pub Float : Type 0
  pub le : Float → Float → Bool
  pub is_finite : Float → Bool
  pub quotient : ℕ → ℕ → Float
  pub zero : Float
  pub tenth : Float
  pub half : Float
  pub seven_tenths : Float
  pub nine_tenths : Float
  pub one : Float

-- A comparison is transitive, and the literals stand in their order.
pub record IsOrdered (F : Floats) : Type 0 where
  pub trans : (a b c : F.Float) → F.le a b ≡ true → F.le b c ≡ true → F.le a c ≡ true
  pub tenth-lt-half : F.le F.half F.tenth ≡ false
  pub seven-lt-nine : F.le F.nine_tenths F.seven_tenths ≡ false
