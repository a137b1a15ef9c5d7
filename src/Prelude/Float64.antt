-- ===== src/Prelude/Float64.antt =====
-- The operations of float64 that the sources use. `of_nat` is the conversion from an integer, `seconds`
-- that of a duration in nanoseconds (`Duration.Seconds`), `single` rounds to a float32.
use Prim.Native.Nat.{ℕ}
use mathlib.Core.Bool.{Bool}

pub record Floats : Type 1 where
  pub Float : Type 0
  pub of_nat : ℕ → Float
  pub seconds : ℕ → Float
  pub single : Float → Float
  pub add : Float → Float → Float
  pub sub : Float → Float → Float
  pub mul : Float → Float → Float
  pub div : Float → Float → Float
  pub neg : Float → Float
  pub exp2 : Float → Float
  pub lesser : Float → Float → Float
  pub less : Float → Float → Bool
  pub less_eq : Float → Float → Bool
  pub equal : Float → Float → Bool
