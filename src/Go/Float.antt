-- ===== src/Go/Float.antt =====
-- `float64`: the type and the operations that the services apply to it.
use devflow_pipeline.Prelude.{ℕ, String, Bool, ℤ}

pub record Float64 : Type 1 where
  pub Float : Type 0
  -- `<`, which is false on a NaN
  pub lt : Float → Float → Bool
  pub of_ℕ : ℕ → Float
  -- `float64(n)` and `int64(x)`
  pub of_ℤ : ℤ → Float
  pub to_int64 : Float → ℤ
  pub div : Float → Float → Float
  -- `fmt.Sprintf("%g", x)`
  pub ftoa : Float → String
