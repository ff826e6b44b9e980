-- ===== src/Pricing/Floats.antt =====
-- What the code does with a `float64`: the machine's operations are parameters.
use go_book.Base.{Bool}
use go_book.Base.Int.{ℤ}

pub record Floats (F : Type 0) : Type 0 where
  -- `float64(n)`, also for the constants of the source that are whole numbers
  pub of_int : ℤ → F
  pub add : F → F → F
  pub sub : F → F → F
  pub mul : F → F → F
  pub div : F → F → F
  pub negate : F → F
  -- `a < b` and `a <= b`; both fail on a NaN
  pub lt : F → F → Bool
  pub le : F → F → Bool
  -- `math.Exp`
  pub exp : F → F
  -- `int64(math.Round(a))`
  pub round_int : F → ℤ
