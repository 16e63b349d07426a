-- ===== src/Floats/Arithmetic.antt =====
-- Python's float arithmetic, as cvss.py uses it: a record of operations with nothing assumed of them.
use cvedeck.Prelude.{ℕ, Bool}
use cvedeck.Prelude.Int.{ℤ}

pub record Arithmetic : Type 1 where
  pub F : Type 0
  -- `decimal n k` is the literal n / 10^k, such as `0.85` for 85 and 2
  pub decimal : ℕ → ℕ → F
  pub plus : F → F → F
  pub minus : F → F → F
  pub times : F → F → F
  pub over : F → F → F
  -- `x ** n`
  pub power : F → ℕ → F
  -- `x < y` and `x <= y`
  pub less : F → F → Bool
  pub leq : F → F → Bool
  -- `math.floor`, `math.ceil`, and an int as a float
  pub floor : F → ℤ
  pub ceil : F → ℤ
  pub of_int : ℤ → F
