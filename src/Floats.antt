-- ===== src/Floats.antt =====
-- Python's floats, which are not modelled: the operations that the CVSS code applies to them, and
-- what it relies on. A client takes one such record, so nothing is assumed that is not written here.
pub mod Arithmetic
pub mod Decimals
pub mod Sample
use cvedeck.Prelude.{ℕ, ◌≡◌, Bool, true, leb}

pub record Floats : Type 1 where
  pub F : Type 0
  -- the literal n / 10, such as `4.0` for 40
  pub tenths : ℕ → F
  -- `x <= y`
  pub leq : F → F → Bool
  -- the order of the literals is that of the numbers, and `<=` chains
  pub leq_tenths : (m n : ℕ) → leq (tenths m) (tenths n) ≡ leb m n
  pub leq_trans : (x y z : F) → leq x y ≡ true → leq y z ≡ true → leq x z ≡ true
