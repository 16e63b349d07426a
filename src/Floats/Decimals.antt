-- ===== src/Floats/Decimals.antt =====
-- Decimals that are not negative, with eight digits behind the point: an arithmetic for the examples,
-- in which a difference stops at 0.
use cvedeck.Prelude.{ℕ, zero, suc, ◌+◌, ◌-◌, ◌*◌, ◌/◌, ◌^◌, ltb, leb}
use cvedeck.Prelude.Int.{ℤ, pos, negsuc}
use cvedeck.Floats.Arithmetic.{Arithmetic}

abbrev unit : ℕ
unit = 100000000

abbrev raise : ℕ → ℕ → ℕ
raise x zero = unit
raise x (suc n) = raise x n * x / unit

abbrev whole : ℤ → ℕ
whole (pos n) = n * unit
whole (negsuc n) = 0

abbrev pub decimals : Arithmetic
decimals = record {
  F = ℕ;
  decimal = λ n k. n * unit / 10 ^ k;
  plus = λ x y. x + y;
  minus = λ x y. x - y;
  times = λ x y. x * y / unit;
  over = λ x y. x * unit / y;
  power = raise;
  less = ltb;
  leq = leb;
  floor = λ x. pos (x / unit);
  ceil = λ x. pos ((x + (unit - 1)) / unit);
  of_int = whole;
}
