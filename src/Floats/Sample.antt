-- ===== src/Floats/Sample.antt =====
-- Floats that are whole tenths: a value that meets the assumptions, for the examples.
use cvedeck.Prelude.{ℕ, ◌≡◌, refl, true, arith, leb}
use cvedeck.Floats.{Floats}

pub leb_trans : (x y z : ℕ) → leb x y ≡ true → leb y z ≡ true → leb x z ≡ true
leb_trans x y z p q = ground arith

abbrev pub whole_tenths : Floats
whole_tenths = record {
  F = ℕ;
  tenths = λ n. n;
  leq = leb;
  leq_tenths = λ m n. refl;
  leq_trans = leb_trans;
}
