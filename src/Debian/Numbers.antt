-- ===== src/Debian/Numbers.antt =====
-- The digit loop of debian_version.py compares numbers: the shorter run of significant digits is
-- the smaller number, and of two equally long ones the first difference decides.
use cvedeck.Prelude.{
  ℕ, zero, ◌+◌, ◌-◌, ◌*◌, ◌≤◌, ◌<◌, ◌≡◌, ◌≢◌, refl, true, false, [], ◌∷◌, arith, ◌==◌, ◌⊎◌, inl,
  inr, Bool-cases, if◌then◌else◌, length,
}
use cvedeck.Prelude.Int.{ℤ, pos, same, sign, order, sub_ℕ}
use cvedeck.Prelude.Text.{Text, is_digit}
use cvedeck.Debian.{
  Walk, decided, rest, skip_zeros, starts_digit, digit_walk, digits_of, settle, is_zero,
}
use cvedeck.Debian.Key.{run_value, skip_digits}

-- What the loop returns for the numbers `x` and `y`, with `a` and `b` left behind the digits.
abbrev pub Compares : Walk → ℕ → ℕ → Text → Text → Type 0
Compares (decided z) x y a b = (sign z ≡ order x y) × (sign z ≢ same)
Compares (rest a' b') x y a b = (x ≡ y) × (a' ≡ a) × (b' ≡ b)

le-run_value : (x : ℕ) (s : Text) → x ≤ run_value x s
unfolding run_value
le-run_value x [] = omega arith
le-run_value x (c ∷ s) = ground (arith, le-run_value (x * 10 + (c - b'0')) s)

settle-Compares :
    (a b : Text) (x y : ℕ) (z : ℤ)
    → y < 10 * x
    → x < 10 * y
    → sign z ≡ order x y
    → (starts_digit a ≡ false) ⊎ (starts_digit b ≡ false)
    → Compares (settle a b z) (run_value x a) (run_value y b) (skip_digits a) (skip_digits b)
unfolding settle run_value skip_digits
settle-Compares [] [] x y z p q e s = ground arith
settle-Compares [] (d ∷ b) x y z p q e s = ground (arith, le-run_value (y * 10 + (d - b'0')) b)
settle-Compares (c ∷ a) [] x y z p q e s = ground (arith, le-run_value (x * 10 + (c - b'0')) a)
settle-Compares (c ∷ a) (d ∷ b) x y z p q e s =
    ground (arith, le-run_value (x * 10 + (c - b'0')) a, le-run_value (y * 10 + (d - b'0')) b)

-- The first difference found so far orders the numbers read so far.
first_difference :
    (c d x y : ℕ) (z : ℤ)
    → is_digit c ≡ true
    → is_digit d ≡ true
    → sign z ≡ order x y
    → sign (if is_zero z then sub_ℕ c d else z) ≡ order (x * 10 + (c - b'0')) (y * 10 + (d - b'0'))
first_difference c d x y (pos zero) p q e = ground arith
first_difference c d x y z p q e = ground arith

digit_walk_stop :
    (c d : ℕ) (a b : Text) (z : ℤ)
    → (is_digit c ≡ false) ⊎ (is_digit d ≡ false)
    → digit_walk (c ∷ a) (d ∷ b) z ≡ settle (c ∷ a) (d ∷ b) z
unfolding digit_walk
digit_walk_stop c d a b z (inl f) = rw f
digit_walk_stop c d a b z (inr f) = elim (Bool-cases (is_digit c)) [
  | inl t ↦ rw (t, f)
  | inr g ↦ rw g
]

digit_walk_step :
    (c d : ℕ) (a b : Text) (z : ℤ)
    → is_digit c ≡ true
    → is_digit d ≡ true
    → digit_walk (c ∷ a) (d ∷ b) z ≡ digit_walk a b (if is_zero z then sub_ℕ c d else z)
unfolding digit_walk
digit_walk_step c d a b z t u = rw (t, u)

run_value_step :
    (x c : ℕ) (a : Text)
    → is_digit c ≡ true
    → run_value x (c ∷ a) ≡ run_value (x * 10 + (c - b'0')) a
unfolding run_value
run_value_step x c a t = rw t

skip_digits_step : (c : ℕ) (a : Text) → is_digit c ≡ true → skip_digits (c ∷ a) ≡ skip_digits a
unfolding skip_digits
skip_digits_step c a t = rw t

digit_walk-Compares :
    (a b : Text) (x y : ℕ) (z : ℤ)
    → y < 10 * x
    → x < 10 * y
    → sign z ≡ order x y
    → Compares (digit_walk a b z) (run_value x a) (run_value y b) (skip_digits a) (skip_digits b)
digit_walk-Compares [] b x y z p q e =
    unfold digit_walk in settle-Compares [] b x y z p q e (inl refl)
digit_walk-Compares (c ∷ a) [] x y z p q e =
    unfold digit_walk in settle-Compares (c ∷ a) [] x y z p q e (inr refl)
digit_walk-Compares (c ∷ a) (d ∷ b) x y z p q e = elim (Bool-cases (is_digit c)) [
  | inl t ↦ elim (Bool-cases (is_digit d)) [
    | inl u ↦
        rw
          (
            digit_walk_step c d a b z t u,
            run_value_step x c a t,
            run_value_step y d b u,
            skip_digits_step c a t,
            skip_digits_step d b u,
          )
          (digit_walk-Compares a b (x * 10 + (c - b'0')) (y * 10 + (d - b'0')) _ (ground arith)
            (ground arith) (first_difference c d x y z t u e))
    | inr f ↦
        rw (digit_walk_stop c d a b z (inr f)) (settle-Compares (c ∷ a) (d ∷ b) x y z p q e (inr f))
  ]
  | inr f ↦
      rw (digit_walk_stop c d a b z (inl f)) (settle-Compares (c ∷ a) (d ∷ b) x y z p q e (inl f))
]

-- No leading zero.
abbrev IsStripped : Text → Type 0
IsStripped [] = Unit
IsStripped (c ∷ s) = c ≢ b'0'

skip_zeros-IsStripped : (s : Text) → IsStripped (skip_zeros s)
unfolding skip_zeros
skip_zeros-IsStripped [] = tt
skip_zeros-IsStripped (c ∷ s) = elim (Bool-cases (c == b'0')) [
  | inl t ↦ rw t (skip_zeros-IsStripped s)
  | inr f ↦ rw f (ground arith)
]

run_value-skip_zeros : (s : Text) → run_value 0 (skip_zeros s) ≡ run_value 0 s
unfolding run_value skip_zeros
run_value-skip_zeros [] = refl
run_value-skip_zeros (c ∷ s) = elim (Bool-cases (c == b'0')) [
  | inl t ↦ rw t (ground (arith, run_value-skip_zeros s))
  | inr f ↦ rw f refl
]

skip_digits-skip_zeros : (s : Text) → skip_digits (skip_zeros s) ≡ skip_digits s
unfolding skip_digits skip_zeros
skip_digits-skip_zeros [] = refl
skip_digits-skip_zeros (c ∷ s) = elim (Bool-cases (c == b'0')) [
  | inl t ↦ rw t (ground (arith, skip_digits-skip_zeros s))
  | inr f ↦ rw f refl
]

le-first : (c : ℕ) (a : Text) → is_digit c ≡ true → c - b'0' ≤ run_value 0 (c ∷ a)
le-first c a t = rw (run_value_step 0 c a t) (omega (arith, le-run_value (0 * 10 + (c - b'0')) a))

stop_value : (s : Text) → starts_digit s ≡ false → (run_value 0 s ≡ 0) × (skip_digits s ≡ s)
unfolding run_value skip_digits
stop_value [] h = (refl, refl)
stop_value (c ∷ s) h = rw h (refl, refl)

-- Where one of two stripped texts has no digit, the other's number is greater if it has one.
settle_first :
    (a b : Text)
    → IsStripped a
    → IsStripped b
    → (starts_digit a ≡ false) ⊎ (starts_digit b ≡ false)
    → Compares (settle a b (pos 0)) (run_value 0 a) (run_value 0 b) (skip_digits a) (skip_digits b)
unfolding settle
settle_first [] [] p q s = ground (arith, stop_value [])
settle_first [] (d ∷ b) p q s = ground (arith, stop_value [], stop_value (d ∷ b), le-first d b)
settle_first (c ∷ a) [] p q s = ground (arith, stop_value [], stop_value (c ∷ a), le-first c a)
settle_first (c ∷ a) (d ∷ b) p q s =
    ground (arith, stop_value (c ∷ a), stop_value (d ∷ b), le-first c a, le-first d b)

stripped-Compares :
    (a b : Text)
    → IsStripped a
    → IsStripped b
    → Compares
        (digit_walk a b (pos 0))
        (run_value 0 a)
        (run_value 0 b)
        (skip_digits a)
        (skip_digits b)
stripped-Compares [] b p q = unfold digit_walk in settle_first [] b p q (inl refl)
stripped-Compares (c ∷ a) [] p q = unfold digit_walk in settle_first (c ∷ a) [] p q (inr refl)
stripped-Compares (c ∷ a) (d ∷ b) p q = elim (Bool-cases (is_digit c)) [
  | inl t ↦ elim (Bool-cases (is_digit d)) [
    | inl u ↦
        rw
          (
            digit_walk_step c d a b (pos 0) t u,
            run_value_step 0 c a t,
            run_value_step 0 d b u,
            skip_digits_step c a t,
            skip_digits_step d b u,
          )
          (digit_walk-Compares a b (0 * 10 + (c - b'0')) (0 * 10 + (d - b'0')) _ (ground arith)
            (ground arith) (first_difference c d 0 0 (pos 0) t u refl))
    | inr f ↦
        rw (digit_walk_stop c d a b (pos 0) (inr f)) (settle_first (c ∷ a) (d ∷ b) p q (inr f))
  ]
  | inr f ↦ rw (digit_walk_stop c d a b (pos 0) (inl f)) (settle_first (c ∷ a) (d ∷ b) p q (inl f))
]

-- The digits at the front of both texts are compared as the numbers that they spell.
pub digits_of-Compares :
    (a b : Text)
    → Compares (digits_of a b) (run_value 0 a) (run_value 0 b) (skip_digits a) (skip_digits b)
unfolding digits_of
digits_of-Compares a b =
    rw
      (
        ← run_value-skip_zeros a,
        ← run_value-skip_zeros b,
        ← skip_digits-skip_zeros a,
        ← skip_digits-skip_zeros b,
      )
      (stripped-Compares (skip_zeros a) (skip_zeros b) (skip_zeros-IsStripped a)
        (skip_zeros-IsStripped b))

pub length-skip_digits : (s : Text) → length (skip_digits s) ≤ length s
unfolding skip_digits
length-skip_digits [] = omega arith
length-skip_digits (c ∷ s) = ground (arith, length-skip_digits s)

pub shorter-skip_digits : (s : Text) → starts_digit s ≡ true → length (skip_digits s) < length s
unfolding skip_digits
shorter-skip_digits [] h = cc
shorter-skip_digits (c ∷ s) h = ground (arith, length-skip_digits s)
