-- ===== src/Rpm/Laws.antt =====
-- The loop of rpm_version.py ends, and the comparison of two versions is that of them exchanged,
-- turned round.
use cvedeck.Prelude.{
  ℕ, zero, suc, ◌+◌, ◌≤◌, ◌<◌, ◌≡◌, refl, Bool, true, false, not, ◌||◌, Option, some, [], ◌∷◌, ◌==◌,
  ltb, length, arith, Bool-cases, inl, inr, if◌then◌else◌,
}
use cvedeck.Prelude.Int.{ℤ, pos, negsuc}
use cvedeck.Prelude.Text.{Text, text_eq, is_digit, is_alpha}
use cvedeck.Rpm.{
  skip_separators, starts, is_empty, Round, decided, goes_on, leaves, one, minus_one, at_tilde,
  at_caret, run_of, lstrip_zeros, text_gt, by_text, by_length, by_runs, at_runs, one_round,
  after_round, rpmvercmp_loop, rpmvercmp, is_zero, or_else, Version, split, compare_versions,
  compare,
}
use cvedeck.Rpm.Rounds.{
  text_eq_comm, negate, mirror, starts_part, one_round-mirror, skip_separators-starts_part,
}

-- A round that goes on leaves fewer than `n` characters, and one that leaves the loop has ended a text.
abbrev pub IsShorter : ℕ → Round → Type 0
IsShorter n (goes_on a b) = length a + length b < n
IsShorter n (leaves a b) = is_empty a || is_empty b ≡ true
IsShorter n (decided z) = Unit

either-IsShorter :
    (n : ℕ) (test : Bool) (r s : Round)
    → IsShorter n r
    → IsShorter n s
    → IsShorter n (if test then r else s)
either-IsShorter n true r s p q = p
either-IsShorter n false r s p q = q

tails_lt : (c d : ℕ) (a b : Text) → length a + length b < length (c ∷ a) + length (d ∷ b)
tails_lt c d a b = omega arith

tilde-IsShorter : (a b : Text) → IsShorter (length a + length b) (at_tilde a b)
tilde-IsShorter [] b = tt
tilde-IsShorter (c ∷ a) [] =
    either-IsShorter _ (not (c == b'~')) (decided one) (decided minus_one) tt tt
tilde-IsShorter (c ∷ a) (d ∷ b) =
    either-IsShorter _ (not (c == b'~')) (decided one) _ tt
      (either-IsShorter _ (not (d == b'~')) (decided minus_one) (goes_on a b) tt (tails_lt c d a b))

caret-IsShorter : (a b : Text) → IsShorter (length a + length b) (at_caret a b)
caret-IsShorter [] b = tt
caret-IsShorter (c ∷ a) [] = tt
caret-IsShorter (c ∷ a) (d ∷ b) =
    either-IsShorter _ (not (c == b'^')) (decided one) _ tt
      (either-IsShorter _ (not (d == b'^')) (decided minus_one) (goes_on a b) tt (tails_lt c d a b))

run_le : (kind : ℕ → Bool) (a : Text) → length (run_of kind a).1 ≤ length a
unfolding run_of
run_le kind [] = omega arith
run_le kind (c ∷ a) = ground (arith, run_le kind a)

text-IsShorter :
    (n : ℕ) (a b : Text) (next : Round) → IsShorter n next → IsShorter n (by_text a b next)
text-IsShorter n a b next h =
    either-IsShorter n (text_eq a b) next _ h
      (either-IsShorter n (text_gt a b) (decided one) (decided minus_one) tt tt)

length-IsShorter :
    (n : ℕ) (a b : Text) (next : Round) → IsShorter n next → IsShorter n (by_length a b next)
length-IsShorter n a b next h =
    either-IsShorter n (length a == length b) _ _ (text-IsShorter n a b next h)
      (either-IsShorter n (ltb (length b) (length a)) (decided one) (decided minus_one) tt tt)

-- A run that is not empty is read off its text.
run_lt :
    (kind : ℕ → Bool) (c : ℕ) (a : Text) → kind c ≡ true → length (run_of kind (c ∷ a)).1 ≤ length a
unfolding run_of
run_lt kind c a h = rw h (run_le kind a)

runs-IsShorter :
    (numeric : Bool) (n : ℕ) (x y : Text × Text)
    → (length x.1 + length y.1 < n)
    → IsShorter n (by_runs numeric x y)
runs-IsShorter numeric n (x, a) (y, b) l =
    either-IsShorter n (is_empty y) _ _
      (either-IsShorter n numeric (decided one) (decided minus_one) tt tt)
      (either-IsShorter n numeric _ _
        (length-IsShorter n (lstrip_zeros x) (lstrip_zeros y) (goes_on a b) l)
        (text-IsShorter n x y (goes_on a b) l))

at_runs-IsShorter :
    (a b : Text)
    → starts_part a ≡ true
    → starts b'~' a ≡ false
    → starts b'^' a ≡ false
    → IsShorter (length a + length b) (at_runs a b)
unfolding at_runs
at_runs-IsShorter [] b p t u = refl
at_runs-IsShorter (c ∷ a) [] p t u = refl
at_runs-IsShorter (c ∷ a) (d ∷ b) p t u = elim (Bool-cases (is_digit c)) [
  | inl digit ↦
      let l = run_lt is_digit c a digit in
      let l' = run_le is_digit (d ∷ b) in
      rw (at_runs, digit)
        (runs-IsShorter true _ (run_of is_digit (c ∷ a)) (run_of is_digit (d ∷ b))
          (omega (arith, l, l')))
  | inr f ↦
      let alpha : is_alpha c ≡ true = ground arith in
      let l = run_lt is_alpha c a alpha in
      let l' = run_le is_alpha (d ∷ b) in
      rw (at_runs, f)
        (runs-IsShorter false _ (run_of is_alpha (c ∷ a)) (run_of is_alpha (d ∷ b))
          (omega (arith, l, l')))
]

one_round-IsShorter :
    (a b : Text) → starts_part a ≡ true → IsShorter (length a + length b) (one_round a b)
unfolding one_round
one_round-IsShorter a b p = elim (Bool-cases (starts b'~' a || starts b'~' b)) [
  | inl t ↦ rw t (tilde-IsShorter a b)
  | inr f ↦ elim (Bool-cases (starts b'^' a || starts b'^' b)) [
    | inl t ↦ rw (f, t) (caret-IsShorter a b)
    | inr g ↦ rw (f, g) (at_runs-IsShorter a b p (ground arith) (ground arith))
  ]
]

skip_le : (a : Text) → length (skip_separators a) ≤ length a
unfolding skip_separators
skip_le [] = omega arith
skip_le (c ∷ a) = ground (arith, skip_le a)

-- The value of a comparison and of the one with its texts exchanged.
abbrev pub IsTurned : Option ℤ → Option ℤ → Type 0
IsTurned there back = (z : ℤ) × (there ≡ some z) × (back ≡ some (negate z))

after_round-IsTurned :
    (n : ℕ) (r : Round) (again : Text → Text → Option ℤ)
    → IsShorter n r
    → ((a b : Text) → length a + length b < n → IsTurned (again a b) (again b a))
    → IsTurned (after_round r again) (after_round (mirror r) again)
after_round-IsTurned n (decided z) again s h = (z, refl, refl)
after_round-IsTurned n (goes_on a b) again s h = h a b s
after_round-IsTurned n (leaves [] []) again s h = (pos 0, refl, refl)
after_round-IsTurned n (leaves [] (d ∷ b)) again s h = (minus_one, refl, refl)
after_round-IsTurned n (leaves (c ∷ a) []) again s h = (one, refl, refl)
after_round-IsTurned n (leaves (c ∷ a) (d ∷ b)) again s h = cc

step-IsTurned :
    (fuel : ℕ) (a b : Text)
    → length a + length b ≤ suc fuel
    → ((c d : Text)
        → length c + length d ≤ fuel
        → IsTurned (rpmvercmp_loop fuel c d) (rpmvercmp_loop fuel d c))
    → IsTurned
        (after_round
          (one_round (skip_separators a) (skip_separators b))
          (λ c d. rpmvercmp_loop fuel c d))
        (after_round
          (one_round (skip_separators b) (skip_separators a))
          (λ c d. rpmvercmp_loop fuel c d))
step-IsTurned fuel a b l ih =
    let x = skip_separators a in
    let y = skip_separators b in
    let p = skip_separators-starts_part a in
    let q = skip_separators-starts_part b in
    let la = skip_le a in
    let lb = skip_le b in
    rw (one_round-mirror x y p q) (
      after_round-IsTurned (length x + length y) (one_round x y) (λ c d. rpmvercmp_loop fuel c d)
        (one_round-IsShorter x y p) λ c d less. ih c d (omega (arith, less, l, la, lb)))

rpmvercmp_loop-IsTurned :
    (fuel : ℕ) (a b : Text)
    → length a + length b ≤ fuel
    → IsTurned (rpmvercmp_loop fuel a b) (rpmvercmp_loop fuel b a)
unfolding rpmvercmp_loop
rpmvercmp_loop-IsTurned zero [] [] l = (pos 0, refl, refl)
rpmvercmp_loop-IsTurned zero [] (d ∷ b) l = let no : ⊥ = omega (arith, l) in elim no [ ]
rpmvercmp_loop-IsTurned zero (c ∷ a) b l = let no : ⊥ = omega (arith, l) in elim no [ ]
rpmvercmp_loop-IsTurned (suc fuel) [] [] l = (pos 0, refl, refl)
rpmvercmp_loop-IsTurned (suc fuel) [] (d ∷ b) l =
    step-IsTurned fuel [] (d ∷ b) l (rpmvercmp_loop-IsTurned fuel)
rpmvercmp_loop-IsTurned (suc fuel) (c ∷ a) [] l =
    step-IsTurned fuel (c ∷ a) [] l (rpmvercmp_loop-IsTurned fuel)
rpmvercmp_loop-IsTurned (suc fuel) (c ∷ a) (d ∷ b) l =
    step-IsTurned fuel (c ∷ a) (d ∷ b) l (rpmvercmp_loop-IsTurned fuel)

add_comm : (m n : ℕ) → m + n ≡ n + m
add_comm m n = omega arith

rpmvercmp-IsTurned : (a b : Text) → IsTurned (rpmvercmp a b) (rpmvercmp b a)
unfolding rpmvercmp
rpmvercmp-IsTurned a b = elim (Bool-cases (text_eq a b)) [
  | inl t ↦ rw (text_eq_comm a b, t) (pos 0, refl, refl)
  | inr f ↦
      rw (text_eq_comm a b, f, add_comm (length b) (length a))
        (rpmvercmp_loop-IsTurned (length a + length b) a b (omega arith))
]

is_zero-negate : (z : ℤ) → is_zero (negate z) ≡ is_zero z
is_zero-negate (pos zero) = refl
is_zero-negate (pos (suc n)) = ground arith
is_zero-negate (negsuc n) = ground arith

or_else-IsTurned :
    (x y x' y' : Option ℤ) → IsTurned x x' → IsTurned y y' → IsTurned (or_else x y) (or_else x' y')
or_else-IsTurned x y x' y' (z, e, f) (w, g, h) = elim (Bool-cases (is_zero z)) [
  | inl t ↦ (w, (rw (e, t) g), (rw (f, is_zero-negate z, t) h))
  | inr n ↦ (z, (rw (e, n) refl), (rw (f, is_zero-negate z, n) refl))
]

epochs-IsTurned :
    (m n : ℕ)
    → m == n ≡ false
    → IsTurned
        (if ltb m n then some minus_one else some one)
        (if ltb n m then some minus_one else some one)
epochs-IsTurned m n e = elim (Bool-cases (ltb m n)) [
  | inl t ↦ let u : ltb n m ≡ false = ground arith in (minus_one, (rw t refl), (rw u refl))
  | inr t ↦ let u : ltb n m ≡ true = ground arith in (one, (rw t refl), (rw u refl))
]

eq_comm : (m n : ℕ) → n == m ≡ m == n
eq_comm m n = ground arith

compare_versions-IsTurned : (v w : Version) → IsTurned (compare_versions v w) (compare_versions w v)
unfolding compare_versions
compare_versions-IsTurned v w = elim (Bool-cases (v.epoch == w.epoch)) [
  | inl t ↦
      rw (eq_comm v.epoch w.epoch, t)
        (or_else-IsTurned _ _ _ _ (rpmvercmp-IsTurned v.upstream w.upstream)
          (rpmvercmp-IsTurned v.release w.release))
  | inr f ↦ rw (eq_comm v.epoch w.epoch, f) (epochs-IsTurned v.epoch w.epoch f)
]

-- `compare` returns for every two texts, and with the texts exchanged it returns the negated result.
pub compare-negate :
    (a b : Text) → (z : ℤ) × (compare a b ≡ some z) × (compare b a ≡ some (negate z))
unfolding compare
compare-negate a b = compare_versions-IsTurned (split a) (split b)
