-- ===== src/Rpm/Rounds.antt =====
-- A round of the loop of rpm_version.py, with its texts exchanged.
use cvedeck.Prelude.{
  ℕ, zero, suc, ◌≡◌, refl, Bool, true, false, not, ◌||◌, [], ◌∷◌, ◌==◌, ltb, length, arith,
  Bool-cases, inl, inr, if◌then◌else◌,
}
use cvedeck.Prelude.Int.{ℤ, pos, negsuc}
use cvedeck.Prelude.Text.{Text, text_eq, is_digit, is_alpha}
use cvedeck.Rpm.{
  is_alnum, is_part, skip_separators, starts, Round, decided, goes_on, leaves, one, minus_one,
  at_tilde, at_caret, run_of, lstrip_zeros, text_gt, by_text, by_length, at_runs, one_round,
}

abbrev pub negate : ℤ → ℤ
negate (pos zero) = pos zero
negate (pos (suc n)) = negsuc n
negate (negsuc n) = pos (suc n)

abbrev pub mirror : Round → Round
mirror (decided z) = decided (negate z)
mirror (goes_on a b) = goes_on b a
mirror (leaves a b) = leaves b a

pub text_eq_comm : (a b : Text) → text_eq b a ≡ text_eq a b
unfolding text_eq
text_eq_comm [] [] = refl
text_eq_comm [] (d ∷ b) = refl
text_eq_comm (c ∷ a) [] = refl
text_eq_comm (c ∷ a) (d ∷ b) = ground (arith, text_eq_comm a b)

text_gt_comm : (a b : Text) → text_eq a b ≡ false → text_gt b a ≡ not (text_gt a b)
unfolding text_eq text_gt
text_gt_comm [] [] e = ground arith
text_gt_comm [] (d ∷ b) e = refl
text_gt_comm (c ∷ a) [] e = refl
text_gt_comm (c ∷ a) (d ∷ b) e = ground (arith, text_gt_comm a b)

by_text-mirror : (a b : Text) (next : Round) → by_text b a (mirror next) ≡ mirror (by_text a b next)
by_text-mirror a b next = elim (Bool-cases (text_eq a b)) [
  | inl t ↦ rw (text_eq_comm a b, t) refl
  | inr f ↦ rw (text_eq_comm a b, f, text_gt_comm a b f) (go (text_gt a b))
]
  where
    go :
        (g : Bool)
        → (if not g then decided one else decided minus_one)
          ≡ mirror (if g then decided one else decided minus_one)
    go true = refl
    go false = refl

by_length-mirror :
    (a b : Text) (next : Round) → by_length b a (mirror next) ≡ mirror (by_length a b next)
by_length-mirror a b next = elim (Bool-cases (length a == length b)) [
  | inl t ↦
      let t' : length b == length a ≡ true = ground arith in rw (t, t') (by_text-mirror a b next)
  | inr f ↦ elim (Bool-cases (ltb (length b) (length a))) [
    | inl g ↦
        let f' : length b == length a ≡ false = ground arith in
        let g' : ltb (length a) (length b) ≡ false = ground arith in rw (f, f', g, g') refl
    | inr g ↦
        let f' : length b == length a ≡ false = ground arith in
        let g' : ltb (length a) (length b) ≡ true = ground arith in rw (f, f', g, g') refl
  ]
]

tilde_mirror :
    (a b : Text) → starts b'~' a || starts b'~' b ≡ true → at_tilde b a ≡ mirror (at_tilde a b)
tilde_mirror a b h = ground arith

-- Behind the separators a text has ended or starts with a part.
abbrev pub starts_part : Text → Bool
starts_part [] = true
starts_part (c ∷ a) = is_part c

caret_mirror :
    (a b : Text) → starts b'^' a || starts b'^' b ≡ true → at_caret b a ≡ mirror (at_caret a b)
caret_mirror [] [] h = ground arith
caret_mirror [] (d ∷ b) h = ground arith
caret_mirror (c ∷ a) [] h = ground arith
caret_mirror (c ∷ a) (d ∷ b) h = ground arith

run_here :
    (kind : ℕ → Bool) (c : ℕ) (a : Text)
    → kind c ≡ true
    → run_of kind (c ∷ a) ≡ (c ∷ (run_of kind a).0, (run_of kind a).1)
unfolding run_of
run_here kind c a h = rw h refl

no_run : (kind : ℕ → Bool) (c : ℕ) (a : Text) → kind c ≡ false → run_of kind (c ∷ a) ≡ ([], c ∷ a)
unfolding run_of
no_run kind c a h = rw h refl

runs_mirror :
    (c d : ℕ) (a b : Text)
    → is_alnum c ≡ true
    → is_alnum d ≡ true
    → at_runs (d ∷ b) (c ∷ a) ≡ mirror (at_runs (c ∷ a) (d ∷ b))
unfolding at_runs
runs_mirror c d a b hc hd = elim (Bool-cases (is_digit c)) [
  | inl t ↦ elim (Bool-cases (is_digit d)) [
    | inl u ↦
        rw (at_runs, t, u)
          (rw (run_here is_digit c a t, run_here is_digit d b u)
            (by_length-mirror (lstrip_zeros (c ∷ (run_of is_digit a).0))
              (lstrip_zeros (d ∷ (run_of is_digit b).0))
              (goes_on (run_of is_digit a).1 (run_of is_digit b).1)))
    | inr u ↦
        let v : is_alpha c ≡ false = ground arith in
        rw (at_runs, t, u) (rw (no_run is_digit d b u, no_run is_alpha c a v) refl)
  ]
  | inr t ↦
      let v : is_alpha c ≡ true = ground arith in
      elim (Bool-cases (is_digit d)) [
        | inl u ↦
            let w : is_alpha d ≡ false = ground arith in
            rw (at_runs, t, u) (rw (no_run is_digit c a t, no_run is_alpha d b w) refl)
        | inr u ↦
            let w : is_alpha d ≡ true = ground arith in
            rw (at_runs, t, u)
              (rw (run_here is_alpha c a v, run_here is_alpha d b w)
                (by_text-mirror (c ∷ (run_of is_alpha a).0) (d ∷ (run_of is_alpha b).0)
                  (goes_on (run_of is_alpha a).1 (run_of is_alpha b).1)))
      ]
]

neither : (a b : Bool) → a || b ≡ false → (a ≡ false) × (b ≡ false)
neither a b h = (ground arith, ground arith)

alnum_left : (c : ℕ) → is_part c ≡ true → c == b'~' ≡ false → c == b'^' ≡ false → is_alnum c ≡ true
alnum_left c p t u = ground arith

behind_marks :
    (a b : Text)
    → starts_part a ≡ true
    → starts_part b ≡ true
    → starts b'~' a || starts b'~' b ≡ false
    → starts b'^' a || starts b'^' b ≡ false
    → at_runs b a ≡ mirror (at_runs a b)
behind_marks [] [] p q t u = unfold at_runs in refl
behind_marks [] (d ∷ b) p q t u = unfold at_runs in refl
behind_marks (c ∷ a) [] p q t u = unfold at_runs in refl
behind_marks (c ∷ a) (d ∷ b) p q t u =
    let tilde = neither (c == b'~') (d == b'~') t in
    let caret = neither (c == b'^') (d == b'^') u in
    runs_mirror c d a b (alnum_left c p tilde.0 caret.0) (alnum_left d q tilde.1 caret.1)

or_comm : (a b : Bool) → b || a ≡ a || b
or_comm a b = ground arith

pub one_round-mirror :
    (a b : Text)
    → starts_part a ≡ true
    → starts_part b ≡ true
    → one_round b a ≡ mirror (one_round a b)
unfolding one_round
one_round-mirror a b p q = elim (Bool-cases (starts b'~' a || starts b'~' b)) [
  | inl t ↦ rw (or_comm (starts b'~' a) (starts b'~' b), t) (tilde_mirror a b t)
  | inr f ↦ elim (Bool-cases (starts b'^' a || starts b'^' b)) [
    | inl t ↦
        rw (or_comm (starts b'~' a) (starts b'~' b), f, or_comm (starts b'^' a) (starts b'^' b), t)
          (caret_mirror a b t)
    | inr g ↦
        rw (or_comm (starts b'~' a) (starts b'~' b), f, or_comm (starts b'^' a) (starts b'^' b), g)
          (behind_marks a b p q f g)
  ]
]

pub skip_separators-starts_part : (a : Text) → starts_part (skip_separators a) ≡ true
unfolding skip_separators
skip_separators-starts_part [] = refl
skip_separators-starts_part (c ∷ a) = ground (arith, skip_separators-starts_part a)
