-- ===== src/Debian/Key.antt =====
-- The order that debian_version.py describes, without its loops: a text is the endless sequence of
-- its weights, one for each character before a digit run, then one for the end of that part, then
-- the number that the digits spell. `key n s` is the first `n` of them.
use cvedeck.Prelude.{
  ℕ, zero, suc, ◌+◌, ◌-◌, ◌*◌, ◌≤◌, ◌<◌, ◌≡◌, ◌≢◌, refl, true, false, List, [], ◌∷◌, arith, ◌==◌,
  sym, ◌∙◌, inl, inr, Bool-cases, if◌then◌else◌, length,
}
use cvedeck.Prelude.Int.{ℤ, pos, Sign, same, sign, order, ◌-ℤ◌}
use cvedeck.Prelude.Lex.{lex, then_by}
use cvedeck.Prelude.Text.{Text, is_digit, is_alpha}
use cvedeck.Debian.{Walk, decided, rest, text_walk, starts_digit, char_order, is_zero, on_orders}

-- `~` before the end of a part, the end before letters, letters before anything else
unfoldable pub weight : ℕ → ℕ
weight c = if c == b'~' then 0 else if is_digit c then 1 else if is_alpha c then c + 1 else c + 257

-- the number that the digits at the front spell, read behind `x`
unfoldable pub run_value : ℕ → Text → ℕ
run_value x [] = x
run_value x (c ∷ s) = let more = run_value (x * 10 + (c - b'0')) s in if is_digit c then more else x

unfoldable pub skip_digits : Text → Text
skip_digits [] = []
skip_digits (c ∷ s) = let more = skip_digits s in if is_digit c then more else c ∷ s

pub data Part : Type 0 where
  letters number : Part

unfoldable pub key : Part → ℕ → Text → List ℕ
key _ zero s = []
key letters (suc n) [] = 1 ∷ key number n []
key letters (suc n) (c ∷ s) =
    let at_digit = key number n (c ∷ s) in
    let next = key letters n s in if is_digit c then 1 ∷ at_digit else weight c ∷ next
key number (suc n) s = run_value 0 s ∷ key letters n (skip_digits s)

-- The difference of two orders has the sign that the weights have.
sign-char_order : (c d : ℕ) → sign (char_order c -ℤ char_order d) ≡ order (weight c) (weight d)
unfolding char_order weight
sign-char_order c d = ground arith

sign-end_left : (d : ℕ) → sign (pos 0 -ℤ char_order d) ≡ order 1 (weight d)
unfolding char_order weight
sign-end_left d = ground arith

sign-end_right : (c : ℕ) → sign (char_order c -ℤ pos 0) ≡ order (weight c) 1
unfolding char_order weight
sign-end_right c = ground arith

weight_ne_one : (c : ℕ) → is_digit c ≡ false → weight c ≢ 1
unfolding weight
weight_ne_one c h = ground arith

weight_digit : (c : ℕ) → is_digit c ≡ true → weight c ≡ 1
unfolding weight
weight_digit c h = ground arith

is_zero-sign : (z : ℤ) → is_zero z ≡ true → sign z ≡ same
is_zero-sign z h = ground arith

-- at the end of the text, or at a digit
abbrev pub AtNumber : Text → Type 0
AtNumber s = starts_digit s ≡ false → s ≡ []

-- What the loop before the digits leaves, against the order `s` of two keys of length `n`.
abbrev pub Meets : Walk → ℕ → ℕ → Sign → Type 0
Meets (decided z) size n s = (sign z ≡ s) × (s ≢ same)
Meets (rest a b) size n s =
    (m : ℕ) × (s ≡ lex (key number m a) (key number m b))
    × (n + length a + length b ≤ m + 1 + size)
    × (length a + length b ≤ size)
    × AtNumber a
    × AtNumber b

-- One round of the loop, in step with the heads `x` and `y` of the keys.
on_orders-Meets :
    (ac bc : ℤ) (next : Walk) (size n x y : ℕ) (s : Sign)
    → sign (ac -ℤ bc) ≡ order x y
    → (x ≡ y → Meets next size n s)
    → Meets (on_orders ac bc next) size n (then_by (order x y) s)
unfolding on_orders
on_orders-Meets ac bc next size n x y s e go = elim (Bool-cases (is_zero (ac -ℤ bc))) [
  | inl tie ↦
      let level : order x y ≡ same = sym e ∙ is_zero-sign (ac -ℤ bc) tie in
      rw (tie, level) (go (ground arith))
  | inr split ↦ rw split (ground arith, ground arith)
]

grow :
    (w : Walk) (size size' n : ℕ) (s : Sign)
    → size + 1 ≤ size'
    → Meets w size n s
    → Meets w size' (suc n) s
grow (decided z) size size' n s h w = w
grow (rest a b) size size' n s h (m, e, fits, shorter, p, q) =
    (m, e, omega arith, omega arith, p, q)

pub text_walk-Meets :
    (a b : Text) (n : ℕ)
    → length a + length b < n
    → Meets (text_walk a b) (length a + length b) n (lex (key letters n a) (key letters n b))
unfolding text_walk key lex
text_walk-Meets a b zero h = absurd (omega arith)
text_walk-Meets [] [] (suc n) h = (n, refl, omega arith, omega arith, λ _. refl, λ _. refl)
text_walk-Meets [] (d ∷ b) (suc n) h = elim (Bool-cases (is_digit d)) [
  | inl t ↦ rw t (n, refl, omega arith, omega arith, λ _. refl, λ x. ground arith)
  | inr f ↦ rw f (
      on_orders-Meets (pos 0) (char_order d) (text_walk [] b) _ _ 1 (weight d) _ (sign-end_left d)
        (λ e. absurd (weight_ne_one d f (sym e))))
]
text_walk-Meets (c ∷ a) [] (suc n) h = elim (Bool-cases (is_digit c)) [
  | inl t ↦ rw t (n, refl, omega arith, omega arith, λ x. ground arith, λ _. refl)
  | inr f ↦ rw f (
      on_orders-Meets (char_order c) (pos 0) (text_walk a []) _ _ (weight c) 1 _ (sign-end_right c)
        (λ e. absurd (weight_ne_one c f e)))
]
text_walk-Meets (c ∷ a) (d ∷ b) (suc n) h = elim (Bool-cases (is_digit c)) [
  | inl t ↦ elim (Bool-cases (is_digit d)) [
    | inl u ↦ rw (t, u) (n, refl, omega arith, omega arith, λ x. ground arith, λ x. ground arith)
    | inr f ↦
        rw (t, f)
          (on_orders-Meets (char_order c) (char_order d) (text_walk a b) _ _ 1 (weight d) _
            (rw (weight_digit c t) at (sign-char_order c d))
            (λ e. absurd (weight_ne_one d f (sym e))))
  ]
  | inr f ↦ elim (Bool-cases (is_digit d)) [
    | inl t ↦
        rw (f, t)
          (on_orders-Meets (char_order c) (char_order d) (text_walk a b) _ _ (weight c) 1 _
            (rw (weight_digit d t) at (sign-char_order c d)) (λ e. absurd (weight_ne_one c f e)))
    | inr g ↦
        rw (f, g)
          (on_orders-Meets (char_order c) (char_order d) (text_walk a b) _ _ (weight c) (weight d) _
            (sign-char_order c d)
            (λ _. grow (text_walk a b) _ _ n _ (omega arith) (text_walk-Meets a b n (omega arith))))
  ]
]
