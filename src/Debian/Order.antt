-- ===== src/Debian/Order.antt =====
-- The loops of debian_version.py decide the order of the keys.
use cvedeck.Prelude.{
  ℕ, zero, suc, ◌+◌, ◌*◌, ◌≤◌, ◌<◌, ◌≡◌, refl, sym, ap, Option, some, [], ◌∷◌, arith, length, inl,
  inr, Bool-cases,
}
use cvedeck.Prelude.Int.{ℤ, pos, Sign, sign}
use cvedeck.Prelude.Lex.{lex, lex_refl}
use cvedeck.Prelude.Text.{Text}
use cvedeck.Debian.{
  Walk, decided, rest, text_walk, digits_of, verrevcmp_loop, after_walk, starts_digit,
}
use cvedeck.Debian.Key.{
  key, letters, number, run_value, skip_digits, Meets, AtNumber, text_walk-Meets,
}
use cvedeck.Debian.Numbers.{Compares, digits_of-Compares, length-skip_digits, shorter-skip_digits}

-- The result has the sign `s`.
abbrev pub Decides : Option ℤ → Sign → Type 0
Decides r s = (z : ℤ) × (r ≡ some z) × (sign z ≡ s)

-- At a digit in either text the digit loop reads a character.
skip_digits_shorter :
    (a b : Text) (size : ℕ)
    → AtNumber a
    → AtNumber b
    → length a + length b ≤ size
    → 0 < size
    → length (skip_digits a) + length (skip_digits b) < size
skip_digits_shorter a b size p q h some_left = elim (Bool-cases (starts_digit a)) [
  | inl t ↦ omega (arith, shorter-skip_digits a t, length-skip_digits b)
  | inr f ↦ elim (Bool-cases (starts_digit b)) [
    | inl t ↦ omega (arith, shorter-skip_digits b t, length-skip_digits a)
    | inr g ↦ omega (
      arith,
      length-skip_digits a,
      length-skip_digits b,
      ap (λ (s : Text). length s) (p f),
      ap (λ (s : Text). length s) (q g),
    )
  ]
]

-- The digit step of a round, and the rounds after it.
numbers_Decide :
    (w : Walk) (a b : Text) (m : ℕ) (go : Text → Text → Option ℤ)
    → Compares w (run_value 0 a) (run_value 0 b) (skip_digits a) (skip_digits b)
    → Decides
        (go (skip_digits a) (skip_digits b))
        (lex (key letters m (skip_digits a)) (key letters m (skip_digits b)))
    → Decides (after_walk w go) (lex (key number (suc m) a) (key number (suc m) b))
unfolding after_walk key lex
numbers_Decide (decided z) a b m go (e, split) next = (z, refl, ground arith)
numbers_Decide (rest a' b') a b m go (e, ea, eb) (z, r, s) = (z, rw (ea, eb) r, ground arith)

-- A round, with `go` for the rounds after it.
abbrev Goes : (Text → Text → Option ℤ) → ℕ → Type 0
Goes go size =
    (e f : Text) (m : ℕ)
    → length e + length f < size
    → 3 * (length e + length f) ≤ m
    → Decides (go e f) (lex (key letters m e) (key letters m f))

rest_Decides :
    (a b : Text) (m size : ℕ) (go : Text → Text → Option ℤ)
    → Goes go size
    → 0 < size
    → AtNumber a
    → AtNumber b
    → length a + length b ≤ size
    → 2 * size + length a + length b ≤ m + 1
    → Decides (after_walk (digits_of a b) go) (lex (key number m a) (key number m b))
rest_Decides a b zero size go next some_left p q h k = absurd (omega arith)
rest_Decides a b (suc m) size go next some_left p q h k =
    let shorter = skip_digits_shorter a b size p q h some_left in
    numbers_Decide (digits_of a b) a b m go (digits_of-Compares a b) (
      next (skip_digits a) (skip_digits b) m shorter
        (omega (arith, length-skip_digits a, length-skip_digits b)))

round_Decides :
    (w : Walk) (size n : ℕ) (s : Sign) (go : Text → Text → Option ℤ)
    → Goes go size
    → 0 < size
    → 3 * size ≤ n
    → Meets w size n s
    → Decides (after_walk w (λ a b. after_walk (digits_of a b) go)) s
unfolding after_walk
round_Decides (decided z) size n s go next some_left k (e, split) = (z, refl, e)
round_Decides (rest a b) size n s go next some_left k (m, e, fits, h, p, q) =
    rw e (rest_Decides a b m size go next some_left p q h (omega arith))

-- Any fuel from the number of characters on is enough, and any keys that are three times as long.
pub verrevcmp_loop-Decides :
    (fuel n : ℕ) (a b : Text)
    → length a + length b ≤ fuel
    → 3 * (length a + length b) ≤ n
    → Decides (verrevcmp_loop fuel a b) (lex (key letters n a) (key letters n b))
unfolding verrevcmp_loop
verrevcmp_loop-Decides fuel n [] [] h k = (pos 0, refl, sym (lex_refl (key letters n [])))
verrevcmp_loop-Decides zero n [] (d ∷ b) h k = absurd (omega arith)
verrevcmp_loop-Decides zero n (c ∷ a) b h k = absurd (omega arith)
verrevcmp_loop-Decides (suc fuel) n [] (d ∷ b) h k =
    round_Decides (text_walk [] (d ∷ b)) _ n _ (verrevcmp_loop fuel)
      (λ e f m shorter long. verrevcmp_loop-Decides fuel m e f (omega arith) long) (omega arith) k
      (text_walk-Meets [] (d ∷ b) n (omega arith))
verrevcmp_loop-Decides (suc fuel) n (c ∷ a) b h k =
    round_Decides (text_walk (c ∷ a) b) _ n _ (verrevcmp_loop fuel)
      (λ e f m shorter long. verrevcmp_loop-Decides fuel m e f (omega arith) long) (omega arith) k
      (text_walk-Meets (c ∷ a) b n (omega arith))
