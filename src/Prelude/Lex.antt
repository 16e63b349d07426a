-- ===== src/Prelude/Lex.antt =====
-- The lexicographic order on lists of numbers, as a three-way comparison, and its laws.
use cvedeck.Prelude.{ℕ, ◌≡◌, ◌≢◌, refl, List, [], ◌∷◌, arith}
use cvedeck.Prelude.Int.{Sign, less, same, more, flip, order}

-- `first`, and `second` where `first` is a tie
abbrev pub then_by : Sign → Sign → Sign
then_by less second = less
then_by same second = second
then_by more second = more

unfoldable pub lex : List ℕ → List ℕ → Sign
lex [] [] = same
lex [] (y ∷ ys) = less
lex (x ∷ xs) [] = more
lex (x ∷ xs) (y ∷ ys) = then_by (order x y) (lex xs ys)

pub lex_refl : (xs : List ℕ) → lex xs xs ≡ same
unfolding lex
lex_refl [] = refl
lex_refl (x ∷ xs) = ground (arith, lex_refl xs)

pub lex-flip : (xs ys : List ℕ) → lex ys xs ≡ flip (lex xs ys)
unfolding lex
lex-flip [] [] = refl
lex-flip [] (y ∷ ys) = refl
lex-flip (x ∷ xs) [] = refl
lex-flip (x ∷ xs) (y ∷ ys) = ground (arith, lex-flip xs ys)

-- At most: before or equal.
abbrev pub AtMost : Sign → Type 0
AtMost s = s ≢ more

-- Two steps in order are one step, a tie only where both are.
pub lex_chain :
    (xs ys zs : List ℕ)
    → AtMost (lex xs ys)
    → AtMost (lex ys zs)
    → lex xs zs ≡ then_by (lex xs ys) (lex ys zs)
unfolding lex
lex_chain [] [] zs p q = refl
lex_chain [] (y ∷ ys) [] p q = ground arith
lex_chain [] (y ∷ ys) (z ∷ zs) p q = refl
lex_chain (x ∷ xs) [] zs p q = ground arith
lex_chain (x ∷ xs) (y ∷ ys) [] p q = ground arith
lex_chain (x ∷ xs) (y ∷ ys) (z ∷ zs) p q = ground (arith, lex_chain xs ys zs)

-- The same of a number first, and of two such orders one behind the other.
pub order_chain :
    (a b c : ℕ)
    → AtMost (order a b)
    → AtMost (order b c)
    → order a c ≡ then_by (order a b) (order b c)
order_chain a b c p q = ground arith

pub then_by_chain :
    (s t u s' t' u' : Sign)
    → (AtMost s → AtMost t → u ≡ then_by s t)
    → (AtMost s' → AtMost t' → u' ≡ then_by s' t')
    → AtMost (then_by s s')
    → AtMost (then_by t t')
    → then_by u u' ≡ then_by (then_by s s') (then_by t t')
then_by_chain s t u s' t' u' p q h k = ground arith
