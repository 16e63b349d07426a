-- ===== src/PackageId/Texts.antt =====
-- Texts under `strip`, `partition` and `rpartition`.
use mathlib.Core.List.{reverse, reverse-append, reverse-reverse}
use cvedeck.Prelude.{
  ℕ, ◌≡◌, refl, ap, ◌∙◌, Bool, true, false, not, none, some, [], ◌∷◌, ◌++◌, ◌==◌, all, arith,
}
use cvedeck.Prelude.Text.{Text, is_space, lstrip, strip, rpartition, strip_prefix}

-- No character of the text is `c`.
abbrev pub lacks : ℕ → Text → Bool
lacks c s = all (λ d. not (d == c)) s

-- The text is not empty and starts with no space.
abbrev pub starts_solid : Text → Bool
starts_solid [] = false
starts_solid (c ∷ s) = not (is_space c)

abbrev pub ends_solid : Text → Bool
ends_solid s = starts_solid (reverse s)

lstrip_solid : (s : Text) → starts_solid s ≡ true → lstrip s ≡ s
unfolding lstrip
lstrip_solid [] h = refl
lstrip_solid (c ∷ s) h = ground arith

-- A text that starts and ends with no space is its own `strip`.
pub strip_solid : (s : Text) → starts_solid s ≡ true → ends_solid s ≡ true → strip s ≡ s
unfolding strip
strip_solid s h k =
    ap (λ t. reverse (lstrip (reverse t))) (lstrip_solid s h)
    ∙ ap reverse (lstrip_solid (reverse s) k)
    ∙ reverse-reverse s

starts_append : (s t : Text) → starts_solid s ≡ true → starts_solid (s ++ t) ≡ true
starts_append [] t h = ground arith
starts_append (c ∷ s) t h = h

pub starts_solid-append : (s t : Text) → starts_solid s ≡ true → starts_solid (s ++ t) ≡ true
starts_solid-append s t h = starts_append s t h

pub ends_solid-append : (s t : Text) → ends_solid t ≡ true → ends_solid (s ++ t) ≡ true
ends_solid-append s t h = rw (reverse-append s t) (starts_append (reverse t) (reverse s) h)

pub ends_solid-cons : (c : ℕ) (t : Text) → ends_solid t ≡ true → ends_solid (c ∷ t) ≡ true
ends_solid-cons c t h = ends_solid-append (c ∷ []) t h

pub rpartition-lacks : (c : ℕ) (s : Text) → lacks c s ≡ true → rpartition c s ≡ none
unfolding rpartition
rpartition-lacks c [] h = refl
rpartition-lacks c (d ∷ s) h = ground (arith, rpartition-lacks c s)

-- The last `c` is the one behind which there is none.
pub rpartition-append :
    (c : ℕ) (s t : Text) → lacks c t ≡ true → rpartition c (s ++ c ∷ t) ≡ some (s, t)
unfolding rpartition
rpartition-append c [] t h = ground (arith, rpartition-lacks c t h)
rpartition-append c (d ∷ s) t h = rw (rpartition-append c s t h) refl

pub lacks-append :
    (c : ℕ) (s t : Text) → lacks c s ≡ true → lacks c t ≡ true → lacks c (s ++ t) ≡ true
lacks-append c [] t h k = k
lacks-append c (d ∷ s) t h k = ground (arith, lacks-append c s t)

pub strip_prefix-append : (p s : Text) → strip_prefix p (p ++ s) ≡ some s
unfolding strip_prefix
strip_prefix-append [] s = refl
strip_prefix-append (c ∷ p) s = ground (arith, strip_prefix-append p s)
