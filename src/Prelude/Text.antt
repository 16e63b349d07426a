-- ===== src/Prelude/Text.antt =====
-- Text as a list of code points, with the parts of Python's `str` that the program uses. The
-- character classes are Python's on ASCII, which is what package names and versions hold.
use Prim.Native.Nat.{ℕ, ◌+◌, ◌-◌, ◌*◌}
use Prim.Native.Char.{code}
use Prim.Native.String.{String}
use mathlib.Core.Path.{◌≡◌, refl}
use mathlib.Core.Logic.{◌↔◌}
use mathlib.Core.Bool.{Bool, true, false, ◌&&◌, ◌||◌}
use mathlib.Core.Option.{Option, none, some}
use mathlib.Core.List.{List, [], ◌∷◌, reverse}
use native.Mathlib.Omega.{arith}
use cvedeck.Prelude.Tests.{leb, ◌==◌, if◌then◌else◌}
use cvedeck.Prelude.Lists.{all}

abbrev pub Text : Type 0
Text = List ℕ

-- The code points of a literal.
abbrev pub codes : String → Text
codes String.[] = []
codes (String.◌∷◌ c s) = code c ∷ codes s

-- `s == t`
unfoldable pub text_eq : Text → Text → Bool
text_eq [] [] = true
text_eq [] (d ∷ t) = false
text_eq (c ∷ s) [] = false
text_eq (c ∷ s) (d ∷ t) = c == d && text_eq s t

pub text_eq_iff : (s t : Text) → (text_eq s t ≡ true) ↔ (s ≡ t)
unfolding text_eq
text_eq_iff [] [] = ground arith
text_eq_iff [] (d ∷ t) = ground arith
text_eq_iff (c ∷ s) [] = ground arith
text_eq_iff (c ∷ s) (d ∷ t) = ground (arith, text_eq_iff s t)

pub text_eq_refl : (s : Text) → text_eq s s ≡ true
text_eq_refl s = (text_eq_iff s s).1 refl

-- `c.isdigit()` and `c.isalpha()`
abbrev pub is_digit : ℕ → Bool
is_digit c = leb b'0' c && leb c b'9'

abbrev pub is_alpha : ℕ → Bool
is_alpha c = leb b'a' c && leb c b'z' || leb b'A' c && leb c b'Z'

-- `s.isdigit()`: one or more digits
unfoldable pub text_is_digit : Text → Bool
text_is_digit [] = false
text_is_digit (c ∷ s) = all is_digit (c ∷ s)

-- `int(s)` of digits, read behind `n`
unfoldable pub to_int_from : ℕ → Text → ℕ
to_int_from n [] = n
to_int_from n (c ∷ s) = to_int_from (n * 10 + (c - b'0')) s

abbrev pub to_int : Text → ℕ
to_int s = to_int_from 0 s

-- The characters that `str.strip()` removes.
abbrev pub is_space : ℕ → Bool
is_space c = leb 9 c && leb c 13 || leb 28 c && leb c 32

unfoldable pub lstrip : Text → Text
lstrip [] = []
lstrip (c ∷ s) = let rest = lstrip s in if is_space c then rest else c ∷ s

unfoldable pub strip : Text → Text
unfolding lstrip
strip s = reverse (lstrip (reverse (lstrip s)))

-- `head, sep, tail = s.partition(c)`; `none` when `c` does not occur
unfoldable pub partition : ℕ → Text → Option (Text × Text)
partition c [] = none
partition c (d ∷ s) = elim (d == c) [
  | true ↦ some ([], s)
  | false ↦ elim (partition c s) [ none ↦ none | some (h, t) ↦ some (d ∷ h, t) ]
]

-- `head, sep, tail = s.rpartition(c)`; `none` when `c` does not occur
unfoldable pub rpartition : ℕ → Text → Option (Text × Text)
rpartition c [] = none
rpartition c (d ∷ s) = elim (rpartition c s) [
  | some (h, t) ↦ some (d ∷ h, t)
  | none ↦ if d == c then some ([], s) else none
]

-- `s.startswith(prefix)` returns what follows the prefix
unfoldable pub strip_prefix : Text → Text → Option Text
strip_prefix [] s = some s
strip_prefix (c ∷ p) [] = none
strip_prefix (c ∷ p) (d ∷ s) = if c == d then strip_prefix p s else none

-- `s.lower()`
abbrev pub lower_char : ℕ → ℕ
lower_char c = if leb b'A' c && leb c b'Z' then c + 32 else c

unfoldable pub lower : Text → Text
lower [] = []
lower (c ∷ s) = lower_char c ∷ lower s
