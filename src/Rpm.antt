-- ===== src/Rpm.antt =====
-- backend/app/scanner/rpm_version.py: rpm's version ordering. An index into a text is the rest of the
-- text from there on. The outer loop takes fuel, the lengths of both texts; each round reads a character.
pub mod Rounds
pub mod Laws
mod Samples
use cvedeck.Prelude.{
  ℕ, zero, suc, ◌+◌, Bool, true, false, not, ◌&&◌, ◌||◌, Option, none, some, List, [], ◌∷◌, ◌==◌,
  ltb, length, if◌then◌else◌,
}
use cvedeck.Prelude.Int.{ℤ, pos, negsuc}
use cvedeck.Prelude.Text.{
  Text, codes, text_eq, is_digit, is_alpha, text_is_digit, to_int, strip, partition, rpartition,
  to_int_from,
}

-- `_isalnum`, and the characters of which a version is made
abbrev pub is_alnum : ℕ → Bool
is_alnum c = is_alpha c || is_digit c

abbrev pub is_part : ℕ → Bool
is_part c = is_alnum c || c == b'~' || c == b'^'

unfoldable pub skip_separators : Text → Text
skip_separators [] = []
skip_separators (c ∷ a) = elim (is_part c) [ true ↦ c ∷ a | false ↦ skip_separators a ]

abbrev pub starts : ℕ → Text → Bool
starts d [] = false
starts d (c ∷ a) = c == d

abbrev pub is_empty : Text → Bool
is_empty [] = true
is_empty (c ∷ a) = false

abbrev pub tail : Text → Text
tail [] = []
tail (c ∷ a) = a

-- How a round ends: by a `return`, by going on, or by leaving the loop.
pub data Round : Type 0 where
  decided : ℤ → Round
  goes_on leaves : Text → Text → Round

abbrev pub one : ℤ
one = pos 1

abbrev pub minus_one : ℤ
minus_one = negsuc 0

-- `~` sorts before everything, even the end.
abbrev pub at_tilde : Text → Text → Round
at_tilde a b =
    if not (starts b'~' a)
    then decided one
    else if not (starts b'~' b)
    then decided minus_one
    else goes_on (tail a) (tail b)

-- `^` sorts behind the end, before anything else.
abbrev pub at_caret : Text → Text → Round
at_caret a b =
    if is_empty a
    then decided minus_one
    else if is_empty b
    then decided one
    else if not (starts b'^' a)
    then decided one
    else if not (starts b'^' b)
    then decided minus_one
    else goes_on (tail a) (tail b)

-- The characters of one kind, and what is behind them.
unfoldable pub run_of : (ℕ → Bool) → Text → Text × Text
run_of kind [] = ([], [])
run_of kind (c ∷ a) =
    let rest = run_of kind a in if kind c then (c ∷ rest.0, rest.1) else ([], c ∷ a)

unfoldable pub lstrip_zeros : Text → Text
lstrip_zeros [] = []
lstrip_zeros (c ∷ a) = let more = lstrip_zeros a in if c == b'0' then more else c ∷ a

-- `a > b` of texts
unfoldable pub text_gt : Text → Text → Bool
text_gt [] b = false
text_gt (c ∷ a) [] = true
text_gt (c ∷ a) (d ∷ b) = if c == d then text_gt a b else ltb d c

abbrev pub by_text : Text → Text → Round → Round
by_text a b next =
    if text_eq a b then next else if text_gt a b then decided one else decided minus_one

abbrev pub by_length : Text → Text → Round → Round
by_length a b next =
    if length a == length b
    then by_text a b next
    else if ltb (length b) (length a)
    then decided one
    else decided minus_one

abbrev pub by_runs : Bool → Text × Text → Text × Text → Round
by_runs numeric (run_a, a) (run_b, b) =
    if is_empty run_b
    then (if numeric then decided one else decided minus_one)
    else if numeric
    then by_length (lstrip_zeros run_a) (lstrip_zeros run_b) (goes_on a b)
    else by_text run_a run_b (goes_on a b)

unfoldable pub at_runs : Text → Text → Round
at_runs [] b = leaves [] b
at_runs (c ∷ a) [] = leaves (c ∷ a) []
at_runs (c ∷ a) (d ∷ b) = elim (is_digit c) [
  | true ↦ by_runs true (run_of is_digit (c ∷ a)) (run_of is_digit (d ∷ b))
  | false ↦ by_runs false (run_of is_alpha (c ∷ a)) (run_of is_alpha (d ∷ b))
]

-- One round of the outer loop, behind the separators.
unfoldable pub one_round : Text → Text → Round
one_round a b =
    if starts b'~' a || starts b'~' b
    then at_tilde a b
    else if starts b'^' a || starts b'^' b
    then at_caret a b
    else at_runs a b

-- Behind the loop.
abbrev pub at_end : Text → Text → ℤ
at_end [] [] = pos 0
at_end [] (d ∷ b) = minus_one
at_end (c ∷ a) b = one

abbrev pub after_round : Round → (Text → Text → Option ℤ) → Option ℤ
after_round (decided z) again = some z
after_round (goes_on a b) again = again a b
after_round (leaves a b) again = some (at_end a b)

-- `none` means that the fuel ran out.
unfoldable pub rpmvercmp_loop : ℕ → Text → Text → Option ℤ
rpmvercmp_loop fuel [] [] = some (pos 0)
rpmvercmp_loop zero a b = none
rpmvercmp_loop (suc fuel) a b =
    let again = rpmvercmp_loop fuel in
    after_round (one_round (skip_separators a) (skip_separators b)) (λ c d. again c d)

-- `_rpmvercmp`
unfoldable pub rpmvercmp : Text → Text → Option ℤ
rpmvercmp a b = if text_eq a b then some (pos 0) else rpmvercmp_loop (length a + length b) a b

pub record Version : Type 0 where
  pub epoch : ℕ
  pub upstream : Text
  pub release : Text

abbrev pub with_release : ℕ → Text → Option (Text × Text) → Version
with_release epoch version none = record { epoch = epoch; upstream = version; release = [] }
with_release epoch version (some (upstream, release)) = record {
  epoch = epoch;
  upstream = upstream;
  release = release;
}

abbrev pub with_head : Text → Option (Text × Text) → Version
with_head version none = with_release 0 version (rpartition b'-' version)
with_head version (some (head, rest)) =
    if text_is_digit head
    then with_release (to_int head) rest (rpartition b'-' rest)
    else with_release 0 version (rpartition b'-' version)

-- `_split`
unfoldable pub split : Text → Version
split version = let text = strip version in with_head text (partition b':' text)

-- `_rpmvercmp(va, vb) or _rpmvercmp(ra, rb)`
abbrev pub is_zero : ℤ → Bool
is_zero (pos n) = n == 0
is_zero (negsuc n) = false

abbrev pub or_else : Option ℤ → Option ℤ → Option ℤ
or_else none second = none
or_else (some z) second = if is_zero z then second else some z

unfoldable pub compare_versions : Version → Version → Option ℤ
compare_versions va vb =
    if va.epoch == vb.epoch
    then or_else (rpmvercmp va.upstream vb.upstream) (rpmvercmp va.release vb.release)
    else if ltb va.epoch vb.epoch
    then some minus_one
    else some one

-- `compare`
unfoldable pub compare : Text → Text → Option ℤ
compare a b = compare_versions (split a) (split b)
