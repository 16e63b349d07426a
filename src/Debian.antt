-- ===== src/Debian.antt =====
-- backend/app/scanner/debian_version.py: dpkg's version ordering. An index into a text is the
-- rest of the text from there on, so `i < len(a)` is a match on the list.
pub mod Key
pub mod Numbers
pub mod Order
pub mod Versions
mod Samples
use cvedeck.Prelude.{
  ℕ, zero, suc, ◌+◌, ◌*◌, ◌≡◌, refl, Bool, true, false, not, ◌&&◌, Option, none, some, List, [],
  ◌∷◌, ◌==◌, if◌then◌else◌, length,
}
use cvedeck.Prelude.Int.{ℤ, pos, negsuc, sub_ℕ, ◌-ℤ◌}
use cvedeck.Prelude.Text.{
  Text, codes, is_digit, is_alpha, text_is_digit, to_int, strip, partition, rpartition, to_int_from,
}

-- `_order`
unfoldable pub char_order : ℕ → ℤ
char_order c =
    if c == b'~'
    then negsuc 0
    else if is_digit c
    then pos 0
    else if is_alpha c
    then pos c
    else pos (c + 256)

abbrev pub is_zero : ℤ → Bool
is_zero (pos n) = n == 0
is_zero (negsuc n) = false

-- How one of the loops inside a round ends: by a `return`, or with what is left of both texts.
pub data Walk : Type 0 where
  decided : ℤ → Walk
  rest : Text → Text → Walk

-- `if ac != bc: return ac - bc`, else go on
unfoldable pub on_orders : ℤ → ℤ → Walk → Walk
on_orders ac bc next = let diff = ac -ℤ bc in if is_zero diff then next else decided diff

-- The loop over the characters before the next digits; past the end the order is 0.
unfoldable pub text_walk : Text → Text → Walk
text_walk [] [] = rest [] []
text_walk [] (d ∷ b) =
    let next = on_orders (pos 0) (char_order d) (text_walk [] b) in
    if is_digit d then rest [] (d ∷ b) else next
text_walk (c ∷ a) [] =
    let next = on_orders (char_order c) (pos 0) (text_walk a []) in
    if is_digit c then rest (c ∷ a) [] else next
text_walk (c ∷ a) (d ∷ b) =
    let next = on_orders (char_order c) (char_order d) (text_walk a b) in
    if not (is_digit c) then next else if not (is_digit d) then next else rest (c ∷ a) (d ∷ b)

unfoldable pub skip_zeros : Text → Text
skip_zeros [] = []
skip_zeros (c ∷ a) = let more = skip_zeros a in if c == b'0' then more else c ∷ a

abbrev pub starts_digit : Text → Bool
starts_digit [] = false
starts_digit (c ∷ a) = is_digit c

-- The tests behind the digit loop.
unfoldable pub settle : Text → Text → ℤ → Walk
settle a b first_diff =
    if starts_digit a
    then decided (pos 1)
    else if starts_digit b
    then decided (negsuc 0)
    else if is_zero first_diff
    then rest a b
    else decided first_diff

unfoldable pub digit_walk : Text → Text → ℤ → Walk
digit_walk (c ∷ a) (d ∷ b) first_diff =
    let next = digit_walk a b (if is_zero first_diff then sub_ℕ c d else first_diff) in
    if is_digit c && is_digit d then next else settle (c ∷ a) (d ∷ b) first_diff
digit_walk a b first_diff = settle a b first_diff

unfoldable pub after_walk : Walk → (Text → Text → Option ℤ) → Option ℤ
after_walk (decided z) go = some z
after_walk (rest a b) go = go a b

unfoldable pub digits_of : Text → Text → Walk
digits_of a b = digit_walk (skip_zeros a) (skip_zeros b) (pos 0)

-- The outer loop on fuel; `none` means that the fuel ran out.
unfoldable pub verrevcmp_loop : ℕ → Text → Text → Option ℤ
verrevcmp_loop fuel [] [] = some (pos 0)
verrevcmp_loop zero a b = none
verrevcmp_loop (suc fuel) a b =
    let again = verrevcmp_loop fuel in
    after_walk (text_walk a b) (λ c d. after_walk (digits_of c d) (λ e f. again e f))

-- Each round reads a character of one of the texts.
unfoldable pub verrevcmp : Text → Text → Option ℤ
verrevcmp a b = verrevcmp_loop (length a + length b) a b

pub record Version : Type 0 where
  pub epoch : ℕ
  pub upstream : Text
  pub revision : Text

-- `if not upstream: upstream, revision = revision, ""`, behind the `rpartition`
unfoldable pub with_revision : ℕ → Text → Option (Text × Text) → Version
with_revision epoch version none = record { epoch = epoch; upstream = version; revision = [] }
with_revision epoch version (some ([], revision)) = record {
  epoch = epoch;
  upstream = revision;
  revision = [];
}
with_revision epoch version (some (c ∷ upstream, revision)) = record {
  epoch = epoch;
  upstream = c ∷ upstream;
  revision = revision;
}

unfoldable pub with_epoch : Text → Option (Text × Text) → Version
with_epoch version none = with_revision 0 version (rpartition b'-' version)
with_epoch version (some (head, tail)) =
    with_revision (if text_is_digit head then to_int head else 0) tail (rpartition b'-' tail)

-- `_split`
unfoldable pub split : Text → Version
split version = let text = strip version in with_epoch text (partition b':' text)

-- `_verrevcmp(ua, ub) or _verrevcmp(ra, rb)`
unfoldable pub or_else : Option ℤ → Option ℤ → Option ℤ
or_else none second = none
or_else (some z) second = if is_zero z then second else some z

unfoldable pub compare_versions : Version → Version → Option ℤ
compare_versions va vb =
    if va.epoch == vb.epoch
    then or_else (verrevcmp va.upstream vb.upstream) (verrevcmp va.revision vb.revision)
    else some (sub_ℕ va.epoch vb.epoch)

unfoldable pub compare : Text → Text → Option ℤ
compare a b = compare_versions (split a) (split b)
