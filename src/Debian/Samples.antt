-- ===== src/Debian/Samples.antt =====
-- Runs of debian_version.py's `compare` on versions that packages carry.
use cvedeck.Prelude.{◌+◌, ◌≡◌, ◌≤◌, refl, some, Option, arith}
use cvedeck.Prelude.Int.{ℤ, pos, negsuc, sign}
use cvedeck.Prelude.Lex.{AtMost}
use cvedeck.Prelude.Text.{Text, codes, strip, partition, rpartition, text_is_digit, to_int_from}
use cvedeck.Debian.{
  split, compare, compare_versions, or_else, verrevcmp, verrevcmp_loop, after_walk, digits_of,
  digit_walk, settle, skip_zeros, text_walk, on_orders, char_order, with_epoch, with_revision,
}
use cvedeck.Debian.Order.{Decides}
use cvedeck.Debian.Versions.{version_order, enough, compare-eq-version_order, compare_trans}

-- `compare`, with the names that a run of it computes with.
run : Text → Text → Option ℤ
unfolding compare compare_versions or_else verrevcmp verrevcmp_loop after_walk digits_of digit_walk
    settle skip_zeros text_walk on_orders char_order split with_epoch with_revision strip partition
    rpartition text_is_digit to_int_from
run = compare

abbrev old : Text
old = codes "6.1.9-1"

abbrev new : Text
new = codes "6.1.10-1"

abbrev epoch : Text
epoch = codes "1:0.9"

older : compare old new ≡ some (negsuc 0)
unfolding run
older = refl

newest : compare new epoch ≡ some (negsuc 0)
unfolding run
newest = refl

numeric : compare (codes "1.10-1") (codes "1.9-1") ≡ some (pos 1)
unfolding run
numeric = refl

tilde_first : compare (codes "1.0~rc1") (codes "1.0") ≡ some (negsuc 0)
unfolding run
tilde_first = refl

leading_zeros : compare (codes "1.007") (codes "1.7") ≡ some (pos 0)
unfolding run
leading_zeros = refl

short_keys : enough (split old) + enough (split new) ≤ 60
unfolding enough run
short_keys = omega arith

compare-eq-version_order_example :
    Decides (compare old new) (version_order 60 (split old) (split new))
compare-eq-version_order_example = compare-eq-version_order old new 60 short_keys

compare_trans_example : (z : ℤ) × (compare old epoch ≡ some z) × AtMost (sign z)
compare_trans_example = compare_trans old new epoch older newest (λ e. cc) (λ e. cc)
