-- ===== src/Rpm/Samples.antt =====
-- Versions from the module's documentation.
use cvedeck.Prelude.{◌≡◌, refl, Option, some}
use cvedeck.Prelude.Int.{ℤ, pos, negsuc}
use cvedeck.Prelude.Text.{
  Text, codes, text_eq, strip, lstrip, partition, rpartition, text_is_digit, to_int_from,
}
use cvedeck.Rpm.{
  skip_separators, run_of, lstrip_zeros, text_gt, at_runs, one_round, rpmvercmp_loop, rpmvercmp,
  split, compare_versions, compare,
}
use cvedeck.Rpm.Rounds.{negate}
use cvedeck.Rpm.Laws.{compare-negate}

of_versions : Text → Text → Option ℤ
unfolding compare compare_versions split rpmvercmp rpmvercmp_loop one_round at_runs text_gt
    lstrip_zeros run_of skip_separators text_eq strip lstrip partition rpartition text_is_digit
    to_int_from
of_versions = compare

minor_as_number : of_versions (codes "1.9-1.el9") (codes "1.10-1.el9") ≡ some (negsuc 0)
unfolding of_versions
minor_as_number = refl

tilde_before_end : of_versions (codes "1.0~rc1-1") (codes "1.0-1") ≡ some (negsuc 0)
unfolding of_versions
tilde_before_end = refl

epoch_first : of_versions (codes "1:1.0") (codes "2.0^git1") ≡ some (pos 1)
unfolding of_versions
epoch_first = refl

compare-negate_example :
    (z : ℤ) × (compare (codes "1.9-1.el9") (codes "1.10-1.el9") ≡ some z)
    × (compare (codes "1.10-1.el9") (codes "1.9-1.el9") ≡ some (negate z))
compare-negate_example = compare-negate (codes "1.9-1.el9") (codes "1.10-1.el9")
