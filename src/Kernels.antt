-- ===== src/Kernels.antt =====
-- backend/app/services/kernel.py: which kernel findings are listed and which are only counted, and a
-- host's kernels as the dashboard shows them.
pub mod Split
pub mod Counts
mod Samples
use cvedeck.Prelude.{
  ℕ, suc, ◌+◌, Bool, true, false, not, ◌||◌, Option, none, some, List, [], ◌∷◌, ◌++◌, map,
  if◌then◌else◌,
}
use cvedeck.Prelude.Text.{Text}
use cvedeck.Prelude.Dicts.{Dict, update_at}
use cvedeck.PackageId.{
  Fix, unknown, available, newer_release, upstream, no_fix, or_none, parse_fix, parse_package_name,
}
use cvedeck.PackageId.Kernel.{is_kernel_package, finding_package}

-- `FindingInput`, as far as it is read here. `kev_listed` is `none` on a finding that was not looked
-- up in the catalogue of exploited vulnerabilities.
pub record FindingInput : Type 0 where
  pub cve_id : Text
  pub package_identifier : Option Text
  pub kev_listed : Option Bool

-- `UnfixedCount` and its `total`
pub record UnfixedCount : Type 0 where
  pub no_fix : ℕ
  pub elsewhere : Dict ℕ

abbrev pub no_count : UnfixedCount
no_count = record { no_fix = 0; elsewhere = [] }

unfoldable pub sum_values : Dict ℕ → ℕ
sum_values [] = 0
sum_values ((k, n) ∷ d) = n + sum_values d

abbrev pub total : UnfixedCount → ℕ
total c = c.no_fix + sum_values c.elsewhere

-- Where a finding goes: on the list, or to a kernel's count, under the release that has the fix.
pub data Place : Type 0 where
  listed : Place
  counted : Text → Option Text → Place

-- `release` where the status is "newer_release" or "upstream", and it is not empty
abbrev pub release_named : Fix → Option Text
release_named (newer_release release version) = or_none release
release_named (upstream release version) = or_none release
release_named unknown = none
release_named no_fix = none
release_named (available version) = none

abbrev pub or_name : Option Text → Text → Text
or_name none name = name
or_name (some key) name = key

abbrev pub counted_place : FindingInput → Text → Fix → Option Bool → Place
counted_place f name (available version) kev = listed
counted_place f name fix (some false) =
    counted (or_name (finding_package f.package_identifier) name) (release_named fix)
counted_place f name fix _ = listed

abbrev pub named_place : FindingInput → Option Text → Place
named_place f none = listed
named_place f (some name) =
    if not (is_kernel_package name none)
    then listed
    else counted_place f name (parse_fix f.package_identifier) f.kev_listed

unfoldable pub place_of : FindingInput → Place
place_of f = named_place f (parse_package_name f.package_identifier)

-- `count.no_fix += 1`, or the count of a release
abbrev pub add_count : Option Text → UnfixedCount → UnfixedCount
add_count none c = record { no_fix = suc c.no_fix; elsewhere = c.elsewhere }
add_count (some release) c = record {
  no_fix = c.no_fix;
  elsewhere = update_at suc 0 release c.elsewhere;
}

abbrev pub Split : Type 0
Split = List FindingInput × Dict UnfixedCount

-- One round of the loop
abbrev pub place : FindingInput → Place → Split → Split
place f listed (kept, counts) = (kept ++ f ∷ [], counts)
place f (counted key release) (kept, counts) =
    (kept, update_at (add_count release) no_count key counts)

unfoldable pub split_from : Split → List FindingInput → Split
split_from state [] = state
split_from state (f ∷ fs) = split_from (place f (place_of f) state) fs

-- `split_kernel_findings`
unfoldable pub split_kernel_findings : List FindingInput → Split
split_kernel_findings findings = split_from ([], []) findings
