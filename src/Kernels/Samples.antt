-- ===== src/Kernels/Samples.antt =====
-- Findings on one kernel and on a library.
use cvedeck.Prelude.{◌≡◌, refl, false, none, some, List, [], ◌∷◌, length}
use cvedeck.Prelude.Text.{codes, text_eq, strip, lstrip, rpartition, strip_prefix, lower}
use cvedeck.Prelude.Dicts.{update_at}
use cvedeck.PackageId.{
  cut_note, ends_in, split_version, token_of, parse_package_name, parse_package_version,
  plain_version, final_version, label_version, behind_host, available_here, elsewhere_here,
  upstream_here, search_text, parse_fix,
}
use cvedeck.PackageId.Kernel.{
  skip_digits, behind_series, is_versioned_kernel, is_kernel_package, finding_package,
}
use cvedeck.Kernels.{FindingInput, Split, place_of, split_from, split_kernel_findings}
use cvedeck.Kernels.Split.{is_listed, is_counted_at, select}
use cvedeck.Kernels.Counts.{number_of, split_kernel_findings-Counts}

abbrev harmless : FindingInput
harmless = record {
  cve_id = codes "CVE-2024-1";
  package_identifier = some (
      codes
        "Debian:12:linux-image-6.1.0-53-amd64@6.1.180-1 (no fix in Debian 12; fixed only in Debian 13: 6.12.1-1)");
  kev_listed = some false;
}

abbrev unlooked : FindingInput
unlooked = record {
  cve_id = codes "CVE-2024-2";
  package_identifier = some (codes "Debian:12:linux-image-6.1.0-53-amd64@6.1.180-1");
  kev_listed = none;
}

abbrev userland : FindingInput
userland = record {
  cve_id = codes "CVE-2024-3";
  package_identifier = some (codes "Debian:12:vim@9.0");
  kev_listed = some false;
}

abbrev findings : List FindingInput
findings = harmless ∷ unlooked ∷ userland ∷ []

split_of : List FindingInput → Split
unfolding split_kernel_findings split_from place_of parse_package_name parse_package_version
    token_of cut_note split_version ends_in strip lstrip rpartition parse_fix search_text
    available_here elsewhere_here upstream_here plain_version final_version label_version
    behind_host strip_prefix is_kernel_package is_versioned_kernel behind_series skip_digits text_eq
    lower finding_package update_at
split_of = split_kernel_findings

one_counted : split_of findings ≡ (
  unlooked ∷ userland ∷ [],
  (
    codes "linux-image-6.1.0-53-amd64@6.1.180-1",
    record { no_fix = 0; elsewhere = (codes "Debian 13", 1) ∷ [] },
  )
      ∷ [],
)
unfolding split_of
one_counted = refl

split_kernel_findings-Counts_example :
    ((split_kernel_findings findings).0 ≡ select is_listed findings)
    × (number_of
          (codes "linux-image-6.1.0-53-amd64@6.1.180-1")
          (some (codes "Debian 13"))
          (split_kernel_findings findings).1
        ≡ length (
            select
              (is_counted_at
                (codes "linux-image-6.1.0-53-amd64@6.1.180-1")
                (some (codes "Debian 13")))
              findings))
split_kernel_findings-Counts_example =
    split_kernel_findings-Counts findings (codes "linux-image-6.1.0-53-amd64@6.1.180-1")
      (some (codes "Debian 13"))
