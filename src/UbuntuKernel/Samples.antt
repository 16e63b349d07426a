-- ===== src/UbuntuKernel/Samples.antt =====
-- A 22.04 host that runs one of its two kernels.
use cvedeck.Prelude.{◌≡◌, ◌⊎◌, refl, true, some, List, [], ◌∷◌}
use cvedeck.Prelude.Text.{
  Text, codes, text_eq, strip, lstrip, partition, rpartition, strip_prefix, text_is_digit,
  to_int_from,
}
use cvedeck.Severity.{high, medium}
use cvedeck.Debian.{
  split, compare, compare_versions, or_else, verrevcmp, verrevcmp_loop, after_walk, digits_of,
  digit_walk, settle, skip_zeros, text_walk, on_orders, char_order, with_epoch, with_revision,
}
use cvedeck.PackageId.Kernel.{
  Package, skip_digits, behind_series, names_a_release, behind_prefix, is_kernel_image,
  kernel_source, skip_dashes, advisory_source,
}
use cvedeck.PackageId.Running.{kernel_image_release}
use cvedeck.Releases.{ubuntu_version}
use cvedeck.UbuntuKernel.{
  KernelAdvisory, codename_of, codename_for, affecting, ubuntu_kernel_images, running_images,
  checked, Feeds, check_ubuntu_kernel,
}
use cvedeck.UbuntuKernel.Terms.{IsMade, IsRefused}
use cvedeck.UbuntuKernel.Made.{check_ubuntu_kernel-IsMade}

abbrev image : Package
image = record {
  name = codes "linux-image-5.15.0-101-generic";
  version = codes "5.15.0-101.111";
  source_name = some (codes "linux-signed");
  source_version = some (codes "5.15.0-101.111");
  ecosystem = some (codes "Ubuntu:22.04:LTS");
}

abbrev fixed_row : KernelAdvisory
fixed_row = record {
  cve_id = codes "CVE-2024-1";
  severity = high;
  fixed = some (codes "5.15.0-101.111");
}

abbrev open_row : KernelAdvisory
open_row = record {
  cve_id = codes "CVE-2024-2";
  severity = medium;
  fixed = some (codes "5.15.0-110.120");
}

abbrev rows : List KernelAdvisory
rows = fixed_row ∷ open_row ∷ []

abbrev feeds : Feeds
feeds = record {
  enabled = true;
  usable = λ codename. text_eq codename (codes "jammy");
  table = λ codename flavour. some rows;
}

affects : Text → List KernelAdvisory
unfolding affecting compare compare_versions or_else verrevcmp verrevcmp_loop after_walk digits_of
    digit_walk settle skip_zeros text_walk on_orders char_order split with_epoch with_revision strip
    lstrip partition rpartition text_is_digit to_int_from
affects v = affecting v rows

only_open : affects (codes "5.15.0-101.111") ≡ open_row ∷ []
unfolding affects
only_open = refl

check_ubuntu_kernel-IsMade_example :
    IsRefused feeds (image ∷ []) (some (codes "5.15.0-101-generic")) (checked image rows)
    ⊎ IsMade feeds (image ∷ []) (some (codes "5.15.0-101-generic")) (checked image rows)
unfolding check_ubuntu_kernel ubuntu_kernel_images is_kernel_image behind_prefix strip_prefix
    names_a_release behind_series skip_digits codename_for ubuntu_version strip lstrip codename_of
    text_eq running_images kernel_image_release advisory_source kernel_source skip_dashes
check_ubuntu_kernel-IsMade_example =
    check_ubuntu_kernel-IsMade feeds (image ∷ []) (some (codes "5.15.0-101-generic"))
      (checked image rows) refl
