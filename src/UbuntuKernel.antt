-- ===== src/UbuntuKernel.antt =====
-- backend/app/services/ubuntu_kernel.py, with `codename_for` and `affecting` of
-- backend/app/scanner/ubuntu_kernel_feed.py: an Ubuntu host's running kernel against the stored feed.
-- The stored tables are an argument, decoded; `json` and `zlib` do that.
pub mod Checked
pub mod Terms
pub mod Tables
pub mod Made
mod Samples
use cvedeck.Prelude.{
  ℕ, Bool, true, false, not, ◌&&◌, Option, none, some, List, [], ◌∷◌, ◌++◌, map, is_some,
  if◌then◌else◌,
}
use cvedeck.Prelude.Int.{ℤ, Sign, less, same, more, sign}
use cvedeck.Prelude.Text.{Text, codes, text_eq, strip, strip_prefix}
use cvedeck.Severity.{Severity}
use cvedeck.Debian.{compare}
use cvedeck.PackageId.{is_empty, or_empty}
use cvedeck.PackageId.Notes.{available_note}
use cvedeck.PackageId.Kernel.{Package, is_one_of, is_kernel_image, advisory_source}
use cvedeck.PackageId.Running.{kernel_image_release}
use cvedeck.Releases.{UbuntuVersion, ubuntu_version, dotted_text}
use cvedeck.PackageId.{and_then}
use cvedeck.Kernels.{FindingInput}

-- `KernelAdvisory`
pub record KernelAdvisory : Type 0 where
  pub cve_id : Text
  pub severity : Severity
  pub fixed : Option Text

-- `UBUNTU_CODENAMES` and `UBUNTU_END_OF_LIFE`
abbrev pub ubuntu_codenames : List (Text × Text)
ubuntu_codenames =
    (codes "16.04", codes "xenial")
    ∷ (codes "18.04", codes "bionic")
    ∷ (codes "20.04", codes "focal")
    ∷ (codes "22.04", codes "jammy")
    ∷ (codes "24.04", codes "noble")
    ∷ (codes "24.10", codes "oracular")
    ∷ (codes "25.04", codes "plucky")
    ∷ (codes "25.10", codes "questing")
    ∷ (codes "26.04", codes "resolute")
    ∷ []

abbrev pub ubuntu_end_of_life : List Text
ubuntu_end_of_life = codes "oracular" ∷ codes "plucky" ∷ []

unfoldable pub codename_of : Text → List (Text × Text) → Option Text
codename_of version [] = none
codename_of version ((v, codename) ∷ rest) = elim (text_eq v version) [
  | true ↦ some codename
  | false ↦ codename_of version rest
]

abbrev pub codename_at : UbuntuVersion → Option Text
codename_at v = codename_of (dotted_text v.year v.month) ubuntu_codenames

-- `codename_for`
unfoldable pub codename_for : Option Text → Option Text
codename_for ecosystem =
    and_then codename_at
      (and_then ubuntu_version (strip_prefix (codes "Ubuntu:") (strip (or_empty ecosystem))))

-- `compare(installed, fixed) < 0`
abbrev pub is_less : Sign → Bool
is_less less = true
is_less same = false
is_less more = false

abbrev pub is_negative : Option ℤ → Bool
is_negative none = false
is_negative (some x) = is_less (sign x)

abbrev pub is_open : Text → Option Text → Bool
is_open installed none = true
is_open installed (some fixed) = is_negative (compare installed fixed)

-- `affecting`
unfoldable pub affecting : Text → List KernelAdvisory → List KernelAdvisory
affecting installed [] = []
affecting installed (a ∷ rest) =
    let more_rows = affecting installed rest in
    if is_open installed a.fixed then a ∷ more_rows else more_rows

-- Why a kernel was not checked
pub data Reason : Type 0 where
  feed_off feed_unavailable release_unknown release_end_of_life : Reason
  running_unknown running_not_installed flavour_unknown : Reason

-- `UbuntuKernelCheck`
pub record UbuntuKernelCheck : Type 0 where
  pub reason : Option Reason
  pub findings : List FindingInput
  pub assessed : Option Text

abbrev pub unchecked : Reason → UbuntuKernelCheck
unchecked reason = record { reason = some reason; findings = []; assessed = none }

-- `ubuntu_kernel_images`
unfoldable pub ubuntu_kernel_images : List Package → List Package
ubuntu_kernel_images [] = []
ubuntu_kernel_images (p ∷ ps) =
    let rest = ubuntu_kernel_images ps in
    if is_kernel_image p.name && is_some (strip_prefix (codes "Ubuntu") (or_empty p.ecosystem))
    then p ∷ rest
    else rest

-- The images that report the running release
unfoldable pub running_images : Text → List Package → List Package
running_images release [] = []
running_images release (p ∷ ps) =
    let rest = running_images release ps in
    if kernel_image_release p.name p.version release then p ∷ rest else rest

abbrev pub base_of : Package → Text
base_of p = or_none_text p.ecosystem ++ b':' ∷ (p.name ++ b'@' ∷ p.version)
  where
    or_none_text : Option Text → Text
    or_none_text none = codes "None"
    or_none_text (some s) = s

abbrev pub identifier_of : Text → Option Text → Text
identifier_of base none = base
identifier_of base (some fixed) = base ++ available_note fixed

abbrev pub finding_of : Package → KernelAdvisory → FindingInput
finding_of image a = record {
  cve_id = a.cve_id;
  package_identifier = some (identifier_of (base_of image) a.fixed);
  kev_listed = none;
}

abbrev pub checked : Package → List KernelAdvisory → UbuntuKernelCheck
checked image rows = record {
  reason = none;
  findings = map (finding_of image) (affecting image.version rows);
  assessed = some (image.name ++ b'@' ∷ image.version);
}

-- The store of the feeds: `repository.ubuntu_kernel_feed`, decoded, and `feed_usable`
pub record Feeds : Type 0 where
  pub enabled : Bool
  pub usable : Text → Bool
  pub table : Text → Text → Option (List KernelAdvisory)

-- `flavour`, and the table of it
abbrev pub flavour_of : Package → Option Text
flavour_of image =
    if is_empty (or_empty image.source_name) then none else some (advisory_source image).0

abbrev pub table_for : Feeds → Text → Option Text → Option (List KernelAdvisory)
table_for feeds codename none = none
table_for feeds codename (some flavour) =
    if is_empty flavour then none else feeds.table codename flavour

abbrev pub by_table : Package → Option (List KernelAdvisory) → UbuntuKernelCheck
by_table image none = unchecked flavour_unknown
by_table image (some rows) = checked image rows

abbrev pub by_image : Feeds → Text → List Package → UbuntuKernelCheck
by_image feeds codename [] = unchecked running_not_installed
by_image feeds codename (image ∷ images) =
    by_table image (table_for feeds codename (flavour_of image))

abbrev pub by_release : Feeds → Text → List Package → Text → UbuntuKernelCheck
by_release feeds codename images [] = unchecked running_unknown
by_release feeds codename images (c ∷ release) =
    by_image feeds codename (running_images (c ∷ release) images)

abbrev pub by_codename : Feeds → List Package → Option Text → Option Text → UbuntuKernelCheck
by_codename feeds images kernel_version none = unchecked release_unknown
by_codename feeds images kernel_version (some codename) =
    if not feeds.enabled
    then unchecked feed_off
    else if is_one_of ubuntu_end_of_life codename
    then unchecked release_end_of_life
    else if not (feeds.usable codename)
    then unchecked feed_unavailable
    else by_release feeds codename images (strip (or_empty kernel_version))

abbrev pub by_images : Feeds → Option Text → List Package → Option UbuntuKernelCheck
by_images feeds kernel_version [] = none
by_images feeds kernel_version (p ∷ ps) =
    some (by_codename feeds (p ∷ ps) kernel_version (codename_for p.ecosystem))

-- `check_ubuntu_kernel`, of an inventory's packages and kernel version
unfoldable pub check_ubuntu_kernel : Feeds → List Package → Option Text → Option UbuntuKernelCheck
check_ubuntu_kernel feeds packages kernel_version =
    by_images feeds kernel_version (ubuntu_kernel_images packages)
