-- ===== src/PackageId/Kernel.antt =====
-- Which packages are the kernel, in package_identifier.py, and how `finding_package` and
-- `advisory_source` use it.
use cvedeck.Prelude.{
  ℕ, Bool, true, false, not, ◌||◌, Option, none, some, List, [], ◌∷◌, ◌++◌, ◌==◌, all, any, is_some,
  if◌then◌else◌,
}
use cvedeck.Prelude.Text.{Text, codes, text_eq, is_digit, is_alpha, lower, strip, strip_prefix}
use cvedeck.PackageId.{parse_package_name, parse_package_version, is_empty, and_then, or_empty}

-- `text in names` and `text.startswith(prefixes)`
abbrev pub is_one_of : List Text → Text → Bool
is_one_of names text = any (text_eq text) names

abbrev pub starts_with : Text → Text → Bool
starts_with prefix text = is_some (strip_prefix prefix text)

abbrev pub starts_with_any : List Text → Text → Bool
starts_with_any prefixes text = any (λ prefix. starts_with prefix text) prefixes

-- `_KERNEL_BINARY_PREFIXES`, `_KERNEL_BINARIES`, `_KERNEL_SOURCES`, `_KERNEL_IMAGES`
abbrev pub kernel_binary_prefixes : List Text
kernel_binary_prefixes =
    codes "linux-image-"
    ∷ codes "linux-headers-"
    ∷ codes "linux-modules-"
    ∷ codes "linux-kbuild-"
    ∷ codes "kernel-core"
    ∷ codes "kernel-modules"
    ∷ codes "kernel-uek-core"
    ∷ codes "kernel-uek-modules"
    ∷ []

abbrev pub kernel_binaries : List Text
kernel_binaries =
    codes "kernel"
    ∷ codes "kernel-default"
    ∷ codes "linux-lts"
    ∷ codes "linux-virt"
    ∷ codes "linux"
    ∷ codes "kernel-uek"
    ∷ codes "linux-zen"
    ∷ codes "linux-hardened"
    ∷ []

abbrev pub kernel_sources : List Text
kernel_sources =
    codes "linux"
    ∷ codes "kernel"
    ∷ codes "kernel-default"
    ∷ codes "linux-lts"
    ∷ codes "linux-virt"
    ∷ codes "kernel-uek"
    ∷ codes "linux-zen"
    ∷ codes "linux-hardened"
    ∷ []

abbrev pub kernel_images : List Text
kernel_images =
    codes "kernel"
    ∷ codes "kernel-core"
    ∷ codes "kernel-rt-core"
    ∷ codes "kernel-64k-core"
    ∷ codes "kernel-default"
    ∷ codes "kernel-preempt"
    ∷ codes "kernel-rt"
    ∷ codes "kernel-azure"
    ∷ codes "linux"
    ∷ codes "linux-lts"
    ∷ codes "linux-virt"
    ∷ codes "linux-edge"
    ∷ codes "linux-rpi"
    ∷ codes "kernel-uek"
    ∷ codes "kernel-uek-core"
    ∷ codes "linux-zen"
    ∷ codes "linux-hardened"
    ∷ []

-- `\d*`: what is behind the digits; `\d+` wants one at least
unfoldable pub skip_digits : Text → Text
skip_digits [] = []
skip_digits (c ∷ s) = elim (is_digit c) [ true ↦ skip_digits s | false ↦ c ∷ s ]

abbrev pub behind_digits : Text → Option Text
behind_digits [] = none
behind_digits (c ∷ s) = if is_digit c then some (skip_digits s) else none

-- `\d+\.\d+`, and what is behind it
unfoldable pub behind_series : Text → Option Text
behind_series s = and_then behind_digits (and_then (strip_prefix (codes ".")) (behind_digits s))

-- `[\w.-]`
abbrev pub is_word : ℕ → Bool
is_word c = is_alpha c || is_digit c || c == b'_' || c == b'.' || c == b'-'

-- `(-modules[\w.-]*)?` to the end
abbrev pub ends_modules : Text → Bool
ends_modules [] = true
ends_modules (c ∷ s) = elim (strip_prefix (codes "-modules") (c ∷ s)) [
  | none ↦ false
  | some rest ↦ all is_word rest
]

abbrev pub holds_for : (Text → Bool) → Option Text → Bool
holds_for p none = false
holds_for p (some s) = p s

-- `_VERSIONED_KERNEL.fullmatch`
unfoldable pub is_versioned_kernel : Text → Bool
is_versioned_kernel s =
    holds_for ends_modules (and_then behind_series (strip_prefix (codes "kernel") s))

-- `is_kernel_package`
unfoldable pub is_kernel_package : Text → Option Text → Bool
is_kernel_package name source_name =
    let lowered = lower name in
    let source = lower (or_empty source_name) in
    if is_one_of kernel_binaries lowered || starts_with_any kernel_binary_prefixes lowered
    then true
    else if is_versioned_kernel lowered || is_versioned_kernel source
    then true
    else is_one_of kernel_sources source
      || starts_with_any (codes "linux-signed" ∷ codes "linux-rpi" ∷ []) source

-- `_NAMES_A_RELEASE.match`
unfoldable pub names_a_release : Text → Bool
names_a_release s = is_some (behind_series s)

-- What follows the first of the prefixes that the name has.
unfoldable pub behind_prefix : List Text → Text → Option Text
behind_prefix [] name = none
behind_prefix (prefix ∷ prefixes) name = elim (strip_prefix prefix name) [
  | some rest ↦ some rest
  | none ↦ behind_prefix prefixes name
]

abbrev pub image_prefixes : List Text
image_prefixes = codes "linux-image-unsigned-" ∷ codes "linux-image-" ∷ []

-- `is_kernel_image`
unfoldable pub is_kernel_image : Text → Bool
is_kernel_image name = elim (behind_prefix image_prefixes name) [
  | some rest ↦ names_a_release rest
  | none ↦
      is_one_of kernel_images name
      || holds_for is_empty (and_then behind_series (strip_prefix (codes "kernel") name))
]

-- `is_kernel_metapackage`
unfoldable pub is_kernel_metapackage : Text → Bool
is_kernel_metapackage name =
    elim (behind_prefix
      (codes "linux-image-unsigned-" ∷ codes "linux-image-" ∷ codes "linux-headers-" ∷ []) name) [
        | some rest ↦ not (names_a_release rest)
        | none ↦ false
      ]

-- `finding_package`
abbrev pub with_version : Text → Option Text → Text
with_version name none = name
with_version name (some version) = name ++ b'@' ∷ version

unfoldable pub finding_package : Option Text → Option Text
finding_package identifier = elim (parse_package_name identifier) [
  | none ↦ none
  | some name ↦
      if not (is_kernel_package name none)
      then some name
      else some (with_version name (parse_package_version identifier))
]

-- `_KERNEL_MATCHED_FAMILIES`
abbrev pub kernel_matched_families : List Text
kernel_matched_families =
    codes "Debian"
    ∷ codes "Red Hat"
    ∷ codes "Rocky Linux"
    ∷ codes "AlmaLinux"
    ∷ codes "SUSE"
    ∷ codes "openSUSE"
    ∷ codes "Alpine"
    ∷ []

-- `eco == family or eco.startswith(family + ":")`
abbrev pub is_of_family : Text → Text → Bool
is_of_family eco family = text_eq eco family || starts_with (family ++ b':' ∷ []) eco

-- `kernel_is_matched`
unfoldable pub kernel_is_matched : Option Text → Bool
kernel_is_matched ecosystem =
    let eco = strip (or_empty ecosystem) in any (is_of_family eco) kernel_matched_families

pub data Feed : Type 0 where
  ubuntu upstream oracle amazon : Feed

-- `kernel_feed_for`
unfoldable pub kernel_feed_for : Option Text → Option Feed
kernel_feed_for ecosystem =
    let eco = strip (or_empty ecosystem) in
    if is_of_family eco (codes "Ubuntu")
    then some ubuntu
    else if is_of_family eco (codes "Fedora") || is_of_family eco (codes "Arch Linux")
    then some upstream
    else if is_of_family eco (codes "Oracle Linux")
    then some oracle
    else if text_eq eco (codes "Amazon Linux:2023") || starts_with (codes "Amazon Linux:2023.") eco
    then some amazon
    else none

-- `lstrip("-")`
unfoldable pub skip_dashes : Text → Text
skip_dashes [] = []
skip_dashes (c ∷ s) = elim (c == b'-') [ true ↦ skip_dashes s | false ↦ c ∷ s ]

-- `_kernel_source`
abbrev pub behind_signed : Text → Text
behind_signed rest =
    if is_empty rest || is_one_of (codes "amd64" ∷ codes "arm64" ∷ codes "i386" ∷ []) rest
    then codes "linux"
    else codes "linux-" ++ rest

unfoldable pub kernel_source : Text → Text
kernel_source source = elim (strip_prefix (codes "linux-signed") source) [
  | none ↦ source
  | some rest ↦ behind_signed (skip_dashes rest)
]

-- `Package`, as far as it is read here
pub record Package : Type 0 where
  pub name : Text
  pub version : Text
  pub source_name : Option Text
  pub source_version : Option Text
  pub ecosystem : Option Text

abbrev pub or_text : Option Text → Text → Text
or_text none other = other
or_text (some []) other = other
or_text (some (c ∷ s)) other = c ∷ s

-- `advisory_source`
unfoldable pub advisory_source : Package → Text × Text
advisory_source p =
    let source = or_empty p.source_name in
    if is_empty source
    then (p.name, p.version)
    else if starts_with (codes "linux-signed") source
    then (kernel_source source, p.version)
    else (source, or_text p.source_version p.version)
