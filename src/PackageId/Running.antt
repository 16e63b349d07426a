-- ===== src/PackageId/Running.antt =====
-- `kernel_image_release` of package_identifier.py: whether a kernel image is the one that reports a
-- release, by each package manager's way to name it.
use cvedeck.Prelude.{
  Bool, true, false, ◌&&◌, ◌||◌, Option, none, some, [], ◌∷◌, ◌++◌, leb, if◌then◌else◌,
}
use mathlib.Core.List.{reverse}
use cvedeck.Prelude.Text.{Text, codes, text_eq, strip, partition, strip_prefix}
use cvedeck.PackageId.{is_empty, and_then}
use cvedeck.PackageId.Kernel.{
  is_one_of, starts_with, behind_prefix, image_prefixes, behind_digits, behind_series, holds_for,
}

-- `_without_epoch`
abbrev pub behind_colon : Text → Option (Text × Text) → Text
behind_colon version none = version
behind_colon version (some (epoch, rest)) = rest

unfoldable pub without_epoch : Text → Text
without_epoch version = behind_colon version (partition b':' version)

-- What stands before a suffix.
unfoldable pub strip_suffix : Text → Text → Option Text
strip_suffix suffix text = elim (strip_prefix (reverse suffix) (reverse text)) [
  | none ↦ none
  | some front ↦ some (reverse front)
]

-- `a == b or a.startswith(b + ".")`
abbrev pub is_at : Text → Text → Bool
is_at a b = text_eq a b || starts_with (b ++ b'.' ∷ []) a

-- `bare.rpartition("-r")`; `none` where it does not occur
unfoldable pub split_revision : Text → Option (Text × Text)
split_revision [] = none
split_revision (c ∷ s) = elim (split_revision s) [
  | some (upstream, rev) ↦ some (c ∷ upstream, rev)
  | none ↦ elim (strip_prefix (codes "-r") (c ∷ s)) [ none ↦ none | some rev ↦ some ([], rev) ]
]

-- `bare.replace(".arch", "-arch")`
unfoldable pub replace_arch : Text → Text
replace_arch [] = []
replace_arch (c ∷ s) = elim (starts_with (codes ".arch") (c ∷ s)) [
  | true ↦ b'-' ∷ replace_arch s
  | false ↦ c ∷ replace_arch s
]

abbrev pub starts_lower : Text → Bool
starts_lower [] = false
starts_lower (c ∷ s) = leb b'a' c && leb c b'z'

-- `\.(?=[a-z])` at the start of what is behind the series, and of what is behind one more number
abbrev pub flavour_dot : Text → Bool
flavour_dot s = holds_for starts_lower (strip_prefix (codes ".") s)

-- What `(?:\.\d+)?` leaves.
abbrev pub behind_patch : Text → Text
behind_patch s = elim (and_then behind_digits (strip_prefix (codes ".") s)) [
  | none ↦ s
  | some rest ↦ rest
]

-- The text with the dot before `rest` made a dash, where `rest` starts with that dot.
abbrev pub with_dash : Text → Text → Text
with_dash text [] = text
with_dash text (c ∷ tail) = elim (strip_suffix (c ∷ tail) text) [
  | none ↦ text
  | some front ↦ front ++ b'-' ∷ tail
]

-- `re.sub(r"^(\d+\.\d+(?:\.\d+)?)\.(?=[a-z])", r"\1-", bare)`
unfoldable pub dash_flavour : Text → Text
dash_flavour bare = elim (behind_series bare) [
  | none ↦ bare
  | some rest ↦
      let patched = behind_patch rest in
      if flavour_dot patched then with_dash bare patched else bare
]

-- "kernel-core", "kernel", and the names that are `kernel\d+\.\d+`
unfoldable pub is_rpm_core : Text → Bool
is_rpm_core name =
    is_one_of
      (codes "kernel-core" ∷ codes "kernel" ∷ codes "kernel-uek" ∷ codes "kernel-uek-core" ∷ [])
      name
    || holds_for is_empty (and_then behind_series (strip_prefix (codes "kernel") name))

-- `release[: -len(flavour) - 1]` where the release ends in the flavour
abbrev pub suse_stem : Text → Text → Option Text
suse_stem name release = elim (strip_prefix (codes "kernel-") name) [
  | none ↦ none
  | some flavour ↦ strip_suffix (b'-' ∷ flavour) release
]

abbrev pub alpine_parts : Text → Text → Option (Text × Text × Text)
alpine_parts name bare = elim (strip_prefix (codes "linux-") name) [
  | none ↦ none
  | some flavour ↦ elim (split_revision bare) [
    | none ↦ none
    | some (upstream, rev) ↦ some (upstream, rev, flavour)
  ]
]

abbrev pub arch_flavour : Text → Option Text
arch_flavour name =
    if is_one_of (codes "linux-lts" ∷ codes "linux-zen" ∷ codes "linux-hardened" ∷ []) name
    then strip_prefix (codes "linux-") name
    else none

-- The tests behind the one for Debian's names, in turn.
abbrev pub is_arch : Text → Text → Text → Bool
is_arch name bare release =
    if text_eq name (codes "linux")
    then text_eq release (replace_arch bare)
    else elim (arch_flavour name) [
      | none ↦ false
      | some flavour ↦ text_eq release (dash_flavour bare ++ b'-' ∷ flavour)
    ]

abbrev pub is_apk : Text → Text → Text → Bool
is_apk name bare release = elim (alpine_parts name bare) [
  | some (upstream, rev, flavour) ↦ text_eq release (upstream ++ b'-' ∷ rev ++ b'-' ∷ flavour)
  | none ↦ is_arch name bare release
]

abbrev pub is_suse : Text → Text → Text → Bool
is_suse name bare release = elim (suse_stem name release) [
  | some stem ↦ is_at bare stem
  | none ↦ is_apk name bare release
]

abbrev pub by_version : Text → Text → Text → Bool
by_version name bare release =
    if is_rpm_core name then is_at release bare else is_suse name bare release

-- `kernel_image_release`
abbrev pub reports : Text → Text → Text → Bool
reports name version release = elim (behind_prefix image_prefixes name) [
  | some rest ↦ text_eq rest release
  | none ↦ by_version name (without_epoch version) release
]

unfoldable pub kernel_image_release : Text → Text → Text → Bool
kernel_image_release name version release =
    let uname = strip release in if is_empty uname then false else reports name version uname
