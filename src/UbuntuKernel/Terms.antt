-- ===== src/UbuntuKernel/Terms.antt =====
-- What a check of an Ubuntu kernel rests on, said of the installed packages and the stored tables.
use cvedeck.Prelude.{
  ◌≡◌, true, false, ◌⊎◌, Option, none, some, List, [], ◌∷◌, ◌++◌, All, map, is_some,
}
use cvedeck.Prelude.Int.{ℤ, less, sign}
use cvedeck.Prelude.Text.{Text, codes, strip, strip_prefix}
use cvedeck.Debian.{compare}
use cvedeck.PackageId.{or_empty}
use cvedeck.PackageId.Kernel.{Package, is_one_of, is_kernel_image}
use cvedeck.PackageId.Running.{kernel_image_release}
use cvedeck.Releases.{UbuntuVersion, ubuntu_version, dotted_text}
use cvedeck.UbuntuKernel.{
  KernelAdvisory, ubuntu_end_of_life, ubuntu_codenames, codename_for, Reason, feed_off,
  feed_unavailable, release_unknown, release_end_of_life, running_unknown, running_not_installed,
  flavour_unknown, UbuntuKernelCheck, unchecked, finding_of, Feeds, flavour_of, table_for,
}

pub data IsIn {A : Type 0} (a : A) : List A → Type 0 where
  at_head : {xs : List A} → IsIn a (a ∷ xs)
  in_tail : {x : A} {xs : List A} → IsIn a xs → IsIn a (x ∷ xs)

-- The rows of `P`, in order
pub data Selects {A : Type 0} (P : A → Type 0) : List A → List A → Type 0 where
  no_rows : Selects P [] []
  takes : {a : A} {xs ys : List A} → P a → Selects P xs ys → Selects P (a ∷ xs) (a ∷ ys)
  leaves : {a : A} {xs ys : List A} → ¬ P a → Selects P xs ys → Selects P (a ∷ xs) ys

-- A kernel image of Ubuntu
abbrev pub IsUbuntuImage : Package → Type 0
IsUbuntuImage p =
    (is_kernel_image p.name ≡ true)
    × (is_some (strip_prefix (codes "Ubuntu") (or_empty p.ecosystem)) ≡ true)

-- The ecosystem names an Ubuntu version, which the table of codenames has.
abbrev pub HasCodename : Option Text → Text → Type 0
HasCodename ecosystem codename =
    (rest : Text) × (version : UbuntuVersion) × (strip_prefix (codes "Ubuntu:")
        (strip (or_empty ecosystem))
      ≡ some rest)
    × (ubuntu_version rest ≡ some version)
    × IsIn (dotted_text version.year version.month, codename) ubuntu_codenames

-- The installed version is below the fix, by dpkg's order, or there is no fix.
abbrev pub IsOpen : Text → KernelAdvisory → Type 0
IsOpen installed a = elim a.fixed [
  | none ↦ Unit
  | some fixed ↦ (x : ℤ) × (compare installed fixed ≡ some x) × (sign x ≡ less)
]

-- One of the host's kernel images
abbrev pub IsInstalled : List Package → Package → Type 0
IsInstalled packages p = IsIn p packages × IsUbuntuImage p

abbrev pub IsRunning : Option Text → Package → Type 0
IsRunning kernel_version p =
    kernel_image_release p.name p.version (strip (or_empty kernel_version)) ≡ true

-- The host's release, by one of its kernel images
abbrev pub IsRelease : List Package → Text → Type 0
IsRelease packages codename =
    (p : Package) × IsInstalled packages p × HasCodename p.ecosystem codename

-- What holds where a check is refused for this reason
abbrev pub Because : Feeds → List Package → Option Text → Reason → Type 0
Because feeds packages kernel_version release_unknown =
    (p : Package) × IsInstalled packages p × (codename_for p.ecosystem ≡ none)
Because feeds packages kernel_version feed_off = feeds.enabled ≡ false
Because feeds packages kernel_version release_end_of_life =
    (codename : Text) × IsRelease packages codename × (is_one_of ubuntu_end_of_life codename ≡ true)
Because feeds packages kernel_version feed_unavailable =
    (codename : Text) × IsRelease packages codename × (feeds.usable codename ≡ false)
Because feeds packages kernel_version running_unknown = strip (or_empty kernel_version) ≡ []
Because feeds packages kernel_version running_not_installed =
    All (λ p. (¬ IsUbuntuImage p) ⊎ (¬ IsRunning kernel_version p)) packages
Because feeds packages kernel_version flavour_unknown =
    (codename : Text) × (image : Package) × IsRelease packages codename
    × IsInstalled packages image
    × IsRunning kernel_version image
    × (table_for feeds codename (flavour_of image) ≡ none)

-- A check that was not made says why, and reports nothing.
abbrev pub IsRefused : Feeds → List Package → Option Text → UbuntuKernelCheck → Type 0
IsRefused feeds packages kernel_version c =
    (reason : Reason) × Because feeds packages kernel_version reason × (c ≡ unchecked reason)

abbrev pub IsMade : Feeds → List Package → Option Text → UbuntuKernelCheck → Type 0
IsMade feeds packages kernel_version c =
    (codename : Text) × (image : Package) × (flavour : Text) × (rows : List KernelAdvisory)
    × (open_rows : List KernelAdvisory) × IsRelease packages codename
    × (feeds.enabled ≡ true)
    × (is_one_of ubuntu_end_of_life codename ≡ false)
    × (feeds.usable codename ≡ true)
    × IsInstalled packages image
    × IsRunning kernel_version image
    × (flavour_of image ≡ some flavour)
    × (feeds.table codename flavour ≡ some rows)
    × Selects (IsOpen image.version) rows open_rows
    × (c.reason ≡ none)
    × (c.findings ≡ map (finding_of image) open_rows)
    × (c.assessed ≡ some (image.name ++ b'@' ∷ image.version))
