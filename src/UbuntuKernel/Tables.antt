-- ===== src/UbuntuKernel/Tables.antt =====
-- What the filters and look-ups of the check of an Ubuntu kernel find.
use mathlib.Core.Path.{subst}
use cvedeck.Prelude.{
  ◌≡◌, ◌↔◌, refl, Bool, true, false, ◌&&◌, ◌⊎◌, inl, inr, Option, none, some, List, [], ◌∷◌, All,
  is_some, arith, Bool-cases,
}
use cvedeck.Prelude.Int.{ℤ, Sign, less, sign}
use cvedeck.Prelude.Text.{Text, text_eq, text_eq_iff, codes, strip, strip_prefix}
use cvedeck.Debian.{compare}
use cvedeck.PackageId.{or_empty, and_then}
use cvedeck.PackageId.Kernel.{Package, is_kernel_image}
use cvedeck.PackageId.Running.{kernel_image_release}
use cvedeck.Releases.{UbuntuVersion, ubuntu_version}
use cvedeck.UbuntuKernel.{
  KernelAdvisory, is_less, is_negative, is_open, affecting, codename_of, codename_at, codename_for,
  ubuntu_kernel_images, running_images, Feeds, table_for,
}
use cvedeck.UbuntuKernel.Terms.{
  IsIn, at_head, in_tail, Selects, no_rows, takes, leaves, IsUbuntuImage, HasCodename, IsOpen,
  IsInstalled,
}

less_iff : (s : Sign) → (is_less s ≡ true) ↔ (s ≡ less)
less_iff s = ground arith

pub is_open_iff :
    (installed : Text) (a : KernelAdvisory)
    → (is_open installed a.fixed ≡ true) ↔ IsOpen installed a
is_open_iff installed a = by_fix a.fixed
  where
    by_sign : (o : Option ℤ) → (is_negative o ≡ true) ↔ ((x : ℤ) × (o ≡ some x) × (sign x ≡ less))
    by_sign none = (λ h. ground arith, λ h. ground arith)
    by_sign (some x) = (λ h. (x, refl, (less_iff (sign x)).0 h), λ h. ground arith)

    by_fix :
        (fixed : Option Text)
        → (is_open installed fixed ≡ true) ↔ IsOpen installed (record a { fixed = fixed })
    by_fix none = (λ h. tt, λ h. refl)
    by_fix (some fixed) = by_sign (compare installed fixed)

pub affecting-Selects :
    (installed : Text) (rows : List KernelAdvisory)
    → Selects (IsOpen installed) rows (affecting installed rows)
unfolding affecting
affecting-Selects installed [] = no_rows
affecting-Selects installed (a ∷ rows) = elim (Bool-cases (is_open installed a.fixed)) [
  | inl e ↦ rw e (takes ((is_open_iff installed a).0 e) (affecting-Selects installed rows))
  | inr e ↦
      rw e (leaves (λ h. cc ((is_open_iff installed a).1 h)) (affecting-Selects installed rows))
]

IsIn-tail-All :
    {A : Type 0} (P : A → Type 0) (x : A) (xs ys : List A)
    → All (λ p. IsIn p xs × P p) ys
    → All (λ p. IsIn p (x ∷ xs) × P p) ys
IsIn-tail-All P x xs [] h = tt
IsIn-tail-All P x xs (y ∷ ys) ((m, p), h) = ((in_tail m, p), IsIn-tail-All P x xs ys h)

pub ubuntu_kernel_images-All :
    (packages : List Package) → All (IsInstalled packages) (ubuntu_kernel_images packages)
unfolding ubuntu_kernel_images
ubuntu_kernel_images-All [] = tt
ubuntu_kernel_images-All (p ∷ ps) =
    let rest =
      IsIn-tail-All IsUbuntuImage p ps (ubuntu_kernel_images ps) (ubuntu_kernel_images-All ps) in
    elim (Bool-cases
      (is_kernel_image p.name && is_some (strip_prefix (codes "Ubuntu") (or_empty p.ecosystem)))) [
        | inl e ↦ rw e ((at_head, ground arith), rest)
        | inr e ↦ rw e rest
      ]

pub running_images-All :
    (P : Package → Type 0) (release : Text) (images : List Package)
    → All P images
    → All
        (λ p. P p × (kernel_image_release p.name p.version release ≡ true))
        (running_images release images)
unfolding running_images
running_images-All P release [] h = tt
running_images-All P release (p ∷ ps) (h, hs) =
    elim (Bool-cases (kernel_image_release p.name p.version release)) [
      | inl e ↦ rw e ((h, e), running_images-All P release ps hs)
      | inr e ↦ rw e (running_images-All P release ps hs)
    ]

-- Where no Ubuntu image reports the running release
pub none_running :
    (release : Text) (packages : List Package)
    → running_images release (ubuntu_kernel_images packages) ≡ []
    → All
        (λ p. (¬ IsUbuntuImage p) ⊎ (¬ (kernel_image_release p.name p.version release ≡ true)))
        packages
unfolding ubuntu_kernel_images running_images
none_running release [] h = tt
none_running release (p ∷ ps) h =
    elim (Bool-cases
      (is_kernel_image p.name && is_some (strip_prefix (codes "Ubuntu") (or_empty p.ecosystem)))) [
        | inl e ↦ elim (Bool-cases (kernel_image_release p.name p.version release)) [
          | inl r ↦ absurd (not_empty (rw r at (rw e at h)))
          | inr r ↦ (inr (λ x. cc), none_running release ps (rw r at (rw e at h)))
        ]
        | inr e ↦ (inl (λ x. ground arith), none_running release ps (rw e at h))
      ]
  where
    not_empty : {q : Package} {qs : List Package} → ¬ (q ∷ qs ≡ [])
    not_empty e = cc

codename_of-IsIn :
    (version codename : Text) (table : List (Text × Text))
    → codename_of version table ≡ some codename
    → IsIn (version, codename) table
unfolding codename_of
codename_of-IsIn version codename [] h = cc
codename_of-IsIn version codename ((v, c) ∷ rest) h =
    first_or_rest (text_eq v version) refl h (codename_of-IsIn version codename rest)
  where
    some_inj : {x y : Text} → some x ≡ some y → x ≡ y
    some_inj e = cc

    first_or_rest :
        (b : Bool)
        → text_eq v version ≡ b
        → elim b [ true ↦ some c | false ↦ codename_of version rest ] ≡ some codename
        → (codename_of version rest ≡ some codename → IsIn (version, codename) rest)
        → IsIn (version, codename) ((v, c) ∷ rest)
    first_or_rest true e h k =
        subst (λ x. IsIn (version, x) ((v, c) ∷ rest)) (some_inj h)
          (subst (λ x. IsIn (x, c) ((v, c) ∷ rest)) ((text_eq_iff v version).0 e) at_head)
    first_or_rest false e h k = in_tail (k h)

pub codename_for-HasCodename :
    (ecosystem : Option Text) (codename : Text)
    → codename_for ecosystem ≡ some codename
    → HasCodename ecosystem codename
unfolding codename_for
codename_for-HasCodename ecosystem codename h =
    by_rest (strip_prefix (codes "Ubuntu:") (strip (or_empty ecosystem))) refl h
  where
    by_version :
        (rest : Text) (o : Option UbuntuVersion)
        → strip_prefix (codes "Ubuntu:") (strip (or_empty ecosystem)) ≡ some rest
        → ubuntu_version rest ≡ o
        → and_then codename_at o ≡ some codename
        → HasCodename ecosystem codename
    by_version rest none e e' h = cc
    by_version rest (some v) e e' h = (rest, v, e, e', codename_of-IsIn _ codename _ h)

    by_rest :
        (o : Option Text)
        → strip_prefix (codes "Ubuntu:") (strip (or_empty ecosystem)) ≡ o
        → and_then codename_at (and_then ubuntu_version o) ≡ some codename
        → HasCodename ecosystem codename
    by_rest none e h = cc
    by_rest (some rest) e h = by_version rest (ubuntu_version rest) e refl h

pub table_for-table :
    (feeds : Feeds) (codename : Text) (o : Option Text) (rows : List KernelAdvisory)
    → table_for feeds codename o ≡ some rows
    → (flavour : Text) × (o ≡ some flavour) × (feeds.table codename flavour ≡ some rows)
table_for-table feeds codename none rows h = cc
table_for-table feeds codename (some flavour) rows h = (flavour, refl, ground arith)
