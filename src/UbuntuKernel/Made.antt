-- ===== src/UbuntuKernel/Made.antt =====
-- When a check of an Ubuntu kernel is made, and when it is refused.
use mathlib.Core.Path.{subst}
use cvedeck.Prelude.{
  ◌≡◌, refl, ap, ◌∙◌, Bool, true, false, not, ◌⊎◌, inl, inr, Option, none, some, List, [], ◌∷◌, All,
  if◌then◌else◌,
}
use cvedeck.Prelude.Text.{Text, strip}
use cvedeck.PackageId.{or_empty}
use cvedeck.PackageId.Kernel.{Package, is_one_of}
use cvedeck.UbuntuKernel.{
  KernelAdvisory, affecting, ubuntu_end_of_life, codename_for, feed_off, feed_unavailable,
  release_unknown, release_end_of_life, running_unknown, running_not_installed, flavour_unknown,
  UbuntuKernelCheck, unchecked, ubuntu_kernel_images, running_images, Feeds, flavour_of, table_for,
  by_table, by_image, by_release, by_codename, by_images, check_ubuntu_kernel,
}
use cvedeck.UbuntuKernel.Terms.{IsInstalled, IsRunning, IsRelease, IsRefused, IsMade}
use cvedeck.UbuntuKernel.Tables.{
  affecting-Selects, ubuntu_kernel_images-All, running_images-All, none_running,
  codename_for-HasCodename, table_for-table,
}

abbrev IsEither : Feeds → List Package → Option Text → UbuntuKernelCheck → Type 0
IsEither feeds packages kernel_version c =
    IsRefused feeds packages kernel_version c ⊎ IsMade feeds packages kernel_version c

module _ (feeds : Feeds) (packages : List Package) (kernel_version : Option Text) (codename : Text)
    (release : IsRelease packages codename) (on : feeds.enabled ≡ true)
    (alive : is_one_of ubuntu_end_of_life codename ≡ false)
    (fresh : feeds.usable codename ≡ true) where
  by_table-IsEither :
      (image : Package) (t : Option (List KernelAdvisory))
      → IsInstalled packages image
      → IsRunning kernel_version image
      → table_for feeds codename (flavour_of image) ≡ t
      → IsEither feeds packages kernel_version (by_table image t)
  by_table-IsEither image none i h e =
      inl (flavour_unknown, (codename, image, release, i, h, e), refl)
  by_table-IsEither image (some rows) i h e =
      let (flavour, f, t) = table_for-table feeds codename (flavour_of image) rows e in
      inr (
        codename,
        image,
        flavour,
        rows,
        affecting image.version rows,
        release,
        on,
        alive,
        fresh,
        i,
        h,
        f,
        t,
        affecting-Selects image.version rows,
        refl,
        refl,
        refl,
      )

  by_image-IsEither :
      (images : List Package)
      → running_images (strip (or_empty kernel_version)) (ubuntu_kernel_images packages) ≡ images
      → All (λ p. IsInstalled packages p × IsRunning kernel_version p) images
      → IsEither feeds packages kernel_version (by_image feeds codename images)
  by_image-IsEither [] e h =
      inl (running_not_installed, none_running (strip (or_empty kernel_version)) packages e, refl)
  by_image-IsEither (image ∷ images) e ((i, r), hs) =
      by_table-IsEither image (table_for feeds codename (flavour_of image)) i r refl

  by_release-IsEither :
      (version : Text)
      → strip (or_empty kernel_version) ≡ version
      → IsEither feeds packages kernel_version
          (by_release feeds codename (ubuntu_kernel_images packages) version)
  by_release-IsEither [] e = inl (running_unknown, e, refl)
  by_release-IsEither (c ∷ version) e =
      by_image-IsEither (running_images (c ∷ version) (ubuntu_kernel_images packages))
        (ap (λ v. running_images v (ubuntu_kernel_images packages)) e)
        (subst
          (λ v.
            All (λ p. IsInstalled packages p × IsRunning kernel_version p)
              (running_images v (ubuntu_kernel_images packages)))
          e (running_images-All (IsInstalled packages) _ _ (ubuntu_kernel_images-All packages)))

module _ (feeds : Feeds) (packages : List Package) (kernel_version : Option Text) where
  -- The guards in turn
  guarded :
      (codename : Text) (on ended fresh : Bool) (c : UbuntuKernelCheck)
      → IsRelease packages codename
      → feeds.enabled ≡ on
      → is_one_of ubuntu_end_of_life codename ≡ ended
      → feeds.usable codename ≡ fresh
      → (on ≡ true → ended ≡ false → fresh ≡ true → IsEither feeds packages kernel_version c)
      → IsEither feeds packages kernel_version (
          if not on
          then unchecked feed_off
          else if ended
          then unchecked release_end_of_life
          else if not fresh
          then unchecked feed_unavailable
          else c)
  guarded codename false ended fresh c r o e f h = inl (feed_off, o, refl)
  guarded codename true true fresh c r o e f h = inl (release_end_of_life, (codename, r, e), refl)
  guarded codename true false false c r o e f h = inl (feed_unavailable, (codename, r, f), refl)
  guarded codename true false true c r o e f h = h refl refl refl

  by_codename-IsEither :
      (p : Package) (o : Option Text)
      → IsInstalled packages p
      → codename_for p.ecosystem ≡ o
      → IsEither feeds packages kernel_version
          (by_codename feeds (ubuntu_kernel_images packages) kernel_version o)
  by_codename-IsEither p none i e = inl (release_unknown, (p, i, e), refl)
  by_codename-IsEither p (some codename) i e =
      let release : IsRelease packages codename =
        (p, i, codename_for-HasCodename p.ecosystem codename e) in
      guarded codename feeds.enabled (is_one_of ubuntu_end_of_life codename) (feeds.usable codename)
        (by_release feeds codename (ubuntu_kernel_images packages)
          (strip (or_empty kernel_version)))
        release refl refl refl
        λ on alive fresh.
          by_release-IsEither feeds packages kernel_version codename release on alive fresh
            (strip (or_empty kernel_version)) refl

  by_images-IsEither :
      (images : List Package) (c : UbuntuKernelCheck)
      → ubuntu_kernel_images packages ≡ images
      → All (IsInstalled packages) images
      → by_images feeds kernel_version images ≡ some c
      → IsEither feeds packages kernel_version c
  by_images-IsEither [] c e h k = cc
  by_images-IsEither (p ∷ ps) c e (i, hs) k =
      let made : by_codename feeds (ubuntu_kernel_images packages) kernel_version
            (codename_for p.ecosystem)
          ≡ c =
        ap (λ xs. by_codename feeds xs kernel_version (codename_for p.ecosystem)) e ∙ some_inj k in
      subst (IsEither feeds packages kernel_version) made
        (by_codename-IsEither p (codename_for p.ecosystem) i refl)
    where
      some_inj : {x y : UbuntuKernelCheck} → some x ≡ some y → x ≡ y
      some_inj e = cc

  -- A check of an Ubuntu kernel says why it was not made, which is so, and then names no finding and no
  -- kernel as assessed; or it was made: of an installed image of Ubuntu that reports the running release,
  -- against the table of that image's flavour for the codename of the host's release, whose feed is enabled and
  -- usable and whose support has not ended; it names that image as assessed, and its findings are, in
  -- order, the rows of the table that have no fix or one above the image's version.
  pub check_ubuntu_kernel-IsMade :
      (c : UbuntuKernelCheck)
      → check_ubuntu_kernel feeds packages kernel_version ≡ some c
      → IsRefused feeds packages kernel_version c ⊎ IsMade feeds packages kernel_version c
  unfolding check_ubuntu_kernel
  check_ubuntu_kernel-IsMade c h =
      by_images-IsEither (ubuntu_kernel_images packages) c refl (ubuntu_kernel_images-All packages)
        h
