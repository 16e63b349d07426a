-- ===== src/PackageId/Samples.antt =====
-- Identifiers of each distribution, and the kernels of package_identifier.py's own examples.
use cvedeck.Prelude.{none, ◌≡◌, refl, Bool, true, false, Option, some, ◌++◌}
use cvedeck.Prelude.Text.{
  lower, text_eq, Text, codes, strip, lstrip, partition, rpartition, strip_prefix,
}
use cvedeck.PackageId.{
  cut_note, ends_in, split_version, token_of, parse_package_name, parse_package_version,
}
use cvedeck.PackageId.Kernel.{
  is_kernel_package, is_versioned_kernel, skip_digits, behind_series, behind_prefix,
}
use cvedeck.PackageId.Running.{
  without_epoch, strip_suffix, split_revision, replace_arch, dash_flavour, is_rpm_core,
  kernel_image_release,
}
use cvedeck.PackageId.Names.{identifier, parse-identifier}

abbrev debian : Text
debian = codes "Debian:13"

abbrev openssl : Text
openssl = codes "openssl"

abbrev version : Text
version = codes "1:3.5.1-1"

abbrev note : Text
note = codes " (fixed in 3.5.2)"

parse-identifier_example :
    (parse_package_name (some (identifier debian openssl version ++ note)) ≡ some openssl)
    × (parse_package_version (some (identifier debian openssl version ++ note)) ≡ some version)
parse-identifier_example = parse-identifier debian openssl version note refl refl refl refl

name_of : Text → Option Text
unfolding parse_package_name token_of cut_note split_version ends_in strip lstrip rpartition
name_of s = parse_package_name (some s)

scoped_name : name_of (codes "npm:@angular/core@1.2.3") ≡ some (codes "@angular/core")
unfolding name_of
scoped_name = refl

scope_only : name_of (codes "npm:@angular/core") ≡ some (codes "@angular/core")
unfolding name_of
scope_only = refl

uname : Text → Text → Text → Bool
unfolding kernel_image_release is_rpm_core dash_flavour replace_arch split_revision strip_suffix
    without_epoch behind_prefix behind_series skip_digits strip lstrip partition strip_prefix
    text_eq
uname = kernel_image_release

dpkg_kernel :
    uname (codes "linux-image-6.1.0-53-amd64") (codes "6.1.180-1") (codes "6.1.0-53-amd64") ≡ true
unfolding uname
dpkg_kernel = refl

rpm_kernel :
    uname
      (codes "kernel-core")
      (codes "5.14.0-687.53.1.el9_8")
      (codes "5.14.0-687.53.1.el9_8.x86_64")
    ≡ true
unfolding uname
rpm_kernel = refl

suse_kernel :
    uname
      (codes "kernel-default")
      (codes "5.14.21-150500.55.39.1")
      (codes "5.14.21-150500.55.39-default")
    ≡ true
unfolding uname
suse_kernel = refl

apk_kernel : uname (codes "linux-lts") (codes "6.1.27-r0") (codes "6.1.27-0-lts") ≡ true
unfolding uname
apk_kernel = refl

arch_kernel : uname (codes "linux-zen") (codes "7.2.11.zen1-1") (codes "7.2.11-zen1-1-zen") ≡ true
unfolding uname
arch_kernel = refl

other_kernel :
    uname (codes "linux-image-6.1.0-53-amd64") (codes "6.1.180-1") (codes "6.1.0-54-amd64") ≡ false
unfolding uname
other_kernel = refl

-- By name alone this image is no kernel; with its source it is one.
by_name : Text → Option Text → Bool
unfolding is_kernel_package is_versioned_kernel behind_series skip_digits strip_prefix text_eq lower
by_name = is_kernel_package

image_by_name : by_name (codes "kernel-64k-core") none ≡ false
unfolding by_name
image_by_name = refl

image_by_source : by_name (codes "kernel-64k-core") (some (codes "kernel")) ≡ true
unfolding by_name
image_by_source = refl
