-- ===== src/Osv/Samples.antt =====
-- A record with an entry for two releases of Debian, on hosts of both.
use cvedeck.Prelude.{◌≡◌, refl, true, none, some, List, [], ◌∷◌, ◌++◌}
use cvedeck.Prelude.Text.{
  Text, codes, text_eq, text_is_digit, to_int_from, strip, lstrip, partition, strip_prefix, lower,
}
use cvedeck.PackageId.Notes.{is_calm}
use cvedeck.Releases.{
  digits_behind, dotted, ubuntu_version, release_in, parse_release, host_releases, key_lt, key_eq,
  display_version,
}
use cvedeck.Releases.Names.{red_hat_product, release_display_name}
use cvedeck.Osv.{
  Block, fixed_from_ranges, package_blocks, fix_in, same_release, keep, first_fix, newer_for, newer,
  candidate_lt, least, FixNote, fixed_here, fixed_newer, first_upstream, fix_note, fix_suffix,
}
use cvedeck.PackageId.{parse_fix}
use cvedeck.PackageId.Kernel.{
  Package, behind_prefix, behind_series, skip_digits, is_kernel_image, advisory_source,
}
use cvedeck.Prelude.Dicts.{find}
use cvedeck.Osv.Sources.{
  Queries, source_queries, queries_of, add_queries, group, add_to_groups, representative,
  named_like, images_of, first_by_name,
}
use cvedeck.PackageId.{search_text}
use cvedeck.Prelude.{map}
use cvedeck.Osv.Advisories.{
  Vuln, first_cve, digits_at, resolve_cve_id, tracked_of, advisories_for_host,
}
use cvedeck.Osv.Reading.{read_out, kept_vulns, expected, advisories_for_host-read_out}
use cvedeck.Osv.Honest.{is_backed}
use cvedeck.Osv.Backed.{fix_note-is_backed}
use cvedeck.Osv.Fixes.{read_of, parse_fix-fix_suffix}

abbrev entry_13 : Block
entry_13 = record { name = codes "vim"; ecosystem = codes "Debian:13"; ranges = (none ∷ []) ∷ [] }

abbrev entry_14 : Block
entry_14 = record {
  name = codes "vim";
  ecosystem = codes "Debian:14";
  ranges = (none ∷ some (codes "2:9.1-2") ∷ []) ∷ [];
}

abbrev entries : List Block
entries = entry_13 ∷ entry_14 ∷ []

note_on : Text → List Text → FixNote
unfolding host_releases parse_release release_in digits_behind dotted ubuntu_version text_is_digit
    to_int_from strip lstrip partition strip_prefix lower text_eq key_lt key_eq fixed_from_ranges
    fix_in same_release keep first_fix newer_for newer candidate_lt least first_upstream fix_note
    release_display_name red_hat_product
note_on ecosystem ecos = fix_note entries ecosystem (host_releases ecosystem) ecos

on_13 :
    note_on (codes "Debian:13") (codes "debian:13" ∷ [])
    ≡ fixed_newer (codes "Debian 13") (codes "Debian 14") (codes "2:9.1-2")
unfolding note_on
on_13 = refl

on_14 : note_on (codes "Debian:14") (codes "debian:14" ∷ []) ≡ fixed_here (codes "2:9.1-2")
unfolding note_on
on_14 = refl

fix_note-is_backed_example :
    is_backed entries
      (codes "Debian:13")
      (host_releases (codes "Debian:13"))
      (codes "debian:13" ∷ [])
      (fix_note entries
        (codes "Debian:13")
        (host_releases (codes "Debian:13"))
        (codes "debian:13" ∷ []))
    ≡ true
fix_note-is_backed_example =
    fix_note-is_backed entries (codes "Debian:13") (host_releases (codes "Debian:13"))
      (codes "debian:13" ∷ [])

parse_fix-fix_suffix_example :
    parse_fix (
      some (
        codes "Debian:13:vim@1.0"
        ++ fix_suffix entries
            (codes "vim")
            (codes "Debian:13")
            (codes "Debian:13")
            (codes "debian:13" ∷ [])))
    ≡ read_of (
        fix_note
          (package_blocks (codes "vim") entries)
          (codes "Debian:13")
          (host_releases (codes "Debian:13"))
          (codes "debian:13" ∷ []))
unfolding host_releases digits_behind strip_prefix strip parse_release release_in text_is_digit
    is_calm package_blocks text_eq lower fix_in fixed_from_ranges display_version
    release_display_name
parse_fix-fix_suffix_example =
    parse_fix-fix_suffix (codes "Debian:13:vim@1.0") entries (codes "vim") (codes "Debian:13")
      (codes "Debian:13") (codes "debian:13" ∷ []) refl refl refl refl

abbrev libc : Package
libc = record {
  name = codes "libc6";
  version = codes "2.36-9";
  source_name = some (codes "glibc");
  source_version = some (codes "2.36-9");
  ecosystem = some (codes "Debian:12");
}

queries_for : List Package → Queries
unfolding source_queries queries_of add_queries group add_to_groups representative named_like
    images_of first_by_name is_kernel_image behind_prefix behind_series skip_digits strip_prefix
    text_eq key_lt advisory_source find
queries_for = source_queries

one_remap : (queries_for (libc ∷ [])).1 ≡ (codes "glibc@2.36-9", codes "libc6@2.36-9") ∷ []
unfolding queries_for
one_remap = refl

abbrev vim : Package
vim = record {
  name = codes "vim";
  version = codes "2:9.0-1";
  source_name = none;
  source_version = none;
  ecosystem = some (codes "Debian:14");
}

abbrev vuln : Vuln
vuln = record {
  id = codes "DEBIAN-CVE-2024-11053";
  aliases = [];
  upstream = codes "CVE-2024-11053" ∷ [];
  affected = entries;
}

cve_of : Vuln → Text
unfolding resolve_cve_id first_cve search_text digits_at strip_prefix
cve_of = resolve_cve_id

named_upstream : cve_of vuln ≡ codes "CVE-2024-11053"
unfolding cve_of
named_upstream = refl

embedded : cve_of (record vuln { upstream = [] }) ≡ codes "CVE-2024-11053"
unfolding cve_of
embedded = refl

advisories_for_host-read_out_example :
    map read_out
      (advisories_for_host vim (codes "Debian:14") (vuln ∷ []) (codes "debian:14" ∷ []) none [])
    ≡ map (expected vim (codes "Debian:14") (codes "debian:14" ∷ [])) (
        kept_vulns vim
          (codes "debian:14" ∷ [])
          none
          (tracked_of [] (host_releases (codes "Debian:14")))
          (vuln ∷ []))
unfolding host_releases digits_behind strip_prefix strip parse_release release_in text_is_digit
    is_calm package_blocks text_eq lower fix_in fixed_from_ranges display_version
    release_display_name
advisories_for_host-read_out_example =
    advisories_for_host-read_out vim (codes "Debian:14") (codes "debian:14" ∷ []) refl refl refl
      refl (vuln ∷ []) none [] refl
