-- ===== src/Osv/Reading.antt =====
-- What is read off the advisories that a host's packages get.
use cvedeck.Prelude.{
  ◌≡◌, refl, ap, ◌∙◌, Bool, true, Option, some, List, [], ◌∷◌, ◌++◌, map, all, arith, if◌then◌else◌,
  Bool-cases, inl, inr,
}
use cvedeck.Prelude.Text.{Text, codes}
use cvedeck.PackageId.{Fix, or_empty, parse_fix, parse_package_name}
use cvedeck.PackageId.Texts.{
  ends_solid, starts_solid-append, ends_solid-append, ends_solid-cons, lacks-append,
}
use cvedeck.PackageId.Kernel.{Package}
use cvedeck.PackageId.Names.{
  identifier, is_ecosystem, is_name, is_version, is_note, parse-identifier,
}
use cvedeck.PackageId.Notes.{available_note, elsewhere_note, upstream_note}
use cvedeck.PackageId.Fixes.{is_base, is_host}
use cvedeck.Releases.{Release, host_releases, display_version}
use cvedeck.Osv.{
  package_blocks, FixNote, nothing, fixed_here, fixed_newer, fixed_upstream, fix_note, suffix_of,
  fix_suffix,
}
use cvedeck.Osv.Fixes.{read_of, is_printable_entry, parse_fix-fix_suffix}
use cvedeck.Osv.Advisories.{
  Vuln, Advisory, resolve_cve_id, or_queried, tracked_of, is_dropped, advisory_for, kept_advisories,
  advisories_for_host,
}

ends_labelled :
    (label version : Text) → ends_solid (label ++ (codes ": " ++ (version ++ codes ")"))) ≡ true
ends_labelled label version = ends_solid-append label (codes ": " ++ (version ++ codes ")")) (
    ends_solid-append (codes ": ") (version ++ codes ")")
      (ends_solid-append version (codes ")") refl))

-- The text of a note is a note.
suffix_of-is_note : (n : FixNote) → is_note (suffix_of n) ≡ true
unfolding available_note elsewhere_note upstream_note
suffix_of-is_note nothing = refl
suffix_of-is_note (fixed_here v) =
    ends_solid-append (codes " (fixed in ") (v ++ codes ")") (ends_solid-append v (codes ")") refl)
suffix_of-is_note (fixed_newer host label v) =
    let w = display_version v in
    ends_solid-append (codes " (no fix in ")
      (host ++ (codes "; fixed only in " ++ (label ++ (codes ": " ++ (w ++ codes ")")))))
      (ends_solid-append host
        (codes "; fixed only in " ++ (label ++ (codes ": " ++ (w ++ codes ")"))))
        (ends_solid-append (codes "; fixed only in ") (label ++ (codes ": " ++ (w ++ codes ")")))
          (ends_labelled label w)))
suffix_of-is_note (fixed_upstream label v) =
    let w = display_version v in
    ends_solid-append (codes " (not confirmed for this release; upstream fix in ")
      (label ++ (codes ": " ++ (w ++ codes ")"))) (ends_labelled label w)

module _ (eco name version : Text) (p : is_ecosystem eco ≡ true) (q : is_name name ≡ true)
    (v : is_version version ≡ true) where
  identifier-is_base : is_base (identifier eco name version) ≡ true
  unfolding identifier
  identifier-is_base =
      let starts =
        starts_solid-append (eco ++ b':' ∷ name) (b'@' ∷ version)
          (starts_solid-append eco (b':' ∷ name) (ground arith)) in
      let calm =
        lacks-append b'(' (eco ++ b':' ∷ name) (b'@' ∷ version)
          (lacks-append b'(' eco (b':' ∷ name) (ground arith) (ground arith)) (ground arith) in
      ground arith

  ends_solid-identifier : ends_solid (identifier eco name version) ≡ true
  unfolding identifier
  ends_solid-identifier =
      ends_solid-append (eco ++ b':' ∷ name) (b'@' ∷ version)
        (ends_solid-cons b'@' version (ground arith))

-- What the dashboard reads of an advisory: the vulnerability, the fix, and the package.
abbrev pub read_out : Advisory → Text × Fix × Option Text
read_out a = (
  a.cve_id,
  parse_fix (some a.package_identifier),
  parse_package_name (some a.package_identifier),
)

-- The records that are not dropped
unfoldable pub kept_vulns :
    Package → List Text → Option (List Text) → List Release → List Vuln → List Vuln
kept_vulns p ecos matched tracked [] = []
kept_vulns p ecos matched tracked (v ∷ vs) =
    let rest = kept_vulns p ecos matched tracked vs in
    if is_dropped p ecos matched tracked v then rest else v ∷ rest

-- What a record and a package determine
abbrev pub expected : Package → Text → List Text → Vuln → Text × Fix × Option Text
expected p queried ecos v = (
  resolve_cve_id v,
  read_of (
      fix_note (package_blocks p.name v.affected) queried (host_releases (or_empty p.ecosystem))
        ecos),
  some p.name,
)

abbrev pub is_printable_vuln : Package → Text → Vuln → Bool
is_printable_vuln p queried v = all (is_printable_entry queried) (package_blocks p.name v.affected)

module _ (p : Package) (queried : Text) (ecos : List Text)
    (e : is_ecosystem (or_queried p.ecosystem queried) ≡ true) (n : is_name p.name ≡ true)
    (w : is_version p.version ≡ true)
    (h : all (λ h. is_host h.label) (host_releases (or_empty p.ecosystem)) ≡ true) where
  read_advisory :
      (v : Vuln)
      → is_printable_vuln p queried v ≡ true
      → read_out (advisory_for p queried ecos v) ≡ expected p queried ecos v
  unfolding fix_suffix
  read_advisory v k =
      let eco = or_queried p.ecosystem queried in
      let base = identifier eco p.name p.version in
      let blocks = package_blocks p.name v.affected in
      let note = fix_note blocks queried (host_releases (or_empty p.ecosystem)) ecos in
      let fix =
        parse_fix-fix_suffix base v.affected p.name (or_empty p.ecosystem) queried ecos
          (identifier-is_base eco p.name p.version e n w)
          (ends_solid-identifier eco p.name p.version e n w) h k in
      let name =
        (parse-identifier eco p.name p.version (suffix_of note) e n w (suffix_of-is_note note)).0 in
      ap (λ x. (resolve_cve_id v, x, parse_package_name (some (base ++ suffix_of note)))) fix
      ∙ ap (λ x. (resolve_cve_id v, read_of note, x)) name

  read_kept :
      (matched : Option (List Text)) (tracked : List Release) (vs : List Vuln)
      → all (is_printable_vuln p queried) vs ≡ true
      → map read_out (kept_advisories p queried ecos matched tracked vs)
        ≡ map (expected p queried ecos) (kept_vulns p ecos matched tracked vs)
  unfolding kept_advisories kept_vulns
  read_kept matched tracked [] k = refl
  read_kept matched tracked (v ∷ vs) k = elim (Bool-cases (is_dropped p ecos matched tracked v)) [
    | inl d ↦ rw d (read_kept matched tracked vs (ground arith))
    | inr d ↦ rw d (
        ap (λ x. x ∷ map read_out (kept_advisories p queried ecos matched tracked vs))
          (read_advisory v (ground arith))
        ∙ ap (λ xs. expected p queried ecos v ∷ xs) (read_kept matched tracked vs (ground arith)))
  ]

  -- From each record of OSV that is not dropped for the host's release, and from no other, the
  -- dashboard reads, in the records' order, the record's CVE, exactly the note on a fix that was chosen
  -- for the host, and the package's name. The package's ecosystem, name and version are such that its
  -- identifier can be read (no parenthesis, no colon in the name, no "@" in the version), and the
  -- labels and versions that the notes print are such that `parse_fix` can read them.
  pub advisories_for_host-read_out :
      (vulns : List Vuln) (matched : Option (List Text)) (described : List Release)
      → all (is_printable_vuln p queried) vulns ≡ true
      → map read_out (advisories_for_host p queried vulns ecos matched described)
        ≡ map (expected p queried ecos) (
            kept_vulns p ecos matched
              (tracked_of described (host_releases (or_empty p.ecosystem)))
              vulns)
  unfolding advisories_for_host
  advisories_for_host-read_out vulns matched described k =
      read_kept matched (tracked_of described (host_releases (or_empty p.ecosystem))) vulns k
