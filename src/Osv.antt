-- ===== src/Osv.antt =====
-- backend/app/scanner/osv_client.py: what an OSV record says of a fix. A record's `affected` entries
-- are what `_trim` leaves of them; an event is its "fixed" version, if it has one.
pub mod Fixes
pub mod Honest
pub mod Backed
pub mod Sources
pub mod Moving
pub mod Advisories
pub mod Reading
mod Samples
use cvedeck.Prelude.{
  ℕ, Bool, true, false, not, ◌&&◌, ◌||◌, Option, none, some, List, [], ◌∷◌, ◌++◌, any, ◌==◌, ltb,
  if◌then◌else◌,
}
use cvedeck.Prelude.Text.{Text, codes, text_eq, lower}
use cvedeck.PackageId.{is_empty}
use cvedeck.PackageId.Notes.{available_note, elsewhere_note, upstream_note}
use cvedeck.Releases.{
  Release, parse_release, host_releases, family_eq, in_family, key_lt, key_eq, display_version,
}
use cvedeck.Releases.Names.{release_display_name}

-- An entry of `affected`, with its package's name and ecosystem as texts; a name that is null in the
-- record is the text "None" here, as `str` has it.
pub record Block : Type 0 where
  pub name : Text
  pub ecosystem : Text
  pub ranges : List (List (Option Text))

-- `_fixed_from_ranges`
abbrev pub fixed_in : List (Option Text) → Option Text
fixed_in [] = none
fixed_in (some fixed ∷ events) = some fixed
fixed_in (none ∷ events) = fixed_in events

abbrev pub or_later : Option Text → Option Text → Option Text
or_later (some fixed) later = some fixed
or_later none later = later

unfoldable pub fixed_from_ranges : List (List (Option Text)) → Option Text
fixed_from_ranges [] = none
fixed_from_ranges (events ∷ ranges) = or_later (fixed_in events) (fixed_from_ranges ranges)

-- `_package_blocks`
unfoldable pub package_blocks : Text → List Block → List Block
package_blocks name [] = []
package_blocks name (b ∷ bs) =
    let rest = package_blocks name bs in
    if not (is_empty b.name) && not (text_eq (lower b.name) (lower name)) then rest else b ∷ rest

-- `describes_release`
abbrev pub is_in : Text → List Text → Bool
is_in eco ecos = any (text_eq eco) ecos

unfoldable pub describes_release : List Block → Text → List Text → Bool
describes_release affected name release_ecosystems =
    any (λ b. is_in (lower b.ecosystem) release_ecosystems) (package_blocks name affected)

-- `_covers_family_but_not_release`
abbrev pub same_key : Release → Release → Bool
same_key r h = family_eq r.family h.family && key_eq r.key h.key

abbrev pub names_release : List Release → Option Release → Bool
names_release host none = false
names_release host (some r) = any (same_key r) host

unfoldable pub covers_family_but_not_release : List Block → Text → List Release → Bool
covers_family_but_not_release affected name host =
    let blocks = package_blocks name affected in
    any (λ b. any (λ h. in_family b.ecosystem h.family) host) blocks
    && not (any (λ b. names_release host (parse_release b.ecosystem)) blocks)

-- `if fixed`: a version that is there and not empty
abbrev pub truthy : Option Text → Option Text
truthy (some (c ∷ s)) = some (c ∷ s)
truthy _ = none

unfoldable pub fix_in : Block → Option Text
fix_in b = truthy (fixed_from_ranges b.ranges)

-- `same_release` of `fix_suffix`
abbrev pub is_host_release : List Release → Option Release → Bool
is_host_release host none = false
is_host_release host (some r) = not r.subscription && any (same_key r) host

unfoldable pub same_release : List Release → List Text → Block → Bool
same_release host release_ecosystems b =
    is_in (lower b.ecosystem) release_ecosystems || is_host_release host (parse_release b.ecosystem)

unfoldable pub keep : (Block → Bool) → List Block → List Block
keep p [] = []
keep p (b ∷ bs) = let rest = keep p bs in if p b then b ∷ rest else rest

unfoldable pub first_fix : List Block → Option Text
first_fix [] = none
first_fix (b ∷ bs) = or_later (fix_in b) (first_fix bs)

-- The entries of `newer`, and their order
pub record Candidate : Type 0 where
  pub stream : ℕ
  pub key : List ℕ
  pub label : Text
  pub fixed : Text

abbrev pub candidate : ℕ → Release → Text → Candidate
candidate stream r fixed = record { stream = stream; key = r.key; label = r.label; fixed = fixed }

unfoldable pub newer_for : List Release → Release → Text → List Candidate
newer_for [] r fixed = []
newer_for (h ∷ hs) r fixed =
    let rest = newer_for hs r fixed in
    if not (family_eq r.family h.family)
    then rest
    else if r.subscription && key_eq r.key h.key
    then candidate 1 r fixed ∷ rest
    else if not r.subscription && key_lt h.key r.key
    then candidate 0 r fixed ∷ rest
    else rest

abbrev pub newer_of : List Release → Option Release → Option Text → List Candidate
newer_of host (some r) (some fixed) = newer_for host r fixed
newer_of host (some r) none = []
newer_of host none fixed = []

unfoldable pub newer : List Release → List Block → List Candidate
newer host [] = []
newer host (b ∷ bs) = newer_of host (parse_release b.ecosystem) (fix_in b) ++ newer host bs

unfoldable pub candidate_lt : Candidate → Candidate → Bool
candidate_lt c d =
    if not (c.stream == d.stream)
    then ltb c.stream d.stream
    else if not (key_eq c.key d.key)
    then key_lt c.key d.key
    else if not (text_eq c.label d.label)
    then key_lt c.label d.label
    else key_lt c.fixed d.fixed

-- `min(newer)`
unfoldable pub least : Candidate → List Candidate → Candidate
least c [] = c
least c (d ∷ ds) = least (if candidate_lt d c then d else c) ds

-- What `fix_suffix` says, before it is put in words.
pub data FixNote : Type 0 where
  nothing : FixNote
  fixed_here : Text → FixNote
  fixed_newer : Text → Text → Text → FixNote
  fixed_upstream : Text → Text → FixNote

abbrev pub host_label : List Release → Text
host_label [] = []
host_label (h ∷ hs) = h.label

abbrev pub newer_note : List Release → List Candidate → FixNote
newer_note host [] = nothing
newer_note host (c ∷ cs) =
    let least_one = least c cs in fixed_newer (host_label host) least_one.label least_one.fixed

abbrev pub own_note : List Release → List Block → Option Text → FixNote
own_note host blocks (some fixed) = fixed_here fixed
own_note host blocks none = newer_note host (newer host blocks)

-- The label of an entry's ecosystem
abbrev pub label_of : Text → Text → Text
label_of queried [] = queried
label_of queried (c ∷ eco) = release_display_name (c ∷ eco)

abbrev pub upstream_or : Text → Text → Option Text → FixNote → FixNote
upstream_or queried eco none rest = rest
upstream_or queried eco (some fixed) rest = fixed_upstream (label_of queried eco) fixed

unfoldable pub first_upstream : Text → List Block → FixNote
first_upstream queried [] = nothing
first_upstream queried (b ∷ bs) =
    upstream_or queried b.ecosystem (fix_in b) (first_upstream queried bs)

abbrev pub is_queried : Text → Block → Bool
is_queried queried b = text_eq (lower b.ecosystem) (lower queried)

abbrev pub rolling_note : Text → List Block → Option Text → FixNote
rolling_note queried blocks (some fixed) = fixed_here fixed
rolling_note queried blocks none = first_upstream queried blocks

abbrev pub other_note : Text → List Block → List Release → FixNote
other_note queried blocks [] =
    rolling_note queried blocks (first_fix (keep (is_queried queried) blocks))
other_note queried blocks (h ∷ hs) = first_upstream queried blocks

abbrev pub note_for : Text → List Block → List Release → List Block → FixNote
note_for queried blocks host [] = other_note queried blocks host
note_for queried blocks host (b ∷ bs) = own_note host blocks (first_fix (b ∷ bs))

unfoldable pub fix_note : List Block → Text → List Release → List Text → FixNote
fix_note blocks queried host release_ecosystems =
    note_for queried blocks host (keep (same_release host release_ecosystems) blocks)

abbrev pub suffix_of : FixNote → Text
suffix_of nothing = []
suffix_of (fixed_here fixed) = available_note fixed
suffix_of (fixed_newer host label fixed) = elsewhere_note host label (display_version fixed)
suffix_of (fixed_upstream label fixed) = upstream_note label (display_version fixed)

-- `fix_suffix`, of a record's entries and a package's name and ecosystem
unfoldable pub fix_suffix : List Block → Text → Text → Text → List Text → Text
fix_suffix affected name ecosystem queried release_ecosystems =
    suffix_of
      (fix_note (package_blocks name affected) queried (host_releases ecosystem) release_ecosystems)
