-- ===== src/Osv/Advisories.antt =====
-- `_resolve_cve_id` and `_advisories_for_host` of osv_client.py.
use cvedeck.Prelude.{
  Bool, true, false, not, ◌&&◌, ◌||◌, Option, none, some, List, [], ◌∷◌, ◌++◌, any, ◌==◌,
  if◌then◌else◌,
}
use cvedeck.Prelude.Text.{Text, codes, text_eq, is_digit, strip_prefix}
use cvedeck.PackageId.{or_empty, search_text}
use cvedeck.PackageId.Kernel.{Package, starts_with}
use cvedeck.PackageId.Names.{identifier}
use cvedeck.Releases.{Release, host_releases}
use cvedeck.PackageId.{and_then}
use cvedeck.Osv.{Block, same_key, describes_release, covers_family_but_not_release, fix_suffix}

-- A record, as far as it is read here
pub record Vuln : Type 0 where
  pub id : Text
  pub aliases : List Text
  pub upstream : List Text
  pub affected : List Block

abbrev pub is_cve : Text → Bool
is_cve s = starts_with (codes "CVE-") s

unfoldable pub first_cve : List Text → Option Text
first_cve [] = none
first_cve (s ∷ ss) = let rest = first_cve ss in if is_cve s then some s else rest

-- `CVE-\d{4}-\d+`
abbrev pub year_of : Text → Option (Text × Text)
year_of (a ∷ b ∷ c ∷ d ∷ e ∷ s) =
    if is_digit a && is_digit b && is_digit c && is_digit d && e == b'-'
    then some (a ∷ b ∷ c ∷ d ∷ e ∷ [], s)
    else none
year_of _ = none

unfoldable pub digits_at : Text → Text
digits_at [] = []
digits_at (c ∷ s) = let rest = digits_at s in if is_digit c then c ∷ rest else []

abbrev pub unless_none : Text → Text → Option Text
unless_none year [] = none
unless_none year (c ∷ digits) = some (codes "CVE-" ++ (year ++ c ∷ digits))

abbrev pub number_behind : Text × Text → Option Text
number_behind (year, s) = unless_none year (digits_at s)

abbrev pub cve_here : Text → Option Text
cve_here s = and_then number_behind (and_then year_of (strip_prefix (codes "CVE-") s))

abbrev pub or_itself : Text → Option Text → Text
or_itself id none = id
or_itself id (some cve) = cve

abbrev pub or_searched : Text → Option Text → Text
or_searched id (some cve) = cve
or_searched id none = or_itself id (search_text cve_here id)

abbrev pub or_upstream : Vuln → Option Text → Text
or_upstream v (some cve) = cve
or_upstream v none = or_searched v.id (first_cve v.upstream)

-- `_resolve_cve_id`
unfoldable pub resolve_cve_id : Vuln → Text
resolve_cve_id v = if is_cve v.id then v.id else or_upstream v (first_cve v.aliases)

-- An advisory, without its rating
pub record Advisory : Type 0 where
  pub cve_id : Text
  pub package_identifier : Text

-- `pkg.ecosystem or eco`
abbrev pub or_queried : Option Text → Text → Text
or_queried none queried = queried
or_queried (some []) queried = queried
or_queried (some (c ∷ s)) queried = c ∷ s

-- `tracked`: the host's releases that OSV has been seen to describe
unfoldable pub tracked_of : List Release → List Release → List Release
tracked_of described [] = []
tracked_of described (h ∷ hs) =
    let rest = tracked_of described hs in if any (same_key h) described then h ∷ rest else rest

abbrev pub is_unmatched : Option (List Text) → Text → Bool
is_unmatched none id = false
is_unmatched (some ids) id = not (any (text_eq id) ids)

abbrev pub is_tracked : List Release → Bool
is_tracked [] = false
is_tracked (h ∷ hs) = true

-- The two reasons to drop a record
unfoldable pub is_dropped : Package → List Text → Option (List Text) → List Release → Vuln → Bool
is_dropped p release_ecosystems matched tracked v =
    is_unmatched matched v.id && describes_release v.affected p.name release_ecosystems
    || is_tracked tracked && covers_family_but_not_release v.affected p.name tracked

abbrev pub advisory_for : Package → Text → List Text → Vuln → Advisory
advisory_for p queried release_ecosystems v = record {
  cve_id = resolve_cve_id v;
  package_identifier =
      identifier (or_queried p.ecosystem queried) p.name p.version
      ++ fix_suffix v.affected p.name (or_empty p.ecosystem) queried release_ecosystems;
}

unfoldable pub kept_advisories :
    Package → Text → List Text → Option (List Text) → List Release → List Vuln → List Advisory
kept_advisories p queried ecos matched tracked [] = []
kept_advisories p queried ecos matched tracked (v ∷ vs) =
    let rest = kept_advisories p queried ecos matched tracked vs in
    if is_dropped p ecos matched tracked v then rest else advisory_for p queried ecos v ∷ rest

-- `_advisories_for_host`
unfoldable pub advisories_for_host :
    Package → Text → List Vuln → List Text → Option (List Text) → List Release → List Advisory
advisories_for_host p queried vulns release_ecosystems matched described =
    kept_advisories p queried release_ecosystems matched
      (tracked_of described (host_releases (or_empty p.ecosystem))) vulns
