-- ===== src/Matcher/Samples.antt =====
-- A host with one CVE of its system and two advisories of its packages.
use cvedeck.Prelude.{◌≡◌, refl, Option, none, some, [], ◌∷◌, ℕ}
use cvedeck.Floats.Sample.{whole_tenths}
use cvedeck.Severity.{critical, unscored, resolve_severity, derive_severity}
use cvedeck.Matcher.{
  ok, data_source_unavailable, nvd, osv, RawAdvisory, Call, answered, partial_match, outage,
  MatchResult, done, finding, append_finding, append_findings, match_nvd, match_osv, match,
}
use cvedeck.Matcher.Laws.{Reports, match-Reports}

abbrev scored : RawAdvisory ℕ
scored = record {
  cve_id = "CVE-2026-1";
  cvss_score = some 98;
  severity = none;
  package_identifier = some "Debian:13:openssl@3.5.1";
}

abbrev unmeasured : RawAdvisory ℕ
unmeasured = record scored { cve_id = "CVE-2026-2"; cvss_score = none }

abbrev both : MatchResult ℕ
both = record {
  machine_id = "m1";
  findings =
      finding whole_tenths "m1" nvd scored critical
      ∷ finding whole_tenths "m1" osv scored critical
      ∷ finding whole_tenths "m1" osv unmeasured unscored
      ∷ [];
  nvd_status = ok;
  osv_status = data_source_unavailable;
}

abbrev alone : MatchResult ℕ
alone = record {
  machine_id = "m1";
  findings =
      finding whole_tenths "m1" osv scored critical
      ∷ finding whole_tenths "m1" osv unmeasured unscored
      ∷ [];
  nvd_status = data_source_unavailable;
  osv_status = data_source_unavailable;
}

abbrev half : Option (Call ℕ)
half = some (partial_match (scored ∷ unmeasured ∷ []))

partly : match whole_tenths "m1" (some (answered (scored ∷ []))) half ≡ done both
unfolding match match_nvd match_osv append_findings append_finding resolve_severity derive_severity
    finding
partly = refl

nvd_down : match whole_tenths "m1" (some outage) half ≡ done alone
unfolding match match_nvd match_osv append_findings append_finding resolve_severity derive_severity
    finding
nvd_down = refl

match-Reports_example : Reports whole_tenths (some (answered (scored ∷ []))) half both
match-Reports_example =
    match-Reports whole_tenths "m1" (some (answered (scored ∷ []))) half both partly
