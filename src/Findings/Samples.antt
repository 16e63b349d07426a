-- ===== src/Findings/Samples.antt =====
-- A web host whose package openssl is openssl_2 between two scans.
use cvedeck.Prelude.{
  ℕ, ◌≡◌, true, false, not, ◌&&◌, none, some, List, [], ◌∷◌, map, is_some, if◌then◌else◌,
}
use cvedeck.Prelude.Text.{Text, codes}
use cvedeck.Severity.{high}
use cvedeck.Engine.{connection_error}
use cvedeck.Findings.{
  Input, Stored, save_finding, save_findings, first_seen, rows_of, key_of_input, has_key, or_now,
}
use cvedeck.Findings.Changes.{first_seen-save_findings}
use cvedeck.Findings.Diffs.{diff-save_findings, all_distinct, key_of_snapshot}
use cvedeck.Findings.Runs.{Attempt, found, failed_with, State, history, has_successful_run}
use cvedeck.Findings.History.{history-baseline, baselines, first_is_baseline, any_found}

abbrev sample_finding : Text → Text → Input ℕ
sample_finding cve installed = record {
  cve_id = cve;
  package_identifier = some installed;
  severity = high;
  cvss_score = some 75;
  intel = record {
    kev_listed = none;
    kev_due_date = none;
    epss_score = none;
    epss_percentile = none;
  };
}

abbrev openssl : Input ℕ
openssl = sample_finding (codes "CVE-1") (codes "openssl@1")

abbrev openssl_2 : Input ℕ
openssl_2 = sample_finding (codes "CVE-1") (codes "openssl@2")

abbrev curl : Input ℕ
curl = sample_finding (codes "CVE-2") (codes "curl@8")

abbrev web : Text
web = codes "web"

abbrev db : Text
db = codes "db"

abbrev table : List (Stored ℕ)
table = save_finding web 3 openssl ∷ save_finding db 5 openssl ∷ []

first_seen-save_findings_example :
    first_seen
      (key_of_input openssl)
      (rows_of web (save_findings web (openssl_2 ∷ curl ∷ []) false 9 false table).0)
    ≡ (if has_key (key_of_input openssl) (map key_of_input (openssl_2 ∷ curl ∷ []))
        then some (or_now 9 (first_seen (key_of_input openssl) (rows_of web table)))
        else if false
        then first_seen (key_of_input openssl) (rows_of web table)
        else none)
first_seen-save_findings_example =
    first_seen-save_findings web (openssl_2 ∷ curl ∷ []) false 9 false table (key_of_input openssl)

diff-save_findings_example :
    let changes = (save_findings web (curl ∷ []) false 9 false table).1 in
    let old = rows_of web table in
    (has_key (key_of_input openssl) (map key_of_snapshot changes.new) ≡ (
      not false
      && (has_key (key_of_input openssl) (map key_of_input (curl ∷ []))
          && not (is_some (first_seen (key_of_input openssl) old)))))
    × (has_key (key_of_input openssl) (map key_of_snapshot changes.resolved) ≡ (
        not false
        && (is_some (first_seen (key_of_input openssl) old)
            && (not false && not (has_key (key_of_input openssl) (map key_of_input (curl ∷ [])))))))
    × (all_distinct (map key_of_snapshot changes.new) ≡ true)
    × (all_distinct (map key_of_snapshot changes.resolved) ≡ true)
diff-save_findings_example =
    diff-save_findings web (curl ∷ []) false 9 table false (key_of_input openssl)

abbrev empty : State ℕ
empty = record { table = []; runs = [] }

abbrev attempts : List (ℕ × Attempt ℕ)
attempts =
    (1, failed_with connection_error (some (codes "no route")))
    ∷ (2, found (openssl ∷ []) true)
    ∷ (3, found (curl ∷ []) false)
    ∷ []

history-baseline_example :
    let after = history web 1 attempts empty in
    (baselines after.1 ≡ first_is_baseline (has_successful_run empty.runs) attempts)
    × (has_successful_run after.0.runs ≡ true)
unfolding has_successful_run any_found
history-baseline_example = history-baseline web 1 attempts empty
