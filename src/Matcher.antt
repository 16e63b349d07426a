-- ===== src/Matcher.antt =====
-- `Matcher.match` of backend/app/scanner/matcher.py: an inventory against two sources, each of which
-- may be absent, answer, answer in part, or raise. A client is a parameter: what it returns or
-- raises when it is asked. Logging is left out.
pub mod Laws
mod Samples
use cvedeck.Prelude.{ℕ, String, Bool, true, false, Option, none, some, List, [], ◌∷◌, ◌++◌}
use cvedeck.Floats.{Floats}
use cvedeck.Severity.{Severity, resolve_severity}

-- `SourceStatus`
pub data SourceStatus : Type 0 where
  ok data_source_unavailable : SourceStatus

-- `_SOURCE_NVD` and `_SOURCE_OSV`
pub data Source : Type 0 where
  nvd osv : Source

-- `RawAdvisory`, and `RawCve`, which has no package identifier.
pub record RawAdvisory (F : Type 0) : Type 0 where
  pub cve_id : String
  pub cvss_score : Option F
  pub severity : Option Severity
  pub package_identifier : Option String

pub record Finding (F : Type 0) : Type 0 where
  pub machine_id : String
  pub cve_id : String
  pub cvss_score : Option F
  pub severity : Severity
  pub source : Source
  pub package_identifier : Option String

-- What a client's call ends with: a list, or an exception. `defect` is one of `_PROGRAMMING_ERRORS`,
-- `outage` any other that is no `PartialMatchError`.
pub data Call (F : Type 0) : Type 0 where
  answered : List (RawAdvisory F) → Call F
  partial_match : List (RawAdvisory F) → Call F
  outage : Call F
  defect : Call F

pub record MatchResult (F : Type 0) : Type 0 where
  pub machine_id : String
  pub findings : List (Finding F)
  pub nvd_status : SourceStatus
  pub osv_status : SourceStatus

-- A value, or the programming error that `match` raises again.
pub data Outcome {ℓ} (A : Type ℓ) : Type ℓ where
  done : A → Outcome A
  reraised : Outcome A

infixl 5 ◌>>=◌
abbrev pub ◌>>=◌ {ℓ κ} : {A : Type ℓ} {B : Type κ} → Outcome A → (A → Outcome B) → Outcome B
done a >>= f = f a
reraised >>= f = reraised

-- What one source adds to the result: its findings and its status.
abbrev pub Part : Type 0 → Type 0
Part F = List (Finding F) × SourceStatus

module _ (floats : Floats) where
  open floats use {F}

  -- NVD findings are of the operating system and name no package.
  identifier : Source → Option String → Option String
  identifier nvd named = none
  identifier osv named = named

  finding : String → Source → RawAdvisory F → Severity → Finding F
  finding machine source raw band = record {
    machine_id = machine;
    cve_id = raw.cve_id;
    cvss_score = raw.cvss_score;
    severity = band;
    source = source;
    package_identifier = identifier source raw.package_identifier;
  }

  -- One round of the loop, before the rounds in `rest`: the ValueError of a score out of range ends
  -- the loop, and the handler records the source as unavailable.
  append_finding : String → Source → RawAdvisory F → Option Severity → Part F → Part F
  append_finding machine source raw none rest = ([], data_source_unavailable)
  append_finding machine source raw (some band) (fs, status) =
      (finding machine source raw band ∷ fs, status)

  -- The loop over the records; the findings that were appended before an error stay.
  append_findings : String → Source → SourceStatus → List (RawAdvisory F) → Part F
  append_findings machine source status [] = ([], status)
  append_findings machine source status (raw ∷ raws) =
      append_finding machine source raw (resolve_severity floats raw.cvss_score raw.severity)
        (append_findings machine source status raws)

  -- The NVD half. A `PartialMatchError` has a handler for OSV only, so here it is an outage.
  match_nvd : String → Option (Call F) → Outcome (Part F)
  match_nvd machine none = done ([], data_source_unavailable)
  match_nvd machine (some (answered raws)) = done (append_findings machine nvd ok raws)
  match_nvd machine (some (partial_match raws)) = done ([], data_source_unavailable)
  match_nvd machine (some outage) = done ([], data_source_unavailable)
  match_nvd machine (some defect) = reraised

  match_osv : String → Option (Call F) → Outcome (Part F)
  match_osv machine none = done ([], data_source_unavailable)
  match_osv machine (some (answered raws)) = done (append_findings machine osv ok raws)
  match_osv machine (some (partial_match raws)) =
      done (append_findings machine osv data_source_unavailable raws)
  match_osv machine (some outage) = done ([], data_source_unavailable)
  match_osv machine (some defect) = reraised

  abbrev joined : String → Part F → Part F → MatchResult F
  joined machine (nvd_findings, nvd_status) (osv_findings, osv_status) = record {
    machine_id = machine;
    findings = nvd_findings ++ osv_findings;
    nvd_status = nvd_status;
    osv_status = osv_status;
  }

  -- The calls are the clients' answers to `match_os(os_info)` and `match_packages(packages)`; the
  -- second is asked only after the first half is done.
  pub match : String → Option (Call F) → Option (Call F) → Outcome (MatchResult F)
  match machine nvd_call osv_call = do
    nvd_part ← match_nvd machine nvd_call
    osv_part ← match_osv machine osv_call
    done (joined machine nvd_part osv_part)
