-- ===== src/Findings/Runs.antt =====
-- The scan history of a machine in backend/app/data/repository.py, and what writes to it:
-- `_record_scan_status` of backend/app/api/wiring.py behind `save_findings`. The runs of a machine are
-- listed newest first, as `list_scan_runs` orders them.
use cvedeck.Prelude.{
  ℕ, ◌-◌, Bool, true, false, not, Option, none, some, List, [], ◌∷◌, ◌++◌, map, if◌then◌else◌,
  length, take, drop, leb,
}
use cvedeck.Prelude.Text.{Text, strip}
use cvedeck.ScanJobs.{ScanStatus, success}
use cvedeck.Engine.{ErrorKind, status_of}
use cvedeck.Findings.{Input, Snapshot, Stored, rows_of, FindingDiff, save_findings}

-- `_truncate`, and `_ERROR_DETAIL_LIMIT`
abbrev pub cut_at : ℕ → Text → Option Text
cut_at limit [] = none
cut_at limit (c ∷ s) =
    some (if leb (length (c ∷ s)) limit then c ∷ s else take (limit - 1) (c ∷ s) ++ 8230 ∷ [])

unfoldable pub truncate : Option Text → ℕ → Option Text
truncate none limit = none
truncate (some text) limit = cut_at limit (strip text)

abbrev pub error_detail_limit : ℕ
error_detail_limit = 500

-- `FindingChange`
pub data Change : Type 0 where
  new_finding resolved_finding : Change

-- `ScanRun`, with its `ScanFindingChange` rows
pub record ScanRun (S : Type 0) : Type 0 where
  pub scanned_at : ℕ
  pub status : ScanStatus
  pub sources_ok : Bool
  pub finding_count : ℕ
  pub new_count : Option ℕ
  pub resolved_count : Option ℕ
  pub baseline : Bool
  pub error_detail : Option Text
  pub changes : List (Change × Snapshot S)

abbrev pub is_success : ScanStatus → Bool
is_success success = true
is_success _ = false

-- `max(keep, 1)`
abbrev pub max_with_one : ℕ → ℕ
max_with_one keep = if leb 1 keep then keep else 1

-- A count that a run has unless something keeps it from having one
abbrev pub unless : {A : Type 0} → Bool → A → Option A
unless true a = none
unless false a = some a

module _ {S : Type 0} where
  abbrev pub succeeded : ScanRun S → Bool
  succeeded run = is_success run.status

  -- `_has_successful_run`
  unfoldable pub has_successful_run : List (ScanRun S) → Bool
  has_successful_run [] = false
  has_successful_run (run ∷ runs) =
      let rest = has_successful_run runs in if succeeded run then true else rest

  -- `latest_success`, and `latest_successful_run`
  unfoldable pub latest_success : List (ScanRun S) → Option (ScanRun S)
  latest_success [] = none
  latest_success (run ∷ runs) =
      let rest = latest_success runs in if succeeded run then some run else rest

  -- The new run among the others, newest first
  unfoldable pub insert_run : ScanRun S → List (ScanRun S) → List (ScanRun S)
  insert_run run [] = run ∷ []
  insert_run run (other ∷ runs) =
      let rest = insert_run run runs in
      if leb other.scanned_at run.scanned_at then run ∷ other ∷ runs else other ∷ rest

  abbrev pub as_list : Option (ScanRun S) → List (ScanRun S)
  as_list none = []
  as_list (some run) = run ∷ []

  -- `_prune_scan_runs`: of the runs beyond `keep`, the latest success stays.
  unfoldable pub prune_scan_runs : ℕ → List (ScanRun S) → List (ScanRun S)
  prune_scan_runs keep runs =
      let first = take (max_with_one keep) runs in
      let rest = drop (max_with_one keep) runs in
      first ++ (if has_successful_run first then [] else as_list (latest_success rest))

  -- `compared`: the rows of `ScanFindingChange`
  abbrev pub changes_of : FindingDiff S → List (Change × Snapshot S)
  changes_of diff =
      map (λ snap. (new_finding, snap)) diff.new
      ++ map (λ snap. (resolved_finding, snap)) diff.resolved

  -- The row that `record_scan_run` adds
  unfoldable pub new_run :
      ScanStatus → Bool → ℕ → Option (FindingDiff S) → Option Text → ℕ → ScanRun S
  new_run success sources_ok scanned_at (some diff) detail count = record {
    scanned_at = scanned_at;
    status = success;
    sources_ok = sources_ok;
    finding_count = count;
    new_count = unless diff.baseline (length diff.new);
    resolved_count =
        if diff.baseline then none else unless (not diff.resolved_assessed) (length diff.resolved);
    baseline = diff.baseline;
    error_detail = none;
    changes = if diff.baseline then [] else changes_of diff;
  }
  new_run status sources_ok scanned_at diff detail count = record {
    scanned_at = scanned_at;
    status = status;
    sources_ok = sources_ok;
    finding_count = 0;
    new_count = none;
    resolved_count = none;
    baseline = false;
    error_detail = if is_success status then none else truncate detail error_detail_limit;
    changes = [];
  }

  -- `record_scan_run`
  unfoldable pub record_scan_run : ℕ → ScanRun S → List (ScanRun S) → List (ScanRun S)
  record_scan_run keep run runs = prune_scan_runs keep (insert_run run runs)

-- What a scan of the machine brings: the findings, and whether a source failed to answer; or a
-- failure with its message.
pub data Attempt (S : Type 0) : Type 0 where
  found : List (Input S) → Bool → Attempt S
  failed_with : ErrorKind → Option Text → Attempt S

pub record State (S : Type 0) : Type 0 where
  pub table : List (Stored S)
  pub runs : List (ScanRun S)

module _ {S : Type 0} (machine : Text) (keep : ℕ) where
  -- One attempt: `save_findings` where the host answered, then `_record_scan_status`
  unfoldable pub attempt : ℕ → Attempt S → State S → State S × Option (FindingDiff S)
  attempt now (found findings partial) s =
      let saved =
        save_findings machine findings partial now (not (has_successful_run s.runs)) s.table in
      let count = length (rows_of machine saved.0) in
      let run = new_run success (not partial) saved.1.scanned_at (some saved.1) none count in
      (record { table = saved.0; runs = record_scan_run keep run s.runs }, some saved.1)
  attempt now (failed_with kind detail) s =
      let run = new_run (status_of kind) true now none detail 0 in
      (record { table = s.table; runs = record_scan_run keep run s.runs }, none)

  -- A history, with the differences that its scans reported
  unfoldable pub history : List (ℕ × Attempt S) → State S → State S × List (FindingDiff S)
  history [] s = (s, [])
  history ((now, a) ∷ rest) s =
      let next = attempt now a s in
      let later = history rest next.0 in
      (later.0, elim next.1 [ none ↦ later.1 | some diff ↦ diff ∷ later.1 ])
