-- ===== src/ScanJobs.antt =====
-- backend/app/services/scan_jobs.py: a scan job and what the process holds for it. The module's
-- dictionaries are keyed by job id, so each job has a slot with its row, whether its credentials are
-- held, who asked to cancel it, and whether a request waits on it. What the credentials are does
-- not show here. A commit writes the slot's job; times are a clock's readings.
pub mod Run
pub mod Cancel
pub mod Store
pub mod Hosts
pub mod Outcomes
pub mod Stopping
pub mod Pruning
pub mod Threads
mod Samples
use cvedeck.Prelude.{ℕ, String, Bool, true, false, Option, none, some, List, is_some}

-- `ScanStatus`
pub data ScanStatus : Type 0 where
  never_scanned success connection_failure auth_failure inventory_unavailable : ScanStatus
  host_key_mismatch host_key_unknown : ScanStatus

-- `ScanJobStatus`
pub data JobStatus : Type 0 where
  queued running finished interrupted cancelled : JobStatus

-- `ScanJobTargetState`
pub data TargetState : Type 0 where
  waiting scanning done left : TargetState

-- `_ACTIVE`
abbrev pub is_active : JobStatus → Bool
is_active queued = true
is_active running = true
is_active _ = false

-- The diff of a scan: whether it is the first, what is new, what is resolved, and whether the
-- latter was assessed.
pub record Diff : Type 0 where
  pub baseline : Bool
  pub new : ℕ
  pub resolved : ℕ
  pub resolved_assessed : Bool

-- `MachineScan`, as far as a job writes it down
pub record Scan : Type 0 where
  pub machine_id : String
  pub status : ScanStatus
  pub findings : ℕ
  pub stored_findings : Option ℕ
  pub sources_ok : Bool
  pub unavailable_sources : List String
  pub message : Option String
  pub diff : Option Diff

-- `diff_counts`
pub record Counts : Type 0 where
  pub new_count : Option ℕ
  pub resolved_count : Option ℕ
  pub baseline : Bool

unfoldable pub diff_counts : Option Diff → Counts
diff_counts none = record { new_count = none; resolved_count = none; baseline = false }
diff_counts (some d) = elim d.baseline [
  | true ↦ record { new_count = none; resolved_count = none; baseline = true }
  | false ↦ record {
    new_count = some d.new;
    resolved_count = elim d.resolved_assessed [ true ↦ some d.resolved | false ↦ none ];
    baseline = false;
  }
]

-- What a host's row says of its scan; the unavailable sources are joined by commas there.
pub record Outcome : Type 0 where
  pub status : ScanStatus
  pub finding_count : ℕ
  pub sources_ok : Bool
  pub unavailable_sources : List String
  pub message : Option String
  pub counts : Counts

-- `ScanJobTarget`; its position is its place in the job's list
pub record Row : Type 0 where
  pub machine_id : String
  pub server_key : Bool
  pub state : TargetState
  pub outcome : Option Outcome

pub data Detail : Type 0 where
  restarted no_credentials : Detail
  stopped_unexpectedly : String → Detail
  cancelled_before : String → Detail
  cancelled_after : String → ℕ → ℕ → Detail

-- `ScanJob`
pub record Job : Type 0 where
  pub id : String
  pub status : JobStatus
  pub requested_by : String
  pub started_at : Option ℕ
  pub finished_at : Option ℕ
  pub error_detail : Option Detail
  pub targets : List Row

pub record Slot : Type 0 where
  pub job : Job
  pub held : Bool
  pub cancel_by : Option String
  pub waited_on : Bool

-- `_interrupt`
unfoldable pub interrupt : ℕ → Detail → Job → Job
interrupt now detail job = record job {
  status = interrupted;
  error_detail = some detail;
  finished_at = some now;
}

-- `is_cancellable` and `cancel_requested`
unfoldable pub is_cancellable : Slot → Bool
is_cancellable s = elim (is_active s.job.status) [
  | false ↦ false
  | true ↦ elim s.waited_on [ true ↦ false | false ↦ true ]
]

unfoldable pub cancel_requested : Slot → Bool
cancel_requested s = elim (is_active s.job.status) [ false ↦ false | true ↦ is_some s.cancel_by ]
