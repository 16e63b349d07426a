-- ===== src/ScanJobs/Cancel.antt =====
-- `cancel_job` of scan_jobs.py, in the three steps that other threads can come between: the look at
-- the job, the exchange under the lock, and the writing down.
use cvedeck.Prelude.{ℕ, Bool, true, false, Option, none, some, String, map}
use cvedeck.ScanJobs.{cancelled, waiting, left, Row, cancelled_before, Job, Slot, is_active}

-- `JobNotCancellable`, by its two messages
pub data Refusal : Type 0 where
  already_ended waited_for : Refusal

pub data Answer : Type 0 where
  refused : Refusal → Answer
  accepted : Answer

abbrev pub leave_waiting : Row → Row
leave_waiting row = elim row.state [ waiting ↦ record row { state = left } | _ ↦ row ]

-- Under the lock, for a request that found the job active: `held` says who owns the job.
unfoldable pub request_cancel : String → Slot → Option (Slot × Bool)
request_cancel by s = elim s.waited_on [
  | true ↦ none
  | false ↦ some (record s { cancel_by = some by; held = false }, s.held)
]

unfoldable pub write_cancelled : ℕ → String → Job → Job
write_cancelled now by job = record job {
  targets = map leave_waiting job.targets;
  status = cancelled;
  error_detail = some (cancelled_before by);
  finished_at = some now;
}

abbrev pub if_held : ℕ → String → Slot × Bool → Slot × Answer
if_held now by (s, false) = (s, accepted)
if_held now by (s, true) =
    (record s { job = write_cancelled now by s.job; cancel_by = none }, accepted)

abbrev pub or_waited_for : ℕ → String → Slot → Option (Slot × Bool) → Slot × Answer
or_waited_for now by s none = (s, refused waited_for)
or_waited_for now by s (some taken) = if_held now by taken

-- `cancel_job` of a known job
unfoldable pub cancel_job : ℕ → String → Slot → Slot × Answer
cancel_job now by s = elim (is_active s.job.status) [
  | false ↦ (s, refused already_ended)
  | true ↦ or_waited_for now by s (request_cancel by s)
]
