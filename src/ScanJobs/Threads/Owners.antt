-- ===== src/ScanJobs/Threads/Owners.antt =====
-- Who owns a job at each place of `run_job` and `cancel_job`, and what a move does to that.
use cvedeck.Prelude.{
  ℕ, String, ◌≡◌, refl, Bool, true, false, Option, none, some, is_some, arith, ◌≢◌, ◌⊎◌,
}
use cvedeck.ScanJobs.{
  queued, running, cancelled, cancelled_before, JobStatus, Job, Slot, is_active, interrupt,
}
use cvedeck.ScanJobs.Run.{is_queued, take_credentials, close_job}
use cvedeck.ScanJobs.Cancel.{request_cancel, write_cancelled}
use cvedeck.ScanJobs.Threads.{
  Worker, outside, looked, refreshing, giving_up, owning, leaving, Works, look, close_it, Request,
  writing, written, unwritten, left_to_worker, cancelled_it, broke_off, Asks, look_at,
}

-- The worker between taking the credentials and dropping the request.
abbrev pub is_owner : Worker → Bool
is_owner outside = false
is_owner looked = false
is_owner refreshing = false
is_owner giving_up = false
is_owner _ = true

-- Before or after the part of `run_job` that depends on the absent credentials.
abbrev pub is_away : Worker → Bool
is_away outside = true
is_away looked = true
is_away _ = false

-- A request that took the credentials
abbrev pub took_them : Request → Bool
took_them writing = true
took_them written = true
took_them unwritten = true
took_them cancelled_it = true
took_them broke_off = true
took_them _ = false

abbrev pub IsWritten : String → Slot → Type 0
IsWritten by s = (s.job.status ≡ cancelled) × (s.job.error_detail ≡ some (cancelled_before by))

abbrev pub WorkerOk : Slot → Worker → Type 0
WorkerOk s outside = Unit
WorkerOk s looked = Unit
WorkerOk s refreshing = s.held ≡ false
WorkerOk s giving_up = (s.held ≡ false) × (s.job.status ≡ queued)
WorkerOk s owning = (s.held ≡ false) × (s.job.status ≡ queued)
WorkerOk s leaving = (s.held ≡ false) × (is_active s.job.status ≡ false)
WorkerOk s _ = (s.held ≡ false) × (s.job.status ≡ running)

abbrev pub RequestOk : String → Slot → Worker → Request → Type 0
RequestOk by s w writing =
    (s.held ≡ false) × (s.job.status ≡ queued) × (is_some s.cancel_by ≡ true) × (is_away w ≡ true)
RequestOk by s w written = (s.held ≡ false) × (is_owner w ≡ false) × IsWritten by s
RequestOk by s w cancelled_it = (s.held ≡ false) × (is_owner w ≡ false) × IsWritten by s
RequestOk by s w unwritten = (s.held ≡ false) × (is_owner w ≡ false)
RequestOk by s w broke_off = (s.held ≡ false) × (is_owner w ≡ false)
RequestOk by s w left_to_worker =
    (s.held ≡ false) × (is_owner w ≡ true → w ≢ leaving → is_some s.cancel_by ≡ true)
RequestOk by s w _ = Unit

close_job-inactive :
    (now : ℕ) (by : Option String) (job : Job) → is_active (close_job now by job).status ≡ false
unfolding close_job
close_job-inactive now none job = refl
close_job-inactive now (some by) job = ground arith

is_queued_queued : (st : JobStatus) → is_queued st ≡ true → st ≡ queued
is_queued_queued st h = ground arith

pub Works-WorkerOk :
    {s s' : Slot} {w w' : Worker}
    → Works s w s' w'
    → WorkerOk s w
    → (s.held ≡ true → s.job.status ≡ queued)
    → WorkerOk s' w'
unfolding take_credentials interrupt
Works-WorkerOk look ok q = ground arith
Works-WorkerOk {s} (close_it {by} now) ok q = ground (arith, close_job-inactive now by s.job)
Works-WorkerOk mv ok q = ground arith

pub Works-held :
    {s s' : Slot} {w w' : Worker}
    → Works s w s' w'
    → WorkerOk s w
    → s'.held ≡ true
    → (s.held ≡ true) × (s'.job.status ≡ s.job.status)
unfolding take_credentials interrupt
Works-held look ok h = ground arith
Works-held mv ok h = ground arith

pub Works-RequestOk :
    {s s' : Slot} {w w' : Worker} (by : String) (r : Request)
    → Works s w s' w'
    → WorkerOk s w
    → RequestOk by s w r
    → RequestOk by s' w' r
unfolding take_credentials interrupt
Works-RequestOk by r look ok req = ground arith
Works-RequestOk by r mv ok req = ground arith

pub Works-covered :
    {s s' : Slot} {w w' : Worker}
    → Works s w s' w'
    → WorkerOk s w
    → s'.held ≡ false
    → s'.job.status ≡ queued
    → is_owner w' ≡ false
    → (s.held ≡ false) × (s.job.status ≡ queued) × (is_owner w ≡ false)
unfolding take_credentials interrupt
Works-covered look ok h q o = ground arith
Works-covered mv ok h q o = ground arith

pub Asks-WorkerOk :
    {s s' : Slot} {r r' : Request} (by : String) (w : Worker)
    → Asks by s r s' r'
    → RequestOk by s w r
    → WorkerOk s w
    → WorkerOk s' w
unfolding request_cancel write_cancelled
Asks-WorkerOk by w look_at req ok = ground arith
Asks-WorkerOk by w mv req ok = ground arith

pub Asks-RequestOk :
    {s s' : Slot} {r r' : Request} (by : String) (w : Worker)
    → Asks by s r s' r'
    → RequestOk by s w r
    → WorkerOk s w
    → (s.held ≡ true → s.job.status ≡ queued)
    → RequestOk by s' w r'
unfolding request_cancel write_cancelled
Asks-RequestOk by w look_at req ok q = ground arith
Asks-RequestOk by w mv req ok q = ground arith

pub Asks-other :
    {s s' : Slot} {r r' : Request} (by by' : String) (w : Worker) (r₂ : Request)
    → Asks by s r s' r'
    → RequestOk by s w r
    → RequestOk by' s w r₂
    → (took_them r ≡ true → took_them r₂ ≡ false)
    → RequestOk by' s' w r₂
unfolding request_cancel write_cancelled
Asks-other by by' w r₂ look_at req req₂ one = ground arith
Asks-other by by' w r₂ mv req req₂ one = ground arith

pub Asks-held :
    {s s' : Slot} {r r' : Request} (by : String) (w : Worker)
    → Asks by s r s' r'
    → RequestOk by s w r
    → s'.held ≡ true
    → (s.held ≡ true) × (s'.job.status ≡ s.job.status)
unfolding request_cancel write_cancelled
Asks-held by w look_at req h = ground arith
Asks-held by w mv req h = ground arith

pub Asks-took :
    {by : String} {s s' : Slot} {r r' : Request}
    → Asks by s r s' r'
    → took_them r' ≡ true
    → (took_them r ≡ true) ⊎ (s.held ≡ true)
unfolding request_cancel
Asks-took look_at h = ground arith
Asks-took mv h = ground arith

pub Asks-covered :
    {by : String} {s s' : Slot} {r r' : Request}
    → Asks by s r s' r'
    → s'.held ≡ false
    → s'.job.status ≡ queued
    → (took_them r' ≡ true) ⊎ ((s.held ≡ false) × (s.job.status ≡ queued) × (took_them r ≡ false))
unfolding request_cancel write_cancelled
Asks-covered look_at h q = ground arith
Asks-covered mv h q = ground arith

pub took-held :
    (by : String) (s : Slot) (w : Worker) (r : Request)
    → RequestOk by s w r
    → took_them r ≡ true
    → s.held ≡ false
took-held by s w r req h = ground arith
