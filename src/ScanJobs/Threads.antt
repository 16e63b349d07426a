-- ===== src/ScanJobs/Threads.antt =====
-- `run_job` and `cancel_job` of scan_jobs.py as threads that interleave: one worker, which the scan
-- slot keeps alone, and any number of requests to cancel. A move ends where another thread can come
-- between: at a commit, at a lock, at a look at the row. A request that waits on the job may come
-- and go at any time.
pub mod Owners
pub mod Ownership
pub mod Written
pub mod Safety
mod Samples
use native.Mathlib.Decide.{ℕ_discrete}
use mathlib.Core.Logic.{ite}
use cvedeck.Prelude.{
  ℕ, String, ◌≡◌, Bool, true, false, Option, none, some, List, [], ◌∷◌, ◌++◌, is_some,
  if◌then◌else◌,
}
use cvedeck.ScanJobs.{
  running, Scan, no_credentials, stopped_unexpectedly, Job, Slot, is_active, interrupt,
}
use cvedeck.ScanJobs.Run.{
  is_queued, record_outcome, update_row, mark_scanning, machines, record_all, close_job,
  take_credentials,
}
use cvedeck.ScanJobs.Cancel.{Refusal, already_ended, waited_for, request_cancel, write_cancelled}

-- Where the worker is in `run_job`, with its locals
pub data Worker : Type 0 where
  outside looked refreshing giving_up owning leaving : Worker
  scanning : List String → List Scan → Worker
  at_host : String → List String → List Scan → Worker
  reported : List Scan → Worker
  closing : Option String → Worker

-- Behind the lock: the credentials, or what their absence means
abbrev pub after_lock : Bool → Bool → Worker
after_lock true cancelling = owning
after_lock false true = outside
after_lock false false = refreshing

abbrev pub if_queued : Bool → Worker → Worker
if_queued true w = w
if_queued false w = outside

abbrev pub start_job : ℕ → Job → Job
start_job now job = record job { status = running; started_at = some now }

abbrev pub marked : String → Slot → Slot
marked m s = record s { job = record s.job { targets = update_row m mark_scanning s.job.targets } }

abbrev pub recorded : String → Scan → Slot → Slot
recorded m scan s = record s {
  job = record s.job { targets = update_row m (record_outcome scan) s.job.targets };
}

abbrev pub all_written : List Scan → Slot → Slot
all_written scans s = record s { job = record s.job { targets = record_all scans s.job.targets } }

pub data Works (s : Slot) : Worker → Slot → Worker → Type 0 where
  look : Works s outside s (if_queued (is_queued s.job.status) looked)
  take_them : Works s looked (take_credentials s).0 (after_lock s.held (is_some s.cancel_by))
  start_it :
      (now : ℕ)
      → Works s owning
          (record s { job = start_job now s.job })
          (scanning (machines s.job.targets) [])
  next_host :
      {m : String} {ms : List String} {scans : List Scan}
      → s.cancel_by ≡ none
      → Works s (scanning (m ∷ ms) scans) (marked m s) (at_host m ms scans)
  host_done :
      {m : String} {ms : List String} {scans : List Scan} (scan : Scan)
      → Works s (at_host m ms scans) (recorded m scan s) (scanning ms (scans ++ scan ∷ []))
  host_raises :
      {m : String} {ms : List String} {scans : List Scan} (now : ℕ) (text : String)
      → Works s
          (at_host m ms scans)
          (record s { job = interrupt now (stopped_unexpectedly text) s.job })
          leaving
  stop_here :
      {m : String} {ms : List String} {scans : List Scan}
      → is_some s.cancel_by ≡ true
      → Works s (scanning (m ∷ ms) scans) s (reported scans)
  no_more : {scans : List Scan} → Works s (scanning [] scans) s (reported scans)
  write_all :
      {scans : List Scan} → Works s (reported scans) (all_written scans s) (closing s.cancel_by)
  close_it :
      {by : Option String} (now : ℕ)
      → Works s (closing by) (record s { job = close_job now by s.job }) leaving
  leave : Works s leaving (record s { cancel_by = none }) outside
  refresh : Works s refreshing s (if_queued (is_queued s.job.status) giving_up)
  give_up :
      (now : ℕ) → Works s giving_up (record s { job = interrupt now no_credentials s.job }) outside

-- Where a request is in `cancel_job`: `written` and `unwritten` are before the `finally`, behind a
-- commit that passed or raised; then the call has returned or raised.
pub data Request : Type 0 where
  idle seen writing written unwritten : Request
  left_to_worker cancelled_it broke_off : Request
  turned_down : Refusal → Request

abbrev pub if_active : Bool → Request
if_active true = seen
if_active false = turned_down already_ended

abbrev pub if_taken : Bool → Request
if_taken true = writing
if_taken false = left_to_worker

abbrev pub after_request : Slot → Option (Slot × Bool) → Slot × Request
after_request s none = (s, turned_down waited_for)
after_request s (some (s', took)) = (s', if_taken took)

pub data Asks (by : String) (s : Slot) : Request → Slot → Request → Type 0 where
  look_at : Asks by s idle s (if_active (is_active s.job.status))
  ask :
      Asks by s seen
        (after_request s (request_cancel by s)).0
        (after_request s (request_cancel by s)).1
  commit : (now : ℕ) → Asks by s writing (record s { job = write_cancelled now by s.job }) written
  commit_raises : Asks by s writing s unwritten
  clear_written : Asks by s written (record s { cancel_by = none }) cancelled_it
  clear_unwritten : Asks by s unwritten (record s { cancel_by = none }) broke_off

-- Every thread, and what they share
pub record System : Type 0 where
  pub slot : Slot
  pub worker : Worker
  pub request : ℕ → Request

abbrev pub set_at {ℓ} : {A : Type ℓ} → (ℕ → A) → ℕ → A → ℕ → A
set_at f i a j = ite (ℕ_discrete i j) a (f j)

-- `names` gives each request's caller.
pub data Step (names : ℕ → String) (t : System) : System → Type 0 where
  works :
      {s : Slot} {w : Worker}
      → Works t.slot t.worker s w
      → Step names t (record t { slot = s; worker = w })
  asks :
      (i : ℕ) {s : Slot} {r : Request}
      → Asks (names i) t.slot (t.request i) s r
      → Step names t (record t { slot = s; request = set_at t.request i r })
  waits : (b : Bool) → Step names t (record t { slot = record t.slot { waited_on = b } })

-- From a job that `create_job` has written, with nobody at it yet
abbrev pub initial : Slot → System
initial s = record { slot = s; worker = outside; request = λ _. idle }

pub data Reached (names : ℕ → String) (s : Slot) : System → Type 0 where
  begin : Reached names s (initial s)
  then_step : {t u : System} → Reached names s t → Step names t u → Reached names s u
