-- ===== src/ScanJobs/Run.antt =====
-- `run_job` of scan_jobs.py, with `ScannerEngine.scan` of backend/app/scanner/engine.py. It holds the
-- process's scan slot, so no other job runs meanwhile; cancellations may arrive before each host.
use text.Mathlib.Text.{◌==◌ as str_eq}
use cvedeck.Prelude.{
  ℕ, zero, suc, String, Bool, true, false, not, ◌&&◌, Option, none, some, List, [], ◌∷◌, length,
  is_some, if◌then◌else◌,
}
use cvedeck.ScanJobs.{
  success, JobStatus, queued, running, finished, cancelled, TargetState, scanning, done, left, Scan,
  diff_counts, Row, no_credentials, stopped_unexpectedly, cancelled_after, Job, Slot, interrupt,
}

abbrev pub is_done : TargetState → Bool
is_done done = true
is_done _ = false

-- `_record_outcome`, on the row
unfoldable pub record_outcome : Scan → Row → Row
record_outcome scan row = record row {
  state = done;
  outcome = some (record {
    status = scan.status;
    finding_count = elim scan.stored_findings [ some n ↦ n | none ↦ scan.findings ];
    sources_ok = scan.sources_ok;
    unavailable_sources = scan.unavailable_sources;
    message = scan.message;
    counts = diff_counts scan.diff;
  });
}

-- `_record_outcome`, on the machine: `last_scan_server_key` after a scan of `row`
unfoldable pub machine_flag : Scan → Row → Bool → Bool
machine_flag scan row flag = elim scan.status [ success ↦ row.server_key | _ ↦ flag ]

-- `row_for`, and a change of the row that it finds: the first of the machine that is not done
unfoldable pub update_row : String → (Row → Row) → List Row → List Row
update_row machine change [] = []
update_row machine change (row ∷ rows) =
    if str_eq row.machine_id machine && not (is_done row.state)
    then change row ∷ rows
    else row ∷ update_row machine change rows

abbrev pub mark_scanning : Row → Row
mark_scanning row = record row { state = scanning }

-- What happens at one host: a cancellation may arrive before the engine asks `should_stop`; the
-- scan has an outcome, or an exception escapes the engine.
pub data Event : Type 0 where
  scanned : Scan → Event
  raised : String → Event

pub record Round : Type 0 where
  pub arrives : Option String
  pub event : Event

-- How the engine's loop ends: with the outcomes of the hosts it scanned, or by an exception.
pub data Ending : Type 0 where
  returned : List Scan → Ending
  failed : String → Ending

pub record Progress : Type 0 where
  pub rows : List Row
  pub cancel_by : Option String
  pub ending : Ending

abbrev pub first_of_two : Option String → Option String → Option String
first_of_two (some by) earlier = some by
first_of_two none earlier = earlier

abbrev pub prepend_scan : Scan → Ending → Ending
prepend_scan scan (returned scans) = returned (scan ∷ scans)
prepend_scan scan (failed text) = failed text

-- One host: stopped, broken off, or scanned with `next` behind it. The row is marked before its scan.
abbrev pub on_round : Option String → Event → String → List Row → (Scan → Progress) → Progress
on_round (some who) event m rows next = record {
  rows = rows;
  cancel_by = some who;
  ending = returned [];
}
on_round none (raised text) m rows next = record {
  rows = update_row m mark_scanning rows;
  cancel_by = none;
  ending = failed text;
}
on_round none (scanned scan) m rows next =
    let rest = next scan in record rest { ending = prepend_scan scan rest.ending }

-- `ScannerEngine.scan` over the machines of the pending rows, with the callbacks of `run_job`. A
-- later cancellation overwrites an earlier one's name. `rounds` is what happens at each host in
-- turn.
unfoldable pub scan_hosts : List String → (ℕ → Round) → List Row → Option String → Progress
scan_hosts [] rounds rows by = record { rows = rows; cancel_by = by; ending = returned [] }
scan_hosts (m ∷ ms) rounds rows by =
    on_round (first_of_two (rounds zero).arrives by) (rounds zero).event m rows λ scan.
      scan_hosts ms (λ i. rounds (suc i))
        (update_row m (record_outcome scan) (update_row m mark_scanning rows)) none

unfoldable pub machines : List Row → List String
machines [] = []
machines (row ∷ rows) =
    let more = machines rows in if is_done row.state then more else row.machine_id ∷ more

-- The loop behind the scan, for an engine that reports only at the end.
unfoldable pub record_all : List Scan → List Row → List Row
record_all [] rows = rows
record_all (scan ∷ scans) rows =
    record_all scans (update_row scan.machine_id (record_outcome scan) rows)

unfoldable pub leave_rest : List Row → List Row
leave_rest [] = []
leave_rest (row ∷ rows) =
    (if is_done row.state then row else record row { state = left }) ∷ leave_rest rows

unfoldable pub count_done : List Row → ℕ
count_done [] = 0
count_done (row ∷ rows) = if is_done row.state then suc (count_done rows) else count_done rows

unfoldable pub all_done : List Row → Bool
all_done [] = true
all_done (row ∷ rows) = is_done row.state && all_done rows

-- The end of `run_job`, after a scan that returned.
unfoldable pub close_job : ℕ → Option String → Job → Job
close_job now none job = record job { status = finished; finished_at = some now }
close_job now (some by) job =
    if all_done job.targets
    then record job { status = finished; finished_at = some now }
    else record job {
      status = cancelled;
      finished_at = some now;
      error_detail = some (cancelled_after by (count_done job.targets) (length job.targets));
      targets = leave_rest job.targets;
    }

abbrev pub on_ending : ℕ → Option String → List Row → Job → Ending → Job
on_ending now by rows job (failed text) =
    interrupt now (stopped_unexpectedly text) (record job { targets = rows })
on_ending now by rows job (returned scans) =
    close_job now by (record job { targets = record_all scans rows })

unfoldable pub after_scan : ℕ → Option String → Progress → Job → Job
after_scan now late p job = on_ending now (first_of_two late p.cancel_by) p.rows job p.ending

-- Under the lock: `_credentials.pop(job_id)` and `job_id in _cancel_requested`
unfoldable pub take_credentials : Slot → Slot × Bool × Bool
take_credentials s = (record s { held = false }, s.held, is_some s.cancel_by)

abbrev pub is_queued : JobStatus → Bool
is_queued queued = true
is_queued _ = false

-- `late` is a cancellation that arrives after the engine's last check. From the moment that the job owns its credentials; the `finally` drops the request.
unfoldable pub run_owned : ℕ → ℕ → (ℕ → Round) → Option String → Slot → Slot
run_owned start now rounds late s =
    let job = record s.job { status = running; started_at = some start } in
    let p = scan_hosts (machines job.targets) rounds job.targets s.cancel_by in
    record s { job = after_scan now late p job; cancel_by = none }

unfoldable pub run_job : ℕ → ℕ → (ℕ → Round) → Option String → Slot → Slot
run_job start now rounds late s =
    let (s', credentials, cancelling) = take_credentials s in
    if not (is_queued s.job.status)
    then s
    else if credentials
    then run_owned start now rounds late s'
    else if cancelling
    then s'
    else record s' { job = interrupt now no_credentials s'.job }
