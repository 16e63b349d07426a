-- ===== src/ScanJobs/Samples.antt =====
-- A job of three hosts, one of which had no credentials.
use cvedeck.Prelude.{ℕ, ◌≡◌, refl, true, false, none, some, List, [], ◌∷◌, zero, suc}
use cvedeck.ScanJobs.{success, finished, Scan, Slot, cancelled_after}
use cvedeck.ScanJobs.Run.{
  record_outcome, update_row, scan_hosts, machines, record_all, leave_rest, count_done, all_done,
  close_job, after_scan, take_credentials, run_owned, run_job, Round, scanned,
}
use cvedeck.ScanJobs.Store.{unresolved_row, target_row, new_job, create_job}
use cvedeck.ScanJobs.Hosts.{all_recorded, calm}
use cvedeck.ScanJobs.Outcomes.{IsEnded, run_job-IsEnded, run_job-all_recorded}

abbrev sample : Slot
sample = record {
  job = new_job 5 "j1" "ada" ("web" ∷ "db" ∷ []) (("mail", "no key") ∷ []) ("db" ∷ []);
  held = true;
  cancel_by = none;
  waited_on = false;
}

abbrev found : ℕ → Scan
found n = record {
  machine_id = "web";
  status = success;
  findings = n;
  stored_findings = none;
  sources_ok = true;
  unavailable_sources = [];
  message = none;
  diff = none;
}

-- The second host is not scanned, since a cancellation arrives before it.
abbrev stopped : ℕ → Round
stopped i = elim i [
  | zero ↦ record { arrives = none; event = scanned (found 3) }
  | suc k ↦ record { arrives = some "bob"; event = scanned (found 4) }
]

stopped_half_way :
    (run_job 6 7 stopped none sample).job.error_detail ≡ some (cancelled_after "bob" 2 3)
unfolding run_job run_owned take_credentials after_scan close_job scan_hosts machines update_row
    record_outcome record_all leave_rest count_done all_done new_job unresolved_row target_row
stopped_half_way = refl

run_job-IsEnded_example :
    IsEnded (run_job 6 7 stopped none sample).job
    × ((run_job 6 7 stopped none sample).cancel_by ≡ none)
    × ((run_job 6 7 stopped none sample).held ≡ false)
unfolding new_job
run_job-IsEnded_example = run_job-IsEnded 6 7 stopped none sample refl refl

run_job-all_recorded_example : (run_job 6 7 (calm found) none sample).job ≡ record sample.job {
  status = finished;
  started_at = some 6;
  finished_at = some 7;
  targets = all_recorded found sample.job.targets;
}
unfolding new_job
run_job-all_recorded_example = run_job-all_recorded 6 7 found sample refl refl refl

abbrev jobs : List Slot
jobs = create_job 9 "j2" "eve" [] (("mail", "no key") ∷ []) [] (sample ∷ [])
