-- ===== src/ScanJobs/Outcomes.antt =====
-- What `run_job` leaves of a job, and of its hosts.
use cvedeck.Prelude.{
  ℕ, String, ◌≡◌, ◌⊎◌, inl, inr, refl, ◌∙◌, true, false, Option, none, some, List, [], ◌∷◌, arith,
  Bool-cases, All,
}
use cvedeck.ScanJobs.{
  queued, running, finished, interrupted, cancelled, done, left, Scan, Row, stopped_unexpectedly,
  Job, Slot, interrupt,
}
use cvedeck.ScanJobs.Run.{
  Round, Ending, returned, failed, scan_hosts, machines, record_all, all_done, leave_rest,
  close_job, after_scan, take_credentials, run_owned, run_job, on_ending, first_of_two,
}
use cvedeck.ScanJobs.Hosts.{
  all_recorded, calm, scan_hosts-all_recorded, scan_hosts-calm, scan_hosts_finishes,
  all_done-machines, all_done-all_recorded, record_all_done,
}

-- No host is left in the middle.
abbrev pub IsSettled : Row → Type 0
IsSettled row = (row.state ≡ done) ⊎ (row.state ≡ left)

-- How a job that ran can end.
abbrev pub IsEnded : Job → Type 0
IsEnded job =
    ((job.status ≡ finished) × (all_done job.targets ≡ true))
    ⊎ ((job.status ≡ cancelled) × All IsSettled job.targets × (all_done job.targets ≡ false))
    ⊎ ((text : String) × (job.status ≡ interrupted)
        × (job.error_detail ≡ some (stopped_unexpectedly text)))

leave_rest-IsSettled : (rows : List Row) → All IsSettled (leave_rest rows)
unfolding leave_rest
leave_rest-IsSettled [] = tt
leave_rest-IsSettled (row ∷ rows) = (ground arith, leave_rest-IsSettled rows)

all_done-leave_rest : (rows : List Row) → all_done (leave_rest rows) ≡ all_done rows
unfolding leave_rest all_done
all_done-leave_rest [] = refl
all_done-leave_rest (row ∷ rows) = ground (arith, all_done-leave_rest rows)

close_job-IsEnded :
    (now : ℕ) (by : Option String) (job : Job)
    → (by ≡ none → all_done job.targets ≡ true)
    → IsEnded (close_job now by job)
unfolding close_job
close_job-IsEnded now none job h = inl (refl, h refl)
close_job-IsEnded now (some by) job h = elim (Bool-cases (all_done job.targets)) [
  | inl t ↦ rw t (inl (refl, t))
  | inr f ↦
      rw f (inr (inl (refl, leave_rest-IsSettled job.targets, all_done-leave_rest job.targets ∙ f)))
]

not_cancelled : (late by : Option String) → first_of_two late by ≡ none → by ≡ none
not_cancelled none by e = e
not_cancelled (some who) by e = cc

on_ending-IsEnded :
    (now : ℕ) (by : Option String) (rows : List Row) (job : Job) (ending : Ending)
    → ((l : List Scan) → by ≡ none → ending ≡ returned l → machines rows ≡ [])
    → IsEnded (on_ending now by rows job ending)
unfolding interrupt
on_ending-IsEnded now by rows job (failed text) h = inr (inr (text, refl, refl))
on_ending-IsEnded now by rows job (returned l) h =
    close_job-IsEnded now by (record job { targets = record_all l rows })
      λ e.
        let finished_all = all_done-machines rows (h l e refl) in
        rw (record_all_done l rows finished_all) finished_all

module _ (start now : ℕ) (rounds : ℕ → Round) (late : Option String) (s : Slot) where
  -- A queued job whose credentials are held runs to an end: it is finished with every host done; or
  -- cancelled, with each host done or left and some host left; or an exception of the engine
  -- interrupted it. It is never left queued or running, and no request to cancel it remains.
  pub run_job-IsEnded :
      s.job.status ≡ queued
      → s.held ≡ true
      → IsEnded (run_job start now rounds late s).job
        × ((run_job start now rounds late s).cancel_by ≡ none)
        × ((run_job start now rounds late s).held ≡ false)
  unfolding run_job run_owned take_credentials after_scan
  run_job-IsEnded q h =
      let job = record s.job { status = running; started_at = some start } in
      let p = scan_hosts (machines s.job.targets) rounds s.job.targets s.cancel_by in
      rw (q, h)
        (
          on_ending-IsEnded now (first_of_two late p.cancel_by) p.rows job p.ending (λ l e r.
              scan_hosts_finishes (machines s.job.targets) rounds s.job.targets s.cancel_by refl l
                (not_cancelled late p.cancel_by e) r),
          refl,
          refl,
        )

-- Where nobody cancels and every scan has an outcome, a queued job that holds its credentials is
-- finished, and its hosts hold what their scans found, each its own; hosts that were recorded when
-- the job was made stay as they are.
pub run_job-all_recorded :
    (start now : ℕ) (scans : ℕ → Scan) (s : Slot)
    → s.job.status ≡ queued
    → s.held ≡ true
    → s.cancel_by ≡ none
    → (run_job start now (calm scans) none s).job ≡ record s.job {
      status = finished;
      started_at = some start;
      finished_at = some now;
      targets = all_recorded scans s.job.targets;
    }
unfolding run_job run_owned take_credentials after_scan close_job
run_job-all_recorded start now scans s q h c =
    let (quiet, (l, e)) = scan_hosts-calm (machines s.job.targets) scans s.job.targets in
    let rows = scan_hosts-all_recorded scans s.job.targets in
    let still =
      record_all_done l (all_recorded scans s.job.targets)
        (all_done-all_recorded scans s.job.targets) in
    rw (q, h, c) (rw (quiet, e, rows, still) refl)
