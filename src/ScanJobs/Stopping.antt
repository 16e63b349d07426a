-- ===== src/ScanJobs/Stopping.antt =====
-- Requests to cancel, against the run of the job and against what the API says of it.
use cvedeck.Prelude.{
  ℕ, String, ◌≡◌, refl, Bool, true, false, Option, none, some, List, [], ◌∷◌, arith, map, All,
}
use cvedeck.ScanJobs.{
  queued, cancelled, waiting, Row, Slot, is_cancellable, cancelled_before, cancel_requested,
}
use cvedeck.ScanJobs.Run.{Round, take_credentials, run_job}
use cvedeck.ScanJobs.Cancel.{
  Answer, refused, accepted, leave_waiting, request_cancel, write_cancelled, cancel_job,
}

abbrev pub is_accepted : Answer → Bool
is_accepted accepted = true
is_accepted (refused why) = false

abbrev pub is_waiting : Row → Bool
is_waiting row = elim row.state [ waiting ↦ true | _ ↦ false ]

leave_waiting-not_waiting : (row : Row) → is_waiting (leave_waiting row) ≡ false
leave_waiting-not_waiting row = ground arith

none_waiting : (rows : List Row) → All (λ row. is_waiting row ≡ false) (map leave_waiting rows)
none_waiting [] = tt
none_waiting (row ∷ rows) = (leave_waiting-not_waiting row, none_waiting rows)

cancel_job_held :
    (now : ℕ) (by : String) (s : Slot)
    → s.job.status ≡ queued
    → s.held ≡ true
    → s.waited_on ≡ false
    → cancel_job now by s
      ≡ (record s { job = write_cancelled now by s.job; held = false; cancel_by = none }, accepted)
unfolding cancel_job request_cancel
cancel_job_held now by s q h w = ground arith

-- A queued job that is cancelled while its credentials are held, and that no caller waits on, is
-- cancelled at once: the request is accepted, the job names who asked, no host of it still waits,
-- the credentials are dropped, and a worker that comes to it later returns it as it is, whatever
-- would have happened at its hosts.
pub cancel_job-run_job :
    (now : ℕ) (by : String) (s : Slot)
    → s.job.status ≡ queued
    → s.held ≡ true
    → s.waited_on ≡ false
    → let after = cancel_job now by s in
      (after.1 ≡ accepted)
      × (after.0.job.status ≡ cancelled)
      × (after.0.job.error_detail ≡ some (cancelled_before by))
      × All (λ row. is_waiting row ≡ false) after.0.job.targets
      × (after.0.held ≡ false)
      × ((start end : ℕ) (rounds : ℕ → Round) (late : Option String)
          → run_job start end rounds late after.0 ≡ after.0)
unfolding write_cancelled run_job take_credentials
cancel_job-run_job now by s q h w =
    rw (cancel_job_held now by s q h w)
      (refl, refl, refl, none_waiting s.job.targets, refl, λ start end rounds late. refl)

-- The API offers to cancel a job exactly where a request to cancel it is accepted; a request that
-- is refused changes nothing; and where one is accepted and the job still runs, the API says that
-- it was asked for.
pub cancel_job-is_cancellable :
    (now : ℕ) (by : String) (s : Slot)
    → (is_accepted (cancel_job now by s).1 ≡ is_cancellable s)
      × (is_cancellable s ≡ false → (cancel_job now by s).0 ≡ s)
      × (is_cancellable s ≡ true → s.held ≡ false → cancel_requested (cancel_job now by s).0 ≡ true)
unfolding cancel_job request_cancel is_cancellable cancel_requested
cancel_job-is_cancellable now by s = ground arith
