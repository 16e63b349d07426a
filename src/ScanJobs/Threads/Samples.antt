-- ===== src/ScanJobs/Threads/Samples.antt =====
-- Three interleavings of one worker and its cancellers on a job of two hosts.
use native.Mathlib.Decide.{ℕ_discrete}
use cvedeck.Prelude.{ℕ, String, ◌≡◌, refl, true, false, none, [], ◌∷◌, ◌⊎◌, ◌≢◌}
use cvedeck.ScanJobs.{Slot}
use cvedeck.ScanJobs.Run.{machines, take_credentials}
use cvedeck.ScanJobs.Cancel.{request_cancel, write_cancelled}
use cvedeck.ScanJobs.Store.{new_job, target_row}
use cvedeck.ScanJobs.Threads.{
  System, giving_up, take_them, start_it, look, refresh, stop_here, reported, unwritten, broke_off,
  look_at, ask, commit, commit_raises, clear_written, clear_unwritten, Step, works, asks, Reached,
  begin, then_step,
}
use cvedeck.ScanJobs.Threads.Owners.{is_owner}
use cvedeck.ScanJobs.Threads.Safety.{
  is_at_host, Reached-one_owner, Reached-giving_up, Reached-is_at_host,
}
use cvedeck.ScanJobs.Threads.Written.{IsCancelledBy, Reached-IsCancelledBy}

abbrev names : ℕ → String
names i = "ada"

abbrev fresh : Slot
fresh = record {
  job = new_job 5 "j1" "ada" ("web" ∷ "db" ∷ []) [] [];
  held = true;
  cancel_by = none;
  waited_on = false;
}

-- A state with the way to it
abbrev Run : Type 0
Run = (t : System) × Reached names fresh t

abbrev at_start : Run
at_start = (_, begin)

abbrev next : (r : Run) {u : System} → Step names r.0 u → Run
next r st = (_, then_step r.1 st)

-- The worker looks, the request looks and takes the credentials, the worker finds none.
abbrev raced : Run
unfolding new_job target_row take_credentials request_cancel ℕ_discrete
raced =
    next (next (next (next at_start (works look)) (asks 0 look_at)) (asks 0 ask)) (works take_them)

abbrev cancelled_run : Run
unfolding new_job target_row take_credentials request_cancel ℕ_discrete
cancelled_run = next (next raced (asks 0 (commit 8))) (asks 0 clear_written)

Reached-one_owner_example : (◌≡◌ {A = ℕ} 0 0) × (is_owner raced.0.worker ≡ false)
unfolding new_job target_row take_credentials request_cancel ℕ_discrete
Reached-one_owner_example = Reached-one_owner refl refl raced.1 0 0 refl refl

Reached-IsCancelledBy_example :
    IsCancelledBy fresh.job "ada" cancelled_run.0.slot.job
    × (is_owner cancelled_run.0.worker ≡ false)
    × (cancelled_run.0.worker ≢ giving_up)
unfolding new_job target_row take_credentials request_cancel ℕ_discrete write_cancelled
Reached-IsCancelledBy_example = Reached-IsCancelledBy refl refl cancelled_run.1 0 refl

-- The request's commit raises; the worker comes to the job later.
abbrev broken_run : Run
unfolding new_job target_row take_credentials request_cancel ℕ_discrete
broken_run =
    let failed = next (next (next at_start (asks 0 look_at)) (asks 0 ask)) (asks 0 commit_raises) in
    next (next (next (next failed (asks 0 clear_unwritten)) (works look)) (works take_them))
      (works refresh)

Reached-giving_up_example :
    (i : ℕ) × ((broken_run.0.request i ≡ unwritten) ⊎ (broken_run.0.request i ≡ broke_off))
unfolding new_job target_row take_credentials request_cancel ℕ_discrete
Reached-giving_up_example = Reached-giving_up refl refl broken_run.1 refl

-- The worker starts, and then a request arrives.
abbrev late_run : Run
unfolding new_job target_row take_credentials request_cancel ℕ_discrete machines
late_run =
    let started = next (next (next at_start (works look)) (works take_them)) (works (start_it 6)) in
    next (next started (asks 0 look_at)) (asks 0 ask)

Reached-is_at_host_example : is_at_host (reported []) ≡ false
unfolding new_job target_row take_credentials request_cancel ℕ_discrete machines
Reached-is_at_host_example =
    Reached-is_at_host refl refl late_run.1 0 "web" ("db" ∷ []) [] refl refl
      (works (stop_here refl))
