-- ===== src/ScanJobs/Threads/Written.antt =====
-- What a request that cancels a job writes, and that nobody writes after it.
use native.Mathlib.Decide.{ℕ_discrete}
use mathlib.Core.Path.{subst}
use cvedeck.Prelude.{ℕ, String, ◌≡◌, refl, ◌∙◌, true, false, arith, ◌≢◌, ◌⊎◌, inl, inr}
use cvedeck.ScanJobs.{queued, Job, Slot}
use cvedeck.ScanJobs.Run.{take_credentials}
use cvedeck.ScanJobs.Cancel.{request_cancel, write_cancelled}
use cvedeck.ScanJobs.Threads.{
  Worker, giving_up, Works, look, Request, writing, written, cancelled_it, Asks, look_at, commit,
  System, set_at, works, asks, waits, Reached, begin, then_step,
}
use cvedeck.ScanJobs.Threads.Owners.{is_owner, WorkerOk, RequestOk}
use cvedeck.ScanJobs.Threads.Ownership.{Inv, at_choice, Reached-Inv}

-- The job at a request that took its credentials: as it was at first, or as the request wrote it.
abbrev pub IsCancelledBy : Job → String → Job → Type 0
IsCancelledBy first by job = (now : ℕ) × (job ≡ write_cancelled now by first)

abbrev JobOk : Job → String → Job → Request → Type 0
JobOk first by job writing = job ≡ first
JobOk first by job written = IsCancelledBy first by job
JobOk first by job cancelled_it = IsCancelledBy first by job
JobOk first by job _ = Unit

-- A worker that neither owns the job nor gives it up does not write.
Works-job :
    {s s' : Slot} {w w' : Worker}
    → Works s w s' w'
    → is_owner w ≡ false
    → w ≢ giving_up
    → s'.job ≡ s.job
unfolding take_credentials
Works-job look o g = refl
Works-job mv o g = ground arith

-- Nor does it where the credentials are held, or where a request has taken them and has not failed.
is_away-writing :
    (by : String) (s : Slot) (w : Worker) (r : Request)
    → WorkerOk s w
    → RequestOk by s w r
    → (r ≡ writing) ⊎ ((r ≡ written) ⊎ (r ≡ cancelled_it))
    → (is_owner w ≡ false) × (w ≢ giving_up)
is_away-writing by s w r ok req h = ground arith

is_away-held :
    (s : Slot) (w : Worker) → WorkerOk s w → s.held ≡ true → (is_owner w ≡ false) × (w ≢ giving_up)
is_away-held s w ok h = ground arith

JobOk-same :
    (first : Job) (by : String) (job job' : Job) (r : Request)
    → ((r ≡ writing) ⊎ ((r ≡ written) ⊎ (r ≡ cancelled_it)) → job' ≡ job)
    → JobOk first by job r
    → JobOk first by job' r
JobOk-same first by job job' writing h e = h (inl refl) ∙ e
JobOk-same first by job job' written h (now, e) = (now, h (inr (inl refl)) ∙ e)
JobOk-same first by job job' cancelled_it h (now, e) = (now, h (inr (inr refl)) ∙ e)
JobOk-same first by job job' r h e = ground arith

-- The move of a request from a job that it may write
Asks-JobOk :
    {s s' : Slot} {r r' : Request} (first : Job) (by : String)
    → Asks by s r s' r'
    → (s.held ≡ true → s.job ≡ first)
    → JobOk first by s.job r
    → JobOk first by s'.job r'
unfolding request_cancel write_cancelled
Asks-JobOk first by look_at held ok = ground arith
Asks-JobOk first by (commit now) held ok = (now, rw ok refl)
Asks-JobOk first by mv held ok = ground arith

-- A request writes the job only where it has taken the credentials.
Asks-job :
    {by : String} {s s' : Slot} {r r' : Request} → Asks by s r s' r' → r ≢ writing → s'.job ≡ s.job
unfolding request_cancel
Asks-job look_at h = refl
Asks-job mv h = ground arith

Asks-still_held :
    {by : String} {s s' : Slot} {r r' : Request} (w : Worker)
    → Asks by s r s' r'
    → RequestOk by s w r
    → s'.held ≡ true
    → (s.held ≡ true) × (r ≢ writing)
unfolding request_cancel
Asks-still_held w look_at ok h = ground arith
Asks-still_held w mv ok h = ground arith

Works-still_held : {s s' : Slot} {w w' : Worker} → Works s w s' w' → s'.held ≡ true → s.held ≡ true
unfolding take_credentials
Works-still_held look h = h
Works-still_held mv h = ground arith

record AtFirst (names : ℕ → String) (first : Job) (t : System) : Type 0 where
  held_first : t.slot.held ≡ true → t.slot.job ≡ first
  job_ok : (i : ℕ) → JobOk first (names i) t.slot.job (t.request i)

module _ {names : ℕ → String} {first : Job} {t : System} (inv : Inv names t)
    (at : AtFirst names first t) where
  open inv use {worker_ok, request_ok, unique}
  open at use {held_first, job_ok}

  Works-AtFirst :
      {s : Slot} {w : Worker}
      → Works t.slot t.worker s w
      → AtFirst names first (record t { slot = s; worker = w })
  Works-AtFirst mv = record {
    held_first = λ h.
        let before = Works-still_held mv h in
        let (o, g) = is_away-held t.slot t.worker worker_ok before in
        Works-job mv o g ∙ held_first before;
    job_ok = λ i.
        JobOk-same first (names i) _ _ (t.request i)
          (λ taken.
            let (o, g) =
              is_away-writing (names i) t.slot t.worker (t.request i) worker_ok (request_ok i)
                taken in
            Works-job mv o g)
          (job_ok i);
  }

  not_writing :
      (i j : ℕ)
      → i ≢ j
      → (t.request j ≡ writing) ⊎ ((t.request j ≡ written) ⊎ (t.request j ≡ cancelled_it))
      → t.request i ≢ writing
  not_writing i j ne taken e = ne (unique i j (ground arith) (ground arith))

  Asks-AtFirst :
      (i : ℕ) {s : Slot} {r : Request}
      → Asks (names i) t.slot (t.request i) s r
      → AtFirst names first (record t { slot = s; request = set_at t.request i r })
  Asks-AtFirst i {s} {r} mv = record {
    held_first = λ h.
        let (before, calm) = Asks-still_held t.worker mv (request_ok i) h in
        Asks-job mv calm ∙ held_first before;
    job_ok = λ j.
        at_choice (JobOk first (names j) s.job) (ℕ_discrete i j)
          (λ e.
            subst (λ k. JobOk first (names k) s.job r) e
              (Asks-JobOk first (names i) mv held_first (job_ok i)))
          λ ne.
            JobOk-same first (names j) _ _ (t.request j)
              (λ taken. Asks-job mv (not_writing i j ne taken)) (job_ok j);
  }

Reached-AtFirst :
    {names : ℕ → String} {s : Slot} {t : System}
    → s.held ≡ true
    → s.job.status ≡ queued
    → Reached names s t
    → AtFirst names s.job t
Reached-AtFirst h q begin = record { held_first = λ _. refl; job_ok = λ i. tt }
Reached-AtFirst h q (then_step r (works mv)) =
    Works-AtFirst (Reached-Inv h q r) (Reached-AtFirst h q r) mv
Reached-AtFirst h q (then_step r (asks i mv)) =
    Asks-AtFirst (Reached-Inv h q r) (Reached-AtFirst h q r) i mv
Reached-AtFirst h q (then_step r (waits b)) =
    let at = Reached-AtFirst h q r in record { held_first = at.held_first; job_ok = at.job_ok }

-- However the threads interleave, from a queued job whose credentials are held: once a request has
-- cancelled the job, the whole job stays as that request wrote it, from the job that there was at first: cancelled
-- in its caller's name, with an end, its waiting hosts left, and all else as at first; and the worker
-- neither runs it nor gives it up.
pub Reached-IsCancelledBy :
    {names : ℕ → String} {s : Slot} {t : System}
    → s.held ≡ true
    → s.job.status ≡ queued
    → Reached names s t
    → (i : ℕ) → t.request i ≡ cancelled_it
    → IsCancelledBy s.job (names i) t.slot.job
      × (is_owner t.worker ≡ false)
      × (t.worker ≢ giving_up)
Reached-IsCancelledBy {names} {s} {t} h q r i e =
    let inv = Reached-Inv h q r in
    let (o, g) =
      is_away-writing (names i) t.slot t.worker (t.request i) inv.worker_ok (inv.request_ok i)
        (inr (inr e)) in
    (subst (JobOk s.job (names i) t.slot.job) e ((Reached-AtFirst h q r).job_ok i), o, g)
