-- ===== src/ScanJobs/Threads/Safety.antt =====
-- What no interleaving of `run_job` and `cancel_job` can bring about.
use mathlib.Core.Path.{subst}
use cvedeck.Prelude.{ℕ, String, ◌≡◌, Bool, true, false, List, ◌∷◌, is_some, arith, ◌⊎◌}
use cvedeck.ScanJobs.{queued, Scan, Slot}
use cvedeck.ScanJobs.Threads.{
  Worker, giving_up, scanning, at_host, Works, look, next_host, Request, unwritten, left_to_worker,
  broke_off, System, Step, works, asks, waits, Reached,
}
use cvedeck.ScanJobs.Threads.Owners.{is_owner, took_them, RequestOk}
use cvedeck.ScanJobs.Threads.Ownership.{Reached-Inv}

abbrev pub is_at_host : Worker → Bool
is_at_host (at_host m ms scans) = true
is_at_host _ = false

-- With a request to cancel in the books, the engine's loop goes to no further host.
Works-is_at_host :
    {s s' : Slot} {w w' : Worker} (m : String) (ms : List String) (scans : List Scan)
    → Works s w s' w'
    → w ≡ scanning (m ∷ ms) scans
    → is_some s.cancel_by ≡ true
    → is_at_host w' ≡ false
Works-is_at_host m ms scans look e h = ground arith
Works-is_at_host m ms scans (next_host g) e h = ground arith
Works-is_at_host m ms scans mv e h = ground arith

taker_gone :
    (by : String) (s : Slot) (w : Worker) (r : Request)
    → RequestOk by s w r
    → took_them r ≡ true
    → is_owner w ≡ false
taker_gone by s w r req h = ground arith

-- A request that took the credentials of a job that is still queued is one that has not yet written, or whose commit raised.
taker_of_queued :
    (by : String) (s : Slot) (r : Request)
    → RequestOk by s giving_up r
    → took_them r ≡ true
    → s.job.status ≡ queued
    → (r ≡ unwritten) ⊎ (r ≡ broke_off)
taker_of_queued by s r req h q = ground arith

module _ {names : ℕ → String} {s : Slot} {t : System} (held : s.held ≡ true)
    (q : s.job.status ≡ queued) (r : Reached names s t) where
  open (Reached-Inv held q r) use {worker_ok, request_ok, unique, covered}

  -- However the threads interleave, from a queued job whose credentials are held: at most one request
  -- takes the credentials, and while one has them the worker does not own the job.
  pub Reached-one_owner :
      (i j : ℕ)
      → took_them (t.request i) ≡ true
      → took_them (t.request j) ≡ true
      → (i ≡ j) × (is_owner t.worker ≡ false)
  Reached-one_owner i j a b =
      (unique i j a b, taker_gone (names i) t.slot t.worker (t.request i) (request_ok i) a)

  -- However the threads interleave, from a queued job whose credentials are held: the worker writes that
  -- the credentials are no longer held only where a request took them and could not write the job down.
  pub Reached-giving_up :
      t.worker ≡ giving_up → (i : ℕ) × ((t.request i ≡ unwritten) ⊎ (t.request i ≡ broke_off))
  Reached-giving_up e =
      let (i, h) = covered (ground (arith, worker_ok)) (ground (arith, worker_ok)) (ground arith) in
      (
        i,
        taker_of_queued (names i) t.slot (t.request i)
            (subst (λ w. RequestOk (names i) t.slot w (t.request i)) e (request_ok i)) h
            (ground (arith, worker_ok)),
      )

  -- However the threads interleave, from a queued job whose credentials are held: where a request to cancel is left to the worker, which has hosts before it, its next step goes to none of them.
  pub Reached-is_at_host :
      (i : ℕ) (m : String) (ms : List String) (scans : List Scan) {u : System}
      → t.request i ≡ left_to_worker
      → t.worker ≡ scanning (m ∷ ms) scans
      → Step names t u
      → is_at_host u.worker ≡ false
  Reached-is_at_host i m ms scans e w (works mv) =
      Works-is_at_host m ms scans mv w (ground (arith, request_ok i))
  Reached-is_at_host i m ms scans e w (asks j mv) = ground arith
  Reached-is_at_host i m ms scans e w (waits b) = ground arith
