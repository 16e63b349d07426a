-- ===== src/ScanJobs/Threads/Ownership.antt =====
-- Who may write a job down: whoever took its credentials.
use native.Mathlib.Decide.{ℕ_discrete}
use mathlib.Core.Logic.{ite}
use mathlib.Core.Path.{subst}
use cvedeck.Prelude.{ℕ, String, ◌≡◌, Bool, true, false, arith, inl, inr, ◌≢◌}
use cvedeck.ScanJobs.{queued, Slot}
use cvedeck.ScanJobs.Threads.{
  Worker, Works, Request, Asks, System, set_at, works, asks, waits, Reached, begin, then_step,
}
use cvedeck.ScanJobs.Threads.Owners.{
  is_owner, took_them, WorkerOk, RequestOk, Works-WorkerOk, Works-held, Works-RequestOk,
  Works-covered, Asks-WorkerOk, Asks-RequestOk, Asks-other, Asks-held, Asks-took, Asks-covered,
  took-held,
}

pub record Inv (names : ℕ → String) (t : System) : Type 0 where
  pub held_queued : t.slot.held ≡ true → t.slot.job.status ≡ queued
  pub worker_ok : WorkerOk t.slot t.worker
  pub request_ok : (i : ℕ) → RequestOk (names i) t.slot t.worker (t.request i)
  pub unique : (i j : ℕ) → took_them (t.request i) ≡ true → took_them (t.request j) ≡ true → i ≡ j
  pub covered :
      t.slot.held ≡ false
      → t.slot.job.status ≡ queued
      → is_owner t.worker ≡ false
      → (i : ℕ) × (took_them (t.request i) ≡ true)

pub at_choice :
    {A : Type 0} (P : A → Type 0) {Q : Type 0} (d : Dec Q) {a b : A}
    → (Q → P a)
    → (¬ Q → P b)
    → P (ite d a b)
at_choice P (yes q) f g = f q
at_choice P (no n) f g = g n

waits-WorkerOk :
    (b : Bool) (s : Slot) (w : Worker) → WorkerOk s w → WorkerOk (record s { waited_on = b }) w
waits-WorkerOk b s w h = ground arith

waits-RequestOk :
    (b : Bool) (by : String) (s : Slot) (w : Worker) (r : Request)
    → RequestOk by s w r
    → RequestOk by (record s { waited_on = b }) w r
waits-RequestOk b by s w r h = ground arith

module _ {names : ℕ → String} {t : System} (inv : Inv names t) where
  open inv use {held_queued, worker_ok, request_ok, unique, covered}

  Works-Inv :
      {s : Slot} {w : Worker}
      → Works t.slot t.worker s w
      → Inv names (record t { slot = s; worker = w })
  Works-Inv mv = record {
    held_queued = λ h. ground (arith, Works-held mv worker_ok h);
    worker_ok = Works-WorkerOk mv worker_ok held_queued;
    request_ok = λ i. Works-RequestOk (names i) (t.request i) mv worker_ok (request_ok i);
    unique = unique;
    covered = λ h q o. let back = Works-covered mv worker_ok h q o in covered back.0 back.1 back.2;
  }

  -- While the credentials are held, no request took them.
  not_held : (i : ℕ) → took_them (t.request i) ≡ true → t.slot.held ≡ false
  not_held i h = took-held (names i) t.slot t.worker (t.request i) (request_ok i) h

  one_taker : (i j : ℕ) → i ≢ j → took_them (t.request i) ≡ true → took_them (t.request j) ≡ false
  one_taker i j ne h = ground (arith, unique i j)

  module _ (i : ℕ) {s : Slot} {r : Request} (mv : Asks (names i) t.slot (t.request i) s r) where
    kept_requests : (j : ℕ) → RequestOk (names j) s t.worker (set_at t.request i r j)
    kept_requests j =
        at_choice (RequestOk (names j) s t.worker) (ℕ_discrete i j)
          (λ e.
            subst (λ k. RequestOk (names k) s t.worker r) e
              (Asks-RequestOk (names i) t.worker mv (request_ok i) worker_ok held_queued))
          λ ne.
            Asks-other (names i) (names j) t.worker (t.request j) mv (request_ok i) (request_ok j)
              (one_taker i j ne)

    -- After the move, another request that took them did so before.
    kept_unique :
        (j k : ℕ)
        → took_them (set_at t.request i r j) ≡ true
        → took_them (set_at t.request i r k) ≡ true
        → j ≡ k
    kept_unique j k a b =
        ground (arith, unique j k, unique i k, unique j i, Asks-took mv, not_held j, not_held k)

    kept_covered :
        s.held ≡ false
        → s.job.status ≡ queued
        → is_owner t.worker ≡ false
        → (j : ℕ) × (took_them (set_at t.request i r j) ≡ true)
    kept_covered h q o = elim (Asks-covered mv h q) [
      | inl new ↦ (i, ground arith)
      | inr (h', q', none_yet) ↦ let (j, old) = covered h' q' o in (j, ground arith)
    ]

    Asks-Inv : Inv names (record t { slot = s; request = set_at t.request i r })
    Asks-Inv = record {
      held_queued = λ h. ground (arith, Asks-held (names i) t.worker mv (request_ok i) h);
      worker_ok = Asks-WorkerOk (names i) t.worker mv (request_ok i) worker_ok;
      request_ok = kept_requests;
      unique = kept_unique;
      covered = kept_covered;
    }

  waits-Inv : (b : Bool) → Inv names (record t { slot = record t.slot { waited_on = b } })
  waits-Inv b = record {
    held_queued = held_queued;
    worker_ok = waits-WorkerOk b t.slot t.worker worker_ok;
    request_ok = λ i. waits-RequestOk b (names i) t.slot t.worker (t.request i) (request_ok i);
    unique = unique;
    covered = covered;
  }

pub Reached-Inv :
    {names : ℕ → String} {s : Slot} {t : System}
    → s.held ≡ true
    → s.job.status ≡ queued
    → Reached names s t
    → Inv names t
Reached-Inv h q begin = record {
  held_queued = λ _. q;
  worker_ok = tt;
  request_ok = λ i. tt;
  unique = λ i j a b. ground arith;
  covered = λ f. ground arith;
}
Reached-Inv h q (then_step r (works mv)) = Works-Inv (Reached-Inv h q r) mv
Reached-Inv h q (then_step r (asks i mv)) = Asks-Inv (Reached-Inv h q r) i mv
Reached-Inv h q (then_step r (waits b)) = waits-Inv (Reached-Inv h q r) b
