-- ===== src/Schedule/Starting.antt =====
-- The jobs that the schedule starts.
use cvedeck.Prelude.{
  ℕ, zero, suc, ◌+◌, ◌≤◌, ◌≡◌, refl, String, false, none, List, [], ◌∷◌, ◌++◌, arith, take, drop,
  any, if◌then◌else◌,
}
use cvedeck.ScanJobs.{Slot}
use cvedeck.ScanJobs.Store.{max_jobs, active_slots, prune, create_job}
use cvedeck.Schedule.{Site, is_scheduled, start, resolved, unresolved}

-- The active jobs of the schedule.
unfoldable pub count_scheduled : List Slot → ℕ
count_scheduled [] = 0
count_scheduled (s ∷ jobs) =
    if is_scheduled s then suc (count_scheduled jobs) else count_scheduled jobs

count-append :
    (xs ys : List Slot) → count_scheduled (xs ++ ys) ≡ count_scheduled xs + count_scheduled ys
unfolding count_scheduled
count-append [] ys = omega arith
count-append (s ∷ xs) ys = ground (arith, count-append xs ys)

count-active_slots : (xs : List Slot) → count_scheduled (active_slots xs) ≤ count_scheduled xs
unfolding count_scheduled active_slots
count-active_slots [] = omega arith
count-active_slots (s ∷ xs) = ground (arith, count-active_slots xs)

count_parts :
    (n : ℕ) (xs : List Slot)
    → count_scheduled (take n xs) + count_scheduled (drop n xs) ≡ count_scheduled xs
unfolding count_scheduled
count_parts zero xs = omega arith
count_parts (suc n) [] = omega arith
count_parts (suc n) (s ∷ xs) = ground (arith, count_parts n xs)

count-prune : (xs : List Slot) → count_scheduled (prune xs) ≤ count_scheduled xs
unfolding prune
count-prune xs = omega (
  arith,
  count-append (take max_jobs xs) (active_slots (drop max_jobs xs)),
  count-active_slots (drop max_jobs xs),
  count_parts max_jobs xs,
)

count_none : (xs : List Slot) → any is_scheduled xs ≡ false → count_scheduled xs ≡ 0
unfolding count_scheduled
count_none [] h = refl
count_none (s ∷ xs) h = ground (arith, count_none xs)

count_one : (s : Slot) (xs : List Slot) → count_scheduled (s ∷ xs) ≤ suc (count_scheduled xs)
unfolding count_scheduled
count_one s xs = ground arith

count-create_job :
    (utc : ℕ) (id by : String) (targets : List String) (unresolved : List (String × String))
    (keys : List String) (jobs : List Slot)
    → any is_scheduled jobs ≡ false
    → count_scheduled (create_job utc id by targets unresolved keys jobs) ≤ 1
unfolding create_job
count-create_job utc id by targets unresolved keys jobs h =
    omega (arith, count-prune _, count_one _ jobs, count_none jobs h)

-- The schedule never has two scans of its own under way: if it has one active job at most before a
-- start, it has one at most after it. A start that makes no job leaves the jobs as they are.
pub start_le_one :
    (site : Site) (utc : ℕ) (id : String) (jobs : List Slot)
    → count_scheduled jobs ≤ 1
    → (count_scheduled (start site utc id jobs).0 ≤ 1)
      × ((start site utc id jobs).2 ≡ none → (start site utc id jobs).0 ≡ jobs)
unfolding start
start_le_one site utc id jobs h = (
  ground (
    arith,
    h,
    count-create_job utc id "schedule" (resolved site.resolve site.hosts)
        (unresolved site.resolve site.hosts) site.hosts jobs,
  ),
  ground arith,
)
