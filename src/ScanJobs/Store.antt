-- ===== src/ScanJobs/Store.antt =====
-- The collection of jobs in scan_jobs.py: `create_job`, `_prune` and `interrupt_unfinished`. Slots are
-- listed newest first, as the queries order them.
use text.Mathlib.Text.{◌==◌ as str_eq}
use cvedeck.Prelude.{
  ℕ, String, Bool, true, false, none, some, List, [], ◌∷◌, ◌++◌, map, any, take, drop,
}
use cvedeck.ScanJobs.{
  auth_failure, queued, finished, waiting, done, Row, restarted, Job, Slot, is_active, interrupt,
  diff_counts,
}

-- `MAX_JOBS`
abbrev pub max_jobs : ℕ
max_jobs = 100

-- A target whose credentials could not be worked out, with the reason.
unfoldable pub unresolved_row : String × String → Row
unfolding diff_counts
unresolved_row (machine, message) = record {
  machine_id = machine;
  server_key = false;
  state = done;
  outcome = some (record {
    status = auth_failure;
    finding_count = 0;
    sources_ok = false;
    unavailable_sources = [];
    message = some message;
    counts = record { new_count = none; resolved_count = none; baseline = false };
  });
}

unfoldable pub target_row : List String → String → Row
target_row server_keys machine = record {
  machine_id = machine;
  server_key = any (λ k. str_eq k machine) server_keys;
  state = waiting;
  outcome = none;
}

abbrev pub has_any {ℓ} : {A : Type ℓ} → List A → Bool
has_any [] = false
has_any (x ∷ xs) = true

unfoldable pub new_job :
    ℕ → String → String → List String → List (String × String) → List String → Job
new_job now id by targets unresolved server_keys =
    let rows = map unresolved_row unresolved ++ map (target_row server_keys) targets in
    elim (has_any targets) [
      | true ↦ record {
        id = id;
        status = queued;
        requested_by = by;
        started_at = none;
        finished_at = none;
        error_detail = none;
        targets = rows;
      }
      | false ↦ record {
        id = id;
        status = finished;
        requested_by = by;
        started_at = some now;
        finished_at = some now;
        error_detail = none;
        targets = rows;
      }
    ]

unfoldable pub active_slots : List Slot → List Slot
active_slots [] = []
active_slots (s ∷ ss) =
    let more = active_slots ss in elim (is_active s.job.status) [ true ↦ s ∷ more | false ↦ more ]

-- `_prune`: the newest jobs stay, and of the others the active ones
unfoldable pub prune : List Slot → List Slot
prune slots = take max_jobs slots ++ active_slots (drop max_jobs slots)

-- `create_job`: the credentials are held from here on, where there is a target.
unfoldable pub create_job :
    ℕ → String → String → List String → List (String × String) → List String → List Slot → List Slot
create_job now id by targets unresolved server_keys slots = prune (
    record {
      job = new_job now id by targets unresolved server_keys;
      held = has_any targets;
      cancel_by = none;
      waited_on = false;
    }
    ∷ slots)

unfoldable pub interrupt_slot : ℕ → Slot → Slot
interrupt_slot now s = record s {
  job = elim (is_active s.job.status) [ true ↦ interrupt now restarted s.job | false ↦ s.job ];
  held = false;
  cancel_by = none;
  waited_on = false;
}

-- `interrupt_unfinished`, at startup
unfoldable pub interrupt_unfinished : ℕ → List Slot → List Slot
interrupt_unfinished now = map (interrupt_slot now)
