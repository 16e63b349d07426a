-- ===== src/Findings/History.antt =====
-- The scan history over any number of scans: when a baseline is given, what is kept, how much.
use cvedeck.Prelude.{
  length-append, ℕ, suc, zero, ◌+◌, ◌-◌, ◌≡◌, refl, sym, ap, ◌∙◌, Bool, true, false, not, ◌||◌,
  Option, none, some, List, [], ◌∷◌, ◌++◌, map, is_some, if◌then◌else◌, length, take, drop, ◌≤◌,
  arith,
}
use cvedeck.Prelude.Text.{Text, strip}
use cvedeck.Engine.{ErrorKind, status_of}
use cvedeck.Findings.{Input, FindingDiff, save_findings}
use cvedeck.Findings.Runs.{
  cut_at, truncate, ScanRun, is_success, has_successful_run, latest_success, insert_run,
  max_with_one, as_list, prune_scan_runs, new_run, record_scan_run, Attempt, found, failed_with,
  State, attempt, history,
}

length-take : {A : Type 0} (n : ℕ) (xs : List A) → length (take n xs) ≤ n
length-take zero xs = omega arith
length-take (suc n) [] = omega arith
length-take (suc n) (x ∷ xs) = omega (arith, length-take n xs)

-- A failure message that is kept has at least one character and at most the limit.
pub truncate-length :
    (text : Option Text) (limit : ℕ) (kept : Text)
    → 1 ≤ limit
    → truncate text limit ≡ some kept
    → (1 ≤ length kept) × (length kept ≤ limit)
unfolding truncate
truncate-length none limit kept h e = ground arith
truncate-length (some text) limit kept h e = cut_bounds (strip text) limit kept h e
  where
    cut_bounds :
        (s : Text) (limit : ℕ) (kept : Text)
        → 1 ≤ limit
        → cut_at limit s ≡ some kept
        → (1 ≤ length kept) × (length kept ≤ limit)
    cut_bounds [] limit kept h e = ground arith
    cut_bounds (c ∷ s) limit kept h e = ground (
      arith,
      length-append (take (limit - 1) (c ∷ s)) (8230 ∷ []),
      length-take (limit - 1) (c ∷ s),
    )

module _ {S : Type 0} where
  has_run-append :
      (xs ys : List (ScanRun S))
      → has_successful_run (xs ++ ys) ≡ (has_successful_run xs || has_successful_run ys)
  unfolding has_successful_run
  has_run-append [] ys = refl
  has_run-append (x ∷ xs) ys = ground (arith, has_run-append xs ys)

  abbrev or_else : Option (ScanRun S) → Option (ScanRun S) → Option (ScanRun S)
  or_else none o = o
  or_else (some run) o = some run

  latest-append :
      (xs ys : List (ScanRun S))
      → latest_success (xs ++ ys) ≡ or_else (latest_success xs) (latest_success ys)
  unfolding latest_success
  latest-append [] ys = refl
  latest-append (x ∷ xs) ys = ground (arith, latest-append xs ys)

  has_run-latest :
      (runs : List (ScanRun S)) → has_successful_run runs ≡ is_some (latest_success runs)
  unfolding has_successful_run latest_success
  has_run-latest [] = refl
  has_run-latest (run ∷ runs) = ground (arith, has_run-latest runs)

  latest_again :
      (runs : List (ScanRun S))
      → latest_success (as_list (latest_success runs)) ≡ latest_success runs
  unfolding latest_success
  latest_again [] = refl
  latest_again (run ∷ runs) = ground (arith, latest_again runs)

  take-drop : (n : ℕ) (runs : List (ScanRun S)) → take n runs ++ drop n runs ≡ runs
  take-drop zero runs = refl
  take-drop (suc n) [] = refl
  take-drop (suc n) (run ∷ runs) = ap (λ r. run ∷ r) (take-drop n runs)

  as_list-length : (o : Option (ScanRun S)) → length (as_list o) ≤ 1
  as_list-length o = ground arith

  abbrev spared : List (ScanRun S) → List (ScanRun S) → List (ScanRun S)
  spared first rest = if has_successful_run first then [] else as_list (latest_success rest)

  latest_spared :
      (first rest : List (ScanRun S))
      → latest_success (first ++ spared first rest) ≡ latest_success (first ++ rest)
  unfolding latest_success
  latest_spared first rest =
      rw (latest-append first (spared first rest), latest-append first rest)
        (ground (arith, has_run-latest first, latest_again rest))

  -- Pruning keeps a machine's latest successful run, whatever its age, and at most one run beyond the number to keep, which is taken as one where it is none.
  pub prune-latest_success :
      (keep : ℕ) (runs : List (ScanRun S))
      → (latest_success (prune_scan_runs keep runs) ≡ latest_success runs)
        × (length (prune_scan_runs keep runs) ≤ max_with_one keep + 1)
  unfolding prune_scan_runs
  prune-latest_success keep runs =
      let n = max_with_one keep in
      let first = take n runs in
      let rest = drop n runs in
      (
        latest_spared first rest ∙ ap latest_success (take-drop n runs),
        ground (
          arith,
          length-append first (spared first rest),
          length-take n runs,
          as_list-length (latest_success rest),
        ),
      )

  insert-has_run :
      (run : ScanRun S) (runs : List (ScanRun S))
      → has_successful_run (insert_run run runs)
        ≡ (is_success run.status || has_successful_run runs)
  unfolding has_successful_run insert_run
  insert-has_run run [] = ground arith
  insert-has_run run (other ∷ runs) = ground (arith, insert-has_run run runs)

  record-has_run :
      (keep : ℕ) (run : ScanRun S) (runs : List (ScanRun S))
      → has_successful_run (record_scan_run keep run runs)
        ≡ (is_success run.status || has_successful_run runs)
  unfolding record_scan_run
  record-has_run keep run runs =
      has_run-latest (prune_scan_runs keep (insert_run run runs))
      ∙ ap is_some (prune-latest_success keep (insert_run run runs)).0
      ∙ sym (has_run-latest (insert_run run runs))
      ∙ insert-has_run run runs

or_true : (b : Bool) → (b || true) ≡ true
or_true b = ground arith

no_success :
    (S : Type 0) (now : ℕ) (kind : ErrorKind) (detail : Option Text)
    → is_success (new_run {S = S} (status_of kind) true now none detail 0).status ≡ false
unfolding new_run
no_success S now kind detail = ground arith

module _ {S : Type 0} where
  -- The first success is a baseline, and no later one: `had` says that there was one before.
  unfoldable pub first_is_baseline : Bool → List (ℕ × Attempt S) → List Bool
  first_is_baseline had [] = []
  first_is_baseline had ((now, found findings partial) ∷ rest) =
      not had ∷ first_is_baseline true rest
  first_is_baseline had ((now, failed_with kind detail) ∷ rest) = first_is_baseline had rest

  unfoldable pub any_found : List (ℕ × Attempt S) → Bool
  any_found [] = false
  any_found ((now, found findings partial) ∷ rest) = true
  any_found ((now, failed_with kind detail) ∷ rest) = any_found rest

  abbrev pub baselines : List (FindingDiff S) → List Bool
  baselines = map (λ diff. diff.baseline)

  module _ (machine : Text) (keep : ℕ) where
    found-has_run :
        (now : ℕ) (findings : List (Input S)) (partial : Bool) (s : State S)
        → has_successful_run (attempt machine keep now (found findings partial) s).0.runs ≡ true
    unfolding attempt new_run
    found-has_run now findings partial s = record-has_run keep _ s.runs

    failed-has_run :
        (now : ℕ) (kind : ErrorKind) (detail : Option Text) (s : State S)
        → has_successful_run (attempt machine keep now (failed_with kind detail) s).0.runs
          ≡ has_successful_run s.runs
    unfolding attempt new_run
    failed-has_run now kind detail s =
        record-has_run keep _ s.runs
        ∙ ap (λ b. b || has_successful_run s.runs) (no_success S now kind detail)

    -- Over any history of attempts on a machine, successful or failed, whatever its times: the first successful scan is a baseline exactly where the machine had no successful run before, and none after it is, however many runs are pruned in between; and the machine has a successful run at the end where it had one before or had one meanwhile.
    pub history-baseline :
        (attempts : List (ℕ × Attempt S)) (s : State S)
        → let after = history machine keep attempts s in
          (baselines after.1 ≡ first_is_baseline (has_successful_run s.runs) attempts)
          × (has_successful_run after.0.runs ≡ (any_found attempts || has_successful_run s.runs))
    unfolding history first_is_baseline any_found attempt save_findings
    history-baseline [] s = (refl, refl)
    history-baseline ((now, found findings partial) ∷ rest) s =
        let next = (attempt machine keep now (found findings partial) s).0 in
        let later = history-baseline rest next in
        let had = found-has_run now findings partial s in
        (
          ap (λ r. not (has_successful_run s.runs) ∷ r)
              (later.0 ∙ ap (λ b. first_is_baseline b rest) had),
          later.1 ∙ ap (λ b. any_found rest || b) had ∙ or_true (any_found rest),
        )
    history-baseline ((now, failed_with kind detail) ∷ rest) s =
        let next = (attempt machine keep now (failed_with kind detail) s).0 in
        let later = history-baseline rest next in
        let had = failed-has_run now kind detail s in
        (
          later.0 ∙ ap (λ b. first_is_baseline b rest) had,
          later.1 ∙ ap (λ b. any_found rest || b) had,
        )
