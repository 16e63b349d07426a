-- ===== src/ScanJobs/Hosts.antt =====
-- The engine's loop over the hosts of a job: each scan is written to its own row.
use text.Mathlib.TextPositions.{eq_refl}
use cvedeck.Prelude.{
  ℕ, zero, suc, String, ◌≡◌, refl, sym, ap, ◌∙◌, true, false, Option, none, some, List, [], ◌∷◌,
  arith, Bool-cases, inl, inr, if◌then◌else◌,
}
use cvedeck.ScanJobs.{Scan, Row}
use cvedeck.ScanJobs.Run.{
  is_done, record_outcome, update_row, mark_scanning, Event, scanned, raised, Round, Ending,
  returned, failed, Progress, scan_hosts, machines, record_all, all_done, on_round, prepend_scan,
}

-- The rows after every pending host is scanned, `scans` in turn; done rows stay.
unfoldable pub all_recorded : (ℕ → Scan) → List Row → List Row
all_recorded scans [] = []
all_recorded scans (row ∷ rows) =
    let skip = row ∷ all_recorded scans rows in
    let next = record_outcome (scans zero) row ∷ all_recorded (λ i. scans (suc i)) rows in
    if is_done row.state then skip else next

-- Marking a row before recording it leaves no trace.
record_marked :
    (scan : Scan) (row : Row) → record_outcome scan (mark_scanning row) ≡ record_outcome scan row
unfolding record_outcome
record_marked scan row = refl

update_done :
    (m : String) (f : Row → Row) (row : Row) (rows : List Row)
    → is_done row.state ≡ true
    → update_row m f (row ∷ rows) ≡ row ∷ update_row m f rows
unfolding update_row
update_done m f row rows h = ground arith

update_head :
    (f : Row → Row) (row : Row) (rows : List Row)
    → is_done row.state ≡ false
    → update_row row.machine_id f (row ∷ rows) ≡ f row ∷ rows
unfolding update_row
update_head f row rows h = rw (eq_refl row.machine_id, h)

machines_done :
    (row : Row) (rows : List Row) → is_done row.state ≡ true → machines (row ∷ rows) ≡ machines rows
unfolding machines
machines_done row rows h = rw h

machines_head :
    (row : Row) (rows : List Row)
    → is_done row.state ≡ false
    → machines (row ∷ rows) ≡ row.machine_id ∷ machines rows
unfolding machines
machines_head row rows h = rw h

-- The two callbacks at a host.
abbrev at_host : String → Scan → List Row → List Row
at_host m scan rows = update_row m (record_outcome scan) (update_row m mark_scanning rows)

at_host_done :
    (m : String) (scan : Scan) (row : Row) (rows : List Row)
    → is_done row.state ≡ true
    → at_host m scan (row ∷ rows) ≡ row ∷ at_host m scan rows
at_host_done m scan row rows h =
    rw (update_done m mark_scanning row rows h) (update_done m (record_outcome scan) row _ h)

at_host_head :
    (scan : Scan) (row : Row) (rows : List Row)
    → is_done row.state ≡ false
    → at_host row.machine_id scan (row ∷ rows) ≡ record_outcome scan row ∷ rows
at_host_head scan row rows h =
    ap (update_row row.machine_id (record_outcome scan)) (update_head mark_scanning row rows h)
    ∙ update_head (record_outcome scan) (mark_scanning row) rows refl
    ∙ ap (λ r. r ∷ rows) (record_marked scan row)

-- A round in which nobody cancels and the scan has an outcome.
abbrev pub calm : (ℕ → Scan) → ℕ → Round
calm scans i = record { arrives = none; event = scanned (scans i) }

-- The loop on rows behind a done row does not see it.
scan_hosts_done :
    (ms : List String) (scans : ℕ → Scan) (row : Row) (rows : List Row)
    → is_done row.state ≡ true
    → (scan_hosts ms (calm scans) (row ∷ rows) none).rows
      ≡ row ∷ (scan_hosts ms (calm scans) rows none).rows
unfolding scan_hosts
scan_hosts_done [] scans row rows h = refl
scan_hosts_done (m ∷ ms) scans row rows h =
    ap (λ rs. (scan_hosts ms (calm (λ i. scans (suc i))) rs none).rows)
      (at_host_done m (scans zero) row rows h)
    ∙ scan_hosts_done ms (λ i. scans (suc i)) row (at_host m (scans zero) rows) h

scan_step :
    (m : String) (ms : List String) (scans : ℕ → Scan) (rows : List Row)
    → (scan_hosts (m ∷ ms) (calm scans) rows none).rows
      ≡ (scan_hosts ms (calm (λ i. scans (suc i))) (at_host m (scans zero) rows) none).rows
unfolding scan_hosts
scan_step m ms scans rows = refl

-- With nobody cancelling and no exception each pending host's scan lands in its own row, also
-- where a machine is listed twice.
pub scan_hosts-all_recorded :
    (scans : ℕ → Scan) (rows : List Row)
    → (scan_hosts (machines rows) (calm scans) rows none).rows ≡ all_recorded scans rows
unfolding all_recorded
scan_hosts-all_recorded scans [] = unfold machines scan_hosts in refl
scan_hosts-all_recorded scans (row ∷ rows) = elim (Bool-cases (is_done row.state)) [
  | inl t ↦
      rw (t, machines_done row rows t)
        (scan_hosts_done (machines rows) scans row rows t
          ∙ ap (λ rs. row ∷ rs) (scan_hosts-all_recorded scans rows))
  | inr f ↦
      let later = λ (i : ℕ). scans (suc i) in
      rw (f, machines_head row rows f)
        (scan_step row.machine_id (machines rows) scans (row ∷ rows)
          ∙ ap (λ rs. (scan_hosts (machines rows) (calm later) rs none).rows)
              (at_host_head (scans zero) row rows f)
          ∙ scan_hosts_done (machines rows) later (record_outcome (scans zero) row) rows
              (unfold record_outcome in refl)
          ∙ ap (λ rs. record_outcome (scans zero) row ∷ rs) (scan_hosts-all_recorded later rows))
]

pub scan_hosts-calm :
    (ms : List String) (scans : ℕ → Scan) (rows : List Row)
    → ((scan_hosts ms (calm scans) rows none).cancel_by ≡ none)
      × ((l : List Scan) × ((scan_hosts ms (calm scans) rows none).ending ≡ returned l))
unfolding scan_hosts
scan_hosts-calm [] scans rows = (refl, ([], refl))
scan_hosts-calm (m ∷ ms) scans rows =
    let (quiet, (l, e)) = scan_hosts-calm ms (λ i. scans (suc i)) (at_host m (scans zero) rows) in
    (quiet, (scans zero ∷ l, ap (prepend_scan (scans zero)) e))

pub all_done-all_recorded :
    (scans : ℕ → Scan) (rows : List Row) → all_done (all_recorded scans rows) ≡ true
unfolding all_recorded all_done record_outcome
all_done-all_recorded scans [] = refl
all_done-all_recorded scans (row ∷ rows) = elim (Bool-cases (is_done row.state)) [
  | inl t ↦ rw t (ground (arith, all_done-all_recorded scans rows))
  | inr f ↦ rw f (all_done-all_recorded (λ i. scans (suc i)) rows)
]

update_row_done :
    (m : String) (f : Row → Row) (rows : List Row)
    → all_done rows ≡ true
    → update_row m f rows ≡ rows
unfolding update_row all_done
update_row_done m f [] h = refl
update_row_done m f (row ∷ rows) h = ground (arith, update_row_done m f rows)

-- The loop behind the scan changes nothing once every row is done.
pub record_all_done :
    (l : List Scan) (rows : List Row) → all_done rows ≡ true → record_all l rows ≡ rows
unfolding record_all
record_all_done [] rows h = refl
record_all_done (scan ∷ l) rows h =
    ap (record_all l) (update_row_done scan.machine_id (record_outcome scan) rows h)
    ∙ record_all_done l rows h

machines_nil : machines [] ≡ []
unfolding machines
machines_nil = refl

machines-at_host :
    (m : String) (ms : List String) (scan : Scan) (rows : List Row)
    → machines rows ≡ m ∷ ms
    → machines (at_host m scan rows) ≡ ms
machines-at_host m ms scan [] e = cc machines_nil
machines-at_host m ms scan (row ∷ rows) e = elim (Bool-cases (is_done row.state)) [
  | inl t ↦
      rw (at_host_done m scan row rows t, machines_done row (at_host m scan rows) t)
        (machines-at_host m ms scan rows (sym (machines_done row rows t) ∙ e))
  | inr f ↦
      let cons : row.machine_id ∷ machines rows ≡ m ∷ ms = sym (machines_head row rows f) ∙ e in
      let first : row.machine_id ≡ m = cc in
      let others : machines rows ≡ ms = cc in
      rw
        (
          ← first,
          at_host_head scan row rows f,
          machines_done (record_outcome scan row) rows (unfold record_outcome in refl),
        )
        others
]

round_finishes :
    (arrived : Option String) (event : Event) (m : String) (rows : List Row)
    (next : Scan → Progress)
    → ((scan : Scan) (l : List Scan)
        → (next scan).cancel_by ≡ none
        → (next scan).ending ≡ returned l
        → machines (next scan).rows ≡ [])
    → (l : List Scan) → (on_round arrived event m rows next).cancel_by ≡ none
    → (on_round arrived event m rows next).ending ≡ returned l
    → machines (on_round arrived event m rows next).rows ≡ []
round_finishes (some who) event m rows next ih l q r = cc
round_finishes none (raised text) m rows next ih l q r = cc
round_finishes none (scanned scan) m rows next ih l q r = go (next scan).ending refl
  where
    go : (ending : Ending) → (next scan).ending ≡ ending → machines (next scan).rows ≡ []
    go (returned l') e = ih scan l' q e
    go (failed text) e =
        let broken : failed text ≡ returned l = ap (prepend_scan scan) (sym e) ∙ r in cc

-- If the loop is neither stopped nor broken off, no host is left over.
pub scan_hosts_finishes :
    (ms : List String) (rounds : ℕ → Round) (rows : List Row) (by : Option String)
    → machines rows ≡ ms
    → (l : List Scan) → (scan_hosts ms rounds rows by).cancel_by ≡ none
    → (scan_hosts ms rounds rows by).ending ≡ returned l
    → machines (scan_hosts ms rounds rows by).rows ≡ []
unfolding scan_hosts
scan_hosts_finishes [] rounds rows by e l q r = e
scan_hosts_finishes (m ∷ ms) rounds rows by e l q r =
    round_finishes _ (rounds zero).event m rows _
      (λ scan.
        scan_hosts_finishes ms (λ i. rounds (suc i)) (at_host m scan rows) none
          (machines-at_host m ms scan rows e))
      l q r

pub all_done-machines : (rows : List Row) → machines rows ≡ [] → all_done rows ≡ true
unfolding machines all_done
all_done-machines [] e = refl
all_done-machines (row ∷ rows) e = ground (arith, all_done-machines rows)
