-- ===== src/Schedule/Once.antt =====
-- When the ticker runs a slot.
use cvedeck.Prelude.{
  any, length, ◌⊎◌, ℕ, ◌+◌, ◌-◌, ◌%◌, ◌≤◌, ◌<◌, ◌≡◌, refl, sym, ◌∙◌, String, true, false, not, ◌||◌,
  Option, none, some, List, arith,
}
use cvedeck.Prelude.Text.{Text, text_eq}
use cvedeck.ScanJobs.{Slot}
use cvedeck.ScanJobs.Store.{create_job}
use cvedeck.Schedule.{
  Note, demo_mode, no_key, still_running, no_hosts, started, resolved, unresolved, is_scheduled,
  has_host, day, parse_time_of_day, or_before, latest_slot, is_past, next_due, Schedule, later_of,
  in_local, since_of, update, Site, start, Ticked, record_run, tick,
}
use cvedeck.Schedule.Slots.{parse_time_of_day-lt, latest_slot-or_before}

-- The slot is run or from before the arming.
is_past-run :
    (run armed : Option ℕ) (slot since : ℕ)
    → run ≡ some since
    → slot ≤ since
    → is_past (later_of run armed) slot ≡ true
is_past-run run armed slot since e l = ground arith

is_past-armed :
    (run armed : Option ℕ) (slot since : ℕ)
    → armed ≡ some since
    → slot ≤ since
    → is_past (later_of run armed) slot ≡ true
is_past-armed run armed slot since e l = ground arith

or_before-le_within : (now at slot : ℕ) → at < now + day → or_before now at ≡ some slot → slot ≤ now
or_before-le_within now at slot l e = ground arith

or_before-le :
    (now time slot : ℕ)
    → time < day
    → or_before now (now - now % day + time) ≡ some slot
    → slot ≤ now
or_before-le now time slot l e =
    or_before-le_within now (now - now % day + time) slot (omega (arith, l)) e

latest_slot-none :
    (now : ℕ) (text : Text) → parse_time_of_day text ≡ none → latest_slot now text ≡ none
unfolding latest_slot
latest_slot-none now text e = rw (latest_slot, e) refl

latest_slot-le : (now : ℕ) (text : Text) (slot : ℕ) → latest_slot now text ≡ some slot → slot ≤ now
latest_slot-le now text slot e = go (parse_time_of_day text) refl
  where
    go : (parsed : Option ℕ) → parse_time_of_day text ≡ parsed → slot ≤ now
    go none p = cc (latest_slot-none now text p)
    go (some time) p =
        or_before-le now time slot (parse_time_of_day-lt text time p)
          (sym (latest_slot-or_before now text time p) ∙ e)

module _ (local : ℕ → ℕ) (site : Site) (now utc : ℕ) (id : String) (row : Schedule)
    (jobs : List Slot) (slot : ℕ) where
  -- A slot that is past is left alone.
  pub tick_silent :
      latest_slot now row.time_of_day ≡ some slot
      → is_past (since_of local row) slot ≡ true
      → tick local site now utc id row jobs ≡ some (record { row = row; jobs = jobs; note = none })
  unfolding tick next_due
  tick_silent e p = ground arith

  tick_fires :
      row.enabled ≡ true
      → latest_slot now row.time_of_day ≡ some slot
      → is_past (since_of local row) slot ≡ false
      → tick local site now utc id row jobs ≡ some (record_run utc row (start site utc id jobs))
  unfolding tick next_due
  tick_fires on e p = ground arith

-- The schedule may start a job.
abbrev pub IsReady : Site → List Slot → Type 0
IsReady site jobs =
    (site.demo ≡ false)
    × (site.has_key ≡ true)
    × (any is_scheduled jobs ≡ false)
    × (has_host site.hosts ≡ true)

-- The reason that a note gives
abbrev pub IsReason : Site → List Slot → Note → Type 0
IsReason site jobs demo_mode = site.demo ≡ true
IsReason site jobs no_key = site.has_key ≡ false
IsReason site jobs still_running = any is_scheduled jobs ≡ true
IsReason site jobs no_hosts = has_host site.hosts ≡ false
IsReason site jobs (started n) = IsReady site jobs × (n ≡ length site.hosts)

-- A job is created, for the hosts whose credentials can be worked out with the others in it as unresolved; or no job is, and those there are stay as they are.
abbrev pub IsStart : Site → ℕ → String → Option String → List Slot → Ticked → Type 0
IsStart site utc id last jobs t =
    (IsReady site jobs
      × (t.jobs
          ≡ create_job utc id "schedule" (resolved site.resolve site.hosts)
              (unresolved site.resolve site.hosts) site.hosts jobs)
      × (t.row.last_job_id ≡ some id))
    ⊎ ((¬ IsReady site jobs) × (t.jobs ≡ jobs) × (t.row.last_job_id ≡ last))

start-IsStart :
    (site : Site) (utc : ℕ) (id : String) (row : Schedule) (jobs : List Slot)
    → IsStart site utc id row.last_job_id jobs (record_run utc row (start site utc id jobs))
unfolding start
start-IsStart site utc id row jobs = ground arith

start-IsReason :
    (site : Site) (utc : ℕ) (id : String) (jobs : List Slot)
    → IsReason site jobs (start site utc id jobs).1
unfolding start
start-IsReason site utc id jobs = ground arith

-- The ticker acts on a due slot, and once. Where the schedule is on and the latest slot is not past, the
-- tick does not fail. It creates the schedule's job for the hosts if it is no demo, the server has its key, no job
-- of the schedule is active and there are hosts, and else leaves the jobs as they are. Either way its note
-- gives the reason, the row has it, and the time and the last job are written down; and as long as that slot
-- is still the latest, whatever the time, the site and the jobs then are, every later tick does
-- nothing. The condition on `local` is that the server's clock, asked for the UTC time written down,
-- is not behind the time at which the tick looked.
pub tick_once :
    (local : ℕ → ℕ) (site : Site) (now utc : ℕ) (id : String) (row : Schedule) (jobs : List Slot)
    (slot : ℕ)
    → row.enabled ≡ true
    → latest_slot now row.time_of_day ≡ some slot
    → is_past (since_of local row) slot ≡ false
    → now ≤ local utc
    → (t : Ticked) × (note : Note) × (tick local site now utc id row jobs ≡ some t)
      × IsStart site utc id row.last_job_id jobs t
      × (t.note ≡ some note)
      × (t.row.last_note ≡ some note)
      × IsReason site jobs note
      × (t.row.last_run_at ≡ some utc)
      × ((site' : Site) (now' utc' : ℕ) (id' : String) (jobs' : List Slot)
          → latest_slot now' row.time_of_day ≡ some slot
          → tick local site' now' utc' id' t.row jobs'
            ≡ some (record { row = t.row; jobs = jobs'; note = none }))
unfolding since_of
tick_once local site now utc id row jobs slot on e p l =
    let t = record_run utc row (start site utc id jobs) in
    let after = local utc in
    let before = latest_slot-le now row.time_of_day slot e in
    (
      t,
      (start site utc id jobs).1,
      tick_fires local site now utc id row jobs slot on e p,
      start-IsStart site utc id row jobs,
      refl,
      refl,
      start-IsReason site utc id jobs,
      refl,
      λ site' now' utc' id' jobs' e'. tick_silent local site' now' utc' id' t.row jobs' slot e' (
          is_past-run (some after) (in_local local row.armed_at) slot after refl
            (omega (arith, before, l))),
    )

-- Switching the schedule on, or moving its time, does not run a slot that has passed: at every later
-- tick whose latest slot is not behind the moment of the change, by the server's clock, nothing
-- happens.
pub update-tick :
    (local : ℕ → ℕ) (utc : ℕ) (text : Text) (time : ℕ) (row : Schedule)
    → parse_time_of_day text ≡ some time
    → not row.enabled || not (text_eq row.time_of_day text) ≡ true
    → (row' : Schedule) × (update utc true text row ≡ some row')
      × (row'.enabled ≡ true)
      × ((site : Site) (now utc' slot : ℕ) (id : String) (jobs : List Slot)
          → latest_slot now text ≡ some slot
          → slot ≤ local utc
          → tick local site now utc' id row' jobs
            ≡ some (record { row = row'; jobs = jobs; note = none }))
unfolding update since_of
update-tick local utc text time row e arms =
    let row' = record row { enabled = true; time_of_day = text; armed_at = some utc } in
    let after = local utc in
    (
      row',
      (rw (update, e, arms) refl),
      refl,
      λ site now utc' slot id jobs e' l.
          tick_silent local site now utc' id row' jobs slot e'
            (is_past-armed (in_local local row.last_run_at) (some after) slot after refl l),
    )
