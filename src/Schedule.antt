-- ===== src/Schedule.antt =====
-- backend/app/services/scan_schedule.py: the daily scan. A moment is a number of microseconds since
-- the first of January of the year 1, as datetime has it, on the server's clock or in UTC; going back
-- behind it is an OverflowError. What the server's time zone makes of a UTC time is an argument.
pub mod Slots
pub mod Once
pub mod Starting
mod Samples
use text.Mathlib.Text.{◌==◌ as str_eq}
use cvedeck.Prelude.{
  ℕ, ◌+◌, ◌-◌, ◌*◌, ◌%◌, String, Bool, true, false, not, ◌&&◌, ◌||◌, Option, none, some, List, [],
  ◌∷◌, map, any, length, leb, ltb, ◌==◌, if◌then◌else◌,
}
use cvedeck.Prelude.Text.{Text, codes, text_eq, is_digit}
use cvedeck.ScanJobs.{Slot, Job, is_active, JobStatus, queued}
use cvedeck.ScanJobs.Store.{create_job}

abbrev pub minute : ℕ
minute = 60000000

abbrev pub day : ℕ
day = 86400000000

-- `([01]\d|2[0-3])` and `[0-5]\d`
abbrev pub is_hour : ℕ → ℕ → Bool
is_hour a b = (a == b'0' || a == b'1') && is_digit b || a == b'2' && leb b'0' b && leb b b'3'

abbrev pub is_minute : ℕ → ℕ → Bool
is_minute a b = leb b'0' a && leb a b'5' && is_digit b

-- `$`: the end, or a newline at the end
abbrev pub is_end : Text → Bool
is_end [] = true
is_end (c ∷ []) = c == 10
is_end (c ∷ d ∷ rest) = false

abbrev pub two_digits : ℕ → ℕ → ℕ
two_digits a b = (a - b'0') * 10 + (b - b'0')

-- `parse_time_of_day`, as the time from midnight; `none` is the ValueError
unfoldable pub parse_time_of_day : Text → Option ℕ
parse_time_of_day (a ∷ b ∷ c ∷ d ∷ e ∷ rest) =
    if is_hour a b && c == b':' && is_minute d e && is_end rest
    then some ((two_digits a b * 60 + two_digits d e) * minute)
    else none
parse_time_of_day _ = none

-- The day before; `none` is an OverflowError.
abbrev pub or_before : ℕ → ℕ → Option ℕ
or_before now slot =
    if leb slot now then some slot else if leb day slot then some (slot - day) else none

-- `latest_slot`; `none` is an exception
unfoldable pub latest_slot : ℕ → Text → Option ℕ
latest_slot now time_of_day = elim (parse_time_of_day time_of_day) [
  | none ↦ none
  | some time ↦ or_before now (now - now % day + time)
]

-- `slot <= since`
abbrev pub is_past : Option ℕ → ℕ → Bool
is_past none slot = false
is_past (some since) slot = leb slot since

-- `next_due`; the outer option is for an exception
unfoldable pub next_due : ℕ → Text → Option ℕ → Option (Option ℕ)
next_due now time_of_day since = elim (latest_slot now time_of_day) [
  | none ↦ none
  | some slot ↦ some (if is_past since slot then none else some slot)
]

pub data Note : Type 0 where
  demo_mode no_key still_running no_hosts : Note
  started : ℕ → Note

-- `ScanSchedule`; its times are in UTC
pub record Schedule : Type 0 where
  pub enabled : Bool
  pub time_of_day : Text
  pub armed_at : Option ℕ
  pub last_run_at : Option ℕ
  pub last_job_id : Option String
  pub last_note : Option Note

abbrev pub later_of : Option ℕ → Option ℕ → Option ℕ
later_of none moment = moment
later_of (some m) none = some m
later_of (some m) (some n) = if ltb m n then some n else some m

abbrev pub in_local : (ℕ → ℕ) → Option ℕ → Option ℕ
in_local local none = none
in_local local (some moment) = some (local moment)

-- The later of the last run and the last arming, by the server's clock.
unfoldable pub since_of : (ℕ → ℕ) → Schedule → Option ℕ
since_of local row = later_of (in_local local row.last_run_at) (in_local local row.armed_at)

-- `update`, at `utc`; `none` is the ValueError
unfoldable pub update : ℕ → Bool → Text → Schedule → Option Schedule
update utc enabled time_of_day row =
    let arms = enabled && (not row.enabled || not (text_eq row.time_of_day time_of_day)) in
    elim (parse_time_of_day time_of_day) [
      | none ↦ none
      | some time ↦ some (record row {
        enabled = enabled;
        time_of_day = time_of_day;
        armed_at = if arms then some utc else row.armed_at;
      })
    ]

-- What `_start` finds: the configuration, the hosts that the server key reaches, and whether the
-- credentials of each can be worked out.
pub record Site : Type 0 where
  pub demo : Bool
  pub has_key : Bool
  pub hosts : List String
  pub resolve : String → Option String

unfoldable pub resolved : (String → Option String) → List String → List String
resolved resolve [] = []
resolved resolve (h ∷ hosts) =
    let rest = resolved resolve hosts in elim (resolve h) [ none ↦ h ∷ rest | some message ↦ rest ]

unfoldable pub unresolved : (String → Option String) → List String → List (String × String)
unresolved resolve [] = []
unresolved resolve (h ∷ hosts) =
    let rest = unresolved resolve hosts in
    elim (resolve h) [ none ↦ rest | some message ↦ (h, message) ∷ rest ]

-- An active job of the schedule.
abbrev pub is_scheduled : Slot → Bool
is_scheduled s = str_eq s.job.requested_by "schedule" && is_active s.job.status

abbrev pub has_host : List String → Bool
has_host [] = false
has_host (h ∷ hosts) = true

-- `_start`, with the id that the new job gets. The jobs change only by `create_job`.
unfoldable pub start : Site → ℕ → String → List Slot → List Slot × Note × Option String
start site utc id jobs =
    if site.demo
    then (jobs, demo_mode, none)
    else if not site.has_key
    then (jobs, no_key, none)
    else if any is_scheduled jobs
    then (jobs, still_running, none)
    else if not (has_host site.hosts)
    then (jobs, no_hosts, none)
    else (
      create_job utc id "schedule" (resolved site.resolve site.hosts)
          (unresolved site.resolve site.hosts) site.hosts jobs,
      started (length site.hosts),
      some id,
    )

abbrev pub or_last : Option String → Option String → Option String
or_last none last = last
or_last (some id) last = some id

pub record Ticked : Type 0 where
  pub row : Schedule
  pub jobs : List Slot
  pub note : Option Note

abbrev pub record_run : ℕ → Schedule → List Slot × Note × Option String → Ticked
record_run utc row (jobs, note, id) = record {
  row = record row {
    last_run_at = some utc;
    last_note = some note;
    last_job_id = or_last id row.last_job_id;
  };
  jobs = jobs;
  note = some note;
}

-- `tick`, at `now` on the server's clock and `utc`; `none` is an exception
unfoldable pub tick : (ℕ → ℕ) → Site → ℕ → ℕ → String → Schedule → List Slot → Option Ticked
tick local site now utc id row jobs =
    if not row.enabled
    then some (record { row = row; jobs = jobs; note = none })
    else elim (next_due now row.time_of_day (since_of local row)) [
      | none ↦ none
      | some none ↦ some (record { row = row; jobs = jobs; note = none })
      | some (some slot) ↦ some (record_run utc row (start site utc id jobs))
    ]
