-- ===== src/Schedule/Samples.antt =====
-- A schedule at 03:00, looked at on the second day at 07:00.
use cvedeck.Prelude.{
  ℕ, ◌+◌, ◌*◌, ◌≡◌, refl, String, true, false, none, some, List, [], ◌∷◌, ◌++◌, arith,
}
use cvedeck.Prelude.Text.{codes}
use cvedeck.ScanJobs.{Slot}
use cvedeck.Schedule.{
  Note, day, minute, parse_time_of_day, latest_slot, Schedule, since_of, Site, Ticked, tick,
}
use cvedeck.Schedule.Once.{IsStart, IsReason, tick_once}

abbrev seven : ℕ
seven = day + 420 * minute

-- `$` matches before a newline at the end.
newline_accepted : parse_time_of_day (codes "03:00" ++ 10 ∷ []) ≡ some (180 * minute)
unfolding parse_time_of_day
newline_accepted = refl

abbrev site : Site
site = record { demo = false; has_key = true; hosts = "web" ∷ "db" ∷ []; resolve = λ h. none }

abbrev row : Schedule
row = record {
  enabled = true;
  time_of_day = codes "03:00";
  armed_at = some 5;
  last_run_at = none;
  last_job_id = none;
  last_note = none;
}

tick_once_example :
    (t : Ticked) × (note : Note) × (tick (λ u. u) site seven (seven + 1) "j1" row [] ≡ some t)
    × IsStart site (seven + 1) "j1" none [] t
    × (t.note ≡ some note)
    × (t.row.last_note ≡ some note)
    × IsReason site [] note
    × (t.row.last_run_at ≡ some (seven + 1))
    × ((site' : Site) (now' utc' : ℕ) (id' : String) (jobs' : List Slot)
        → latest_slot now' row.time_of_day ≡ some (day + 180 * minute)
        → tick (λ u. u) site' now' utc' id' t.row jobs'
          ≡ some (record { row = t.row; jobs = jobs'; note = none }))
unfolding parse_time_of_day latest_slot since_of
tick_once_example =
    tick_once (λ u. u) site seven (seven + 1) "j1" row [] (day + 180 * minute) refl refl refl
      (omega arith)
