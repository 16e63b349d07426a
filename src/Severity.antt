-- ===== src/Severity.antt =====
-- The severity bands: `Severity` and `SEVERITY_RANK` of backend/app/enums.py, `derive_severity` and
-- `resolve_severity` of backend/app/scanner/matcher.py. A score is any float; `none` as a result
-- is the ValueError of a score that is outside 0.0 to 10.0 (or is no number).
pub mod Bands
mod Samples
use cvedeck.Prelude.{ℕ, ◌≡◌, Bool, not, ◌&&◌, Option, none, some, List, [], ◌∷◌, if◌then◌else◌}
use cvedeck.Floats.{Floats}

pub data Severity : Type 0 where
  critical unscored high medium low : Severity

-- `SEVERITY_RANK`, the triage order
unfoldable pub rank : Severity → ℕ
rank critical = 0
rank unscored = 1
rank high = 2
rank medium = 3
rank low = 4

module _ (floats : Floats) where
  open floats use {F, tenths, leq}

  -- `_SEVERITY_BANDS`, the lower bounds in tenths
  abbrev pub severity_bands : List (ℕ × Severity)
  severity_bands = (90, critical) ∷ (70, high) ∷ (40, medium) ∷ (0, low) ∷ []

  -- `_MIN_CVSS` and `_MAX_CVSS`
  abbrev pub min_cvss : ℕ
  min_cvss = 0

  abbrev pub max_cvss : ℕ
  max_cvss = 100

  -- the loop over the bands, with the final `return Severity.LOW`
  unfoldable pub first_band : List (ℕ × Severity) → F → Severity
  first_band [] score = low
  first_band ((bound, severity) ∷ bands) score =
      if leq (tenths bound) score then severity else first_band bands score

  unfoldable pub derive_severity : F → Option Severity
  unfolding first_band
  derive_severity score =
      if not (leq (tenths min_cvss) score && leq score (tenths max_cvss))
      then none
      else some (first_band severity_bands score)

  unfoldable pub resolve_severity : Option F → Option Severity → Option Severity
  resolve_severity score (some band) = some band
  resolve_severity none none = some unscored
  resolve_severity (some score) none = derive_severity score
