-- ===== src/Cvss/V3.antt =====
-- CVSS v3.x in cvss.py. Overflow and the like, which cannot come of these numbers, are left out.
use cvedeck.Prelude.{
  ℕ, zero, suc, ◌%◌, ◌==◌, Bool, true, false, Option, none, some, List, [], ◌∷◌, if◌then◌else◌,
}
use cvedeck.Prelude.Int.{ℤ, pos, negsuc}
use cvedeck.Prelude.Text.{Text, codes, text_eq, strip_prefix}
use cvedeck.Floats.Arithmetic.{Arithmetic}
use cvedeck.Cvss.{Metrics, get, parse_vector}
use cvedeck.Cvss.Interpolate.{round_half_up}

-- The tables, in hundredths.
abbrev pub v3_av : List (Text × ℕ)
v3_av = (codes "N", 85) ∷ (codes "A", 62) ∷ (codes "L", 55) ∷ (codes "P", 20) ∷ []

abbrev pub v3_ac : List (Text × ℕ)
v3_ac = (codes "L", 77) ∷ (codes "H", 44) ∷ []

abbrev pub v3_ui : List (Text × ℕ)
v3_ui = (codes "N", 85) ∷ (codes "R", 62) ∷ []

abbrev pub v3_pr_unchanged : List (Text × ℕ)
v3_pr_unchanged = (codes "N", 85) ∷ (codes "L", 62) ∷ (codes "H", 27) ∷ []

abbrev pub v3_pr_changed : List (Text × ℕ)
v3_pr_changed = (codes "N", 85) ∷ (codes "L", 68) ∷ (codes "H", 50) ∷ []

abbrev pub v3_cia : List (Text × ℕ)
v3_cia = (codes "H", 56) ∷ (codes "L", 22) ∷ (codes "N", 0) ∷ []

unfoldable pub find_level : Text → List (Text × ℕ) → Option ℕ
find_level value [] = none
find_level value ((key, n) ∷ rest) =
    let later = find_level value rest in if text_eq key value then some n else later

-- `_level`
abbrev pub level_in : List (Text × ℕ) → Option Text → Option ℕ
level_in table none = none
level_in table (some value) = find_level value table

unfoldable pub level : List (Text × ℕ) → Metrics → Text → Option ℕ
level table metrics name = level_in table (get name metrics)

-- The scope: whether it is changed.
abbrev pub scope_of : Option Text → Option Bool
scope_of none = none
scope_of (some value) =
    if text_eq (codes "U") value
    then some false
    else if text_eq (codes "C") value
    then some true
    else none

-- The levels of the eight mandatory metrics.
pub record Levels : Type 0 where
  pub changed : Bool
  pub av : ℕ
  pub ac : ℕ
  pub ui : ℕ
  pub pr : ℕ
  pub conf : ℕ
  pub integ : ℕ
  pub avail : ℕ

infixl 5 ◌>>=◌
abbrev pub ◌>>=◌ : {A B : Type 0} → Option A → (A → Option B) → Option B
none >>= f = none
some x >>= f = f x

unfoldable pub v3_levels : Metrics → Option Levels
v3_levels metrics = do
  changed ← scope_of (get (codes "S") metrics)
  av ← level v3_av metrics (codes "AV")
  ac ← level v3_ac metrics (codes "AC")
  ui ← level v3_ui metrics (codes "UI")
  pr ← level (if changed then v3_pr_changed else v3_pr_unchanged) metrics (codes "PR")
  conf ← level v3_cia metrics (codes "C")
  integ ← level v3_cia metrics (codes "I")
  avail ← level v3_cia metrics (codes "A")
  some (record {
    changed = changed;
    av = av;
    ac = ac;
    ui = ui;
    pr = pr;
    conf = conf;
    integ = integ;
    avail = avail;
  })

module _ (arithmetic : Arithmetic) where
  open arithmetic use {F, decimal, plus, minus, times, over, power, less, leq, floor, of_int}

  abbrev pub plus_one : ℤ → ℤ
  plus_one (pos n) = pos (suc n)
  plus_one (negsuc zero) = pos 0
  plus_one (negsuc (suc n)) = negsuc n

  -- `scaled % 10000 == 0`
  abbrev pub is_multiple : ℤ → Bool
  is_multiple (pos n) = n % 10000 == 0
  is_multiple (negsuc n) = suc n % 10000 == 0

  -- `_roundup`
  unfoldable pub roundup : F → F
  roundup x =
      let scaled = round_half_up arithmetic (times x (decimal 100000 0)) in
      if is_multiple scaled
      then over (of_int scaled) (decimal 100000 0)
      else over (of_int (plus_one (floor (over (of_int scaled) (decimal 10000 0))))) (decimal 10 0)

  -- `min(x, 10.0)`
  abbrev pub at_most_ten : F → F
  at_most_ten x = if less (decimal 10 0) x then decimal 10 0 else x

  unfoldable pub impact_of : Levels → F
  impact_of m =
      let one = decimal 1 0 in
      let hundredths : ℕ → F = λ n. decimal n 2 in
      let iss = minus one (
        times (times (minus one (hundredths m.conf)) (minus one (hundredths m.integ)))
          (minus one (hundredths m.avail))) in
      if m.changed
      then minus (times (decimal 752 2) (minus iss (decimal 29 3)))
          (times (decimal 325 2) (power (minus iss (decimal 2 2)) 15))
      else times (decimal 642 2) iss

  -- The formula of `cvss_v3_base_score`.
  unfoldable pub v3_formula : Levels → F
  v3_formula m =
      let impact = impact_of m in
      let hundredths : ℕ → F = λ n. decimal n 2 in
      let exploitability =
        times
          (times (times (times (decimal 822 2) (hundredths m.av)) (hundredths m.ac))
            (hundredths m.pr))
          (hundredths m.ui) in
      if leq impact (decimal 0 0)
      then decimal 0 1
      else if m.changed
      then roundup (at_most_ten (times (decimal 108 2) (plus impact exploitability)))
      else roundup (at_most_ten (plus impact exploitability))

  -- `cvss_v3_base_score`
  unfoldable pub cvss_v3_base_score : Text → Option F
  cvss_v3_base_score vector = do
    rest ← strip_prefix (codes "CVSS:3.") vector
    metrics ← parse_vector vector
    levels ← v3_levels metrics
    some (v3_formula levels)
