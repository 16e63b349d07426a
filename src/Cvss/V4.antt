-- ===== src/Cvss/V4.antt =====
-- CVSS v4.0 in cvss.py: the metrics with their values, the effective value of a metric, the
-- MacroVector and the next lower one.
use cvedeck.Prelude.{
  ℕ, ◌+◌, Bool, false, not, ◌&&◌, ◌||◌, Option, none, some, List, [], ◌∷◌, ltb, ◌==◌, any, all,
  is_some, String, if◌then◌else◌,
}
use cvedeck.Prelude.Text.{Text, codes, text_eq}
use cvedeck.Cvss.{Metrics, get}
use cvedeck.Cvss.Scores.{Digits, lookup}

-- `_V4_VALUES`
abbrev pub v4_values : List (Text × List Text)
v4_values =
    (codes "AV", codes "N" ∷ codes "A" ∷ codes "L" ∷ codes "P" ∷ [])
    ∷ (codes "AC", codes "L" ∷ codes "H" ∷ [])
    ∷ (codes "AT", codes "N" ∷ codes "P" ∷ [])
    ∷ (codes "PR", codes "N" ∷ codes "L" ∷ codes "H" ∷ [])
    ∷ (codes "UI", codes "N" ∷ codes "P" ∷ codes "A" ∷ [])
    ∷ (codes "VC", codes "H" ∷ codes "L" ∷ codes "N" ∷ [])
    ∷ (codes "VI", codes "H" ∷ codes "L" ∷ codes "N" ∷ [])
    ∷ (codes "VA", codes "H" ∷ codes "L" ∷ codes "N" ∷ [])
    ∷ (codes "SC", codes "H" ∷ codes "L" ∷ codes "N" ∷ [])
    ∷ (codes "SI", codes "H" ∷ codes "L" ∷ codes "N" ∷ [])
    ∷ (codes "SA", codes "H" ∷ codes "L" ∷ codes "N" ∷ [])
    ∷ (codes "E", codes "X" ∷ codes "A" ∷ codes "P" ∷ codes "U" ∷ [])
    ∷ (codes "CR", codes "X" ∷ codes "H" ∷ codes "M" ∷ codes "L" ∷ [])
    ∷ (codes "IR", codes "X" ∷ codes "H" ∷ codes "M" ∷ codes "L" ∷ [])
    ∷ (codes "AR", codes "X" ∷ codes "H" ∷ codes "M" ∷ codes "L" ∷ [])
    ∷ (codes "MAV", codes "X" ∷ codes "N" ∷ codes "A" ∷ codes "L" ∷ codes "P" ∷ [])
    ∷ (codes "MAC", codes "X" ∷ codes "L" ∷ codes "H" ∷ [])
    ∷ (codes "MAT", codes "X" ∷ codes "N" ∷ codes "P" ∷ [])
    ∷ (codes "MPR", codes "X" ∷ codes "N" ∷ codes "L" ∷ codes "H" ∷ [])
    ∷ (codes "MUI", codes "X" ∷ codes "N" ∷ codes "P" ∷ codes "A" ∷ [])
    ∷ (codes "MVC", codes "X" ∷ codes "H" ∷ codes "L" ∷ codes "N" ∷ [])
    ∷ (codes "MVI", codes "X" ∷ codes "H" ∷ codes "L" ∷ codes "N" ∷ [])
    ∷ (codes "MVA", codes "X" ∷ codes "H" ∷ codes "L" ∷ codes "N" ∷ [])
    ∷ (codes "MSC", codes "X" ∷ codes "H" ∷ codes "L" ∷ codes "N" ∷ [])
    ∷ (codes "MSI", codes "X" ∷ codes "S" ∷ codes "H" ∷ codes "L" ∷ codes "N" ∷ [])
    ∷ (codes "MSA", codes "X" ∷ codes "S" ∷ codes "H" ∷ codes "L" ∷ codes "N" ∷ [])
    ∷ (codes "S", codes "X" ∷ codes "N" ∷ codes "P" ∷ [])
    ∷ (codes "AU", codes "X" ∷ codes "N" ∷ codes "Y" ∷ [])
    ∷ (codes "R", codes "X" ∷ codes "A" ∷ codes "U" ∷ codes "I" ∷ [])
    ∷ (codes "V", codes "X" ∷ codes "D" ∷ codes "C" ∷ [])
    ∷ (codes "RE", codes "X" ∷ codes "L" ∷ codes "M" ∷ codes "H" ∷ [])
    ∷ (codes "U", codes "X" ∷ codes "Clear" ∷ codes "Green" ∷ codes "Amber" ∷ codes "Red" ∷ [])
    ∷ []

-- `_V4_MANDATORY`
abbrev pub v4_mandatory : List Text
v4_mandatory =
    codes "AV"
    ∷ codes "AC"
    ∷ codes "AT"
    ∷ codes "PR"
    ∷ codes "UI"
    ∷ codes "VC"
    ∷ codes "VI"
    ∷ codes "VA"
    ∷ codes "SC"
    ∷ codes "SI"
    ∷ codes "SA"
    ∷ []

unfoldable pub is_allowed : Text → Text → List (Text × List Text) → Bool
is_allowed name value [] = false
is_allowed name value ((key, values) ∷ rest) =
    let later = is_allowed name value rest in
    if text_eq key name then any (text_eq value) values else later

-- The checks of `cvss_v4_base_score` on the metrics.
unfoldable pub is_valid : Metrics → Bool
is_valid metrics =
    all (λ metric. is_allowed metric.0 metric.1 v4_values) metrics
    && all (λ name. is_some (get name metrics)) v4_mandatory

-- `metrics.get(name, "X")`
abbrev pub or_x : Option Text → Text
or_x none = codes "X"
or_x (some value) = value

abbrev pub unless_x : Text → Text → Text
unless_x default value = if text_eq value (codes "X") then default else value

-- `_v4_metric`, by the name's kind: E, a security requirement, any other
abbrev pub is_requirement : Text → Bool
is_requirement name =
    text_eq name (codes "CR") || text_eq name (codes "IR") || text_eq name (codes "AR")

unfoldable pub v4_metric : Metrics → Text → Text
v4_metric metrics name =
    if text_eq name (codes "E")
    then unless_x (codes "A") (or_x (get (codes "E") metrics))
    else if is_requirement name
    then unless_x (codes "H") (or_x (get name metrics))
    else unless_x (or_x (get name metrics)) (or_x (get (b'M' ∷ name) metrics))

-- `value == "H"` and the like
abbrev pub is : Text → String → Bool
is value literal = text_eq value (codes literal)

abbrev pub eq1_of : Text → Text → Text → ℕ
eq1_of av pr ui =
    if is av "N" && is pr "N" && is ui "N"
    then 0
    else if (is av "N" || is pr "N" || is ui "N") && not (is av "P")
    then 1
    else 2

abbrev pub eq2_of : Text → Text → ℕ
eq2_of ac at = if is ac "L" && is at "N" then 0 else 1

abbrev pub eq3_of : Text → Text → Text → ℕ
eq3_of vc vi va =
    if is vc "H" && is vi "H" then 0 else if is vc "H" || is vi "H" || is va "H" then 1 else 2

abbrev pub is_safety : Option Text → Bool
is_safety none = false
is_safety (some value) = is value "S"

abbrev pub eq4_of : Bool → Text → Text → Text → ℕ
eq4_of safety sc si sa = if safety then 0 else if is sc "H" || is si "H" || is sa "H" then 1 else 2

-- `none` is the `KeyError` of the dictionary.
abbrev pub eq5_of : Text → Option ℕ
eq5_of e =
    if is e "A" then some 0 else if is e "P" then some 1 else if is e "U" then some 2 else none

abbrev pub eq6_of : Text → Text → Text → Text → Text → Text → ℕ
eq6_of vc vi va cr ir ar =
    if is cr "H" && is vc "H" || is ir "H" && is vi "H" || is ar "H" && is va "H" then 0 else 1

-- `_v4_macrovector`; `none` is a `KeyError`
abbrev pub with_eq5 : (ℕ → Digits) → Option ℕ → Option Digits
with_eq5 digits none = none
with_eq5 digits (some eq5) = some (digits eq5)

unfoldable pub v4_macrovector : Metrics → Option Digits
v4_macrovector metrics =
    let m : String → Text = λ name. v4_metric metrics (codes name) in
    with_eq5
      (λ eq5. record {
        eq1 = eq1_of (m "AV") (m "PR") (m "UI");
        eq2 = eq2_of (m "AC") (m "AT");
        eq3 = eq3_of (m "VC") (m "VI") (m "VA");
        eq4 =
            eq4_of (is_safety (get (codes "MSI") metrics) || is_safety (get (codes "MSA") metrics))
              (m "SC") (m "SI") (m "SA");
        eq5 = eq5;
        eq6 = eq6_of (m "VC") (m "VI") (m "VA") (m "CR") (m "IR") (m "AR");
      })
      (eq5_of (m "E"))

abbrev pub better : Option ℕ → Option ℕ → Option ℕ
better (some left) (some right) = if ltb right left then some left else some right
better left right = right

-- `_eq3eq6_next_lower_score`
unfoldable pub eq3eq6_next_lower_score : Digits → Option ℕ
eq3eq6_next_lower_score d =
    let left = lookup (record d { eq6 = d.eq6 + 1 }) in
    let right = lookup (record d { eq3 = d.eq3 + 1 }) in
    let both = lookup (record d { eq3 = d.eq3 + 1; eq6 = d.eq6 + 1 }) in
    if d.eq3 == 0 && d.eq6 == 0
    then better left right
    else if d.eq3 == 1 && d.eq6 == 0
    then left
    else if d.eq6 == 1 && (d.eq3 == 0 || d.eq3 == 1)
    then right
    else both

-- The scores one step lower on each axis.
pub record Available : Type 0 where
  pub eq1 : Option ℕ
  pub eq2 : Option ℕ
  pub eq3eq6 : Option ℕ
  pub eq4 : Option ℕ
  pub eq5 : Option ℕ

unfoldable pub available : Digits → Available
available d = record {
  eq1 = lookup (record d { eq1 = d.eq1 + 1 });
  eq2 = lookup (record d { eq2 = d.eq2 + 1 });
  eq3eq6 = eq3eq6_next_lower_score d;
  eq4 = lookup (record d { eq4 = d.eq4 + 1 });
  eq5 = lookup (record d { eq5 = d.eq5 + 1 });
}
