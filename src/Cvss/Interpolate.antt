-- ===== src/Cvss/Interpolate.antt =====
-- CVSS v4.0 in cvss.py: the distance of a vector to the first most severe vector of its MacroVector
-- that it does not exceed, and the score between the MacroVector and the next lower ones.
use mathlib.Core.List.{reverse}
use cvedeck.Prelude.{
  ℕ, suc, ◌==◌, true, false, Option, none, some, List, [], ◌∷◌, ◌++◌, all, if◌then◌else◌,
}
use cvedeck.Prelude.Int.{ℤ, pos}
use cvedeck.Prelude.Text.{Text, codes, text_eq, strip_prefix}
use cvedeck.Floats.Arithmetic.{Arithmetic}
use cvedeck.Cvss.{Metrics, get, parse_vector}
use cvedeck.Cvss.Scores.{Digits, lookup}
use cvedeck.Cvss.V4.{is_valid, v4_metric, is, v4_macrovector, Available, available}
use cvedeck.Cvss.Maxima.{
  v4_levels, level_of, levels_of, max_composed_eq1, max_composed_eq2, max_composed_eq3eq6,
  max_composed_eq4, max_composed_eq5, max_severity_eq1, max_severity_eq2, max_severity_eq3eq6,
  max_severity_eq4, eq1_metrics, eq2_metrics, eq3eq6_metrics, eq4_metrics,
}

-- `for x in xs: ... break`: the first that there is
unfoldable pub first_found {ℓ κ} : {A : Type ℓ} {B : Type κ} → (A → Option B) → List A → Option B
first_found f [] = none
first_found f (x ∷ xs) = elim (f x) [ some y ↦ some y | none ↦ first_found f xs ]

-- `text.rstrip("/")`
unfoldable pub drop_slashes : Text → Text
drop_slashes [] = []
drop_slashes (c ∷ text) = elim (c == b'/') [ true ↦ drop_slashes text | false ↦ c ∷ text ]

abbrev pub rstrip_slash : Text → Text
rstrip_slash text = reverse (drop_slashes (reverse text))

-- The levels of a metric in the vector and in a most severe one.
unfoldable pub both_levels : Metrics → Metrics → Text → Option (ℕ × ℕ)
both_levels metrics composed name =
    let levels = levels_of name v4_levels in
    elim (level_of (v4_metric metrics name) levels) [
      | none ↦ none
      | some mine ↦ elim (get name composed) [
        | none ↦ none
        | some value ↦ elim (level_of value levels) [
          | none ↦ none
          | some theirs ↦ some (mine, theirs)
        ]
      ]
    ]

-- How a score ends: `None`, a score, or an exception that leaves the function (a `KeyError`, or the
-- `_UnscorableVector` of a table's own vector).
pub data Score (F : Type 0) : Type 0 where
  unscored raised : Score F
  scored : F → Score F

module _ (arithmetic : Arithmetic) where
  open arithmetic use {F, decimal, plus, minus, times, over, less, leq, floor, ceil, of_int}

  -- `_severity_distance`, from `total` on
  unfoldable pub severity_distance : F → Metrics → Metrics → List Text → Option F
  severity_distance total metrics composed [] = some total
  severity_distance total metrics composed (name ∷ names) =
      elim (both_levels metrics composed name) [
        | none ↦ none
        | some (mine, theirs) ↦
            let distance = minus (decimal mine 1) (decimal theirs 1) in
            let rest = severity_distance (plus total distance) metrics composed names in
            if less distance (decimal 0 0) then none else rest
      ]

  pub record Distances : Type 0 where
    pub eq1 : F
    pub eq2 : F
    pub eq3eq6 : F
    pub eq4 : F

  -- The four distances to one composed vector; all of them, or none.
  abbrev pub all_four : Option F → Option F → Option F → Option F → Option Distances
  all_four (some d1) (some d2) (some d36) (some d4) =
      some (record { eq1 = d1; eq2 = d2; eq3eq6 = d36; eq4 = d4 })
  all_four _ _ _ _ = none

  unfoldable pub distances_to : Metrics → Metrics → Option Distances
  distances_to metrics composed =
      let zero_distance = decimal 0 1 in
      all_four (severity_distance zero_distance metrics composed eq1_metrics)
        (severity_distance zero_distance metrics composed eq2_metrics)
        (severity_distance zero_distance metrics composed eq3eq6_metrics)
        (severity_distance zero_distance metrics composed eq4_metrics)

  -- A composed vector that does not parse raises out of the search; the outer option is for it.
  abbrev pub if_parsed : Metrics → Option Metrics → Option (Option Distances)
  if_parsed metrics none = some none
  if_parsed metrics (some composed) = elim (distances_to metrics composed) [
    | none ↦ none
    | some distances ↦ some (some distances)
  ]

  -- The five loops over the most severe vectors: `none` if none is found, `some none` if one raises.
  unfoldable pub find_distances : Metrics → Digits → Option (Option Distances)
  find_distances metrics d =
      first_found
        (λ m1.
          first_found
            (λ m2.
              first_found
                (λ m36.
                  first_found
                    (λ m4.
                      first_found
                        (λ m5.
                          if_parsed metrics
                            (parse_vector (rstrip_slash (m1 ++ m2 ++ m36 ++ m4 ++ m5))))
                        (max_composed_eq5 d.eq5))
                    (max_composed_eq4 d.eq4))
                (max_composed_eq3eq6 d.eq3 d.eq6))
            (max_composed_eq2 d.eq2))
        (max_composed_eq1 d.eq1)

  -- One axis of the mean: the sum and the number of axes so far, the MacroVector's score, the next
  -- lower one, the distance and the depth.
  abbrev pub add_axis : F × ℕ → F → Option ℕ → F → ℕ → F × ℕ
  add_axis (normalized, n) value none distance depth = (normalized, n)
  add_axis (normalized, n) value (some lower) distance depth = (
    plus normalized (
        times (minus value (decimal lower 1))
          (over distance (times (of_int (pos depth)) (decimal 1 1)))),
    suc n,
  )

  abbrev pub add_eq5 : F × ℕ → Option ℕ → F × ℕ
  add_eq5 sum none = sum
  add_eq5 (normalized, n) (some lower) = (normalized, suc n)

  abbrev pub mean : F × ℕ → F
  mean (normalized, n) = if n == 0 then decimal 0 1 else over normalized (of_int (pos n))

  -- `_round_half_up`
  unfoldable pub round_half_up : F → ℤ
  round_half_up x =
      if leq (decimal 0 0) x then floor (plus x (decimal 5 1)) else ceil (minus x (decimal 5 1))

  -- `min(10.0, max(0.0, score))`, then one decimal
  unfoldable pub clamp_tenths : F → F
  clamp_tenths score =
      let high = if less (decimal 0 1) score then score else decimal 0 1 in
      let low = if less high (decimal 100 1) then high else decimal 100 1 in
      over (of_int (round_half_up (times low (decimal 10 0)))) (decimal 10 0)

  abbrev pub depths : Digits → Option (ℕ × ℕ × ℕ × ℕ)
  depths d = elim (max_severity_eq1 d.eq1) [
    | none ↦ none
    | some s1 ↦ elim (max_severity_eq2 d.eq2) [
      | none ↦ none
      | some s2 ↦ elim (max_severity_eq3eq6 d.eq3 d.eq6) [
        | none ↦ none
        | some s36 ↦ elim (max_severity_eq4 d.eq4) [
          | none ↦ none
          | some s4 ↦ some (s1, s2, s36, s4)
        ]
      ]
    ]
  ]

  -- The end of `cvss_v4_base_score`.
  unfoldable pub interpolate : F → Available → Distances → ℕ × ℕ × ℕ × ℕ → F
  interpolate value lower distances (s1, s2, s36, s4) =
      let sum1 = add_axis (decimal 0 1, 0) value lower.eq1 distances.eq1 s1 in
      let sum2 = add_axis sum1 value lower.eq2 distances.eq2 s2 in
      let sum36 = add_axis sum2 value lower.eq3eq6 distances.eq3eq6 s36 in
      let sum4 = add_axis sum36 value lower.eq4 distances.eq4 s4 in
      clamp_tenths (minus value (mean (add_eq5 sum4 lower.eq5)))

  abbrev pub with_depths : F → Available → Distances → Option (ℕ × ℕ × ℕ × ℕ) → Score F
  with_depths value lower distances none = raised
  with_depths value lower distances (some s) = scored (interpolate value lower distances s)

  abbrev pub with_distances : Digits → F → Option (Option Distances) → Score F
  with_distances d value none = unscored
  with_distances d value (some none) = raised
  with_distances d value (some (some distances)) =
      with_depths value (available d) distances (depths d)

  abbrev pub with_score : Metrics → Digits → Option ℕ → Score F
  with_score metrics d none = unscored
  with_score metrics d (some tenths) =
      with_distances d (decimal tenths 1) (find_distances metrics d)

  abbrev pub with_digits : Metrics → Option Digits → Score F
  with_digits metrics none = raised
  with_digits metrics (some d) = with_score metrics d (lookup d)

  -- `metrics.pop("CVSS", None)`
  unfoldable pub without : Text → Metrics → Metrics
  without name [] = []
  without name ((key, value) ∷ rest) =
      let others = without name rest in if text_eq key name then others else (key, value) ∷ others

  abbrev pub impact_metrics : List Text
  impact_metrics = codes "VC" ∷ codes "VI" ∷ codes "VA" ∷ codes "SC" ∷ codes "SI" ∷ codes "SA" ∷ []

  unfoldable pub score_v4 : Metrics → Score F
  score_v4 metrics = elim (is_valid metrics) [
    | false ↦ unscored
    | true ↦ elim (all (λ name. is (v4_metric metrics name) "N") impact_metrics) [
      | true ↦ scored (decimal 0 1)
      | false ↦ with_digits metrics (v4_macrovector metrics)
    ]
  ]

  abbrev pub if_vector : Option Metrics → Score F
  if_vector none = unscored
  if_vector (some metrics) = score_v4 (without (codes "CVSS") metrics)

  -- `cvss_v4_base_score`
  unfoldable pub cvss_v4_base_score : Text → Score F
  cvss_v4_base_score vector = elim (strip_prefix (codes "CVSS:4.0") vector) [
    | none ↦ unscored
    | some rest ↦ if_vector (parse_vector vector)
  ]
