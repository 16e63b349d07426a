-- ===== src/Cvss/Maxima.antt =====
-- The tables of cvss.py for CVSS v4.0: the levels of each metric, and the most severe vectors and the
-- depth of each equivalence set.
use cvedeck.Prelude.{ℕ, zero, suc, Option, none, some, List, [], ◌∷◌, if◌then◌else◌}
use cvedeck.Prelude.Text.{Text, codes, text_eq}

-- `_V4_LEVELS`, in tenths
abbrev pub v4_levels : List (Text × List (Text × ℕ))
v4_levels =
    (codes "AV", (codes "N", 0) ∷ (codes "A", 1) ∷ (codes "L", 2) ∷ (codes "P", 3) ∷ [])
    ∷ (codes "PR", (codes "N", 0) ∷ (codes "L", 1) ∷ (codes "H", 2) ∷ [])
    ∷ (codes "UI", (codes "N", 0) ∷ (codes "P", 1) ∷ (codes "A", 2) ∷ [])
    ∷ (codes "AC", (codes "L", 0) ∷ (codes "H", 1) ∷ [])
    ∷ (codes "AT", (codes "N", 0) ∷ (codes "P", 1) ∷ [])
    ∷ (codes "VC", (codes "H", 0) ∷ (codes "L", 1) ∷ (codes "N", 2) ∷ [])
    ∷ (codes "VI", (codes "H", 0) ∷ (codes "L", 1) ∷ (codes "N", 2) ∷ [])
    ∷ (codes "VA", (codes "H", 0) ∷ (codes "L", 1) ∷ (codes "N", 2) ∷ [])
    ∷ (codes "SC", (codes "H", 1) ∷ (codes "L", 2) ∷ (codes "N", 3) ∷ [])
    ∷ (codes "SI", (codes "S", 0) ∷ (codes "H", 1) ∷ (codes "L", 2) ∷ (codes "N", 3) ∷ [])
    ∷ (codes "SA", (codes "S", 0) ∷ (codes "H", 1) ∷ (codes "L", 2) ∷ (codes "N", 3) ∷ [])
    ∷ (codes "CR", (codes "H", 0) ∷ (codes "M", 1) ∷ (codes "L", 2) ∷ [])
    ∷ (codes "IR", (codes "H", 0) ∷ (codes "M", 1) ∷ (codes "L", 2) ∷ [])
    ∷ (codes "AR", (codes "H", 0) ∷ (codes "M", 1) ∷ (codes "L", 2) ∷ [])
    ∷ []

unfoldable pub level_of : Text → List (Text × ℕ) → Option ℕ
level_of value [] = none
level_of value ((key, level) ∷ rest) =
    let later = level_of value rest in if text_eq key value then some level else later

unfoldable pub levels_of : Text → List (Text × List (Text × ℕ)) → List (Text × ℕ)
levels_of name [] = []
levels_of name ((key, levels) ∷ rest) =
    let later = levels_of name rest in if text_eq key name then levels else later

-- `_V4_MAX_COMPOSED_EQ1` to `_EQ5`; no vector where the dictionary has no key
abbrev pub max_composed_eq1 : ℕ → List Text
max_composed_eq1 zero = codes "AV:N/PR:N/UI:N/" ∷ []
max_composed_eq1 (suc zero) =
    codes "AV:A/PR:N/UI:N/" ∷ codes "AV:N/PR:L/UI:N/" ∷ codes "AV:N/PR:N/UI:P/" ∷ []
max_composed_eq1 (suc (suc zero)) = codes "AV:P/PR:N/UI:N/" ∷ codes "AV:A/PR:L/UI:P/" ∷ []
max_composed_eq1 _ = []

abbrev pub max_composed_eq2 : ℕ → List Text
max_composed_eq2 zero = codes "AC:L/AT:N/" ∷ []
max_composed_eq2 (suc zero) = codes "AC:H/AT:N/" ∷ codes "AC:L/AT:P/" ∷ []
max_composed_eq2 _ = []

abbrev pub max_composed_eq4 : ℕ → List Text
max_composed_eq4 zero = codes "SC:H/SI:S/SA:S/" ∷ []
max_composed_eq4 (suc zero) = codes "SC:H/SI:H/SA:H/" ∷ []
max_composed_eq4 (suc (suc zero)) = codes "SC:L/SI:L/SA:L/" ∷ []
max_composed_eq4 _ = []

abbrev pub max_composed_eq5 : ℕ → List Text
max_composed_eq5 zero = codes "E:A/" ∷ []
max_composed_eq5 (suc zero) = codes "E:P/" ∷ []
max_composed_eq5 (suc (suc zero)) = codes "E:U/" ∷ []
max_composed_eq5 _ = []

abbrev pub max_composed_eq3eq6 : ℕ → ℕ → List Text
max_composed_eq3eq6 zero zero = codes "VC:H/VI:H/VA:H/CR:H/IR:H/AR:H/" ∷ []
max_composed_eq3eq6 zero (suc zero) =
    codes "VC:H/VI:H/VA:L/CR:M/IR:M/AR:H/" ∷ codes "VC:H/VI:H/VA:H/CR:M/IR:M/AR:M/" ∷ []
max_composed_eq3eq6 (suc zero) zero =
    codes "VC:L/VI:H/VA:H/CR:H/IR:H/AR:H/" ∷ codes "VC:H/VI:L/VA:H/CR:H/IR:H/AR:H/" ∷ []
max_composed_eq3eq6 (suc zero) (suc zero) =
    codes "VC:L/VI:H/VA:L/CR:H/IR:M/AR:H/"
    ∷ codes "VC:L/VI:H/VA:H/CR:H/IR:M/AR:M/"
    ∷ codes "VC:H/VI:L/VA:H/CR:M/IR:H/AR:M/"
    ∷ codes "VC:H/VI:L/VA:L/CR:M/IR:H/AR:H/"
    ∷ codes "VC:L/VI:L/VA:H/CR:H/IR:H/AR:M/"
    ∷ []
max_composed_eq3eq6 (suc (suc zero)) (suc zero) = codes "VC:L/VI:L/VA:L/CR:H/IR:H/AR:H/" ∷ []
max_composed_eq3eq6 _ _ = []

-- `_V4_MAX_SEVERITY_EQ1` to `_EQ4`
abbrev pub max_severity_eq1 : ℕ → Option ℕ
max_severity_eq1 zero = some 1
max_severity_eq1 (suc zero) = some 4
max_severity_eq1 (suc (suc zero)) = some 5
max_severity_eq1 _ = none

abbrev pub max_severity_eq2 : ℕ → Option ℕ
max_severity_eq2 zero = some 1
max_severity_eq2 (suc zero) = some 2
max_severity_eq2 _ = none

abbrev pub max_severity_eq4 : ℕ → Option ℕ
max_severity_eq4 zero = some 6
max_severity_eq4 (suc zero) = some 5
max_severity_eq4 (suc (suc zero)) = some 4
max_severity_eq4 _ = none

abbrev pub max_severity_eq3eq6 : ℕ → ℕ → Option ℕ
max_severity_eq3eq6 zero zero = some 7
max_severity_eq3eq6 zero (suc zero) = some 6
max_severity_eq3eq6 (suc zero) zero = some 8
max_severity_eq3eq6 (suc zero) (suc zero) = some 8
max_severity_eq3eq6 (suc (suc zero)) (suc zero) = some 10
max_severity_eq3eq6 _ _ = none

-- The metrics of the axes.
abbrev pub eq1_metrics : List Text
eq1_metrics = codes "AV" ∷ codes "PR" ∷ codes "UI" ∷ []

abbrev pub eq2_metrics : List Text
eq2_metrics = codes "AC" ∷ codes "AT" ∷ []

abbrev pub eq3eq6_metrics : List Text
eq3eq6_metrics = codes "VC" ∷ codes "VI" ∷ codes "VA" ∷ codes "CR" ∷ codes "IR" ∷ codes "AR" ∷ []

abbrev pub eq4_metrics : List Text
eq4_metrics = codes "SC" ∷ codes "SI" ∷ codes "SA" ∷ []
