-- ===== src/Cvss.antt =====
-- backend/app/scanner/cvss.py: CVSS vectors. Here the vector is split into its metrics, which are kept
-- as the list of the pairs of the dictionary, in order. `none` is `_UnscorableVector`.
pub mod Scores
pub mod V4
pub mod Maxima
pub mod Interpolate
pub mod V3
pub mod Known
pub mod Entries
mod Samples
use cvedeck.Prelude.{
  ℕ, Bool, true, false, Option, none, some, List, [], ◌∷◌, ◌++◌, is_some, ◌==◌, if◌then◌else◌,
}
use cvedeck.Prelude.Text.{Text, codes, text_eq, partition}

abbrev pub Metrics : Type 0
Metrics = List (Text × Text)

-- `metrics.get(name)`
unfoldable pub get : Text → Metrics → Option Text
get name [] = none
get name ((key, value) ∷ rest) =
    let later = get name rest in if text_eq key name then some value else later

-- `text.split(separator)`
abbrev pub onto_first : ℕ → List Text → List Text
onto_first c [] = (c ∷ []) ∷ []
onto_first c (part ∷ parts) = (c ∷ part) ∷ parts

unfoldable pub split_at : ℕ → Text → List Text
split_at separator [] = [] ∷ []
split_at separator (c ∷ text) = elim (c == separator) [
  | true ↦ [] ∷ split_at separator text
  | false ↦ onto_first c (split_at separator text)
]

-- One component of the vector, behind those read.
abbrev pub add_metric : Metrics → Option (Text × Text) → Option Metrics
add_metric metrics none = none
add_metric metrics (some ([], value)) = none
add_metric metrics (some (c ∷ name, [])) = none
add_metric metrics (some (c ∷ name, d ∷ value)) =
    if is_some (get (c ∷ name) metrics) then none else some (metrics ++ (c ∷ name, d ∷ value) ∷ [])

unfoldable pub parse_parts : List Text → Metrics → Option Metrics
parse_parts [] metrics = some metrics
parse_parts (part ∷ parts) metrics = elim (add_metric metrics (partition b':' part)) [
  | none ↦ none
  | some more ↦ parse_parts parts more
]

-- `_parse_vector`
unfoldable pub parse_vector : Text → Option Metrics
parse_vector vector = parse_parts (split_at b'/' vector) []
