-- ===== src/Cvss/Known.antt =====
-- Which vectors CVSS v3.x scores.
use cvedeck.Prelude.{
  ◌∙◌, ℕ, ◌≡◌, refl, Bool, true, false, ◌&&◌, Option, none, some, List, [], ◌∷◌, is_some, any,
  arith, if◌then◌else◌, all,
}
use cvedeck.Prelude.Text.{Text, codes, text_eq, strip_prefix}
use cvedeck.Floats.Arithmetic.{Arithmetic}
use cvedeck.Cvss.{Metrics, get, parse_vector}
use cvedeck.Cvss.V3.{
  v3_pr_unchanged, v3_pr_changed, find_level, level_in, level, scope_of, ◌>>=◌, v3_levels,
  v3_formula, cvss_v3_base_score,
}

-- The metric has one of the letters.
unfoldable pub has_letter : List Text → Option Text → Bool
has_letter letters none = false
has_letter letters (some value) = any (λ letter. text_eq letter value) letters

-- The eight mandatory metrics and the letters that the specification has for them.
abbrev pub v3_letters : List (Text × List Text)
v3_letters =
    (codes "S", codes "U" ∷ codes "C" ∷ [])
    ∷ (codes "AV", codes "N" ∷ codes "A" ∷ codes "L" ∷ codes "P" ∷ [])
    ∷ (codes "AC", codes "L" ∷ codes "H" ∷ [])
    ∷ (codes "UI", codes "N" ∷ codes "R" ∷ [])
    ∷ (codes "PR", codes "N" ∷ codes "L" ∷ codes "H" ∷ [])
    ∷ (codes "C", codes "H" ∷ codes "L" ∷ codes "N" ∷ [])
    ∷ (codes "I", codes "H" ∷ codes "L" ∷ codes "N" ∷ [])
    ∷ (codes "A", codes "H" ∷ codes "L" ∷ codes "N" ∷ [])
    ∷ []

unfoldable pub is_known : Metrics → Bool
is_known metrics = all (λ m. has_letter m.1 (get m.0 metrics)) v3_letters

known3 :
    (a b c : Text) (i j k : ℕ) (found : Option Text)
    → is_some (level_in ((a, i) ∷ (b, j) ∷ (c, k) ∷ []) found) ≡ has_letter (a ∷ b ∷ c ∷ []) found
unfolding find_level has_letter
known3 a b c i j k found = ground arith

known2 :
    (a b : Text) (i j : ℕ) (found : Option Text)
    → is_some (level_in ((a, i) ∷ (b, j) ∷ []) found) ≡ has_letter (a ∷ b ∷ []) found
unfolding find_level has_letter
known2 a b i j found = ground arith

known4 :
    (a b c d : Text) (i j k l : ℕ) (found : Option Text)
    → is_some (level_in ((a, i) ∷ (b, j) ∷ (c, k) ∷ (d, l) ∷ []) found)
      ≡ has_letter (a ∷ b ∷ c ∷ d ∷ []) found
unfolding find_level has_letter
known4 a b c d i j k l found = ground arith

scope_known :
    (found : Option Text) → is_some (scope_of found) ≡ has_letter (codes "U" ∷ codes "C" ∷ []) found
unfolding has_letter
scope_known found = ground arith

both_there :
    {A B : Type 0} (x : Option A) (f : A → Option B) (a b : Bool)
    → is_some x ≡ a
    → ((y : A) → is_some (f y) ≡ b)
    → is_some (x >>= f) ≡ (a && b)
both_there none f a b e h = rw (← e) refl
both_there (some y) f a b e h = rw (← e) (h y)

and_with_true : (a : Bool) → a && true ≡ a
and_with_true a = ground arith

pr_known :
    (changed : Bool) (metrics : Metrics)
    → is_some (level (if changed then v3_pr_changed else v3_pr_unchanged) metrics (codes "PR"))
      ≡ has_letter (codes "N" ∷ codes "L" ∷ codes "H" ∷ []) (get (codes "PR") metrics)
unfolding level
pr_known true metrics = known3 _ _ _ _ _ _ (get (codes "PR") metrics)
pr_known false metrics = known3 _ _ _ _ _ _ (get (codes "PR") metrics)

levels_known : (metrics : Metrics) → is_some (v3_levels metrics) ≡ is_known metrics
unfolding v3_levels is_known level
levels_known metrics = both_there _ _ _ _ (scope_known (get (codes "S") metrics)) λ changed.
    both_there _ _ _ _ (known4 _ _ _ _ _ _ _ _ (get (codes "AV") metrics)) λ av.
      both_there _ _ _ _ (known2 _ _ _ _ (get (codes "AC") metrics)) λ ac.
        both_there _ _ _ _ (known2 _ _ _ _ (get (codes "UI") metrics)) λ ui.
          both_there _ _ _ _ (pr_known changed metrics) λ pr.
            both_there _ _ _ _ (known3 _ _ _ _ _ _ (get (codes "C") metrics)) λ conf.
              both_there _ _ _ _ (known3 _ _ _ _ _ _ (get (codes "I") metrics)) λ integ.
                both_there _ _ _ _ (known3 _ _ _ _ _ _ (get (codes "A") metrics)) λ avail. refl

-- A vector that v3.x can score: the prefix, the syntax, and every mandatory metric with a letter that
-- the specification has.
abbrev pub if_known : Option Metrics → Bool
if_known none = false
if_known (some metrics) = is_known metrics

unfoldable pub is_scorable : Text → Bool
is_scorable vector =
    is_some (strip_prefix (codes "CVSS:3.") vector) && if_known (parse_vector vector)

-- Whatever the float arithmetic, a v3.x vector has a score exactly if it has the prefix, is well
-- formed, and gives each of the eight mandatory metrics a letter that the specification has for it.
-- Metrics beside those do not matter.
pub cvss_v3_base_score-is_scorable :
    (arithmetic : Arithmetic) (vector : Text)
    → is_some (cvss_v3_base_score arithmetic vector) ≡ is_scorable vector
unfolding cvss_v3_base_score is_scorable
cvss_v3_base_score-is_scorable arithmetic vector =
    both_there (strip_prefix (codes "CVSS:3.") vector) _ _ (if_known (parse_vector vector)) refl
      λ rest. of_parsed (parse_vector vector)
  where
    of_parsed :
        (parsed : Option Metrics)
        → is_some (
            parsed >>= λ metrics.
            v3_levels metrics >>= λ levels. some (v3_formula arithmetic levels))
          ≡ if_known parsed
    of_parsed none = refl
    of_parsed (some metrics) =
        both_there (v3_levels metrics) _ (is_known metrics) true (levels_known metrics)
          (λ levels. refl)
        ∙ and_with_true (is_known metrics)
