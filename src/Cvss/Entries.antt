-- ===== src/Cvss/Entries.antt =====
-- The table of cvss.py against the digits that `_v4_macrovector` can make.
use cvedeck.Prelude.{
  ap, sym, ◌∙◌, String, inl, inr, Bool-cases, ℕ, zero, suc, ◌<◌, ◌≡◌, ◌⊎◌, refl, Bool, true, false,
  ◌&&◌, ◌||◌, Option, none, some, List, [], ◌∷◌, arith, all, leb, ◌==◌, is_some,
}
use cvedeck.Cvss.Scores.{find_score, Digits, key_of, lookup}
use cvedeck.Prelude.Text.{Text, codes, text_eq, text_eq_iff}
use cvedeck.Cvss.{Metrics, get}
use cvedeck.Cvss.V4.{
  eq3eq6_next_lower_score, available, is_allowed, v4_values, is_valid, or_x, unless_x, v4_metric,
  eq1_of, eq2_of, eq3_of, is_safety, eq4_of, eq5_of, eq6_of, with_eq5, v4_macrovector,
}

unfoldable pub at_most : Option ℕ → Option ℕ → Bool
at_most none score = true
at_most (some lower) none = false
at_most (some lower) (some score) = leb lower score

-- A MacroVector of the table whose next lower ones do not score more.
unfoldable pub is_sound : Digits → Bool
is_sound d =
    let score = lookup d in
    let a = available d in
    is_some score
    && at_most a.eq1 score
    && at_most a.eq2 score
    && at_most a.eq3eq6 score
    && at_most a.eq4 score
    && at_most a.eq5 score

abbrev below : ℕ → List ℕ
below zero = []
below (suc n) = n ∷ below n

and_true : (a b : Bool) → a && b ≡ true → (a ≡ true) × (b ≡ true)
and_true a b h = (ground arith, ground arith)

last_or_below : (i n : ℕ) → i < suc n → (i ≡ n) ⊎ (i < n)
last_or_below i n l = omega (arith, l)

below-all : (n : ℕ) (p : ℕ → Bool) → all p (below n) ≡ true → (i : ℕ) → i < n → p i ≡ true
below-all zero p h i l = ground (arith, l)
below-all (suc n) p h i l =
    let both = and_true (p n) (all p (below n)) h in
    elim (last_or_below i n l) [ inl e ↦ ap p e ∙ both.0 | inr l' ↦ below-all n p both.1 i l' ]

-- Every MacroVector that there is.
unfoldable sound_at : ℕ → ℕ → ℕ → ℕ → ℕ → ℕ → Bool
sound_at a b c d e f =
    c == 2 && f == 0 || is_sound (record { eq1 = a; eq2 = b; eq3 = c; eq4 = d; eq5 = e; eq6 = f })

whole_table :
    all
      (λ a.
        all
          (λ b.
            all
              (λ c.
                all (λ d. all (λ e. all (λ f. sound_at a b c d e f) (below 2)) (below 3)) (below 3))
              (below 3))
          (below 2))
      (below 3)
    ≡ true
unfolding sound_at is_sound at_most available eq3eq6_next_lower_score lookup key_of find_score
whole_table = refl

from_table :
    (a b c d e f : ℕ) → a < 3 → b < 2 → c < 3 → d < 3 → e < 3 → f < 2 → sound_at a b c d e f ≡ true
from_table a b c d e f ha hb hc hd he hf =
    let p5 = λ (x : ℕ). sound_at a b c d e x in
    let p4 = λ (x : ℕ). all (λ f'. sound_at a b c d x f') (below 2) in
    let p3 = λ (x : ℕ). all (λ e'. all (λ f'. sound_at a b c x e' f') (below 2)) (below 3) in
    let p2 = λ (x : ℕ).
      all (λ d'. all (λ e'. all (λ f'. sound_at a b x d' e' f') (below 2)) (below 3)) (below 3) in
    let p1 = λ (x : ℕ).
      all
        (λ c'.
          all (λ d'. all (λ e'. all (λ f'. sound_at a x c' d' e' f') (below 2)) (below 3))
            (below 3))
        (below 3) in
    let p0 = λ (x : ℕ).
      all
        (λ b'.
          all
            (λ c'.
              all (λ d'. all (λ e'. all (λ f'. sound_at x b' c' d' e' f') (below 2)) (below 3))
                (below 3))
            (below 3))
        (below 2) in
    below-all 2 p5
      (below-all 3 p4
        (below-all 3 p3
          (below-all 3 p2 (below-all 2 p1 (below-all 3 p0 whole_table a ha) b hb) c hc) d hd)
        e he)
      f hf

-- A value that the dictionary holds passed the check.
get-is_allowed :
    (values : List (Text × List Text)) (name value : Text) (metrics : Metrics)
    → all (λ metric. is_allowed metric.0 metric.1 values) metrics ≡ true
    → get name metrics ≡ some value
    → is_allowed name value values ≡ true
unfolding get
get-is_allowed values name value [] h e = cc
get-is_allowed values name value ((key, v) ∷ rest) h e =
    let both =
      and_true (is_allowed key v values) (all (λ metric. is_allowed metric.0 metric.1 values) rest)
        h in
    elim (Bool-cases (text_eq key name)) [
      | inl t ↦
          let same : key ≡ name = (text_eq_iff key name).0 t in
          let found : some v ≡ some value = sym (rw t refl) ∙ e in
          let values_eq : v ≡ value = cc in rw (← same, ← values_eq) both.0
      | inr f ↦ get-is_allowed values name value rest both.1 (sym (rw f refl) ∙ e)
    ]

maturity_lt :
    (found : Option Text)
    → ((value : Text) → found ≡ some value → is_allowed (codes "E") value v4_values ≡ true)
    → (eq5 : ℕ) × (eq5 < 3) × (eq5_of (unless_x (codes "A") (or_x found)) ≡ some eq5)
unfolding is_allowed text_eq
maturity_lt none h = (0, omega arith, refl)
maturity_lt (some value) h =
    go (text_eq value (codes "X")) (text_eq value (codes "A")) (text_eq value (codes "P"))
      (text_eq value (codes "U")) refl refl refl refl (h value refl)
  where
    go :
        (x a p u : Bool)
        → text_eq value (codes "X") ≡ x
        → text_eq value (codes "A") ≡ a
        → text_eq value (codes "P") ≡ p
        → text_eq value (codes "U") ≡ u
        → is_allowed (codes "E") value v4_values ≡ true
        → (eq5 : ℕ) × (eq5 < 3) × (eq5_of (unless_x (codes "A") (or_x (some value))) ≡ some eq5)
    go true a p u ex ea ep eu w = (0, omega arith, rw ex refl)
    go false true p u ex ea ep eu w = (0, omega arith, rw (ex, ea) refl)
    go false false true u ex ea ep eu w = (1, omega arith, rw (ex, ea, ep) refl)
    go false false false true ex ea ep eu w = (2, omega arith, rw (ex, ea, ep, eu) refl)
    go false false false false ex ea ep eu w =
        let none_fits : is_allowed (codes "E") value v4_values ≡ false = rw (ex, ea, ep, eu) refl in
        cc

eq1_lt : (av pr ui : Text) → eq1_of av pr ui < 3
eq1_lt av pr ui = ground arith

eq2_lt : (ac at : Text) → eq2_of ac at < 2
eq2_lt ac at = ground arith

eq3_lt : (vc vi va : Text) → eq3_of vc vi va < 3
eq3_lt vc vi va = ground arith

eq4_lt : (safety : Bool) (sc si sa : Text) → eq4_of safety sc si sa < 3
eq4_lt safety sc si sa = ground arith

eq6_lt : (vc vi va cr ir ar : Text) → eq6_of vc vi va cr ir ar < 2
eq6_lt vc vi va cr ir ar = ground arith

no_such_set :
    (vc vi va cr ir ar : Text) → eq3_of vc vi va == 2 && eq6_of vc vi va cr ir ar == 0 ≡ false
no_such_set vc vi va cr ir ar = ground arith

second_of_or : (a b : Bool) → a ≡ false → a || b ≡ true → b ≡ true
second_of_or a b f h = ground arith

-- Every vector that passed the checks has a MacroVector, so that the dictionary for E never raises;
-- the table has a score for it, and no next lower MacroVector that the code reads has a higher one.
pub v4_macrovector-is_sound :
    (metrics : Metrics)
    → is_valid metrics ≡ true
    → (d : Digits) × (v4_macrovector metrics ≡ some d) × (is_sound d ≡ true)
unfolding is_valid v4_macrovector sound_at v4_metric text_eq
v4_macrovector-is_sound metrics h =
    let m : String → Text = λ name. v4_metric metrics (codes name) in
    let allowed =
      (and_true (all (λ metric. is_allowed metric.0 metric.1 v4_values) metrics) _ h).0 in
    let (eq5, l, e) =
      maturity_lt (get (codes "E") metrics)
        (λ v g. get-is_allowed v4_values (codes "E") v metrics allowed g) in
    let safety = is_safety (get (codes "MSI") metrics) || is_safety (get (codes "MSA") metrics) in
    (
      record {
        eq1 = eq1_of (m "AV") (m "PR") (m "UI");
        eq2 = eq2_of (m "AC") (m "AT");
        eq3 = eq3_of (m "VC") (m "VI") (m "VA");
        eq4 = eq4_of safety (m "SC") (m "SI") (m "SA");
        eq5 = eq5;
        eq6 = eq6_of (m "VC") (m "VI") (m "VA") (m "CR") (m "IR") (m "AR");
      },
      ap (with_eq5 _) e,
      second_of_or _ _ (no_such_set (m "VC") (m "VI") (m "VA") (m "CR") (m "IR") (m "AR")) (
          from_table _ _ _ _ _ _ (eq1_lt (m "AV") (m "PR") (m "UI")) (eq2_lt (m "AC") (m "AT"))
            (eq3_lt (m "VC") (m "VI") (m "VA")) (eq4_lt safety (m "SC") (m "SI") (m "SA")) l
            (eq6_lt (m "VC") (m "VI") (m "VA") (m "CR") (m "IR") (m "AR"))),
    )
