-- ===== src/UbuntuKernel/Checked.antt =====
-- How a check of an Ubuntu kernel changes with the installed version.
use mathlib.Core.Path.{subst}
use cvedeck.Prelude.{
  ◌≡◌, refl, ap, sym, ◌∙◌, true, false, inl, inr, Option, none, some, List, [], ◌∷◌, Bool-cases,
}
use cvedeck.Prelude.Int.{ℤ, Sign, less, same, more, sign, flip}
use cvedeck.Prelude.Lex.{AtMost}
use cvedeck.Prelude.Text.{Text}
use cvedeck.Debian.{compare}
use cvedeck.Debian.Versions.{compare_trans, compare-flip}
use cvedeck.UbuntuKernel.{KernelAdvisory, is_less, is_negative, is_open, affecting}

not_less : (s : Sign) → is_less s ≡ false → AtMost (flip s)
not_less less h = cc
not_less same h = λ e. cc
not_less more h = λ e. cc

less_flip : (s : Sign) → is_less s ≡ true → flip s ≡ more
less_flip less h = refl
less_flip same h = cc
less_flip more h = cc

-- An advisory that is open for a version is open for every version that is at most that one.
is_open_below :
    (v w : Text) (x : ℤ) (fixed : Option Text)
    → compare v w ≡ some x
    → AtMost (sign x)
    → is_open w fixed ≡ true
    → is_open v fixed ≡ true
is_open_below v w x none e p h = refl
is_open_below v w x (some f) e p h =
    let (y, z, ey, ez, s) = compare-flip w f in
    let (a, b, ea, eb, t) = compare-flip v f in
    let open_w : is_less (sign y) ≡ true = sym (ap is_negative ey) ∙ h in
    elim (Bool-cases (is_less (sign a))) [
      | inl l ↦ ap is_negative ea ∙ l
      | inr l ↦
          let at_most : AtMost (sign b) = subst AtMost (sym t) (not_less (sign a) l) in
          let (c, ec, q) = compare_trans f v w eb e at_most p in
          let same_answer : some z ≡ some c = sym ez ∙ ec in
          let past : sign z ≡ more = s ∙ less_flip (sign y) open_w in
          absurd (q (ap sign (some_inj (sym same_answer)) ∙ past))
    ]
  where
    some_inj : {u u' : ℤ} → some u ≡ some u' → u ≡ u'
    some_inj e = cc

-- The advisories that apply to a newer kernel apply to every older one: an upgrade adds none.
pub affecting_mono :
    (v w : Text) (x : ℤ) (rows : List KernelAdvisory)
    → compare v w ≡ some x
    → AtMost (sign x)
    → affecting v (affecting w rows) ≡ affecting w rows
unfolding affecting
affecting_mono v w x [] e p = refl
affecting_mono v w x (a ∷ rows) e p = elim (Bool-cases (is_open w a.fixed)) [
  | inl h ↦
      rw h
        (rw (is_open_below v w x a.fixed e p h) (ap (λ rs. a ∷ rs) (affecting_mono v w x rows e p)))
  | inr h ↦ rw h (affecting_mono v w x rows e p)
]
