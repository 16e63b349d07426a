-- ===== src/UpstreamKernel/Series.antt =====
-- Which fixes decide whether a kernel version is affected.
use cvedeck.Prelude.{
  ◌>>=◌, ℕ, ◌≡◌, refl, ap, ◌∙◌, Bool, true, false, not, ◌&&◌, ◌||◌, Option, some, List, [], ◌∷◌,
  all, any, is_some, arith, if◌then◌else◌, Bool-cases, inl, inr,
}
use cvedeck.Releases.{key_lt}
use cvedeck.UpstreamKernel.{
  KernelFeedEntry, UpstreamVerdict, KeyedFix, fixes_of, select_fixes, is_own, earliest, if_before,
  by_own, verdict,
}

key_lt_trans : (a b c : List ℕ) → key_lt a b ≡ true → key_lt b c ≡ true → key_lt a c ≡ true
unfolding key_lt
key_lt_trans [] b [] h k = k
key_lt_trans [] b (z ∷ c) h k = refl
key_lt_trans (x ∷ a) [] c h k = cc
key_lt_trans (x ∷ a) (y ∷ b) [] h k = cc
key_lt_trans (x ∷ a) (y ∷ b) (z ∷ c) h k = ground (arith, key_lt_trans a b c)

-- What is before `b` is before everything that is not before `b`.
key_lt_not : (a b c : List ℕ) → key_lt a b ≡ true → key_lt c b ≡ false → key_lt a c ≡ true
unfolding key_lt
key_lt_not a [] c h k = cc
key_lt_not [] (y ∷ b) [] h k = cc
key_lt_not [] (y ∷ b) (z ∷ c) h k = refl
key_lt_not (x ∷ a) (y ∷ b) [] h k = cc
key_lt_not (x ∷ a) (y ∷ b) (z ∷ c) h k = ground (arith, key_lt_not a b c)

earlier_of :
    (v : List ℕ) (f g : KeyedFix)
    → key_lt v (if key_lt g.1 f.1 then g else f).1 ≡ (key_lt v f.1 && key_lt v g.1)
earlier_of v f g = elim (Bool-cases (key_lt g.1 f.1)) [
  | inl h ↦ rw h (ground (arith, key_lt_trans v g.1 f.1))
  | inr h ↦ rw h (ground (arith, key_lt_not v f.1 g.1))
]

-- Before the earliest fix is before all of them.
before_earliest :
    (v : List ℕ) (f : KeyedFix) (fs : List KeyedFix)
    → key_lt v (earliest f fs).1 ≡ (key_lt v f.1 && all (λ g. key_lt v g.1) fs)
unfolding earliest
before_earliest v f [] = ground arith
before_earliest v f (g ∷ gs) =
    before_earliest v (if key_lt g.1 f.1 then g else f) gs
    ∙ ap (λ b. b && all (λ g. key_lt v g.1) gs) (earlier_of v f g)
    ∙ ground arith

all-select_fixes :
    (p q : KeyedFix → Bool) (fs : List KeyedFix)
    → all q (select_fixes p fs) ≡ all (λ f. not (p f) || q f) fs
unfolding select_fixes
all-select_fixes p q [] = refl
all-select_fixes p q (f ∷ fs) = ground (arith, all-select_fixes p q fs)

select_fixes-any :
    (p : KeyedFix → Bool) (fs : List KeyedFix) → select_fixes p fs ≡ [] → any p fs ≡ false
unfolding select_fixes
select_fixes-any p [] e = refl
select_fixes-any p (f ∷ fs) e = ground (arith, select_fixes-any p fs)

if_before-is_some :
    (entry : KernelFeedEntry) (v : List ℕ) (f : KeyedFix)
    → is_some (if_before entry v f) ≡ key_lt v f.1
if_before-is_some entry v f = elim (Bool-cases (key_lt v f.1)) [
  | inl h ↦ rw h refl
  | inr h ↦ rw h refl
]

-- The verdict, whether there is one
abbrev pub IsAffected : Option (Option UpstreamVerdict) → Bool → Type 0
IsAffected o b = (x : Option UpstreamVerdict) × (o ≡ some x) × (is_some x ≡ b)

own_decides :
    (v : List ℕ) (entry : KernelFeedEntry) (fixes own : List KeyedFix)
    → select_fixes (is_own v) fixes ≡ own
    → any (is_own v) fixes ≡ true
    → IsAffected (by_own v entry fixes own) (all (λ g. key_lt v g.1) own)
own_decides v entry fixes [] e h = let no = select_fixes-any (is_own v) fixes e in cc
own_decides v entry fixes (f ∷ fs) e h = (
  if_before entry v (earliest f fs),
  refl,
  if_before-is_some entry v (earliest f fs) ∙ before_earliest v f fs,
)

-- When an advisory lists a fix in the kernel's own series (its major and minor version), those fixes
-- alone decide: there is an answer, and the kernel is affected exactly when it is before every one of
-- them, whatever the ranges of other series span. The advisory's fixes are kernel versions.
pub verdict-is_own :
    (v : List ℕ) (entry : KernelFeedEntry) (fixes : List KeyedFix)
    → fixes_of entry.ranges ≡ some fixes
    → any (is_own v) fixes ≡ true
    → IsAffected (verdict v entry) (all (λ f. not (is_own v f) || key_lt v f.1) fixes)
unfolding verdict
verdict-is_own v entry fixes e h =
    let (x, made, affected) = own_decides v entry fixes (select_fixes (is_own v) fixes) refl h in
    (
      x,
      ap (λ o. o >>= λ fs. by_own v entry fs (select_fixes (is_own v) fs)) e ∙ made,
      affected ∙ all-select_fixes (is_own v) (λ g. key_lt v g.1) fixes,
    )
