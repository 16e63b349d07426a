-- ===== src/Kernels/Counts.antt =====
-- The list and the counts that `split_kernel_findings` returns.
use cvedeck.Prelude.{
  ℕ, suc, ◌+◌, ◌≡◌, refl, sym, ap, ◌∙◌, not, ◌&&◌, Option, none, some, List, [], ◌∷◌, ◌++◌,
  append_assoc, append-nil, length, length-append, if◌then◌else◌, arith, Bool-cases, inl, inr,
}
use cvedeck.Prelude.Text.{Text, text_eq, text_eq_iff}
use cvedeck.Prelude.Dicts.{Dict, get_or, update_at, get_or-update_at_same, get_or-update_at_other}
use cvedeck.PackageId.{parse_fix}
use cvedeck.Kernels.{
  FindingInput, UnfixedCount, no_count, sum_values, total, Place, listed, counted, release_named,
  place_of, add_count, Split, place, split_from, split_kernel_findings,
}
use cvedeck.Kernels.Split.{
  is_listed, kernel_of, same_name, is_counted_at, select, number_at, place_listed, place_counted,
}

-- One more under a key, and nothing else changed.
number_at-add_count :
    (r s : Option Text) (c : UnfixedCount)
    → number_at r (add_count s c) ≡ (if same_name s r then suc (number_at r c) else number_at r c)
number_at-add_count none none c = refl
number_at-add_count none (some s) c = refl
number_at-add_count (some r) none c = refl
number_at-add_count (some r) (some s) c = elim (Bool-cases (text_eq s r)) [
  | inl e ↦
      let same = (text_eq_iff s r).0 e in
      ap (λ t. get_or 0 r (update_at suc 0 t c.elsewhere)) same
      ∙ get_or-update_at_same suc 0 r c.elsewhere
      ∙ sym (ap (λ b. if b then suc (get_or 0 r c.elsewhere) else get_or 0 r c.elsewhere) e)
  | inr e ↦
      get_or-update_at_other suc 0 s r c.elsewhere e
      ∙ sym (ap (λ b. if b then suc (get_or 0 r c.elsewhere) else get_or 0 r c.elsewhere) e)
]

abbrev pub number_of : Text → Option Text → Dict UnfixedCount → ℕ
number_of key r counts = number_at r (get_or no_count key counts)

number_of-update_at :
    (key k : Text) (r s : Option Text) (counts : Dict UnfixedCount)
    → number_of key r (update_at (add_count s) no_count k counts) ≡ (
        if text_eq k key && same_name s r
        then suc (number_of key r counts)
        else number_of key r counts)
number_of-update_at key k r s counts = elim (Bool-cases (text_eq k key)) [
  | inl e ↦
      let same = (text_eq_iff k key).0 e in
      ap (λ t. number_of key r (update_at (add_count s) no_count t counts)) same
      ∙ ap (number_at r) (get_or-update_at_same (add_count s) no_count key counts)
      ∙ number_at-add_count r s (get_or no_count key counts)
      ∙ sym (
          ap
            (λ b.
              if b && same_name s r then suc (number_of key r counts) else number_of key r counts)
            e)
  | inr e ↦
      ap (number_at r) (get_or-update_at_other (add_count s) no_count k key counts e)
      ∙ sym (
          ap
            (λ b.
              if b && same_name s r then suc (number_of key r counts) else number_of key r counts)
            e)
]

-- Each state of the loop.
split_from-kept :
    (kept : List FindingInput) (counts : Dict UnfixedCount) (fs : List FindingInput)
    → (split_from (kept, counts) fs).0 ≡ kept ++ select is_listed fs
unfolding split_from
split_from-kept kept counts [] = sym (append-nil kept)
split_from-kept kept counts (f ∷ fs) = elim (Bool-cases (is_listed f)) [
  | inl e ↦
      ap (λ p. (split_from (place f p (kept, counts)) fs).0) (place_listed f e)
      ∙ split_from-kept (kept ++ f ∷ []) counts fs
      ∙ append_assoc kept (f ∷ []) (select is_listed fs)
      ∙ sym (ap (λ b. kept ++ (if b then f ∷ select is_listed fs else select is_listed fs)) e)
  | inr e ↦
      ap (λ p. (split_from (place f p (kept, counts)) fs).0) (place_counted f e)
      ∙ split_from-kept kept
          (update_at (add_count (release_named (parse_fix f.package_identifier))) no_count
            (kernel_of f) counts)
          fs
      ∙ sym (ap (λ b. kept ++ (if b then f ∷ select is_listed fs else select is_listed fs)) e)
]

split_from-counts :
    (key : Text) (r : Option Text) (kept : List FindingInput) (counts : Dict UnfixedCount)
    (fs : List FindingInput)
    → number_of key r (split_from (kept, counts) fs).1
      ≡ number_of key r counts + length (select (is_counted_at key r) fs)
unfolding split_from
split_from-counts key r kept counts [] = omega arith
split_from-counts key r kept counts (f ∷ fs) = elim (Bool-cases (is_listed f)) [
  | inl e ↦
      ap (λ p. number_of key r (split_from (place f p (kept, counts)) fs).1) (place_listed f e)
      ∙ split_from-counts key r (kept ++ f ∷ []) counts fs
      ∙ sym (
          ap
            (λ b.
              number_of key r counts
              + length (
                  if not b
                    && text_eq (kernel_of f) key
                    && same_name (release_named (parse_fix f.package_identifier)) r
                  then f ∷ select (is_counted_at key r) fs
                  else select (is_counted_at key r) fs))
            e)
  | inr e ↦
      let s = release_named (parse_fix f.package_identifier) in
      let next = update_at (add_count s) no_count (kernel_of f) counts in
      let step = number_of-update_at key (kernel_of f) r s counts in
      let rest = split_from-counts key r kept next fs in
      ap (λ p. number_of key r (split_from (place f p (kept, counts)) fs).1) (place_counted f e)
      ∙ ground arith
]

-- The list holds, in their order, exactly the findings that are not on a kernel, have a fix in the
-- host's own release, or are not known to be absent from the catalogue of exploited vulnerabilities;
-- and the count of a kernel under a release, or under none, is the number of the other findings on
-- that kernel whose fix is in that release only, or nowhere.
pub split_kernel_findings-Counts :
    (fs : List FindingInput) (key : Text) (release : Option Text)
    → ((split_kernel_findings fs).0 ≡ select is_listed fs)
      × (number_of key release (split_kernel_findings fs).1
          ≡ length (select (is_counted_at key release) fs))
unfolding split_kernel_findings get_or
split_kernel_findings-Counts fs key release = (
  split_from-kept [] [] fs,
  omega (arith, split_from-counts key release [] [] fs, nothing_counted release),
)
  where
    nothing_counted : (r : Option Text) → number_at r no_count ≡ 0
    nothing_counted none = refl
    nothing_counted (some r) = refl

-- All that is counted
unfoldable pub total_all : Dict UnfixedCount → ℕ
total_all [] = 0
total_all ((k, c) ∷ counts) = total c + total_all counts

sum_values-update_at :
    (r : Text) (d : Dict ℕ) → sum_values (update_at suc 0 r d) ≡ suc (sum_values d)
unfolding sum_values update_at
sum_values-update_at r [] = refl
sum_values-update_at r ((k, n) ∷ d) = elim (Bool-cases (text_eq k r)) [
  | inl e ↦ rw e (omega arith)
  | inr e ↦ rw e (omega (arith, sum_values-update_at r d))
]

total-add_count : (s : Option Text) (c : UnfixedCount) → total (add_count s c) ≡ suc (total c)
total-add_count none c = omega arith
total-add_count (some s) c = omega (arith, sum_values-update_at s c.elsewhere)

total_all-update_at :
    (s : Option Text) (k : Text) (counts : Dict UnfixedCount)
    → total_all (update_at (add_count s) no_count k counts) ≡ suc (total_all counts)
unfolding total_all update_at sum_values
total_all-update_at s k [] = omega (arith, total-add_count s no_count)
total_all-update_at s k ((j, c) ∷ counts) = elim (Bool-cases (text_eq j k)) [
  | inl e ↦ rw e (omega (arith, total-add_count s c))
  | inr e ↦ rw e (omega (arith, total_all-update_at s k counts))
]

length_snoc : (fs : List FindingInput) (f : FindingInput) → length (fs ++ f ∷ []) ≡ suc (length fs)
length_snoc fs f = omega (arith, length-append fs (f ∷ []))

abbrev size : Split → ℕ
size (kept, counts) = length kept + total_all counts

size-place :
    (f : FindingInput) (p : Place) (state : Split) → size (place f p state) ≡ suc (size state)
size-place f listed (kept, counts) = omega (arith, length_snoc kept f)
size-place f (counted key r) (kept, counts) = omega (arith, total_all-update_at r key counts)

size-split_from :
    (state : Split) (fs : List FindingInput) → size (split_from state fs) ≡ size state + length fs
unfolding split_from
size-split_from state [] = omega arith
size-split_from state (f ∷ fs) =
    omega (arith, size-place f (place_of f) state, size-split_from (place f (place_of f) state) fs)

-- No finding is lost and none is taken twice: the findings on the list and the counts of all kernels
-- together are as many as there were.
pub split_kernel_findings-size :
    (fs : List FindingInput)
    → length (split_kernel_findings fs).0 + total_all (split_kernel_findings fs).1 ≡ length fs
unfolding split_kernel_findings total_all
split_kernel_findings-size fs = omega (arith, size-split_from ([], []) fs)
