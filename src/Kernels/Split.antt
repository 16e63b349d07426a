-- ===== src/Kernels/Split.antt =====
-- What `split_kernel_findings` lists and what it counts.
use cvedeck.Prelude.{
  ℕ, ◌≡◌, refl, ap, ◌∙◌, Bool, true, false, not, ◌&&◌, ◌||◌, Option, none, some, List, [], ◌∷◌,
  if◌then◌else◌, Bool-cases, inl, inr,
}
use cvedeck.Prelude.Text.{Text, text_eq}
use cvedeck.Prelude.Dicts.{get_or}
use cvedeck.PackageId.{
  Fix, unknown, available, newer_release, upstream, no_fix, parse_fix, parse_package_name,
}
use cvedeck.PackageId.Kernel.{is_kernel_package, finding_package}
use cvedeck.Kernels.{
  FindingInput, UnfixedCount, listed, counted, release_named, or_name, counted_place, named_place,
  place_of,
}

-- A finding on a kernel; a fix in the host's own release; known not to be exploited.
abbrev pub on_kernel : Option Text → Bool
on_kernel none = false
on_kernel (some name) = is_kernel_package name none

abbrev pub is_fixable : Fix → Bool
is_fixable (available version) = true
is_fixable unknown = false
is_fixable no_fix = false
is_fixable (newer_release release version) = false
is_fixable (upstream release version) = false

abbrev pub is_harmless : Option Bool → Bool
is_harmless (some false) = true
is_harmless _ = false

abbrev pub is_listed : FindingInput → Bool
is_listed f =
    not (on_kernel (parse_package_name f.package_identifier))
    || is_fixable (parse_fix f.package_identifier)
    || not (is_harmless f.kev_listed)

-- The kernel that a finding is counted for, and the release with the fix.
abbrev name_or_empty : Option Text → Text
name_or_empty none = []
name_or_empty (some name) = name

abbrev pub kernel_of : FindingInput → Text
kernel_of f =
    or_name (finding_package f.package_identifier)
      (name_or_empty (parse_package_name f.package_identifier))

abbrev pub same_name : Option Text → Option Text → Bool
same_name none none = true
same_name (some r) (some s) = text_eq r s
same_name none (some s) = false
same_name (some r) none = false

abbrev pub is_counted_at : Text → Option Text → FindingInput → Bool
is_counted_at key release f =
    not (is_listed f)
    && text_eq (kernel_of f) key
    && same_name (release_named (parse_fix f.package_identifier)) release

abbrev pub select : (FindingInput → Bool) → List FindingInput → List FindingInput
select p [] = []
select p (f ∷ fs) = let rest = select p fs in if p f then f ∷ rest else rest

-- The number that a count holds for a release, or for none.
abbrev pub number_at : Option Text → UnfixedCount → ℕ
number_at none c = c.no_fix
number_at (some release) c = get_or 0 release c.elsewhere

counted_by :
    (f : FindingInput) (name : Text) (fix : Fix) (kev : Option Bool)
    → counted_place f name fix kev ≡ (
        if is_fixable fix || not (is_harmless kev)
        then listed
        else counted (or_name (finding_package f.package_identifier) name) (release_named fix))
counted_by f name (available v) kev = refl
counted_by f name unknown none = refl
counted_by f name unknown (some true) = refl
counted_by f name unknown (some false) = refl
counted_by f name no_fix none = refl
counted_by f name no_fix (some true) = refl
counted_by f name no_fix (some false) = refl
counted_by f name (newer_release r v) none = refl
counted_by f name (newer_release r v) (some true) = refl
counted_by f name (newer_release r v) (some false) = refl
counted_by f name (upstream r v) none = refl
counted_by f name (upstream r v) (some true) = refl
counted_by f name (upstream r v) (some false) = refl

named_by :
    (f : FindingInput) (name : Option Text)
    → named_place f name ≡ (
        if not (on_kernel name)
          || is_fixable (parse_fix f.package_identifier)
          || not (is_harmless f.kev_listed)
        then listed
        else counted
            (or_name (finding_package f.package_identifier) (name_or_empty name))
            (release_named (parse_fix f.package_identifier)))
named_by f none = refl
named_by f (some name) = elim (Bool-cases (is_kernel_package name none)) [
  | inl e ↦ rw e (counted_by f name (parse_fix f.package_identifier) f.kev_listed)
  | inr e ↦ rw e refl
]

place_by :
    (f : FindingInput)
    → place_of f ≡ (
        if is_listed f
        then listed
        else counted (kernel_of f) (release_named (parse_fix f.package_identifier)))
unfolding place_of
place_by f = named_by f (parse_package_name f.package_identifier)

pub place_listed : (f : FindingInput) → is_listed f ≡ true → place_of f ≡ listed
place_listed f h =
    place_by f
    ∙ ap
        (λ b.
          if b
          then listed
          else counted (kernel_of f) (release_named (parse_fix f.package_identifier)))
        h

pub place_counted :
    (f : FindingInput)
    → is_listed f ≡ false
    → place_of f ≡ counted (kernel_of f) (release_named (parse_fix f.package_identifier))
place_counted f h =
    place_by f
    ∙ ap
        (λ b.
          if b
          then listed
          else counted (kernel_of f) (release_named (parse_fix f.package_identifier)))
        h
