-- ===== src/Releases/Names.antt =====
-- `release_display_name` of releases.py.
use cvedeck.Prelude.{
  ℕ, Bool, true, false, ◌&&◌, ◌||◌, Option, none, some, List, [], ◌∷◌, ◌++◌, ◌==◌, ◌-◌, leb, all,
  map, if◌then◌else◌,
}
use cvedeck.Prelude.Text.{
  Text, codes, text_eq, is_digit, is_alpha, strip, partition, strip_prefix, lower_char,
}
use cvedeck.Releases.{Release, parse_release, fmap}
use cvedeck.PackageId.{and_then}

-- `[a-z0-9_]+`, `[0-9][0-9.]*` and `[A-Za-z0-9_]+`
abbrev pub is_product : Text → Bool
is_product [] = false
is_product (c ∷ s) = all (λ d. leb b'a' d && leb d b'z' || is_digit d || d == b'_') (c ∷ s)

abbrev pub is_version : Text → Bool
is_version [] = false
is_version (c ∷ s) = is_digit c && all (λ d. is_digit d || d == b'.') s

abbrev pub is_tag : Text → Bool
is_tag [] = false
is_tag (c ∷ s) = all (λ d. is_alpha d || is_digit d || d == b'_') (c ∷ s)

-- `(?:::?[A-Za-z0-9_]+)?` behind the version
abbrev pub tag_of : Text → Text
tag_of s = elim (strip_prefix (codes ":") s) [ none ↦ s | some rest ↦ rest ]

abbrev pub version_of : Text → Option Text
version_of s = elim (partition b':' s) [
  | none ↦ if is_version s then some s else none
  | some (version, rest) ↦ if is_version version && is_tag (tag_of rest) then some version else none
]

abbrev pub product_version : Text × Text → Option (Text × Text)
product_version (product, rest) =
    if is_product product then fmap (λ version. (product, version)) (version_of rest) else none

unfoldable pub red_hat_product : Text → Option (Text × Text)
red_hat_product eco =
    and_then product_version (and_then (partition b':') (strip_prefix (codes "Red Hat:") eco))

-- `_RED_HAT_PRODUCTS`, what stands before and behind the version
abbrev pub red_hat_products : List (Text × Text × Text)
red_hat_products =
    (codes "enterprise_linux", codes "RHEL ", [])
    ∷ (codes "enterprise_linux_eus", codes "RHEL ", codes " EUS")
    ∷ (codes "enterprise_linux_nvidia", codes "RHEL ", codes " for NVIDIA")
    ∷ (codes "rhel_eus", codes "RHEL ", codes " EUS")
    ∷ (codes "rhel_aus", codes "RHEL ", codes " AUS")
    ∷ (codes "rhel_e4s", codes "RHEL ", codes " E4S")
    ∷ (codes "rhel_tus", codes "RHEL ", codes " TUS")
    ∷ (codes "rhel_mission_critical", codes "RHEL ", codes " Mission Critical")
    ∷ (codes "openshift", codes "OpenShift ", [])
    ∷ (codes "hummingbird", codes "Red Hat Hummingbird ", [])
    ∷ []

unfoldable pub template_of : Text → List (Text × Text × Text) → Option (Text × Text)
template_of product [] = none
template_of product ((name, before, behind) ∷ rest) = elim (text_eq name product) [
  | true ↦ some (before, behind)
  | false ↦ template_of product rest
]

-- `replace("_", " ")`, `upper()` and `title()`
abbrev pub upper_char : ℕ → ℕ
upper_char c = if leb b'a' c && leb c b'z' then c - 32 else c

abbrev pub spaced : Text → Text
spaced s = map (λ c. if c == b'_' then b' ' else c) s

-- `inside` says whether a letter stands before.
unfoldable pub title_from : Bool → Text → Text
title_from inside [] = []
title_from inside (c ∷ s) =
    (if inside then lower_char c else upper_char c) ∷ title_from (is_alpha c) s

abbrev pub unlisted_name : Text → Text → Text
unlisted_name product version = elim (strip_prefix (codes "rhel_") product) [
  | some stream ↦ codes "RHEL " ++ (version ++ b' ' ∷ map upper_char (spaced stream))
  | none ↦ codes "Red Hat " ++ (title_from false (spaced product) ++ b' ' ∷ version)
]

abbrev pub product_name : Text × Text → Text
product_name (product, version) = elim (template_of product red_hat_products) [
  | some (before, behind) ↦ before ++ (version ++ behind)
  | none ↦ unlisted_name product version
]

abbrev pub label_or : Text → Option Release → Text
label_or eco (some release) = release.label
label_or eco none = elim (red_hat_product eco) [ none ↦ eco | some found ↦ product_name found ]

-- `release_display_name`
unfoldable pub release_display_name : Text → Text
release_display_name ecosystem = let eco = strip ecosystem in label_or eco (parse_release eco)
