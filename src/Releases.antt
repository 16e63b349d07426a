-- ===== src/Releases.antt =====
-- backend/app/scanner/releases.py: distribution releases, read off the ecosystem names of OSV. The
-- regular expressions are written out; `\d` is an ASCII digit.
pub mod Names
pub mod Queries
mod Samples
use cvedeck.Prelude.{
  ℕ, zero, suc, Bool, true, false, not, ◌&&◌, ◌||◌, Option, none, some, List, [], ◌∷◌, ◌++◌, ◌==◌,
  ltb, leb, all, any, map, is_some, if◌then◌else◌,
}
use cvedeck.PackageId.{and_then}
use cvedeck.Prelude.Text.{
  Text, codes, text_eq, is_digit, is_alpha, text_is_digit, to_int, to_int_from, strip, partition,
  strip_prefix, lower,
}

-- The distribution families.
pub data Family : Type 0 where
  debian ubuntu alpine alma_linux rocky_linux red_hat opensuse_leap : Family

abbrev pub family_code : Family → ℕ
family_code debian = 0
family_code ubuntu = 1
family_code alpine = 2
family_code alma_linux = 3
family_code rocky_linux = 4
family_code red_hat = 5
family_code opensuse_leap = 6

abbrev pub family_eq : Family → Family → Bool
family_eq f g = family_code f == family_code g

-- `Release`
pub record Release : Type 0 where
  pub family : Family
  pub key : List ℕ
  pub label : Text
  pub subscription : Bool

abbrev pub release_of : Family → List ℕ → Text → Release
release_of family key label = record {
  family = family;
  key = key;
  label = label;
  subscription = false;
}

-- The text behind a prefix, if it is all digits.
abbrev pub if_digits : Text → Option Text
if_digits s = if text_is_digit s then some s else none

unfoldable pub digits_behind : Text → Text → Option Text
digits_behind prefix eco = and_then if_digits (strip_prefix prefix eco)

-- `\d{1,2}`
abbrev pub at_most_two : Text → Option Text
at_most_two (c ∷ d ∷ e ∷ s) = none
at_most_two s = if_digits s

-- `\d+\.\d+`, both numbers
abbrev pub both_digits : Text × Text → Option (Text × Text)
both_digits (a, b) = if text_is_digit a && text_is_digit b then some (a, b) else none

unfoldable pub dotted : Text → Option (Text × Text)
dotted s = and_then both_digits (partition b'.' s)

-- `(\d\d\.\d\d)(:LTS)?`: the four digits, and whether the suffix is there
pub record UbuntuVersion : Type 0 where
  pub year : Text
  pub month : Text
  pub lts : Bool

abbrev pub lts_end : Text → Option Bool
lts_end [] = some false
lts_end (c ∷ s) = if text_eq (c ∷ s) (codes ":LTS") then some true else none

unfoldable pub ubuntu_version : Text → Option UbuntuVersion
ubuntu_version (a ∷ b ∷ c ∷ d ∷ e ∷ s) =
    if is_digit a && is_digit b && c == b'.' && is_digit d && is_digit e
    then and_then (λ lts. some (record { year = a ∷ b ∷ []; month = d ∷ e ∷ []; lts = lts }))
        (lts_end s)
    else none
ubuntu_version _ = none

-- `(?:[A-Za-z-]+:)?` before it
abbrev pub is_stream : Text → Bool
is_stream [] = false
is_stream (c ∷ s) = all (λ d. is_alpha d || d == b'-') (c ∷ s)

unfoldable pub behind_stream : Text → Text
behind_stream s = elim (partition b':' s) [
  | none ↦ s
  | some (stream, rest) ↦ if is_stream stream then rest else s
]

abbrev pub dotted_text : Text → Text → Text
dotted_text a b = a ++ b'.' ∷ b

-- The patterns of `parse_release` in turn.
abbrev pub debian_release : Text → Release
debian_release n = release_of debian (to_int n ∷ []) (codes "Debian " ++ n)

abbrev pub pro_release : UbuntuVersion → Release
pro_release v = record {
  family = ubuntu;
  key = to_int v.year ∷ to_int v.month ∷ [];
  label = codes "Ubuntu Pro (" ++ (dotted_text v.year v.month ++ codes ")");
  subscription = true;
}

abbrev pub ubuntu_release : UbuntuVersion → Release
ubuntu_release v =
    release_of ubuntu (to_int v.year ∷ to_int v.month ∷ [])
      (codes "Ubuntu " ++ (dotted_text v.year v.month ++ (if v.lts then codes " LTS" else [])))

abbrev pub alpine_release : Text × Text → Release
alpine_release (a, b) =
    release_of alpine (to_int a ∷ to_int b ∷ []) (codes "Alpine " ++ dotted_text a b)

abbrev pub leap_release : Text × Text → Release
leap_release (a, b) =
    release_of opensuse_leap (to_int a ∷ to_int b ∷ []) (codes "openSUSE Leap " ++ dotted_text a b)

abbrev pub major_release : Family → Text → Text → Release
major_release family name n = release_of family (to_int n ∷ []) (name ++ n)

-- `(\d+)::[a-z_]+`
abbrev pub is_repository : Text → Bool
is_repository [] = false
is_repository (c ∷ s) = all (λ d. leb b'a' d && leb d b'z' || d == b'_') (c ∷ s)

abbrev pub repository_major : Text × Text → Option Text
repository_major (n, rest) = elim (strip_prefix (codes ":") rest) [
  | none ↦ none
  | some repository ↦ if text_is_digit n && is_repository repository then some n else none
]

-- `or`: the first pattern that matches
infixr 6 ◌or_else◌
abbrev pub ◌or_else◌ : {A : Type 0} → Option A → Option A → Option A
some x or_else second = some x
none or_else second = second

abbrev pub fmap : {A B : Type 0} → (A → B) → Option A → Option B
fmap f none = none
fmap f (some x) = some (f x)

unfoldable pub release_in : Text → Option Release
release_in eco =
    fmap debian_release (and_then at_most_two (strip_prefix (codes "Debian:") eco))
    or_else fmap pro_release
        (and_then (λ s. ubuntu_version (behind_stream s)) (strip_prefix (codes "Ubuntu:Pro:") eco))
    or_else fmap ubuntu_release (and_then ubuntu_version (strip_prefix (codes "Ubuntu:") eco))
    or_else fmap alpine_release (and_then dotted (strip_prefix (codes "Alpine:v") eco))
    or_else fmap (major_release alma_linux (codes "AlmaLinux "))
        (digits_behind (codes "AlmaLinux:") eco)
    or_else fmap (major_release rocky_linux (codes "Rocky Linux "))
        (digits_behind (codes "Rocky Linux:") eco)
    or_else fmap (major_release red_hat (codes "RHEL ")) (
        and_then repository_major
          (and_then (partition b':') (strip_prefix (codes "Red Hat:enterprise_linux:") eco)))
    or_else fmap (major_release red_hat (codes "RHEL ")) (digits_behind (codes "Red Hat:") eco)
    or_else fmap leap_release (and_then dotted (strip_prefix (codes "openSUSE:Leap ") eco))

-- `parse_release`
unfoldable pub parse_release : Text → Option Release
parse_release ecosystem = release_in (strip ecosystem)

abbrev pub present : {A : Type 0} → List (Option A) → List A
present [] = []
present (none ∷ xs) = present xs
present (some x ∷ xs) = x ∷ present xs

abbrev pub unless_subscription : Option Release → List Release
unless_subscription none = []
unless_subscription (some r) = if r.subscription then [] else r ∷ []

abbrev pub oracle_releases : Text → Option Text → List Release
oracle_releases eco (some major) = present (
    parse_release (codes "AlmaLinux:" ++ major)
    ∷ parse_release (codes "Rocky Linux:" ++ major)
    ∷ parse_release (codes "Red Hat:" ++ major)
    ∷ [])
oracle_releases eco none = unless_subscription (parse_release eco)

abbrev pub rebuild_releases : Text → Option Text → List Release
rebuild_releases eco (some major) =
    present (parse_release eco ∷ parse_release (codes "Red Hat:" ++ major) ∷ [])
rebuild_releases eco none = oracle_releases eco (digits_behind (codes "Oracle Linux:") eco)

-- `host_releases`
unfoldable pub host_releases : Text → List Release
host_releases host_ecosystem =
    let eco = strip host_ecosystem in
    rebuild_releases eco
      (digits_behind (codes "AlmaLinux:") eco or_else digits_behind (codes "Rocky Linux:") eco)

-- `_FAMILY_PREFIXES` and `in_family`
abbrev pub family_prefix : Family → Text
family_prefix debian = codes "debian:"
family_prefix ubuntu = codes "ubuntu:"
family_prefix alpine = codes "alpine:"
family_prefix alma_linux = codes "almalinux:"
family_prefix rocky_linux = codes "rocky linux:"
family_prefix red_hat = codes "red hat:"
family_prefix opensuse_leap = codes "opensuse:leap "

unfoldable pub in_family : Text → Family → Bool
in_family ecosystem family = is_some (strip_prefix (family_prefix family) (lower ecosystem))

-- Tuples in order: `xs < ys`
unfoldable pub key_lt : List ℕ → List ℕ → Bool
key_lt xs [] = false
key_lt [] (y ∷ ys) = true
key_lt (x ∷ xs) (y ∷ ys) = if x == y then key_lt xs ys else ltb x y

-- `xs == ys` of tuples
unfoldable pub key_eq : List ℕ → List ℕ → Bool
key_eq [] [] = true
key_eq (x ∷ xs) (y ∷ ys) = x == y && key_eq xs ys
key_eq _ _ = false

-- `display_version`
unfoldable pub display_version : Text → Text
display_version version = elim (strip_prefix (codes "0:") version) [
  | none ↦ version
  | some rest ↦ rest
]
