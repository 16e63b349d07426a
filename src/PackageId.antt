-- ===== src/PackageId.antt =====
-- backend/app/package_identifier.py: a finding's package identifier, `<ecosystem>:<name>@<version>` and
-- a note on the fix, read back into its parts. The regular expressions are written out as functions;
-- where a repetition is greedy the longest match is tried first, and a lazy one is tried shortest
-- first.
pub mod Kernel
pub mod Running
pub mod Texts
pub mod Names
pub mod Notes
pub mod Fixes
mod Samples
use cvedeck.Prelude.{
  ℕ, Bool, true, false, not, ◌&&◌, ◌||◌, Option, none, some, List, [], ◌∷◌, ◌++◌, ◌==◌, all,
  if◌then◌else◌,
}
use cvedeck.Prelude.Text.{Text, codes, text_eq, is_space, strip, rpartition, strip_prefix}

-- `token[: token.find(" (")]`, or the whole
abbrev pub opens_note : Text → Bool
opens_note (c ∷ d ∷ s) = c == b' ' && d == b'('
opens_note _ = false

unfoldable pub cut_note : Text → Text
cut_note [] = []
cut_note (c ∷ s) = elim (opens_note (c ∷ s)) [ true ↦ [] | false ↦ c ∷ cut_note s ]

-- Whether a text ends in `c`.
unfoldable pub ends_in : ℕ → Text → Bool
ends_in c [] = false
ends_in c (d ∷ []) = d == c
ends_in c (d ∷ e ∷ s) = ends_in c (e ∷ s)

abbrev pub is_empty : Text → Bool
is_empty [] = true
is_empty (c ∷ s) = false

-- What stands before and behind the last "@"; `none` where the token names no version, an "@" at the
-- start of the name being an npm scope.
abbrev pub unless_scope : Option (Text × Text) → Option (Text × Text)
unless_scope none = none
unless_scope (some (before, behind)) =
    if is_empty before || ends_in b':' before then none else some (before, behind)

unfoldable pub split_version : Text → Option (Text × Text)
split_version token = unless_scope (rpartition b'@' token)

-- `text or None`
abbrev pub or_none : Text → Option Text
or_none [] = none
or_none (c ∷ s) = some (c ∷ s)

abbrev pub before_version : Text → Option (Text × Text) → Text
before_version token none = token
before_version token (some (before, behind)) = before

-- `token.rsplit(":", 1)[-1]`
abbrev pub last_field : Text → Option (Text × Text) → Text
last_field token none = token
last_field token (some (before, behind)) = behind

-- The token of an identifier without its note; `none` is an identifier that is absent or blank.
abbrev pub unless_blank : Text → Option Text
unless_blank [] = none
unless_blank (c ∷ s) = some (cut_note (c ∷ s))

unfoldable pub token_of : Option Text → Option Text
token_of none = none
token_of (some identifier) = unless_blank (strip identifier)

-- `parse_package_name`
abbrev pub name_in : Text → Option Text
name_in token =
    let front = before_version token (split_version token) in
    or_none (strip (last_field front (rpartition b':' front)))

unfoldable pub parse_package_name : Option Text → Option Text
parse_package_name identifier = elim (token_of identifier) [
  | none ↦ none
  | some token ↦ name_in token
]

-- `parse_package_version`
abbrev pub version_in : Option (Text × Text) → Option Text
version_in none = none
version_in (some (before, behind)) = or_none (strip behind)

unfoldable pub parse_package_version : Option Text → Option Text
parse_package_version identifier = elim (token_of identifier) [
  | none ↦ none
  | some token ↦ version_in (split_version token)
]

-- `\s*$`
abbrev pub is_blank : Text → Bool
is_blank s = all is_space s

-- `[^)\s]+\)\s*$`
unfoldable pub plain_version : Text → Option Text
plain_version [] = none
plain_version (c ∷ s) = elim (c == b')' || is_space c) [
  | true ↦ none
  | false ↦ elim (plain_version s) [
    | some version ↦ some (c ∷ version)
    | none ↦ elim (strip_prefix (codes ")") s) [
      | none ↦ none
      | some rest ↦ if is_blank rest then some (c ∷ []) else none
    ]
  ]
]

-- `\S+\)\s*$`
unfoldable pub final_version : Text → Option Text
final_version [] = none
final_version (c ∷ s) = elim (is_space c) [
  | true ↦ none
  | false ↦ elim (final_version s) [
    | some version ↦ some (c ∷ version)
    | none ↦ elim (strip_prefix (codes ")") s) [
      | none ↦ none
      | some rest ↦ if is_blank rest then some (c ∷ []) else none
    ]
  ]
]

-- `(?P<label>.+): (?P<version>\S+)\)\s*$`
abbrev pub newline : ℕ
newline = 10

unfoldable pub label_version : Text → Option (Text × Text)
label_version [] = none
label_version (c ∷ s) = elim (c == newline) [
  | true ↦ none
  | false ↦ elim (label_version s) [
    | some (label, version) ↦ some (c ∷ label, version)
    | none ↦ elim (strip_prefix (codes ": ") s) [
      | none ↦ none
      | some rest ↦ elim (final_version rest) [
        | none ↦ none
        | some version ↦ some (c ∷ [], version)
      ]
    ]
  ]
]

-- `(?P<host>.+?); fixed only in `, and what follows
unfoldable pub behind_host : Text → Option (Text × Text)
behind_host [] = none
behind_host (c ∷ s) = elim (c == newline) [
  | true ↦ none
  | false ↦ elim (strip_prefix (codes "; fixed only in ") s) [
    | none ↦ behind_host s
    | some rest ↦ elim (label_version rest) [ some found ↦ some found | none ↦ behind_host s ]
  ]
]

abbrev pub and_then : {A B : Type 0} → (A → Option B) → Option A → Option B
and_then f none = none
and_then f (some x) = f x

-- `_AVAILABLE`, `_ELSEWHERE` and `_UPSTREAM` at one place of the text
unfoldable pub available_here : Text → Option Text
available_here s = and_then plain_version (strip_prefix (codes "(fixed in ") s)

unfoldable pub elsewhere_here : Text → Option (Text × Text)
elsewhere_here s = and_then behind_host (strip_prefix (codes "(no fix in ") s)

unfoldable pub upstream_here : Text → Option (Text × Text)
upstream_here s =
    and_then label_version
      (strip_prefix (codes "(not confirmed for this release; upstream fix in ") s)

-- `pattern.search(text)`: the leftmost match
unfoldable pub search_text : {A : Type 0} → (Text → Option A) → Text → Option A
search_text here [] = here []
search_text here (c ∷ s) = elim (here (c ∷ s)) [
  | some found ↦ some found
  | none ↦ search_text here s
]

-- What `parse_fix` returns.
pub data Fix : Type 0 where
  unknown : Fix
  available : Text → Fix
  newer_release : Text → Text → Fix
  upstream : Text → Text → Fix
  no_fix : Fix

abbrev pub try_upstream : Option (Text × Text) → Fix
try_upstream none = no_fix
try_upstream (some (label, version)) = upstream label version

abbrev pub try_elsewhere : Text → Option (Text × Text) → Fix
try_elsewhere text none = try_upstream (search_text upstream_here text)
try_elsewhere text (some (label, version)) = newer_release label version

abbrev pub try_available : Text → Option Text → Fix
try_available text none = try_elsewhere text (search_text elsewhere_here text)
try_available text (some version) = available version

abbrev pub fix_of : Text → Fix
fix_of [] = unknown
fix_of (c ∷ s) = try_available (c ∷ s) (search_text available_here (c ∷ s))

abbrev pub or_empty : Option Text → Text
or_empty none = []
or_empty (some identifier) = identifier

-- `parse_fix`
unfoldable pub parse_fix : Option Text → Fix
parse_fix identifier = fix_of (strip (or_empty identifier))
