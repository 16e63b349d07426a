-- ===== src/PackageId/Fixes.antt =====
-- `parse_fix` reads each note back, behind any identifier.
use cvedeck.Prelude.{
  ℕ, ◌≡◌, refl, ap, ◌∙◌, Bool, true, false, not, ◌&&◌, ◌||◌, Option, none, some, [], ◌∷◌, ◌++◌,
  ◌==◌, arith,
}
use cvedeck.Prelude.Text.{Text, codes, strip_prefix}
use cvedeck.PackageId.{
  is_empty, plain_version, newline, label_version, behind_host, and_then, available_here,
  elsewhere_here, upstream_here, search_text, available, newer_release, upstream, try_upstream,
  try_elsewhere, try_available, fix_of, parse_fix,
}
use cvedeck.PackageId.Texts.{
  lacks, starts_solid, ends_solid, strip_solid, starts_solid-append, ends_solid-append,
  strip_prefix-append,
}
use cvedeck.PackageId.Notes.{
  available_note, elsewhere_note, upstream_note, is_fixed, is_calm, is_calm-append,
  plain_version-print, label_version-print, behind_host-print, other_start, eq_comm, search_found,
  search_next, search_past,
}

-- A pattern that starts with a parenthesis and `e`.
module _ {A : Type 0} (f : Text → Option A) (e : ℕ) (p : Text) where
  abbrev pattern_at : Text → Option A
  pattern_at s = and_then f (strip_prefix (b'(' ∷ e ∷ p) s)

  pattern_skip : (c : ℕ) (s : Text) → c == b'(' ≡ false → pattern_at (c ∷ s) ≡ none
  pattern_skip c s h = ap (and_then f) (other_start b'(' c (e ∷ p) s (eq_comm b'(' c ∙ h))

  calm_start :
      (c : ℕ) (s : Text)
      → e == b'f' || e == b'n' ≡ true
      → is_calm (c ∷ s) ≡ true
      → strip_prefix (b'(' ∷ e ∷ p) (c ∷ s) ≡ none
  unfolding is_calm strip_prefix
  calm_start c [] h k = ground arith
  calm_start c (d ∷ s) h k = ground arith

  calm_tail : (c : ℕ) (s : Text) → is_calm (c ∷ s) ≡ true → is_calm s ≡ true
  unfolding is_calm
  calm_tail c [] h = refl
  calm_tail c (d ∷ s) h = ground arith

  search_calm :
      (s : Text)
      → e == b'f' || e == b'n' ≡ true
      → is_calm s ≡ true
      → search_text pattern_at s ≡ none
  unfolding search_text strip_prefix
  search_calm [] h k = refl
  search_calm (c ∷ s) h k =
      search_next pattern_at c s (ap (and_then f) (calm_start c s h k))
      ∙ search_calm s h (calm_tail c s k)

  -- Behind an identifier and a space the search comes to the parenthesis.
  search_behind :
      (base s : Text)
      → lacks b'(' base ≡ true
      → search_text pattern_at (base ++ b' ' ∷ s) ≡ search_text pattern_at s
  search_behind base s h =
      search_past pattern_at pattern_skip base (b' ' ∷ s) h
      ∙ search_next pattern_at b' ' s (pattern_skip b' ' s refl)

fix_of_solid :
    (s : Text) → starts_solid s ≡ true → fix_of s ≡ try_available s (search_text available_here s)
fix_of_solid [] h = cc
fix_of_solid (c ∷ s) h = refl

-- An identifier before its note.
abbrev pub is_base : Text → Bool
is_base s = starts_solid s && lacks b'(' s

module _ (base : Text) (b : is_base base ≡ true) where
  base_starts : starts_solid base ≡ true
  base_starts = ground arith

  base-lacks : lacks b'(' base ≡ true
  base-lacks = ground arith

  parse_behind :
      (note : Text)
      → ends_solid note ≡ true
      → parse_fix (some (base ++ note))
        ≡ try_available (base ++ note) (search_text available_here (base ++ note))
  unfolding parse_fix
  parse_behind note h =
      let starts = starts_solid-append base note base_starts in
      ap fix_of (strip_solid (base ++ note) starts (ends_solid-append base note h))
      ∙ fix_of_solid (base ++ note) starts

  -- What the searches find in the three notes.
  finds_available :
      (version : Text)
      → is_fixed version ≡ true
      → lacks b')' version ≡ true
      → search_text available_here (base ++ available_note version) ≡ some version
  unfolding available_note available_here
  finds_available version v l =
      let rest = version ++ codes ")" in
      search_behind plain_version b'f' (codes "ixed in ") base (codes "(fixed in " ++ rest)
        base-lacks
      ∙ search_found available_here (codes "(fixed in " ++ rest) version (
          ap (and_then plain_version) (strip_prefix-append (codes "(fixed in ") rest)
          ∙ plain_version-print version v l)

  -- A note that starts with "(no" is none of the first kind.
  passes_available :
      (rest : Text)
      → is_calm (b'n' ∷ rest) ≡ true
      → search_text available_here (base ++ b' ' ∷ b'(' ∷ b'n' ∷ rest) ≡ none
  unfolding available_here strip_prefix
  passes_available rest c =
      search_behind plain_version b'f' (codes "ixed in ") base (b'(' ∷ b'n' ∷ rest) base-lacks
      ∙ search_next available_here b'(' (b'n' ∷ rest) refl
      ∙ search_calm plain_version b'f' (codes "ixed in ") (b'n' ∷ rest) refl c

  passes_elsewhere :
      (rest : Text)
      → is_calm (codes "not" ++ rest) ≡ true
      → search_text elsewhere_here (base ++ (codes " (not" ++ rest)) ≡ none
  unfolding elsewhere_here strip_prefix
  passes_elsewhere rest c =
      search_behind behind_host b'n' (codes "o fix in ") base (codes "(not" ++ rest) base-lacks
      ∙ search_next elsewhere_here b'(' (codes "not" ++ rest) refl
      ∙ search_calm behind_host b'n' (codes "o fix in ") (codes "not" ++ rest) refl c

  pub parse_fix-available_note :
      (version : Text)
      → is_fixed version ≡ true
      → lacks b')' version ≡ true
      → parse_fix (some (base ++ available_note version)) ≡ available version
  parse_fix-available_note version v l =
      parse_behind (available_note version) (
        unfold available_note in
        ends_solid-append (codes " (fixed in ") (version ++ codes ")")
          (ends_solid-append version (codes ")") refl))
      ∙ ap (try_available _) (finds_available version v l)

ends_tail :
    (label version : Text) → ends_solid (label ++ (codes ": " ++ (version ++ codes ")"))) ≡ true
ends_tail label version = ends_solid-append label (codes ": " ++ (version ++ codes ")")) (
    ends_solid-append (codes ": ") (version ++ codes ")")
      (ends_solid-append version (codes ")") refl))

-- The labels and the versions that the notes are made of.
abbrev pub is_label : Text → Bool
is_label s = not (is_empty s) && lacks newline s && is_calm s

abbrev pub is_host : Text → Bool
is_host s = not (is_empty s) && lacks newline s && lacks b';' s && is_calm s

abbrev pub is_shown : Text → Bool
is_shown s = is_fixed s && is_calm s

not-true : (a : Bool) → not a ≡ true → a ≡ false
not-true a h = ground arith

printed_calm :
    (label version : Text)
    → is_calm label ≡ true
    → is_calm version ≡ true
    → is_calm (label ++ (codes ": " ++ (version ++ codes ")"))) ≡ true
printed_calm label version h k = is_calm-append label (codes ": " ++ (version ++ codes ")")) h (
    is_calm-append (codes ": ") (version ++ codes ")") (unfold is_calm in refl)
      (is_calm-append version (codes ")") k (unfold is_calm in refl)))

module _ (base : Text) (b : is_base base ≡ true) where
  pub parse_fix-upstream_note :
      (label version : Text)
      → is_label label ≡ true
      → is_shown version ≡ true
      → parse_fix (some (base ++ upstream_note label version)) ≡ upstream label version
  unfolding upstream_note upstream_here
  parse_fix-upstream_note label version h k =
      let tail = label ++ (codes ": " ++ (version ++ codes ")")) in
      let calm_label : is_calm label ≡ true = ground arith in
      let calm_version : is_calm version ≡ true = ground arith in
      let fixed : is_fixed version ≡ true = ground arith in
      let lines : lacks newline label ≡ true = ground arith in
      let there : is_empty label ≡ false = ground arith in
      let calm =
        is_calm-append (codes "not confirmed for this release; upstream fix in ") tail
          (unfold is_calm in refl) (printed_calm label version calm_label calm_version) in
      parse_behind base b (upstream_note label version) (
        ends_solid-append (codes " (not confirmed for this release; upstream fix in ") tail
          (ends_tail label version))
      ∙ ap (try_available _) (
          passes_available base b (codes "ot confirmed for this release; upstream fix in " ++ tail)
            calm)
      ∙ ap (try_elsewhere _) (
          passes_elsewhere base b (codes " confirmed for this release; upstream fix in " ++ tail)
            calm)
      ∙ ap try_upstream (
          search_behind label_version b'n' (codes "ot confirmed for this release; upstream fix in ")
            base (codes "(not confirmed for this release; upstream fix in " ++ tail)
            (base-lacks base b)
          ∙ search_found upstream_here
              (codes "(not confirmed for this release; upstream fix in " ++ tail) (label, version)
              (ap (and_then label_version) (
                  strip_prefix-append (codes "(not confirmed for this release; upstream fix in ")
                    tail)
                ∙ label_version-print label version there lines fixed))

  pub parse_fix-elsewhere_note :
      (host label version : Text)
      → is_host host ≡ true
      → is_label label ≡ true
      → is_shown version ≡ true
      → parse_fix (some (base ++ elsewhere_note host label version)) ≡ newer_release label version
  unfolding elsewhere_note elsewhere_here
  parse_fix-elsewhere_note host label version g h k =
      let tail = label ++ (codes ": " ++ (version ++ codes ")")) in
      let middle = codes "; fixed only in " ++ tail in
      let calm_host : is_calm host ≡ true = ground arith in
      let calm_label : is_calm label ≡ true = ground arith in
      let calm_version : is_calm version ≡ true = ground arith in
      let fixed : is_fixed version ≡ true = ground arith in
      let lines : lacks newline label ≡ true = ground arith in
      let there : is_empty label ≡ false = ground arith in
      let host_there : is_empty host ≡ false = ground arith in
      let host_lines : lacks newline host ≡ true = ground arith in
      let host_semis : lacks b';' host ≡ true = ground arith in
      let calm_middle =
        is_calm-append (codes "; fixed only in ") tail (unfold is_calm in refl)
          (printed_calm label version calm_label calm_version) in
      let calm =
        is_calm-append (codes "no fix in ") (host ++ middle) (unfold is_calm in refl)
          (is_calm-append host middle calm_host calm_middle) in
      parse_behind base b (elsewhere_note host label version) (
        ends_solid-append (codes " (no fix in ") (host ++ middle) (
          ends_solid-append host middle
            (ends_solid-append (codes "; fixed only in ") tail (ends_tail label version))))
      ∙ ap (try_available _) (passes_available base b (codes "o fix in " ++ (host ++ middle)) calm)
      ∙ ap (try_elsewhere _) (
          search_behind behind_host b'n' (codes "o fix in ") base
            (codes "(no fix in " ++ (host ++ middle)) (base-lacks base b)
          ∙ search_found elsewhere_here (codes "(no fix in " ++ (host ++ middle)) (label, version)
              (ap (and_then behind_host)
                  (strip_prefix-append (codes "(no fix in ") (host ++ middle))
                ∙ behind_host-print host tail (label, version) host_there host_lines host_semis
                    (label_version-print label version there lines fixed)))

-- Each note on a fix is read back as it was written, behind any identifier that starts with no space
-- and has no parenthesis: a version of the host's own release as available, one of another release
-- with that release's label, one upstream with its label. A version has no space and, in the first
-- note, no closing parenthesis, in the others none that opens a note; a label may hold parentheses,
-- but none that opens a note, and no line break; the host's name holds no semicolon either.
pub parse_fix-notes :
    (base fixed host label version : Text)
    → is_base base ≡ true
    → is_fixed fixed ≡ true
    → lacks b')' fixed ≡ true
    → is_host host ≡ true
    → is_label label ≡ true
    → is_shown version ≡ true
    → (parse_fix (some (base ++ available_note fixed)) ≡ available fixed)
      × (parse_fix (some (base ++ elsewhere_note host label version)) ≡ newer_release label version)
      × (parse_fix (some (base ++ upstream_note label version)) ≡ upstream label version)
parse_fix-notes base fixed host label version b f l g h k = (
  parse_fix-available_note base b fixed f l,
  parse_fix-elsewhere_note base b host label version g h k,
  parse_fix-upstream_note base b label version h k,
)
