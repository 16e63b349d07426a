-- ===== src/PackageId/Notes.antt =====
-- The notes on a fix that osv_client.py and services/kernel_feeds.py write, read by `parse_fix`.
use cvedeck.Prelude.{
  ℕ, ◌≡◌, refl, ◌∙◌, Bool, true, false, not, ◌&&◌, ◌||◌, Option, none, some, [], ◌∷◌, ◌++◌, ◌==◌,
  all, arith,
}
use cvedeck.Prelude.Text.{Text, codes, is_space, strip_prefix}
use cvedeck.PackageId.{
  is_empty, plain_version, final_version, newline, label_version, behind_host, search_text,
}
use cvedeck.PackageId.Texts.{lacks, strip_prefix-append}

-- `f" (fixed in {version})"`
unfoldable pub available_note : Text → Text
available_note version = codes " (fixed in " ++ (version ++ codes ")")

-- `f" (no fix in {host}; fixed only in {label}: {version})"`
unfoldable pub elsewhere_note : Text → Text → Text → Text
elsewhere_note host label version =
    codes " (no fix in "
    ++ (host ++ (codes "; fixed only in " ++ (label ++ (codes ": " ++ (version ++ codes ")")))))

-- `f" (not confirmed for this release; upstream fix in {label}: {version})"`
unfoldable pub upstream_note : Text → Text → Text
upstream_note label version =
    codes " (not confirmed for this release; upstream fix in "
    ++ (label ++ (codes ": " ++ (version ++ codes ")")))

-- A version: one or more characters, no space.
abbrev pub is_fixed : Text → Bool
is_fixed s = not (is_empty s) && all (λ c. not (is_space c)) s

-- A parenthesis opens no note in the text.
unfoldable pub is_calm : Text → Bool
is_calm [] = true
is_calm (c ∷ []) = not (c == b'(')
is_calm (c ∷ d ∷ s) = not (c == b'(' && (d == b'f' || d == b'n')) && is_calm (d ∷ s)

pub is_calm-append : (s t : Text) → is_calm s ≡ true → is_calm t ≡ true → is_calm (s ++ t) ≡ true
unfolding is_calm
is_calm-append [] t h k = k
is_calm-append (c ∷ []) [] h k = h
is_calm-append (c ∷ []) (d ∷ t) h k = ground arith
is_calm-append (c ∷ d ∷ s) t h k = ground (arith, is_calm-append (d ∷ s) t)

pub plain_version-print :
    (s : Text) → is_fixed s ≡ true → lacks b')' s ≡ true → plain_version (s ++ codes ")") ≡ some s
unfolding plain_version strip_prefix
plain_version-print [] h k = cc
plain_version-print (c ∷ []) h k = ground arith
plain_version-print (c ∷ d ∷ s) h k = ground (arith, plain_version-print (d ∷ s))

final_version-print : (s : Text) → is_fixed s ≡ true → final_version (s ++ codes ")") ≡ some s
unfolding final_version strip_prefix
final_version-print [] h = cc
final_version-print (c ∷ []) h = ground arith
final_version-print (c ∷ d ∷ s) h = ground (arith, final_version-print (d ∷ s))

-- Without a space there is no ": ".
no_colon_space :
    (s : Text) → all (λ c. not (is_space c)) s ≡ true → strip_prefix (codes ": ") s ≡ none
unfolding strip_prefix
no_colon_space [] h = refl
no_colon_space (c ∷ []) h = ground arith
no_colon_space (c ∷ d ∷ s) h = ground arith

tail_solid :
    (c : ℕ) (s : Text)
    → all (λ d. not (is_space d)) (c ∷ s) ≡ true
    → all (λ d. not (is_space d)) s ≡ true
tail_solid c s h = ground arith

label_version_solid : (s : Text) → all (λ c. not (is_space c)) s ≡ true → label_version s ≡ none
unfolding label_version
label_version_solid [] h = refl
label_version_solid (c ∷ s) h =
    ground (arith, label_version_solid s (tail_solid c s h), no_colon_space s (tail_solid c s h))

-- The last ": " stands before the version.
label_version_rest :
    (s : Text) → all (λ c. not (is_space c)) s ≡ true → label_version (codes ": " ++ s) ≡ none
unfolding label_version
label_version_rest s h =
    let deep = label_version_solid s h in
    let near = no_colon_space s h in
    let next : label_version (b' ' ∷ s) ≡ none = ground arith in
    let here : strip_prefix (codes ": ") (b' ' ∷ s) ≡ none = unfold strip_prefix in refl in
    ground arith

solid_end : (s : Text) → is_fixed s ≡ true → all (λ c. not (is_space c)) (s ++ codes ")") ≡ true
solid_end [] h = cc
solid_end (c ∷ []) h = ground arith
solid_end (c ∷ d ∷ s) h = ground (arith, solid_end (d ∷ s))

pub label_version-print :
    (label version : Text)
    → is_empty label ≡ false
    → lacks newline label ≡ true
    → is_fixed version ≡ true
    → label_version (label ++ (codes ": " ++ (version ++ codes ")"))) ≡ some (label, version)
unfolding label_version
label_version-print [] version h k v = cc
label_version-print (c ∷ []) version h k v =
    let rest = label_version_rest (version ++ codes ")") (solid_end version v) in
    let here = strip_prefix-append (codes ": ") (version ++ codes ")") in
    let found = final_version-print version v in ground arith
label_version-print (c ∷ d ∷ s) version h k v = ground (arith, label_version-print (d ∷ s) version)

-- A text that does not start with the marker's first character.
pub other_start : (c d : ℕ) (p s : Text) → c == d ≡ false → strip_prefix (c ∷ p) (d ∷ s) ≡ none
unfolding strip_prefix
other_start c d p s h = rw h refl

abbrev only_in : Text
only_in = codes "; fixed only in "

behind_host_skip :
    (c : ℕ) (s : Text)
    → c == newline ≡ false
    → strip_prefix only_in s ≡ none
    → behind_host (c ∷ s) ≡ behind_host s
unfolding behind_host
behind_host_skip c s h e = rw (behind_host, h, e) refl

behind_host_found :
    (c : ℕ) (s rest : Text) (found : Text × Text)
    → c == newline ≡ false
    → strip_prefix only_in s ≡ some rest
    → label_version rest ≡ some found
    → behind_host (c ∷ s) ≡ some found
unfolding behind_host
behind_host_found c s rest found h e l = rw (behind_host, h, e, l) refl

first_lacks : (c d : ℕ) (s : Text) → lacks d (c ∷ s) ≡ true → (c == d ≡ false) × (lacks d s ≡ true)
first_lacks c d s h = (ground arith, ground arith)

pub eq_comm : (c d : ℕ) → c == d ≡ d == c
eq_comm c d = ground arith

pub behind_host-print :
    (host tail : Text) (found : Text × Text)
    → is_empty host ≡ false
    → lacks newline host ≡ true
    → lacks b';' host ≡ true
    → label_version tail ≡ some found
    → behind_host (host ++ (only_in ++ tail)) ≡ some found
behind_host-print [] tail found h k l e = cc
behind_host-print (c ∷ []) tail found h k l e =
    behind_host_found c (only_in ++ tail) tail found (first_lacks c newline [] k).0
      (strip_prefix-append only_in tail) e
behind_host-print (c ∷ d ∷ s) tail found h k l e =
    let lines = first_lacks c newline (d ∷ s) k in
    let semis = first_lacks c b';' (d ∷ s) l in
    let other = (first_lacks d b';' s semis.1).0 in
    behind_host_skip c (d ∷ s ++ (only_in ++ tail)) lines.0 (
      other_start b';' d (codes " fixed only in ") (s ++ (only_in ++ tail))
        (eq_comm b';' d ∙ other))
    ∙ behind_host-print (d ∷ s) tail found refl lines.1 semis.1 e

-- The search passes over what opens no note.
module _ {A : Type 0} (here : Text → Option A) where
  pub search_found : (s : Text) (found : A) → here s ≡ some found → search_text here s ≡ some found
  unfolding search_text
  search_found [] found e = e
  search_found (c ∷ s) found e = rw (search_text, e) refl

  pub search_next :
      (c : ℕ) (s : Text) → here (c ∷ s) ≡ none → search_text here (c ∷ s) ≡ search_text here s
  unfolding search_text
  search_next c s e = rw (search_text, e) refl

  pub search_past :
      ((c : ℕ) (s : Text) → c == b'(' ≡ false → here (c ∷ s) ≡ none)
      → (s t : Text) → lacks b'(' s ≡ true
      → search_text here (s ++ t) ≡ search_text here t
  search_past skip [] t h = refl
  search_past skip (c ∷ s) t h =
      let both = first_lacks c b'(' s h in
      search_next c (s ++ t) (skip c (s ++ t) both.0) ∙ search_past skip s t both.1
