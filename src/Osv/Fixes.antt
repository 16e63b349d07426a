-- ===== src/Osv/Fixes.antt =====
-- What `parse_fix` reads off an identifier that ends in the text of `fix_suffix`.
use cvedeck.Prelude.{
  ℕ, ◌≡◌, refl, sym, ap, ◌∙◌, Bool, true, false, ◌&&◌, ◌||◌, Option, none, some, List, [], ◌∷◌,
  ◌++◌, append-nil, ◌==◌, any, all, arith,
}
use cvedeck.Prelude.Text.{Text, codes, text_eq, text_eq_iff, strip, strip_prefix}
use cvedeck.PackageId.{
  plain_version, label_version, behind_host, and_then, available_here, elsewhere_here,
  upstream_here, search_text, Fix, available, newer_release, upstream, no_fix, fix_of, parse_fix,
}
use cvedeck.PackageId.Texts.{lacks, starts_solid, ends_solid, strip_solid}
use cvedeck.PackageId.Notes.{is_fixed, other_start, eq_comm, search_past}
use cvedeck.PackageId.Fixes.{
  is_base, is_label, is_host, is_shown, parse_fix-available_note, parse_fix-elsewhere_note,
  parse_fix-upstream_note,
}
use cvedeck.Releases.{Release, parse_release, host_releases, display_version}
use cvedeck.Osv.{
  Block, fix_in, same_release, package_blocks, FixNote, nothing, fixed_here, fixed_newer,
  fixed_upstream, host_label, label_of, suffix_of, fix_note, fix_suffix,
}
use cvedeck.Osv.Honest.{
  names_fix, has_label, comes_later, names_later, is_backed, is_fix, is_rolling, any_mono,
}
use cvedeck.Osv.Backed.{fix_note-is_backed}

abbrev pub read_of : FixNote → Fix
read_of nothing = no_fix
read_of (fixed_here v) = available v
read_of (fixed_newer host label v) = newer_release label (display_version v)
read_of (fixed_upstream label v) = upstream label (display_version v)

-- What the notes can print and `parse_fix` read.
abbrev pub is_readable : Text → Bool
is_readable v = is_fixed v && lacks b')' v && is_shown (display_version v)

abbrev pub is_printable : FixNote → Bool
is_printable nothing = true
is_printable (fixed_here v) = is_readable v
is_printable (fixed_newer host label v) = is_host host && is_label label && is_readable v
is_printable (fixed_upstream label v) = is_label label && is_readable v

skips :
    {A : Type 0} (f : Text → Option A) (p : Text) (c : ℕ) (s : Text)
    → c == b'(' ≡ false
    → and_then f (strip_prefix (b'(' ∷ p) (c ∷ s)) ≡ none
skips f p c s h = ap (and_then f) (other_start b'(' c p s (eq_comm b'(' c ∙ h))

solid_fix :
    (s : Text)
    → starts_solid s ≡ true
    → search_text available_here s ≡ none
    → search_text elsewhere_here s ≡ none
    → search_text upstream_here s ≡ none
    → fix_of s ≡ no_fix
solid_fix [] h a b c = ground arith
solid_fix (d ∷ s) h a b c = rw (a, b, c) refl

module _ (base : Text) (b : is_base base ≡ true) (e : ends_solid base ≡ true) where
  parse_fix_bare : parse_fix (some (base ++ [])) ≡ no_fix
  unfolding parse_fix available_here elsewhere_here upstream_here search_text strip_prefix
  parse_fix_bare =
      let starts : starts_solid base ≡ true = ground arith in
      let calm : lacks b'(' base ≡ true = ground arith in
      let nil = append-nil base in
      ap (λ s. fix_of (strip s)) nil
      ∙ ap fix_of (strip_solid base starts e)
      ∙ solid_fix base starts
          (ap (search_text available_here) (sym nil)
            ∙ search_past available_here (skips plain_version (codes "fixed in ")) base [] calm)
          (ap (search_text elsewhere_here) (sym nil)
            ∙ search_past elsewhere_here (skips behind_host (codes "no fix in ")) base [] calm)
          (ap (search_text upstream_here) (sym nil)
            ∙ search_past upstream_here
                (skips label_version (codes "not confirmed for this release; upstream fix in "))
                base [] calm)

  parse_fix-suffix_of :
      (n : FixNote) → is_printable n ≡ true → parse_fix (some (base ++ suffix_of n)) ≡ read_of n
  parse_fix-suffix_of nothing h = parse_fix_bare
  parse_fix-suffix_of (fixed_here v) h =
      parse_fix-available_note base b v (ground arith) (ground arith)
  parse_fix-suffix_of (fixed_newer host label v) h =
      parse_fix-elsewhere_note base b host label (display_version v) (ground arith) (ground arith)
        (ground arith)
  parse_fix-suffix_of (fixed_upstream label v) h =
      parse_fix-upstream_note base b label (display_version v) (ground arith) (ground arith)

-- An entry whose fix and labels can be printed and read back.
abbrev pub is_printable_fix : Text → Text → Option Text → Bool
is_printable_fix queried eco none = true
is_printable_fix queried eco (some v) = is_readable v && is_label (label_of queried eco)

abbrev pub has_printable_label : Option Release → Bool
has_printable_label none = true
has_printable_label (some r) = is_label r.label

abbrev pub is_printable_entry : Text → Block → Bool
is_printable_entry queried b =
    is_printable_fix queried b.ecosystem (fix_in b)
    && has_printable_label (parse_release b.ecosystem)

-- What all elements that pass imply, some one passes.
any-all :
    {A : Type 0} (p q : A → Bool) (r : Bool)
    → ((x : A) → p x ≡ true → q x ≡ true → r ≡ true)
    → (xs : List A) → any p xs ≡ true
    → all q xs ≡ true
    → r ≡ true
any-all p q r f [] h k = ground arith
any-all p q r f (x ∷ xs) h k = ground (arith, f x, any-all p q r f xs)

text_eq_in : (p : Text → Bool) (s t : Text) → text_eq s t ≡ true → p s ≡ true → p t ≡ true
text_eq_in p s t e h = sym (ap p ((text_eq_iff s t).0 e)) ∙ h

fix_printable :
    (queried eco v : Text) (x : Option Text)
    → is_fix v x ≡ true
    → is_printable_fix queried eco x ≡ true
    → is_readable v ≡ true
fix_printable queried eco v none e h = ground arith
fix_printable queried eco v (some w) e h = text_eq_in is_readable w v e (ground arith)

upstream_printable :
    (queried eco l v : Text) (x : Option Text)
    → is_fix v x ≡ true
    → is_printable_fix queried eco x ≡ true
    → text_eq (label_of queried eco) l ≡ true
    → is_label l && is_readable v ≡ true
upstream_printable queried eco l v none e h k = ground arith
upstream_printable queried eco l v (some w) e h k =
    let version = text_eq_in is_readable w v e (ground arith) in
    let label = text_eq_in is_label (label_of queried eco) l k (ground arith) in ground arith

label_printable :
    (l : Text) (o : Option Release)
    → has_label l o ≡ true
    → has_printable_label o ≡ true
    → is_label l ≡ true
label_printable l none e h = ground arith
label_printable l (some r) e h = text_eq_in is_label r.label l e h

named_host :
    (host : List Release) (o : Option Release)
    → comes_later host o ≡ true
    → all (λ h. is_host h.label) host ≡ true
    → is_host (host_label host) ≡ true
named_host host none e h = ground arith
named_host [] (some r) e h = ground arith
named_host (r ∷ host) (some s) e h = ground arith

-- A note backed by entries that can be printed can be printed.
printable_note :
    (blocks : List Block) (queried : Text) (host : List Release) (ecos : List Text) (n : FixNote)
    → is_backed blocks queried host ecos n ≡ true
    → all (λ h. is_host h.label) host ≡ true
    → all (is_printable_entry queried) blocks ≡ true
    → is_printable n ≡ true
printable_note blocks queried host ecos nothing h k l = refl
printable_note blocks queried host ecos (fixed_here v) h k l =
    any-all (names_fix v) (is_printable_entry queried) (is_readable v)
      (λ b e f. fix_printable queried b.ecosystem v (fix_in b) e (ground arith)) blocks
      (any_mono (λ b. (same_release host ecos b || is_rolling host queried b) && names_fix v b)
        (names_fix v) (λ b e. ground arith) blocks h)
      l
printable_note blocks queried host ecos (fixed_newer x label v) h k l =
    let found : any (names_later host label v) blocks ≡ true = ground arith in
    let same : text_eq x (host_label host) ≡ true = ground arith in
    any-all (names_later host label v) (is_printable_entry queried)
      (is_host x && is_label label && is_readable v)
      (λ b e f.
        let version =
          fix_printable queried b.ecosystem v (fix_in b) (ground arith) (ground arith) in
        let shown =
          label_printable label (parse_release b.ecosystem) (ground arith) (ground arith) in
        let named = named_host host (parse_release b.ecosystem) (ground arith) k in
        let here = ap is_host ((text_eq_iff x (host_label host)).0 same) ∙ named in ground arith)
      blocks found l
printable_note blocks queried host ecos (fixed_upstream label v) h k l =
    any-all (λ b. names_fix v b && text_eq (label_of queried b.ecosystem) label)
      (is_printable_entry queried) (is_label label && is_readable v)
      (λ b e f.
        upstream_printable queried b.ecosystem label v (fix_in b) (ground arith) (ground arith)
          (ground arith))
      blocks (ground arith) l

-- Behind an identifier that starts and ends with no space and has no parenthesis, `parse_fix` reads
-- the text of `fix_suffix` as exactly the note that was chosen: none, a fix of the host's release, one
-- of a later release with its label, or one upstream with its label. The versions of the package's
-- entries have no space and no parenthesis that opens a note or closes one, also without their "0:"
-- epoch, and the labels of the entries and of the host's releases hold neither a line break nor a
-- parenthesis that opens a note, those of the host no semicolon.
pub parse_fix-fix_suffix :
    (base : Text) (affected : List Block) (name ecosystem queried : Text) (ecos : List Text)
    → is_base base ≡ true
    → ends_solid base ≡ true
    → all (λ h. is_host h.label) (host_releases ecosystem) ≡ true
    → all (is_printable_entry queried) (package_blocks name affected) ≡ true
    → parse_fix (some (base ++ fix_suffix affected name ecosystem queried ecos))
      ≡ read_of (fix_note (package_blocks name affected) queried (host_releases ecosystem) ecos)
unfolding fix_suffix
parse_fix-fix_suffix base affected name ecosystem queried ecos b e h k =
    let blocks = package_blocks name affected in
    let host = host_releases ecosystem in
    let note = fix_note blocks queried host ecos in
    parse_fix-suffix_of base b e note (
      printable_note blocks queried host ecos note (fix_note-is_backed blocks queried host ecos) h
        k)
