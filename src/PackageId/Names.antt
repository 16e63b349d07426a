-- ===== src/PackageId/Names.antt =====
-- The name and the version that an identifier was made of.
use cvedeck.Prelude.{
  append-nil, ℕ, ◌≡◌, refl, ap, ◌∙◌, Bool, true, false, ◌&&◌, some, [], ◌∷◌, ◌++◌, arith,
}
use cvedeck.Prelude.Text.{Text}
use cvedeck.PackageId.{
  opens_note, cut_note, ends_in, is_empty, unless_scope, split_version, or_none, unless_blank,
  token_of, name_in, parse_package_name, version_in, parse_package_version,
}
use cvedeck.PackageId.Texts.{
  lacks, starts_solid, ends_solid, strip_solid, starts_solid-append, ends_solid-append,
  ends_solid-cons, rpartition-append, lacks-append,
}

-- `f"{ecosystem}:{name}@{version}"`, before a note
unfoldable pub identifier : Text → Text → Text → Text
identifier eco name version = (eco ++ b':' ∷ name) ++ b'@' ∷ version

-- What the matcher writes: an ecosystem may hold colons and spaces, a name an "@" and a version
-- colons; none of them holds a parenthesis.
abbrev pub is_ecosystem : Text → Bool
is_ecosystem s = starts_solid s && lacks b'(' s

abbrev pub is_name : Text → Bool
is_name s = starts_solid s && ends_solid s && lacks b':' s && lacks b'(' s

abbrev pub is_version : Text → Bool
is_version s = starts_solid s && ends_solid s && lacks b'@' s && lacks b'(' s

-- A note is absent, or is in parentheses behind a space.
abbrev pub is_note : Text → Bool
is_note [] = true
is_note (c ∷ s) = opens_note (c ∷ s) && ends_solid (c ∷ s)

cut_note-lacks : (s : Text) → lacks b'(' s ≡ true → cut_note s ≡ s
unfolding cut_note
cut_note-lacks [] h = refl
cut_note-lacks (c ∷ []) h = refl
cut_note-lacks (c ∷ d ∷ s) h = ground (arith, cut_note-lacks (d ∷ s))

cut_note-append : (s n : Text) → lacks b'(' s ≡ true → is_note n ≡ true → cut_note (s ++ n) ≡ s
unfolding cut_note
cut_note-append [] [] h k = refl
cut_note-append [] (c ∷ n) h k = ground arith
cut_note-append (c ∷ []) [] h k = refl
cut_note-append (c ∷ []) (d ∷ []) h k = ground arith
cut_note-append (c ∷ []) (d ∷ e ∷ n) h k = ground arith
cut_note-append (c ∷ d ∷ s) n h k = ground (arith, cut_note-append (d ∷ s) n)

-- A text that goes on behind its colon does not end in a colon.
ends_in-lacks :
    (c d : ℕ) (s t : Text) → is_empty t ≡ false → lacks c t ≡ true → ends_in c (s ++ d ∷ t) ≡ false
unfolding ends_in
ends_in-lacks c d [] [] h k = cc
ends_in-lacks c d [] (e ∷ []) h k = ground arith
ends_in-lacks c d [] (e ∷ f ∷ t) h k = ground (arith, ends_in-lacks c e [] (f ∷ t))
ends_in-lacks c d (a ∷ []) t h k = ends_in-lacks c d [] t h k
ends_in-lacks c d (a ∷ b ∷ s) t h k = ends_in-lacks c d (b ∷ s) t h k

and_parts : (a b : Bool) → a && b ≡ true → (a ≡ true) × (b ≡ true)
and_parts a b h = (ground arith, ground arith)

is_empty_solid : (s : Text) → starts_solid s ≡ true → is_empty s ≡ false
is_empty_solid [] h = cc
is_empty_solid (c ∷ s) h = refl

or_none_solid : (s : Text) → starts_solid s ≡ true → or_none s ≡ some s
or_none_solid [] h = cc
or_none_solid (c ∷ s) h = refl

unless_blank_solid : (s : Text) → starts_solid s ≡ true → unless_blank s ≡ some (cut_note s)
unless_blank_solid [] h = cc
unless_blank_solid (c ∷ s) h = refl

-- A token with its note is read without it.
token_of-append :
    (body note : Text)
    → starts_solid body ≡ true
    → ends_solid body ≡ true
    → lacks b'(' body ≡ true
    → is_note note ≡ true
    → token_of (some (body ++ note)) ≡ some body
unfolding token_of
token_of-append body note h k l n =
    ap unless_blank (strip_solid (body ++ note) (starts_solid-append body note h) (ends note n))
    ∙ unless_blank_solid (body ++ note) (starts_solid-append body note h)
    ∙ ap some (cut_note-append body note l n)
  where
    ends : (m : Text) → is_note m ≡ true → ends_solid (body ++ m) ≡ true
    ends [] q = rw (append-nil body) k
    ends (c ∷ m) q = ends_solid-append body (c ∷ m) (and_parts _ _ q).1

unless_scope_kept :
    (before behind : Text)
    → is_empty before ≡ false
    → ends_in b':' before ≡ false
    → unless_scope (some (before, behind)) ≡ some (before, behind)
unless_scope_kept before behind h k = rw (h, k) refl

not_empty : (s t : Text) (c : ℕ) → is_empty (s ++ c ∷ t) ≡ false
not_empty [] t c = refl
not_empty (d ∷ s) t c = refl

module _ (eco name version note : Text) where
  -- The conditions, one by one.
  record Parts : Type 0 where
    eco_starts : starts_solid eco ≡ true
    eco_lacks : lacks b'(' eco ≡ true
    name_starts : starts_solid name ≡ true
    name_ends : ends_solid name ≡ true
    name_colon : lacks b':' name ≡ true
    name_lacks : lacks b'(' name ≡ true
    version_starts : starts_solid version ≡ true
    version_ends : ends_solid version ≡ true
    version_at : lacks b'@' version ≡ true
    version_lacks : lacks b'(' version ≡ true

  parts_of : is_ecosystem eco ≡ true → is_name name ≡ true → is_version version ≡ true → Parts
  parts_of p q v = record {
    eco_starts = ground arith;
    eco_lacks = ground arith;
    name_starts = ground arith;
    name_ends = ground arith;
    name_colon = ground arith;
    name_lacks = ground arith;
    version_starts = ground arith;
    version_ends = ground arith;
    version_at = ground arith;
    version_lacks = ground arith;
  }

  token_identifier :
      Parts
      → is_note note ≡ true
      → token_of (some (identifier eco name version ++ note)) ≡ some (identifier eco name version)
  unfolding identifier
  token_identifier parts n =
      let front = eco ++ b':' ∷ name in
      token_of-append (front ++ b'@' ∷ version) note
        (starts_solid-append front (b'@' ∷ version)
          (starts_solid-append eco (b':' ∷ name) parts.eco_starts))
        (ends_solid-append front (b'@' ∷ version) (ends_solid-cons b'@' version parts.version_ends))
        (lacks-append b'(' front (b'@' ∷ version)
          (lacks-append b'(' eco (b':' ∷ name) parts.eco_lacks parts.name_lacks)
          parts.version_lacks)
        n

  split_identifier :
      Parts → split_version (identifier eco name version) ≡ some (eco ++ b':' ∷ name, version)
  unfolding identifier split_version
  split_identifier parts =
      let front = eco ++ b':' ∷ name in
      ap unless_scope (rpartition-append b'@' front version parts.version_at)
      ∙ unless_scope_kept front version (not_empty eco name b':') (
          ends_in-lacks b':' b':' eco name (is_empty_solid name parts.name_starts) parts.name_colon)

  name_identifier : Parts → name_in (identifier eco name version) ≡ some name
  name_identifier parts =
      rw (split_identifier parts, rpartition-append b':' eco name parts.name_colon)
        (ap or_none (strip_solid name parts.name_starts parts.name_ends)
          ∙ or_none_solid name parts.name_starts)

  version_identifier :
      Parts → version_in (split_version (identifier eco name version)) ≡ some version
  version_identifier parts = rw (split_identifier parts) (
      ap or_none (strip_solid version parts.version_starts parts.version_ends)
      ∙ or_none_solid version parts.version_starts)

  -- The name and the version that an identifier was made of are read back from it, whatever note
  -- follows: for an ecosystem that starts with no space, a name with no colon, a version with no
  -- "@", all without a parenthesis, the name and the version with no space at either end.
  pub parse-identifier :
      is_ecosystem eco ≡ true
      → is_name name ≡ true
      → is_version version ≡ true
      → is_note note ≡ true
      → (parse_package_name (some (identifier eco name version ++ note)) ≡ some name)
        × (parse_package_version (some (identifier eco name version ++ note)) ≡ some version)
  unfolding parse_package_name parse_package_version
  parse-identifier p q v n =
      let parts = parts_of p q v in
      (
        (rw (parse_package_name, token_identifier parts n) (name_identifier parts)),
        (rw (parse_package_version, token_identifier parts n) (version_identifier parts)),
      )
