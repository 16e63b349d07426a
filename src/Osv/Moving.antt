-- ===== src/Osv/Moving.antt =====
-- An identifier that is moved to another package.
use cvedeck.Prelude.{◌≡◌, refl, sym, ap, ◌∙◌, true, some, [], ◌∷◌, ◌++◌, append_assoc, arith}
use cvedeck.Prelude.Text.{Text, rpartition}
use cvedeck.Prelude.Dicts.{Dict, find}
use cvedeck.PackageId.{parse_package_name, parse_package_version}
use cvedeck.PackageId.Texts.{lacks, rpartition-append, lacks-append}
use cvedeck.PackageId.Names.{
  identifier, is_ecosystem, is_name, is_version, is_note, parse-identifier,
}
use cvedeck.Osv.Sources.{split_note, behind_last_colon, behind_at, moved, move, reattribute}

split_note-append :
    (s n : Text) → lacks b'(' s ≡ true → is_note n ≡ true → split_note (s ++ n) ≡ (s, n)
unfolding split_note
split_note-append [] [] h k = refl
split_note-append [] (c ∷ n) h k = ground arith
split_note-append (c ∷ []) [] h k = refl
split_note-append (c ∷ []) (d ∷ []) h k = ground arith
split_note-append (c ∷ []) (d ∷ e ∷ n) h k = ground arith
split_note-append (c ∷ d ∷ s) n h k = ground (arith, split_note-append (d ∷ s) n)

solid_cons :
    (s : Text) (remap : Dict Text) (n : Text)
    → reattribute remap (some (s ++ b'@' ∷ n)) ≡ some (move remap (s ++ b'@' ∷ n))
unfolding reattribute
solid_cons [] remap n = refl
solid_cons (c ∷ s) remap n = refl

module _ (eco name version note : Text) (p : is_ecosystem eco ≡ true) (q : is_name name ≡ true)
    (v : is_version version ≡ true) (n : is_note note ≡ true) where
  tail_of :
      behind_at (identifier eco name version) (rpartition b'@' (identifier eco name version))
      ≡ (eco ++ b':' ∷ [], name ++ b'@' ∷ version)
  unfolding identifier
  tail_of =
      let front = eco ++ b':' ∷ name in
      let at : lacks b'@' version ≡ true = ground arith in
      let colon : lacks b':' name ≡ true = ground arith in
      ap (behind_at (front ++ b'@' ∷ version)) (rpartition-append b'@' front version at)
      ∙ ap (behind_last_colon (front ++ b'@' ∷ version) version)
          (rpartition-append b':' eco name colon)

  calm_identifier : lacks b'(' (identifier eco name version) ≡ true
  unfolding identifier
  calm_identifier =
      lacks-append b'(' (eco ++ b':' ∷ name) (b'@' ∷ version)
        (lacks-append b'(' eco (b':' ∷ name) (ground arith) (ground arith)) (ground arith)

  move-identifier :
      (remap : Dict Text)
      → move remap (identifier eco name version ++ note)
        ≡ moved
            (identifier eco name version ++ note)
            (eco ++ b':' ∷ [])
            note
            (find (name ++ b'@' ∷ version) remap)
  move-identifier remap =
      let whole = identifier eco name version ++ note in
      ap
        (λ parts.
          moved whole (behind_at parts.0 (rpartition b'@' parts.0)).0 parts.1
            (find (behind_at parts.0 (rpartition b'@' parts.0)).1 remap))
        (split_note-append (identifier eco name version) note calm_identifier n)
      ∙ ap (λ parts. moved whole parts.0 note (find parts.1 remap)) tail_of

  reattribute-moved :
      (remap : Dict Text)
      → reattribute remap (some (identifier eco name version ++ note))
        ≡ some (
            moved
              (identifier eco name version ++ note)
              (eco ++ b':' ∷ [])
              note
              (find (name ++ b'@' ∷ version) remap))
  unfolding identifier
  reattribute-moved remap =
      ap (λ t. reattribute remap (some t)) (append_assoc (eco ++ b':' ∷ name) (b'@' ∷ version) note)
      ∙ solid_cons (eco ++ b':' ∷ name) remap (version ++ note)
      ∙ ap (λ t. some (move remap t))
          (sym (append_assoc (eco ++ b':' ∷ name) (b'@' ∷ version) note))
      ∙ ap some (move-identifier remap)

  rejoined :
      (binary installed : Text)
      → (eco ++ b':' ∷ []) ++ ((binary ++ b'@' ∷ installed) ++ note)
        ≡ identifier eco binary installed ++ note
  unfolding identifier
  rejoined binary installed = simp append_assoc

  -- An identifier whose name and version are mapped to a binary's names that binary afterwards, in the
  -- same ecosystem and with its note on the fix untouched, and the binary's name and version are read
  -- back from it. The parts are as for `parse_package_name`: an ecosystem may hold colons, a name holds
  -- none, a version no "@", and none of them a parenthesis.
  pub reattribute-identifier :
      (remap : Dict Text) (binary installed : Text)
      → is_name binary ≡ true
      → is_version installed ≡ true
      → find (name ++ b'@' ∷ version) remap ≡ some (binary ++ b'@' ∷ installed)
      → (reattribute remap (some (identifier eco name version ++ note))
          ≡ some (identifier eco binary installed ++ note))
        × (parse_package_name (reattribute remap (some (identifier eco name version ++ note)))
            ≡ some binary)
        × (parse_package_version (reattribute remap (some (identifier eco name version ++ note)))
            ≡ some installed)
  reattribute-identifier remap binary installed b i e =
      let read = parse-identifier eco binary installed note p b i n in
      let whole =
        reattribute-moved remap
        ∙ ap (λ o. some (moved (identifier eco name version ++ note) (eco ++ b':' ∷ []) note o)) e
        ∙ ap some (rejoined binary installed) in
      (whole, ap parse_package_name whole ∙ read.0, ap parse_package_version whole ∙ read.1)
