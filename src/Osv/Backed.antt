-- ===== src/Osv/Backed.antt =====
-- Every note of `fix_suffix` is backed by the record.
use cvedeck.Prelude.{
  ◌≡◌, refl, sym, ap, ◌∙◌, Bool, true, false, not, ◌&&◌, ◌||◌, Option, none, some, List, [], ◌∷◌,
  any, all, arith, Option-cases, inl, inr,
}
use cvedeck.Prelude.Text.{Text, text_eq, text_eq_refl}
use cvedeck.Releases.{Release}
use cvedeck.Osv.{
  Block, fix_in, same_release, keep, first_fix, Candidate, newer, FixNote, nothing, fixed_here,
  fixed_newer, fixed_upstream, newer_note, own_note, host_label, rolling_note, label_of,
  first_upstream, is_queried, other_note, note_for, fix_note,
}
use cvedeck.Osv.Honest.{
  names_fix, has_fix, names_later, is_rolling, is_backed, any-keep, any-keep_nil, any-keep_cons,
  first_fix-some, first_fix-none, any_mono, least_holds, newer_holds, newer_nil,
}

-- The entries that a note on another release rests on.
abbrev is_found : Text → List Block → FixNote → Bool
is_found queried bs nothing = not (any has_fix bs)
is_found queried bs (fixed_upstream l v) =
    any (λ b. names_fix v b && text_eq (label_of queried b.ecosystem) l) bs
is_found queried bs (fixed_here v) = false
is_found queried bs (fixed_newer h l v) = false

found_behind :
    (queried : Text) (b : Block) (bs : List Block) (n : FixNote)
    → fix_in b ≡ none
    → is_found queried bs n ≡ true
    → is_found queried (b ∷ bs) n ≡ true
found_behind queried b bs nothing e h = ground arith
found_behind queried b bs (fixed_upstream l v) e h = ground arith
found_behind queried b bs (fixed_here v) e h = h
found_behind queried b bs (fixed_newer x l v) e h = h

first_upstream-is_found :
    (queried : Text) (bs : List Block) → is_found queried bs (first_upstream queried bs) ≡ true
unfolding first_upstream
first_upstream-is_found queried [] = refl
first_upstream-is_found queried (b ∷ bs) = elim (Option-cases (fix_in b)) [
  | inr (v, f) ↦
      let fixed = text_eq_refl v in
      let label = text_eq_refl (label_of queried b.ecosystem) in rw f (ground arith)
  | inl f ↦
      rw f (
        found_behind queried b bs (first_upstream queried bs) f
          (first_upstream-is_found queried bs))
]

module _ (blocks : List Block) (queried : Text) (host : List Release) (ecos : List Text) where
  abbrev owns : Block → Bool
  owns b = same_release host ecos b

  found_backed :
      (n : FixNote)
      → any owns blocks ≡ false
      → is_found queried blocks n ≡ true
      → is_backed blocks queried host ecos n ≡ true
  found_backed nothing o h = ground arith
  found_backed (fixed_upstream l v) o h = ground arith
  found_backed (fixed_here v) o h = ground arith
  found_backed (fixed_newer x l v) o h = ground arith

  upstream_backed :
      any owns blocks ≡ false
      → is_backed blocks queried host ecos (first_upstream queried blocks) ≡ true
  upstream_backed o =
      found_backed (first_upstream queried blocks) o (first_upstream-is_found queried blocks)

  newest_backed :
      (cs : List Candidate)
      → newer host blocks ≡ cs
      → any owns blocks ≡ true
      → any (λ b. owns b && has_fix b) blocks ≡ false
      → is_backed blocks queried host ecos (newer_note host cs) ≡ true
  newest_backed [] e there unfixed = let none_later = newer_nil host blocks e in ground arith
  newest_backed (c ∷ cs) e there unfixed =
      let each : all (λ d. any (names_later host d.label d.fixed) blocks) (c ∷ cs) ≡ true =
        sym (ap (all (λ d. any (names_later host d.label d.fixed) blocks)) e)
        ∙ newer_holds host blocks in
      let best =
        least_holds (λ d. any (names_later host d.label d.fixed) blocks) c cs (ground arith)
          (ground arith) in
      let named = text_eq_refl (host_label host) in ground arith

  own_backed :
      (b : Block) (bs : List Block)
      → keep (same_release host ecos) blocks ≡ b ∷ bs
      → (x : Option Text) → first_fix (b ∷ bs) ≡ x
      → is_backed blocks queried host ecos (own_note host blocks x) ≡ true
  own_backed b bs e (some v) f =
      any_mono (λ c. owns c && names_fix v c)
        (λ c. (owns c || is_rolling host queried c) && names_fix v c) (λ c h. ground arith) blocks
        (sym (any-keep owns (names_fix v) blocks)
          ∙ ap (any (names_fix v)) e
          ∙ first_fix-some (b ∷ bs) v f)
  own_backed b bs e none f =
      newest_backed (newer host blocks) refl (any-keep_cons owns blocks b bs e)
        (sym (any-keep owns has_fix blocks) ∙ ap (any has_fix) e ∙ first_fix-none (b ∷ bs) f)

rolling_backed :
    (blocks : List Block) (queried : Text) (ecos : List Text)
    → any (same_release [] ecos) blocks ≡ false
    → (x : Option Text) → first_fix (keep (is_queried queried) blocks) ≡ x
    → is_backed blocks queried [] ecos (rolling_note queried blocks x) ≡ true
rolling_backed blocks queried ecos o none f = upstream_backed blocks queried [] ecos o
rolling_backed blocks queried ecos o (some v) f =
    any_mono (λ c. is_queried queried c && names_fix v c)
      (λ c. (same_release [] ecos c || is_rolling [] queried c) && names_fix v c)
      (λ c h. ground arith) blocks
      (sym (any-keep (is_queried queried) (names_fix v) blocks)
        ∙ first_fix-some (keep (is_queried queried) blocks) v f)

other_backed :
    (blocks : List Block) (queried : Text) (host : List Release) (ecos : List Text)
    → any (same_release host ecos) blocks ≡ false
    → is_backed blocks queried host ecos (other_note queried blocks host) ≡ true
other_backed blocks queried [] ecos o =
    rolling_backed blocks queried ecos o (first_fix (keep (is_queried queried) blocks)) refl
other_backed blocks queried (h ∷ hs) ecos o = upstream_backed blocks queried (h ∷ hs) ecos o

note_backed :
    (blocks : List Block) (queried : Text) (host : List Release) (ecos : List Text)
    (own : List Block)
    → keep (same_release host ecos) blocks ≡ own
    → is_backed blocks queried host ecos (note_for queried blocks host own) ≡ true
note_backed blocks queried host ecos [] e =
    other_backed blocks queried host ecos (any-keep_nil (same_release host ecos) blocks e)
note_backed blocks queried host ecos (b ∷ bs) e =
    own_backed blocks queried host ecos b bs e (first_fix (b ∷ bs)) refl

-- Every note that is chosen for a fix rests on entries of the record. A fix is offered as installable
-- only if an entry of the host's own release names that version, or, on a host with no known release,
-- an entry of exactly the ecosystem that was asked. A fix of a later release is named only if the
-- host's own release is described and has no fix, and the note names the host's release, and an
-- entry with that label and that version is of
-- a release after one of the host's, or of a subscription stream of the same one. An upstream fix is
-- named only if no entry describes the host's release, and an entry has that label and version. With
-- no note, the own release is described and neither it nor a later one has a fix, or no entry has one.
pub fix_note-is_backed :
    (blocks : List Block) (queried : Text) (host : List Release) (ecos : List Text)
    → is_backed blocks queried host ecos (fix_note blocks queried host ecos) ≡ true
unfolding fix_note
fix_note-is_backed blocks queried host ecos =
    note_backed blocks queried host ecos (keep (same_release host ecos) blocks) refl
