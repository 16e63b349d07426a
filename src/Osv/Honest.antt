-- ===== src/Osv/Honest.antt =====
-- What backs each note of `fix_suffix`: the entries of the record that it rests on.
use cvedeck.Prelude.{
  all-append, ◌≡◌, refl, Bool, true, false, not, ◌&&◌, ◌||◌, Option, none, some, List, [], ◌∷◌,
  ◌++◌, any, all, is_some, if◌then◌else◌, arith,
}
use cvedeck.Prelude.Text.{Text, text_eq, text_eq_refl}
use cvedeck.Releases.{Release, parse_release, family_eq, key_lt, key_eq}
use cvedeck.Osv.{
  Block, fix_in, same_release, keep, first_fix, Candidate, newer_for, newer_of, newer, candidate_lt,
  least, FixNote, nothing, fixed_here, fixed_newer, fixed_upstream, host_label, label_of,
  is_queried,
}

-- The entry names this fix; it names one at all.
abbrev pub is_fix : Text → Option Text → Bool
is_fix v none = false
is_fix v (some fixed) = text_eq fixed v

abbrev pub names_fix : Text → Block → Bool
names_fix v b = is_fix v (fix_in b)

abbrev pub has_fix : Block → Bool
has_fix b = is_some (fix_in b)

-- A release that comes after one of the host's, or a subscription stream of the same one.
abbrev pub is_later : Release → Release → Bool
is_later r h =
    family_eq r.family h.family
    && (if r.subscription then key_eq r.key h.key else key_lt h.key r.key)

abbrev pub comes_later : List Release → Option Release → Bool
comes_later host none = false
comes_later host (some r) = any (is_later r) host

abbrev pub has_label : Text → Option Release → Bool
has_label l none = false
has_label l (some r) = text_eq r.label l

abbrev pub is_later_entry : List Release → Block → Bool
is_later_entry host b = has_fix b && comes_later host (parse_release b.ecosystem)

abbrev pub names_later : List Release → Text → Text → Block → Bool
names_later host l v b =
    names_fix v b
    && has_label l (parse_release b.ecosystem)
    && comes_later host (parse_release b.ecosystem)

abbrev pub is_rolling : List Release → Text → Block → Bool
is_rolling [] queried b = is_queried queried b
is_rolling (h ∷ hs) queried b = false

-- What the record has to hold for a note.
abbrev pub is_backed : List Block → Text → List Release → List Text → FixNote → Bool
is_backed blocks queried host ecos nothing =
    if any (same_release host ecos) blocks
    then not (any (λ b. same_release host ecos b && has_fix b) blocks)
      && not (any (is_later_entry host) blocks)
    else not (any has_fix blocks)
is_backed blocks queried host ecos (fixed_here v) =
    any (λ b. (same_release host ecos b || is_rolling host queried b) && names_fix v b) blocks
is_backed blocks queried host ecos (fixed_newer h l v) =
    text_eq h (host_label host)
    && any (same_release host ecos) blocks
    && not (any (λ b. same_release host ecos b && has_fix b) blocks)
    && any (names_later host l v) blocks
is_backed blocks queried host ecos (fixed_upstream l v) =
    not (any (same_release host ecos) blocks)
    && any (λ b. names_fix v b && text_eq (label_of queried b.ecosystem) l) blocks

pub any-keep : (p q : Block → Bool) (bs : List Block) → any q (keep p bs) ≡ any (λ b. p b && q b) bs
unfolding keep
any-keep p q [] = refl
any-keep p q (b ∷ bs) = ground (arith, any-keep p q bs)

pub any-keep_nil : (p : Block → Bool) (bs : List Block) → keep p bs ≡ [] → any p bs ≡ false
unfolding keep
any-keep_nil p [] h = refl
any-keep_nil p (b ∷ bs) h = ground (arith, any-keep_nil p bs)

pub any-keep_cons :
    (p : Block → Bool) (bs : List Block) (c : Block) (cs : List Block)
    → keep p bs ≡ c ∷ cs
    → any p bs ≡ true
unfolding keep
any-keep_cons p [] c cs h = ground arith
any-keep_cons p (b ∷ bs) c cs h = ground (arith, any-keep_cons p bs c cs)

pub first_fix-some :
    (bs : List Block) (v : Text) → first_fix bs ≡ some v → any (names_fix v) bs ≡ true
unfolding first_fix
first_fix-some [] v h = ground arith
first_fix-some (b ∷ bs) v h = ground (arith, first_fix-some bs v, text_eq_refl v)

pub first_fix-none : (bs : List Block) → first_fix bs ≡ none → any has_fix bs ≡ false
unfolding first_fix
first_fix-none [] h = refl
first_fix-none (b ∷ bs) h = ground (arith, first_fix-none bs)

pub any_mono :
    {A : Type 0} (p q : A → Bool)
    → ((x : A) → p x ≡ true → q x ≡ true)
    → (xs : List A) → any p xs ≡ true
    → any q xs ≡ true
any_mono p q f [] h = h
any_mono p q f (x ∷ xs) h = ground (arith, f x, any_mono p q f xs)

any_same :
    {A : Type 0} (p q : A → Bool) → ((x : A) → p x ≡ q x) → (xs : List A) → any p xs ≡ any q xs
any_same p q f [] = refl
any_same p q f (x ∷ xs) = ground (arith, f x, any_same p q f xs)

if_holds :
    (p : Candidate → Bool) (b : Bool) (d c : Candidate)
    → p d ≡ true
    → p c ≡ true
    → p (if b then d else c) ≡ true
if_holds p true d c h k = h
if_holds p false d c h k = k

-- The least of some candidates is one of them.
pub least_holds :
    (p : Candidate → Bool) (c : Candidate) (cs : List Candidate)
    → p c ≡ true
    → all p cs ≡ true
    → p (least c cs) ≡ true
unfolding least
least_holds p c [] h k = h
least_holds p c (d ∷ ds) h k =
    least_holds p (if candidate_lt d c then d else c) ds
      (if_holds p (candidate_lt d c) d c (ground arith) h) (ground arith)

all_mono :
    {A : Type 0} (p q : A → Bool)
    → ((x : A) → p x ≡ true → q x ≡ true)
    → (xs : List A) → all p xs ≡ true
    → all q xs ≡ true
all_mono p q f [] h = h
all_mono p q f (x ∷ xs) h = ground (arith, f x, all_mono p q f xs)

newer_for_holds :
    (r : Release) (f : Text) (hs : List Release)
    → all
        (λ c. any (is_later r) hs && text_eq r.label c.label && text_eq f c.fixed)
        (newer_for hs r f)
      ≡ true
unfolding newer_for
newer_for_holds r f [] = refl
newer_for_holds r f (h ∷ hs) =
    let rest =
      all_mono (λ c. any (is_later r) hs && text_eq r.label c.label && text_eq f c.fixed)
        (λ c. any (is_later r) (h ∷ hs) && text_eq r.label c.label && text_eq f c.fixed)
        (λ c e. ground arith) (newer_for hs r f) (newer_for_holds r f hs) in
    let label = text_eq_refl r.label in let fixed = text_eq_refl f in ground arith

newer_of_holds :
    (host : List Release) (o : Option Release) (x : Option Text)
    → all (λ c. is_fix c.fixed x && has_label c.label o && comes_later host o) (newer_of host o x)
      ≡ true
newer_of_holds host none x = refl
newer_of_holds host (some r) none = refl
newer_of_holds host (some r) (some f) =
    all_mono (λ c. any (is_later r) host && text_eq r.label c.label && text_eq f c.fixed)
      (λ c. is_fix c.fixed (some f) && has_label c.label (some r) && comes_later host (some r))
      (λ c e. ground arith) (newer_for host r f) (newer_for_holds r f host)

pub newer_holds :
    (host : List Release) (bs : List Block)
    → all (λ c. any (names_later host c.label c.fixed) bs) (newer host bs) ≡ true
unfolding newer
newer_holds host [] = refl
newer_holds host (b ∷ bs) =
    all-append (λ c. any (names_later host c.label c.fixed) (b ∷ bs))
      (newer_of host (parse_release b.ecosystem) (fix_in b)) (newer host bs)
      (all_mono (λ c. names_later host c.label c.fixed b)
        (λ c. any (names_later host c.label c.fixed) (b ∷ bs)) (λ c e. ground arith)
        (newer_of host (parse_release b.ecosystem) (fix_in b))
        (newer_of_holds host (parse_release b.ecosystem) (fix_in b)))
      (all_mono (λ c. any (names_later host c.label c.fixed) bs)
        (λ c. any (names_later host c.label c.fixed) (b ∷ bs)) (λ c e. ground arith) (newer host bs)
        (newer_holds host bs))

newer_for_nil :
    (r : Release) (f : Text) (hs : List Release)
    → newer_for hs r f ≡ []
    → any (is_later r) hs ≡ false
unfolding newer_for
newer_for_nil r f [] e = refl
newer_for_nil r f (h ∷ hs) e = ground (arith, newer_for_nil r f hs)

newer_of_nil :
    (host : List Release) (o : Option Release) (x : Option Text)
    → newer_of host o x ≡ []
    → is_some x && comes_later host o ≡ false
newer_of_nil host none x e = ground arith
newer_of_nil host (some r) none e = refl
newer_of_nil host (some r) (some f) e = newer_for_nil r f host e

append_nil_both : {A : Type 0} (xs ys : List A) → xs ++ ys ≡ [] → (xs ≡ []) × (ys ≡ [])
append_nil_both [] ys e = (refl, e)
append_nil_both (x ∷ xs) ys e = ground arith

pub newer_nil :
    (host : List Release) (bs : List Block)
    → newer host bs ≡ []
    → any (is_later_entry host) bs ≡ false
unfolding newer
newer_nil host [] e = refl
newer_nil host (b ∷ bs) e =
    let both =
      append_nil_both (newer_of host (parse_release b.ecosystem) (fix_in b)) (newer host bs) e in
    let here = newer_of_nil host (parse_release b.ecosystem) (fix_in b) both.0 in
    let rest = newer_nil host bs both.1 in ground arith
