-- ===== src/Osv/Sources.antt =====
-- Which packages osv_client.py asks about, and under which binary it reports the answers:
-- `_match_by_source` up to the queries, `_representative` and `_reattribute`.
use cvedeck.Prelude.{
  Bool, true, false, ◌&&◌, ◌||◌, Option, none, some, List, [], ◌∷◌, ◌++◌, any, if◌then◌else◌,
}
use cvedeck.Prelude.Text.{Text, text_eq, rpartition}
use cvedeck.Prelude.Dicts.{Dict, find}
use cvedeck.PackageId.{opens_note, is_empty, or_empty}
use cvedeck.PackageId.Kernel.{Package, is_kernel_image, advisory_source}
use cvedeck.Releases.{key_lt}

-- `_query_package`
abbrev pub query_package : Package → Package
query_package p =
    if is_empty (or_empty p.source_name)
    then p
    else let source = advisory_source p in record p { name = source.0; version = source.1 }

-- `_name_at_version`
abbrev pub name_at_version : Package → Text
name_at_version p = p.name ++ b'@' ∷ p.version

-- `min(..., key=lambda b: b.name)`
unfoldable pub first_by_name : Package → List Package → Package
first_by_name p [] = p
first_by_name p (q ∷ qs) = first_by_name (if key_lt q.name p.name then q else p) qs

unfoldable pub images_of : List Package → List Package
images_of [] = []
images_of (p ∷ ps) = let rest = images_of ps in if is_kernel_image p.name then p ∷ rest else rest

unfoldable pub named_like : Text → List Package → Option Package
named_like source [] = none
named_like source (p ∷ ps) =
    let rest = named_like source ps in if text_eq p.name source then some p else rest

abbrev pub or_first : Option Package → Package → Package
or_first none first = first
or_first (some p) first = p

abbrev pub image_or : List Package → Package → Package
image_or [] other = other
image_or (p ∷ ps) other = first_by_name p ps

-- `_representative`, of a list with a first element
unfoldable pub representative : Text → Package → List Package → Package
representative source p ps =
    image_or (images_of (p ∷ ps)) (or_first (named_like source (p ∷ ps)) (first_by_name p ps))

-- `key`: the ecosystem, the name and the version
abbrev pub same_query : Package → Package → Bool
same_query p q =
    text_eq (or_empty p.ecosystem) (or_empty q.ecosystem)
    && text_eq p.name q.name
    && text_eq p.version q.version

-- A group: the source, its first binary and the others
abbrev pub Group : Type 0
Group = Package × Package × List Package

unfoldable pub add_to_groups : Package → Package → List Group → List Group
add_to_groups source p [] = (source, p, []) ∷ []
add_to_groups source p ((s, first, others) ∷ groups) =
    let rest = add_to_groups source p groups in
    if same_query s source then (s, first, others ++ p ∷ []) ∷ groups else (s, first, others) ∷ rest

unfoldable pub group : List Package → List Group → List Group
group [] groups = groups
group (p ∷ ps) groups = group ps (
    if is_empty p.name || is_empty p.version
    then groups
    else add_to_groups (query_package p) p groups)

-- `remap.setdefault(asked, reported)`
abbrev pub set_default : Text → Text → Dict Text → Option Text → Dict Text
set_default asked reported remap (some there) = remap
set_default asked reported remap none = remap ++ (asked, reported) ∷ []

abbrev pub Queries : Type 0
Queries = List Package × Dict Text

abbrev pub add_query : Text → Package → Queries → Queries
add_query reported query (queries, remap) =
    let asked = name_at_version query in
    if any (same_query query) queries then (queries, remap) else (
      queries ++ query ∷ [],
      if text_eq asked reported then remap else set_default asked reported remap (find asked remap),
    )

unfoldable pub add_queries : Text → List Package → Queries → Queries
add_queries reported [] state = state
add_queries reported (q ∷ qs) state = add_queries reported qs (add_query reported q state)

unfoldable pub queries_of : List Group → Queries → Queries
queries_of [] state = state
queries_of ((source, p, ps) ∷ groups) state =
    queries_of groups
      (add_queries (name_at_version (representative source.name p ps)) (source ∷ p ∷ ps) state)

-- The queries and the `remap` of `_match_by_source`
unfoldable pub source_queries : List Package → Queries
source_queries packages = queries_of (group packages []) ([], [])

-- `identifier[:note], identifier[note:]`
unfoldable pub split_note : Text → Text × Text
split_note [] = ([], [])
split_note (c ∷ s) = elim (opens_note (c ∷ s)) [
  | true ↦ ([], c ∷ s)
  | false ↦ let rest = split_note s in (c ∷ rest.0, rest.1)
]

-- `prefix, tail`
abbrev pub behind_last_colon : Text → Text → Option (Text × Text) → Text × Text
behind_last_colon base version none = ([], base)
behind_last_colon base version (some (eco, name)) = (eco ++ b':' ∷ [], name ++ b'@' ∷ version)

abbrev pub behind_at : Text → Option (Text × Text) → Text × Text
behind_at base none = ([], base)
behind_at base (some (front, version)) = behind_last_colon base version (rpartition b':' front)

abbrev pub moved : Text → Text → Text → Option Text → Text
moved identifier prefix suffix none = identifier
moved identifier prefix suffix (some reported) = prefix ++ (reported ++ suffix)

abbrev pub move : Dict Text → Text → Text
move remap identifier =
    let (base, suffix) = split_note identifier in
    let (prefix, tail) = behind_at base (rpartition b'@' base) in
    moved identifier prefix suffix (find tail remap)

-- `_reattribute`, on the identifier, the one field that it changes
unfoldable pub reattribute : Dict Text → Option Text → Option Text
reattribute remap none = none
reattribute remap (some []) = some []
reattribute remap (some (c ∷ s)) = some (move remap (c ∷ s))
