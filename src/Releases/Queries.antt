-- ===== src/Releases/Queries.antt =====
-- The release-specific ecosystems that OSV is asked about for a host.
use cvedeck.Prelude.{
  ℕ, zero, suc, ◌+◌, ◌/◌, ◌%◌, Bool, true, false, ◌&&◌, ◌||◌, Option, none, some, List, [], ◌∷◌,
  ◌++◌, ◌==◌, ltb, any, if◌then◌else◌,
}
use cvedeck.Prelude.Text.{Text, codes, text_eq, is_digit, to_int}
use cvedeck.Releases.{
  Family, debian, ubuntu, alpine, alma_linux, rocky_linux, red_hat, opensuse_leap, Release,
  host_releases, dotted_text,
}

-- `str(n)`; every round but the last divides by ten, so `n` rounds and one are enough.
unfoldable pub decimal_from : ℕ → ℕ → Text → Text
decimal_from zero n behind = behind
decimal_from (suc fuel) n behind =
    let rest = decimal_from fuel (n / 10) ((b'0' + n % 10) ∷ behind) in
    if ltb n 10 then (b'0' + n) ∷ behind else rest

abbrev pub decimal : ℕ → Text
decimal n = decimal_from (suc n) n []

-- `f"{p:02d}"`
abbrev pub two_places : ℕ → Text
two_places n = if ltb n 10 then b'0' ∷ decimal n else decimal n

-- `(\d\d)\.(04|10)`, and whether the release is a long-term one
abbrev pub is_even : ℕ → Bool
is_even n = n % 2 == 0

abbrev pub named_ubuntu : Text → Text → Text → Option Text
named_ubuntu version year month =
    if text_eq month (codes "04") && is_even (to_int year)
    then some (codes "Ubuntu:" ++ (version ++ codes ":LTS"))
    else if text_eq month (codes "04") || text_eq month (codes "10")
    then some (codes "Ubuntu:" ++ version)
    else none

-- `ubuntu_ecosystem`
unfoldable pub ubuntu_ecosystem : Text → Option Text
ubuntu_ecosystem (a ∷ b ∷ c ∷ d ∷ e ∷ []) =
    if is_digit a && is_digit b && c == b'.'
    then named_ubuntu (a ∷ b ∷ c ∷ d ∷ e ∷ []) (a ∷ b ∷ []) (d ∷ e ∷ [])
    else none
ubuntu_ecosystem _ = none

abbrev pub or_plain : Text → Option Text → Text
or_plain version none = codes "Ubuntu:" ++ version
or_plain version (some eco) = eco

-- `release.key[0]` and `release.key[1]`; every key that is made has them.
abbrev pub first_key : List ℕ → ℕ
first_key [] = 0
first_key (a ∷ key) = a

abbrev pub second_key : List ℕ → ℕ
second_key (a ∷ b ∷ key) = b
second_key _ = 0

-- `".".join(f"{p:02d}" for p in release.key)`
unfoldable pub joined_key : List ℕ → Text
joined_key [] = []
joined_key (a ∷ []) = two_places a
joined_key (a ∷ b ∷ key) = dotted_text (two_places a) (joined_key (b ∷ key))

-- `RHEL_STREAMS`
abbrev pub rhel_query : ℕ → Text → Text
rhel_query major stream =
    codes "Red Hat:enterprise_linux:" ++ (decimal major ++ (codes "::" ++ stream))

abbrev pub dotted_query : Text → List ℕ → Text
dotted_query prefix key = prefix ++ dotted_text (decimal (first_key key)) (decimal (second_key key))

abbrev pub family_queries : Family → List ℕ → List Text
family_queries red_hat key =
    rhel_query (first_key key) (codes "baseos")
    ∷ rhel_query (first_key key) (codes "appstream")
    ∷ rhel_query (first_key key) (codes "crb")
    ∷ []
family_queries debian key = (codes "Debian:" ++ decimal (first_key key)) ∷ []
family_queries ubuntu key =
    let version = joined_key key in or_plain version (ubuntu_ecosystem version) ∷ []
family_queries alpine key = dotted_query (codes "Alpine:v") key ∷ []
family_queries alma_linux key = (codes "AlmaLinux:" ++ decimal (first_key key)) ∷ []
family_queries rocky_linux key = (codes "Rocky Linux:" ++ decimal (first_key key)) ∷ []
family_queries opensuse_leap key = dotted_query (codes "openSUSE:Leap ") key ∷ []

unfoldable pub queries_of_releases : List Release → List Text
queries_of_releases [] = []
queries_of_releases (r ∷ rs) = family_queries r.family r.key ++ queries_of_releases rs

-- `dict.fromkeys(queries)`: each once, where it came first
unfoldable pub each_once : List Text → List Text → List Text
each_once seen [] = []
each_once seen (q ∷ qs) = elim (any (text_eq q) seen) [
  | true ↦ each_once seen qs
  | false ↦ q ∷ each_once (q ∷ seen) qs
]

-- `release_query_ecosystems`
unfoldable pub release_query_ecosystems : Text → List Text
release_query_ecosystems host_ecosystem =
    each_once [] (queries_of_releases (host_releases host_ecosystem))
