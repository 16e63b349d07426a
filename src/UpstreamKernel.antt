-- ===== src/UpstreamKernel.antt =====
-- backend/app/scanner/kernel_feeds.py: which upstream kernel advisories affect a kernel version. A
-- ValueError of `_vkey` is `none`.
pub mod Series
mod Samples
use cvedeck.Prelude.{
  ℕ, Bool, true, false, not, ◌&&◌, Option, none, some, List, [], ◌∷◌, ◌++◌, if◌then◌else◌, ◌>>=◌,
}
use cvedeck.Prelude.Text.{Text, codes, text_eq, is_digit, to_int, strip, partition, strip_prefix}
use cvedeck.PackageId.Running.{without_epoch}
use cvedeck.Releases.{key_lt, key_eq}

-- `\d+` at the start, and what follows
unfoldable pub leading_digits : Text → Text × Text
leading_digits [] = ([], [])
leading_digits (c ∷ s) =
    let rest = leading_digits s in if is_digit c then (c ∷ rest.0, rest.1) else ([], c ∷ s)

abbrev pub unless_empty : Text × Text → Option (Text × Text)
unless_empty ([], rest) = none
unless_empty (c ∷ digits, rest) = some (c ∷ digits, rest)

abbrev pub number : Text → Option (Text × Text)
number s = unless_empty (leading_digits s)

-- `(?:\.(\d+))?`
abbrev pub or_zero : Option (Text × Text) → Text
or_zero none = codes "0"
or_zero (some (digits, rest)) = digits

abbrev pub third : Text → Text
third rest = or_zero (strip_prefix (codes ".") rest >>= number)

-- `_UPSTREAM_VERSION.match`: the three groups, the last "0" where it is missing
unfoldable pub match_version : Text → Option (Text × Text × Text)
match_version s = do
  major ← number s
  rest ← strip_prefix (codes ".") major.1
  minor ← number rest
  some (major.0, minor.0, third minor.1)

-- `_vkey`
abbrev pub key_of_parts : Text × Text × Text → List ℕ
key_of_parts (a, b, c) = to_int a ∷ to_int b ∷ to_int c ∷ []

abbrev pub key_from : Option (Text × Text × Text) → Option (List ℕ)
key_from none = none
key_from (some parts) = some (key_of_parts parts)

unfoldable pub vkey : Text → Option (List ℕ)
vkey version = key_from (match_version (strip version))

-- `upstream_version`
abbrev pub dotted_parts : Option (Text × Text × Text) → Option Text
dotted_parts none = none
dotted_parts (some (a, b, c)) = some (a ++ b'.' ∷ b ++ b'.' ∷ c)

unfoldable pub upstream_version : Text → Option Text
upstream_version version = dotted_parts (match_version (strip (without_epoch version)))

-- A range of `KernelFeedEntry`, and the entry as far as it is read here
pub record Range : Type 0 where
  pub introduced : Option Text
  pub fixed : Option Text
  pub last_affected : Option Text

pub record KernelFeedEntry : Type 0 where
  pub cve_id : Text
  pub ranges : List Range

-- `UpstreamVerdict`
pub record UpstreamVerdict : Type 0 where
  pub entry : KernelFeedEntry
  pub fixed : Option Text
  pub fixed_elsewhere : Option Text

-- `if f`: not empty
abbrev pub truthy_text : Option Text → Option Text
truthy_text (some (c ∷ s)) = some (c ∷ s)
truthy_text _ = none

-- A fix with its key
abbrev pub KeyedFix : Type 0
KeyedFix = Text × List ℕ

abbrev pub add_fix : Option Text → Option (List KeyedFix) → Option (List KeyedFix)
add_fix none fixes = fixes
add_fix (some f) fixes = vkey f >>= λ key. fixes >>= λ rest. some ((f, key) ∷ rest)

-- `fixes`
unfoldable pub fixes_of : List Range → Option (List KeyedFix)
fixes_of [] = some []
fixes_of (r ∷ rs) = add_fix (truthy_text r.fixed) (fixes_of rs)

-- `_vkey(f)[:2]`
abbrev pub series : List ℕ → List ℕ
series (a ∷ b ∷ rest) = a ∷ b ∷ []
series key = key

unfoldable pub select_fixes : (KeyedFix → Bool) → List KeyedFix → List KeyedFix
select_fixes p [] = []
select_fixes p (f ∷ fs) = let rest = select_fixes p fs in if p f then f ∷ rest else rest

abbrev pub is_own : List ℕ → KeyedFix → Bool
is_own v (f, key) = key_eq (series key) (series v)

abbrev pub is_newer : List ℕ → KeyedFix → Bool
is_newer v (f, key) = key_lt (series v) (series key)

-- `min(fixes, key=_vkey)`
unfoldable pub earliest : KeyedFix → List KeyedFix → KeyedFix
earliest f [] = f
earliest f (g ∷ gs) = earliest (if key_lt g.1 f.1 then g else f) gs

-- One range of the loop: whether the version is in it
abbrev pub low_of : Option Text → Option (List ℕ)
low_of none = some (0 ∷ 0 ∷ 0 ∷ [])
low_of (some introduced) =
    if text_eq introduced (codes "0") then some (0 ∷ 0 ∷ 0 ∷ []) else vkey introduced

abbrev pub not_past : List ℕ → Option Text → Option Bool
not_past v none = some true
not_past v (some last) = vkey last >>= λ key. some (not (key_lt key v))

abbrev pub not_fixed : List ℕ → Option Text → Option Bool
not_fixed v none = some true
not_fixed v (some fixed) = vkey fixed >>= λ key. some (key_lt v key)

abbrev pub unless_false : Bool → Option Bool → Option Bool
unless_false false rest = some false
unless_false true rest = rest

unfoldable pub in_range : List ℕ → Range → Option Bool
in_range v r = low_of (truthy_text r.introduced) >>= λ low. unless_false (not (key_lt v low)) (
    not_fixed v (truthy_text r.fixed) >>= λ before.
    unless_false before (not_past v (truthy_text r.last_affected)))

abbrev pub or_next : Option Bool → Option Bool → Option Bool
or_next none rest = none
or_next (some true) rest = some true
or_next (some false) rest = rest

unfoldable pub is_hit : List ℕ → List Range → Option Bool
is_hit v [] = some false
is_hit v (r ∷ rs) = or_next (in_range v r) (is_hit v rs)

abbrev pub earliest_newer : List KeyedFix → Option Text
earliest_newer [] = none
earliest_newer (f ∷ fs) = some (earliest f fs).0

abbrev pub if_hit : KernelFeedEntry → List KeyedFix → Bool → Option UpstreamVerdict
if_hit entry newer false = none
if_hit entry newer true =
    some (record { entry = entry; fixed = none; fixed_elsewhere = earliest_newer newer })

abbrev pub if_before : KernelFeedEntry → List ℕ → KeyedFix → Option UpstreamVerdict
if_before entry v first =
    if key_lt v first.1
    then some (record { entry = entry; fixed = some first.0; fixed_elsewhere = none })
    else none

-- One entry of the loop; no verdict is not affected.
abbrev pub by_own :
    List ℕ → KernelFeedEntry → List KeyedFix → List KeyedFix → Option (Option UpstreamVerdict)
by_own v entry fixes (f ∷ fs) = some (if_before entry v (earliest f fs))
by_own v entry fixes [] =
    is_hit v entry.ranges >>= λ hit. some (if_hit entry (select_fixes (is_newer v) fixes) hit)

unfoldable pub verdict : List ℕ → KernelFeedEntry → Option (Option UpstreamVerdict)
verdict v entry =
    fixes_of entry.ranges >>= λ fixes. by_own v entry fixes (select_fixes (is_own v) fixes)

abbrev pub add_verdict : Option UpstreamVerdict → List UpstreamVerdict → List UpstreamVerdict
add_verdict none rest = rest
add_verdict (some x) rest = x ∷ rest

-- `upstream_affecting`
unfoldable pub affecting_from : List ℕ → List KernelFeedEntry → Option (List UpstreamVerdict)
affecting_from v [] = some []
affecting_from v (e ∷ es) =
    verdict v e >>= λ x. affecting_from v es >>= λ rest. some (add_verdict x rest)

unfoldable pub upstream_affecting : Text → List KernelFeedEntry → Option (List UpstreamVerdict)
upstream_affecting version entries = vkey version >>= λ v. affecting_from v entries
