-- ===== src/UpstreamKernel/Samples.antt =====
-- A range that spans a series which has its own fix.
use cvedeck.Prelude.{ℕ, ◌≡◌, refl, not, ◌||◌, none, some, Option, List, [], ◌∷◌, all}
use cvedeck.Prelude.Text.{Text, codes, text_eq, to_int_from, strip, lstrip, strip_prefix, partition}
use cvedeck.PackageId.Running.{without_epoch}
use cvedeck.Releases.{key_lt, key_eq}
use cvedeck.UpstreamKernel.{
  leading_digits, match_version, vkey, upstream_version, KernelFeedEntry, UpstreamVerdict, KeyedFix,
  fixes_of, select_fixes, is_own, earliest, in_range, is_hit, verdict, affecting_from,
  upstream_affecting,
}
use cvedeck.UpstreamKernel.Series.{IsAffected, verdict-is_own}

abbrev entry : KernelFeedEntry
entry = record {
  cve_id = codes "CVE-2026-1";
  ranges =
      record {
        introduced = some (codes "6.13");
        fixed = some (codes "6.19.6");
        last_affected = none;
      }
      ∷ record {
        introduced = some (codes "6.12");
        fixed = some (codes "6.18.16");
        last_affected = none;
      }
      ∷ [];
}

affects : Text → Option (List UpstreamVerdict)
unfolding upstream_affecting affecting_from verdict is_hit in_range earliest select_fixes fixes_of
    vkey match_version leading_digits to_int_from strip lstrip strip_prefix text_eq key_lt key_eq
affects version = upstream_affecting version (entry ∷ [])

own_fix_decides : affects (codes "6.18.20") ≡ some []
unfolding affects
own_fix_decides = refl

before_own_fix :
    affects (codes "6.18.2")
    ≡ some (record { entry = entry; fixed = some (codes "6.18.16"); fixed_elsewhere = none } ∷ [])
unfolding affects
before_own_fix = refl

no_own_fix :
    affects (codes "6.17.9")
    ≡ some (record { entry = entry; fixed = none; fixed_elsewhere = some (codes "6.18.16") } ∷ [])
unfolding affects
no_own_fix = refl

carried : Text → Option Text
unfolding upstream_version match_version leading_digits strip lstrip strip_prefix partition
    without_epoch
carried = upstream_version

arch_version : carried (codes "7.2.11.arch1-1") ≡ some (codes "7.2.11")
unfolding carried
arch_version = refl

abbrev fixes : List KeyedFix
fixes = (codes "6.19.6", 6 ∷ 19 ∷ 6 ∷ []) ∷ (codes "6.18.16", 6 ∷ 18 ∷ 16 ∷ []) ∷ []

abbrev version : List ℕ
version = 6 ∷ 18 ∷ 20 ∷ []

verdict-is_own_example :
    IsAffected
      (verdict version entry)
      (all (λ f. not (is_own version f) || key_lt version f.1) fixes)
unfolding fixes_of vkey match_version leading_digits to_int_from strip lstrip strip_prefix key_eq
verdict-is_own_example = verdict-is_own version entry fixes refl refl
