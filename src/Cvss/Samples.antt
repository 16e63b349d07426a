-- ===== src/Cvss/Samples.antt =====
-- Published vectors and their scores.
use cvedeck.Prelude.{ℕ, ◌≡◌, refl, true, Option, none, some, [], ◌∷◌, is_some}
use cvedeck.Prelude.Text.{Text, codes, text_eq, partition, strip_prefix}
use cvedeck.Floats.Decimals.{decimals}
use cvedeck.Cvss.{Metrics, get, split_at, parse_parts, parse_vector}
use cvedeck.Cvss.Scores.{Digits, find_score, key_of, lookup}
use cvedeck.Cvss.V4.{
  is_allowed, is_valid, v4_metric, v4_macrovector, eq3eq6_next_lower_score, available,
}
use cvedeck.Cvss.Maxima.{level_of, levels_of}
use cvedeck.Cvss.Interpolate.{
  first_found, drop_slashes, both_levels, Score, scored, severity_distance, distances_to,
  find_distances, round_half_up, clamp_tenths, interpolate, without, score_v4, cvss_v4_base_score,
}
use cvedeck.Cvss.V3.{
  find_level, level, v3_levels, roundup, impact_of, v3_formula, cvss_v3_base_score,
}
use cvedeck.Cvss.Known.{is_scorable, cvss_v3_base_score-is_scorable}
use cvedeck.Cvss.Entries.{is_sound, v4_macrovector-is_sound}

v3_score : Text → Option ℕ
unfolding cvss_v3_base_score v3_formula impact_of roundup v3_levels level find_level parse_vector
    parse_parts split_at get text_eq partition strip_prefix round_half_up
v3_score = cvss_v3_base_score decimals

worst_v3 : v3_score (codes "CVSS:3.1/AV:N/AC:L/PR:N/UI:N/S:U/C:H/I:H/A:H") ≡ some 980000000
unfolding v3_score
worst_v3 = refl

repeated_v3 : v3_score (codes "CVSS:3.1/AV:N/AC:L/PR:N/UI:N/S:U/C:H/I:H/A:H/AV:N") ≡ none
unfolding v3_score
repeated_v3 = refl

cvss_v3_base_score-is_scorable_example :
    is_some (cvss_v3_base_score decimals (codes "CVSS:3.1/AV:N/AC:L/PR:N/UI:N/S:U/C:H/I:H/A:H"))
    ≡ is_scorable (codes "CVSS:3.1/AV:N/AC:L/PR:N/UI:N/S:U/C:H/I:H/A:H")
cvss_v3_base_score-is_scorable_example =
    cvss_v3_base_score-is_scorable decimals (codes "CVSS:3.1/AV:N/AC:L/PR:N/UI:N/S:U/C:H/I:H/A:H")

v4_score : Text → Score ℕ
unfolding cvss_v4_base_score score_v4 without interpolate clamp_tenths round_half_up find_distances
    distances_to severity_distance both_levels drop_slashes first_found level_of levels_of available
    eq3eq6_next_lower_score v4_macrovector v4_metric is_valid is_allowed lookup key_of find_score
    parse_vector parse_parts split_at get text_eq partition strip_prefix
v4_score = cvss_v4_base_score decimals

worst_v4 :
    v4_score (codes "CVSS:4.0/AV:N/AC:L/AT:N/PR:N/UI:N/VC:H/VI:H/VA:H/SC:H/SI:H/SA:H")
    ≡ scored 1000000000
unfolding v4_score
worst_v4 = refl

middle_v4 :
    v4_score (codes "CVSS:4.0/AV:N/AC:L/AT:N/PR:N/UI:N/VC:H/VI:H/VA:H/SC:N/SI:N/SA:N")
    ≡ scored 930000000
unfolding v4_score
middle_v4 = refl

abbrev metrics_v4 : Metrics
metrics_v4 =
    (codes "AV", codes "L")
    ∷ (codes "AC", codes "L")
    ∷ (codes "AT", codes "N")
    ∷ (codes "PR", codes "L")
    ∷ (codes "UI", codes "A")
    ∷ (codes "VC", codes "L")
    ∷ (codes "VI", codes "N")
    ∷ (codes "VA", codes "H")
    ∷ (codes "SC", codes "N")
    ∷ (codes "SI", codes "L")
    ∷ (codes "SA", codes "N")
    ∷ (codes "E", codes "P")
    ∷ []

v4_macrovector-is_sound_example :
    (d : Digits) × (v4_macrovector metrics_v4 ≡ some d) × (is_sound d ≡ true)
unfolding v4_score
v4_macrovector-is_sound_example = v4_macrovector-is_sound metrics_v4 refl
