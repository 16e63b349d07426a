-- ===== src/Cvss/Scores.antt =====
-- The published MacroVector scores of cvss.py. A key is the six digits read as a number, a score is in
-- tenths.
use cvedeck.Prelude.{ℕ, true, false, Option, none, some, List, [], ◌∷◌, ◌==◌, ◌+◌, ◌*◌}

-- `_V4_MACROVECTOR_SCORES`
abbrev pub macrovector_scores : List (ℕ × ℕ)
macrovector_scores =
    (0, 100)
    ∷ (1, 99)
    ∷ (10, 98)
    ∷ (11, 95)
    ∷ (20, 95)
    ∷ (21, 92)
    ∷ (100, 100)
    ∷ (101, 96)
    ∷ (110, 93)
    ∷ (111, 87)
    ∷ (120, 91)
    ∷ (121, 81)
    ∷ (200, 93)
    ∷ (201, 90)
    ∷ (210, 89)
    ∷ (211, 80)
    ∷ (220, 81)
    ∷ (221, 68)
    ∷ (1000, 98)
    ∷ (1001, 95)
    ∷ (1010, 95)
    ∷ (1011, 92)
    ∷ (1020, 90)
    ∷ (1021, 84)
    ∷ (1100, 93)
    ∷ (1101, 92)
    ∷ (1110, 89)
    ∷ (1111, 81)
    ∷ (1120, 81)
    ∷ (1121, 65)
    ∷ (1200, 88)
    ∷ (1201, 80)
    ∷ (1210, 78)
    ∷ (1211, 70)
    ∷ (1220, 69)
    ∷ (1221, 48)
    ∷ (2001, 92)
    ∷ (2011, 82)
    ∷ (2021, 72)
    ∷ (2101, 79)
    ∷ (2111, 69)
    ∷ (2121, 50)
    ∷ (2201, 69)
    ∷ (2211, 55)
    ∷ (2221, 27)
    ∷ (10000, 99)
    ∷ (10001, 97)
    ∷ (10010, 95)
    ∷ (10011, 92)
    ∷ (10020, 92)
    ∷ (10021, 85)
    ∷ (10100, 95)
    ∷ (10101, 91)
    ∷ (10110, 90)
    ∷ (10111, 83)
    ∷ (10120, 84)
    ∷ (10121, 71)
    ∷ (10200, 92)
    ∷ (10201, 81)
    ∷ (10210, 82)
    ∷ (10211, 71)
    ∷ (10220, 72)
    ∷ (10221, 53)
    ∷ (11000, 95)
    ∷ (11001, 93)
    ∷ (11010, 92)
    ∷ (11011, 85)
    ∷ (11020, 85)
    ∷ (11021, 73)
    ∷ (11100, 92)
    ∷ (11101, 82)
    ∷ (11110, 80)
    ∷ (11111, 72)
    ∷ (11120, 70)
    ∷ (11121, 59)
    ∷ (11200, 84)
    ∷ (11201, 70)
    ∷ (11210, 71)
    ∷ (11211, 52)
    ∷ (11220, 50)
    ∷ (11221, 30)
    ∷ (12001, 86)
    ∷ (12011, 75)
    ∷ (12021, 52)
    ∷ (12101, 71)
    ∷ (12111, 52)
    ∷ (12121, 29)
    ∷ (12201, 63)
    ∷ (12211, 29)
    ∷ (12221, 17)
    ∷ (100000, 98)
    ∷ (100001, 95)
    ∷ (100010, 94)
    ∷ (100011, 87)
    ∷ (100020, 91)
    ∷ (100021, 81)
    ∷ (100100, 94)
    ∷ (100101, 89)
    ∷ (100110, 86)
    ∷ (100111, 74)
    ∷ (100120, 77)
    ∷ (100121, 64)
    ∷ (100200, 87)
    ∷ (100201, 75)
    ∷ (100210, 74)
    ∷ (100211, 63)
    ∷ (100220, 63)
    ∷ (100221, 49)
    ∷ (101000, 94)
    ∷ (101001, 89)
    ∷ (101010, 88)
    ∷ (101011, 77)
    ∷ (101020, 76)
    ∷ (101021, 67)
    ∷ (101100, 86)
    ∷ (101101, 76)
    ∷ (101110, 74)
    ∷ (101111, 58)
    ∷ (101120, 59)
    ∷ (101121, 50)
    ∷ (101200, 72)
    ∷ (101201, 57)
    ∷ (101210, 57)
    ∷ (101211, 52)
    ∷ (101220, 52)
    ∷ (101221, 25)
    ∷ (102001, 83)
    ∷ (102011, 70)
    ∷ (102021, 54)
    ∷ (102101, 65)
    ∷ (102111, 58)
    ∷ (102121, 26)
    ∷ (102201, 53)
    ∷ (102211, 21)
    ∷ (102221, 13)
    ∷ (110000, 95)
    ∷ (110001, 90)
    ∷ (110010, 88)
    ∷ (110011, 76)
    ∷ (110020, 76)
    ∷ (110021, 70)
    ∷ (110100, 90)
    ∷ (110101, 77)
    ∷ (110110, 75)
    ∷ (110111, 62)
    ∷ (110120, 61)
    ∷ (110121, 53)
    ∷ (110200, 77)
    ∷ (110201, 66)
    ∷ (110210, 68)
    ∷ (110211, 59)
    ∷ (110220, 52)
    ∷ (110221, 30)
    ∷ (111000, 89)
    ∷ (111001, 78)
    ∷ (111010, 76)
    ∷ (111011, 67)
    ∷ (111020, 62)
    ∷ (111021, 58)
    ∷ (111100, 74)
    ∷ (111101, 59)
    ∷ (111110, 57)
    ∷ (111111, 57)
    ∷ (111120, 47)
    ∷ (111121, 23)
    ∷ (111200, 61)
    ∷ (111201, 52)
    ∷ (111210, 57)
    ∷ (111211, 29)
    ∷ (111220, 24)
    ∷ (111221, 16)
    ∷ (112001, 71)
    ∷ (112011, 59)
    ∷ (112021, 30)
    ∷ (112101, 58)
    ∷ (112111, 26)
    ∷ (112121, 15)
    ∷ (112201, 23)
    ∷ (112211, 13)
    ∷ (112221, 6)
    ∷ (200000, 93)
    ∷ (200001, 87)
    ∷ (200010, 86)
    ∷ (200011, 72)
    ∷ (200020, 75)
    ∷ (200021, 58)
    ∷ (200100, 86)
    ∷ (200101, 74)
    ∷ (200110, 74)
    ∷ (200111, 61)
    ∷ (200120, 56)
    ∷ (200121, 34)
    ∷ (200200, 70)
    ∷ (200201, 54)
    ∷ (200210, 52)
    ∷ (200211, 40)
    ∷ (200220, 40)
    ∷ (200221, 22)
    ∷ (201000, 85)
    ∷ (201001, 75)
    ∷ (201010, 74)
    ∷ (201011, 55)
    ∷ (201020, 62)
    ∷ (201021, 51)
    ∷ (201100, 72)
    ∷ (201101, 57)
    ∷ (201110, 55)
    ∷ (201111, 41)
    ∷ (201120, 46)
    ∷ (201121, 19)
    ∷ (201200, 53)
    ∷ (201201, 36)
    ∷ (201210, 34)
    ∷ (201211, 19)
    ∷ (201220, 19)
    ∷ (201221, 8)
    ∷ (202001, 64)
    ∷ (202011, 51)
    ∷ (202021, 20)
    ∷ (202101, 47)
    ∷ (202111, 21)
    ∷ (202121, 11)
    ∷ (202201, 24)
    ∷ (202211, 9)
    ∷ (202221, 4)
    ∷ (210000, 88)
    ∷ (210001, 75)
    ∷ (210010, 73)
    ∷ (210011, 53)
    ∷ (210020, 60)
    ∷ (210021, 50)
    ∷ (210100, 73)
    ∷ (210101, 55)
    ∷ (210110, 59)
    ∷ (210111, 40)
    ∷ (210120, 41)
    ∷ (210121, 20)
    ∷ (210200, 54)
    ∷ (210201, 43)
    ∷ (210210, 45)
    ∷ (210211, 22)
    ∷ (210220, 20)
    ∷ (210221, 11)
    ∷ (211000, 75)
    ∷ (211001, 55)
    ∷ (211010, 58)
    ∷ (211011, 45)
    ∷ (211020, 40)
    ∷ (211021, 21)
    ∷ (211100, 61)
    ∷ (211101, 51)
    ∷ (211110, 48)
    ∷ (211111, 18)
    ∷ (211120, 20)
    ∷ (211121, 9)
    ∷ (211200, 46)
    ∷ (211201, 18)
    ∷ (211210, 17)
    ∷ (211211, 7)
    ∷ (211220, 8)
    ∷ (211221, 2)
    ∷ (212001, 53)
    ∷ (212011, 24)
    ∷ (212021, 14)
    ∷ (212101, 24)
    ∷ (212111, 12)
    ∷ (212121, 5)
    ∷ (212201, 10)
    ∷ (212211, 3)
    ∷ (212221, 1)
    ∷ []

-- `_V4_MACROVECTOR_SCORES.get(key)`
unfoldable pub find_score : ℕ → List (ℕ × ℕ) → Option ℕ
find_score key [] = none
find_score key ((k, score) ∷ rest) = elim (k == key) [
  | true ↦ some score
  | false ↦ find_score key rest
]

-- The equivalence sets of a vector, one digit each.
pub record Digits : Type 0 where
  pub eq1 : ℕ
  pub eq2 : ℕ
  pub eq3 : ℕ
  pub eq4 : ℕ
  pub eq5 : ℕ
  pub eq6 : ℕ

-- `f"{eq1}{eq2}{eq3}{eq4}{eq5}{eq6}"`
unfoldable pub key_of : Digits → ℕ
key_of d = ((((d.eq1 * 10 + d.eq2) * 10 + d.eq3) * 10 + d.eq4) * 10 + d.eq5) * 10 + d.eq6

unfoldable pub lookup : Digits → Option ℕ
lookup d = find_score (key_of d) macrovector_scores
