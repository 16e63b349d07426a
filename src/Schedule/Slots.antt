-- ===== src/Schedule/Slots.antt =====
-- The slots of a day.
use cvedeck.Prelude.{
  ℕ, ◌+◌, ◌-◌, ◌*◌, ◌%◌, ◌≤◌, ◌<◌, ◌≡◌, refl, sym, ◌∙◌, inl, inr, Bool, true, ◌&&◌, none, some, [],
  ◌∷◌, arith, Bool-cases, leb, ◌==◌,
}
use cvedeck.Prelude.Text.{Text}
use cvedeck.Schedule.{
  minute, day, is_hour, is_minute, is_end, two_digits, parse_time_of_day, or_before, latest_slot,
}

hour_le : (a b : ℕ) → is_hour a b ≡ true → two_digits a b ≤ 23
hour_le a b h = ground arith

minute_le : (a b : ℕ) → is_minute a b ≡ true → two_digits a b ≤ 59
minute_le a b h = ground arith

time_lt : (h m : ℕ) → h ≤ 23 → m ≤ 59 → (h * 60 + m) * minute < day
time_lt h m p q = omega (arith, p, q)

parts : (a b c d : Bool) → a && b && c && d ≡ true → (a ≡ true) × (c ≡ true)
parts a b c d h = (ground arith, ground arith)

pub parse_time_of_day-lt :
    (text : Text) (time : ℕ) → parse_time_of_day text ≡ some time → time < day
unfolding parse_time_of_day
parse_time_of_day-lt [] time e = cc
parse_time_of_day-lt (a ∷ []) time e = cc
parse_time_of_day-lt (a ∷ b ∷ []) time e = cc
parse_time_of_day-lt (a ∷ b ∷ c ∷ []) time e = cc
parse_time_of_day-lt (a ∷ b ∷ c ∷ d ∷ []) time e = cc
parse_time_of_day-lt (a ∷ b ∷ c ∷ d ∷ e' ∷ rest) time e =
    let fits = is_hour a b && c == b':' && is_minute d e' && is_end rest in
    let parsed = (two_digits a b * 60 + two_digits d e') * minute in
    elim (Bool-cases fits) [
      | inl t ↦
          let found : some parsed ≡ some time = sym (rw t refl) ∙ e in
          let same : parsed ≡ time = cc in
          let both = parts (is_hour a b) (c == b':') (is_minute d e') (is_end rest) t in
          rw (← same) (
            time_lt (two_digits a b) (two_digits d e') (hour_le a b both.0) (minute_le d e' both.1))
      | inr f ↦ let found : none ≡ some time = sym (rw f refl) ∙ e in cc
    ]

-- Where the slot of `now` stands.
abbrev pub IsSlotOf : ℕ → ℕ → ℕ → Type 0
IsSlotOf now time slot = (slot ≤ now) × (now < slot + day) × (slot % day ≡ time)

or_before-IsSlotOf :
    (now time : ℕ)
    → time < day
    → day ≤ now
    → (slot : ℕ) × (or_before now (now - now % day + time) ≡ some slot) × IsSlotOf now time slot
or_before-IsSlotOf now time l g =
    let slot = now - now % day + time in
    elim (Bool-cases (leb slot now)) [
      | inl t ↦ (slot, (rw t refl), (ground arith, omega (arith, l), omega (arith, l, g)))
      | inr f ↦
          let back : leb day slot ≡ true = ground arith in
          (
            slot - day,
            (rw (f, back) refl),
            (omega (arith, l, g), ground arith, omega (arith, l, g)),
          )
    ]

pub latest_slot-or_before :
    (now : ℕ) (text : Text) (time : ℕ)
    → parse_time_of_day text ≡ some time
    → latest_slot now text ≡ or_before now (now - now % day + time)
unfolding latest_slot
latest_slot-or_before now text time e = rw (latest_slot, e) refl

-- For a time of day that parses and a moment behind the first day, the latest slot is the one moment
-- at that time of day that is at or before the moment and less than a day back.
pub latest_slot-IsSlotOf :
    (now : ℕ) (text : Text) (time : ℕ)
    → parse_time_of_day text ≡ some time
    → day ≤ now
    → (slot : ℕ) × (latest_slot now text ≡ some slot) × IsSlotOf now time slot
latest_slot-IsSlotOf now text time e g =
    let (slot, found, there) = or_before-IsSlotOf now time (parse_time_of_day-lt text time e) g in
    (slot, latest_slot-or_before now text time e ∙ found, there)
