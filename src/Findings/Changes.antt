-- ===== src/Findings/Changes.antt =====
-- What `save_findings` leaves of each finding, and what it says has changed.
use cvedeck.Prelude.{
  select-append, ℕ, ◌≡◌, refl, sym, ap, Bool, true, not, ◌&&◌, Option, none, some, List, [], ◌∷◌,
  ◌++◌, map, select, is_some, if◌then◌else◌, arith,
}
use cvedeck.Prelude.Text.{Text, text_eq_refl}
use cvedeck.Findings.{
  Input, Stored, FindingKey, key_eq, key_eq_iff, has_key, key_of_input, key_of_row, is_on, rows_of,
  earlier, first_seen, or_now, save_finding, saved, is_stale_row, delete_stale, save_findings,
}

pub key_cong :
    (k l : FindingKey) (keys : List FindingKey)
    → key_eq k l ≡ true
    → has_key l keys ≡ has_key k keys
key_cong k l keys e = ap (λ x. has_key x keys) (sym ((key_eq_iff k l).0 e))

pub key_eq_refl : (k : FindingKey) → key_eq k k ≡ true
key_eq_refl k = (key_eq_iff k k).1 refl

-- The earlier of two dates, where there are two
abbrev either : Option ℕ → Option ℕ → Option ℕ
either none o = o
either (some a) o = earlier a o

either-earlier : (a : ℕ) (o p : Option ℕ) → either (earlier a o) p ≡ earlier a (either o p)
either-earlier a o p = ground arith

module _ {S : Type 0} where
  first_seen-append :
      (k : FindingKey) (xs ys : List (Stored S))
      → first_seen k (xs ++ ys) ≡ either (first_seen k xs) (first_seen k ys)
  unfolding first_seen
  first_seen-append k [] ys = refl
  first_seen-append k (x ∷ xs) ys = ground (
    arith,
    first_seen-append k xs ys,
    either-earlier x.first_seen_at (first_seen k xs) (first_seen k ys),
  )

  -- A key is stored where it has a date.
  pub has_key-first_seen :
      (k : FindingKey) (rows : List (Stored S))
      → has_key k (map key_of_row rows) ≡ is_some (first_seen k rows)
  unfolding first_seen
  has_key-first_seen k [] = refl
  has_key-first_seen k (row ∷ rows) = ground (arith, has_key-first_seen k rows)

  module _ (machine : Text) where
    pub rows_of-saved :
        (now : ℕ) (old : List (Stored S)) (fs : List (Input S))
        → rows_of machine (saved machine now old fs) ≡ saved machine now old fs
    unfolding saved save_finding select
    rows_of-saved now old [] = refl
    rows_of-saved now old (f ∷ fs) = rw (text_eq_refl machine) (
        ap (λ r. save_finding machine (or_now now (first_seen (key_of_input f) old)) f ∷ r)
          (rows_of-saved now old fs))

    same_date :
        (k : FindingKey) (f : Input S) (old : List (Stored S))
        → key_eq k (key_of_input f) ≡ true
        → first_seen (key_of_input f) old ≡ first_seen k old
    same_date k f old e = ap (λ x. first_seen x old) (sym ((key_eq_iff k (key_of_input f)).0 e))

    first_seen-saved :
        (k : FindingKey) (now : ℕ) (old : List (Stored S)) (fs : List (Input S))
        → first_seen k (saved machine now old fs)
          ≡ (if has_key k (map key_of_input fs) then some (or_now now (first_seen k old)) else none)
    unfolding saved save_finding first_seen
    first_seen-saved k now old [] = refl
    first_seen-saved k now old (f ∷ fs) =
        ground (arith, first_seen-saved k now old fs, same_date k f old)

    first_seen-kept :
        (k : FindingKey) (sup : Bool) (keys : List FindingKey) (table : List (Stored S))
        → first_seen k (rows_of machine (delete_stale machine sup keys table))
          ≡ (if sup && not (has_key k keys) then first_seen k (rows_of machine table) else none)
    unfolding delete_stale first_seen select is_stale_row
    first_seen-kept k sup keys [] = ground arith
    first_seen-kept k sup keys (row ∷ rows) =
        ground (arith, first_seen-kept k sup keys rows, key_cong k (key_of_row row) keys)

  -- Whatever was stored before: after a scan of a machine, a finding that it reports dates from the earliest time the machine's rows had for that finding, and from the scan where they had none; one that it does not report is kept with its date by a partial scan, and gone after a complete one.
  pub first_seen-save_findings :
      (machine : Text) (findings : List (Input S)) (sup : Bool) (now : ℕ) (baseline : Bool)
      (table : List (Stored S)) (k : FindingKey)
      → first_seen k (rows_of machine (save_findings machine findings sup now baseline table).0) ≡ (
          if has_key k (map key_of_input findings)
          then some (or_now now (first_seen k (rows_of machine table)))
          else if sup
          then first_seen k (rows_of machine table)
          else none)
  unfolding save_findings
  first_seen-save_findings machine findings sup now baseline table k =
      let old = rows_of machine table in
      let keys = map key_of_input findings in
      rw
        (
          select-append (is_on machine) (delete_stale machine sup keys table)
              (saved machine now old findings),
          rows_of-saved machine now old findings,
          first_seen-append k (rows_of machine (delete_stale machine sup keys table))
              (saved machine now old findings),
          first_seen-kept machine k sup keys table,
          first_seen-saved machine k now old findings,
        )
        (ground arith)
