-- ===== src/Feeds/Settled.antt =====
-- Findings that agree with the feeds, as those do that were reapplied. For them the reapplication that
-- an unchanged refresh leaves out would do nothing.
use mathlib.Core.Path.{subst}
use cvedeck.Prelude.{
  ◌∙◌, ap, ℕ, ◌≡◌, ◌↔◌, refl, sym, Bool, true, false, not, ◌&&◌, Option, none, some, List, [], ◌∷◌,
  map, All, arith, Bool-cases, inl, inr,
}
use cvedeck.Prelude.Text.{Text}
use cvedeck.Findings.{Intel, Input, Stored, optional_eq_iff}
use cvedeck.Feeds.Refreshing.{KevEntry, EpssScore, Store}
use cvedeck.Feeds.Enriching.{
  with_kev, with_epss, reapply_kev, reapply_epss, kev_entry, epss_entry, look_up, if_touched,
  updated, with_intel, kev_usable, epss_usable, intel_of, Scores, same_optional, same_flag,
  reapply_columns, reapply_row, reapply_rows, reapply_to_stored,
}

module _ {S : Type 0} where
  updated_idem :
      (k e : Bool) (kevs : List KevEntry) (scores : List (EpssScore S)) (cve : Text)
      (intel : Intel S)
      → updated k e kevs scores cve (updated k e kevs scores cve intel)
        ≡ updated k e kevs scores cve intel
  unfolding updated
  updated_idem k e kevs scores cve intel = ground arith

module _ (scores : Scores) where
  open scores use {S, same, same_iff}

  same_optional_iff : (x y : Option S) → (same_optional scores x y ≡ true) ↔ (x ≡ y)
  same_optional_iff none none = ground arith
  same_optional_iff none (some y) = ground arith
  same_optional_iff (some x) none = ground arith
  same_optional_iff (some x) (some y) = ground (arith, same_iff x y)

  same_flag_iff : (x y : Option Bool) → (same_flag scores x y ≡ true) ↔ (x ≡ y)
  same_flag_iff x y = ground arith

  -- What is touched by the updates of the two feeds is exactly what they change.
  abbrev pub Changes : Intel S → Intel S → Intel S × Bool → Type 0
  Changes intel to r = (r.0 ≡ to) × ((r.1 ≡ false) ↔ (to ≡ intel))

  kev-Changes :
      (k : Bool) (o : Option KevEntry) (intel : Intel S)
      → Changes intel (with_kev k o intel) (reapply_kev scores k o (intel, false))
  kev-Changes false o intel = ground arith
  kev-Changes true none intel =
      ground (
        arith,
        same_flag_iff intel.kev_listed (some false),
        optional_eq_iff intel.kev_due_date none,
      )
  kev-Changes true (some kev) intel = ground (
    arith,
    same_flag_iff intel.kev_listed (some true),
    optional_eq_iff intel.kev_due_date kev.due_date,
  )

  epss-Changes :
      (b : Bool) (o : Option (EpssScore S)) (intel : Intel S) (touched : Bool)
      → let r = reapply_epss scores b o (intel, touched) in
        (r.0 ≡ with_epss b o intel) × ((r.1 ≡ false) ↔ ((touched ≡ false) × (r.0 ≡ intel)))
  epss-Changes true (some epss) intel touched = ground (
    arith,
    same_optional_iff intel.epss_score (some epss.score),
    same_optional_iff intel.epss_percentile (some epss.percentile),
  )
  epss-Changes true none intel touched = ground arith
  epss-Changes false o intel touched = ground arith

  -- The feeds' columns are different ones.
  unchanged_apart :
      (k b : Bool) (o : Option KevEntry) (p : Option (EpssScore S)) (intel : Intel S)
      → with_epss b p (with_kev k o intel) ≡ intel
      → with_kev k o intel ≡ intel
  unchanged_apart k b o p intel h = ground arith

  reapply_columns-Changes :
      (k b : Bool) (kevs : List KevEntry) (epss : List (EpssScore S)) (cve : Text) (intel : Intel S)
      → Changes intel
          (updated k b kevs epss cve intel)
          (reapply_columns scores k b kevs epss cve intel)
  unfolding reapply_columns updated
  reapply_columns-Changes k b kevs epss cve intel =
      let o = look_up cve λ key. kev_entry key kevs in
      let p = look_up cve λ key. epss_entry key epss in
      let (first, same_first) = kev-Changes k o intel in
      let r = reapply_kev scores k o (intel, false) in
      let (second, same_second) = epss-Changes b p r.0 r.1 in
      let whole : (reapply_epss scores b p r).0 ≡ with_epss b p (with_kev k o intel) =
        second ∙ ap (with_epss b p) first in
      (
        whole,
        (
          λ quiet. let (q, kept) = same_second.0 quiet in sym whole ∙ kept ∙ first ∙ same_first.0 q,
          λ e.
              let apart = unchanged_apart k b o p intel e in
              same_second.1 (same_first.1 apart, whole ∙ e ∙ sym apart ∙ sym first),
        ),
      )

  module _ {K : Type 0} (max_age now : ℕ) (store : Store S K) where
    -- The feeds have nothing to change in the finding.
    abbrev pub IsSettled : Input S → Type 0
    IsSettled f = intel_of max_age now store f ≡ f.intel

    abbrev pub AllSettled : List (Stored S) → Type 0
    AllSettled = All λ row. IsSettled row.input

    abbrev pub columns_of : (row : Stored S) → Intel S × Bool
    columns_of row =
        reapply_columns scores (kev_usable max_age now store) (epss_usable max_age now store)
          store.kev.catalogue store.epss.catalogue row.input.cve_id row.input.intel

    pub columns-Changes :
        (row : Stored S)
        → Changes row.input.intel (intel_of max_age now store row.input) (columns_of row)
    columns-Changes row = reapply_columns-Changes _ _ _ _ row.input.cve_id row.input.intel

    settled_row :
        (row : Stored S)
        → IsSettled row.input
        → reapply_row scores max_age now store row ≡ (row, false)
    settled_row row h = touched (columns_of row) ((columns-Changes row).1.1 h)
      where
        touched : (r : Intel S × Bool) → r.1 ≡ false → if_touched scores row r ≡ (row, false)
        touched (intel, true) e = cc
        touched (intel, false) e = refl

    rows_settled :
        (rows : List (Stored S))
        → AllSettled rows
        → reapply_rows scores max_age now store rows ≡ (rows, 0)
    unfolding reapply_rows
    rows_settled [] h = refl
    rows_settled (row ∷ rows) (h, hs) = rw (rows_settled rows hs, settled_row row h)

    pub reapply_settled :
        (rows : List (Stored S))
        → AllSettled rows
        → reapply_to_stored scores max_age now store rows ≡ (rows, 0)
    unfolding reapply_to_stored
    reapply_settled rows h = ground (arith, rows_settled rows h)

    IsSettled-with_intel : (f : Input S) → IsSettled (with_intel f (intel_of max_age now store f))
    IsSettled-with_intel f =
        updated_idem _ _ store.kev.catalogue store.epss.catalogue f.cve_id f.intel

    -- A stored finding gets the columns that `enrich` gives it.
    pub reapply_row-input :
        (row : Stored S)
        → (reapply_row scores max_age now store row).0.input
          ≡ with_intel row.input (intel_of max_age now store row.input)
    reapply_row-input row = by_columns (columns_of row) (columns-Changes row)
      where
        by_columns :
            (r : Intel S × Bool)
            → Changes row.input.intel (intel_of max_age now store row.input) r
            → (if_touched scores row r).0.input
              ≡ with_intel row.input (intel_of max_age now store row.input)
        by_columns (intel, true) (e, same) = ap (with_intel row.input) e
        by_columns (intel, false) (e, same) = sym (ap (with_intel row.input) (same.0 refl))

    IsSettled-reapply_row :
        (row : Stored S) → IsSettled (reapply_row scores max_age now store row).0.input
    IsSettled-reapply_row row =
        subst IsSettled (sym (reapply_row-input row)) (IsSettled-with_intel row.input)

    AllSettled-reapply_rows :
        (rows : List (Stored S)) → AllSettled (reapply_rows scores max_age now store rows).0
    unfolding reapply_rows
    AllSettled-reapply_rows [] = tt
    AllSettled-reapply_rows (row ∷ rows) = (IsSettled-reapply_row row, AllSettled-reapply_rows rows)

    unusable_inputs :
        (fs : List (Input S))
        → kev_usable max_age now store ≡ false
        → epss_usable max_age now store ≡ false
        → All IsSettled fs
    unfolding updated
    unusable_inputs [] k e = tt
    unusable_inputs (f ∷ fs) k e = (rw (k, e) refl, unusable_inputs fs k e)

    rows_of_inputs :
        (rows : List (Stored S)) → All IsSettled (map (λ row. row.input) rows) → AllSettled rows
    rows_of_inputs [] h = tt
    rows_of_inputs (row ∷ rows) (h, hs) = (h, rows_of_inputs rows hs)

    AllSettled-reapply_to_stored :
        (rows : List (Stored S)) → AllSettled (reapply_to_stored scores max_age now store rows).0
    unfolding reapply_to_stored
    AllSettled-reapply_to_stored rows =
        elim (Bool-cases
          (not (kev_usable max_age now store) && not (epss_usable max_age now store))) [
            | inl e ↦ rw e (
                rows_of_inputs rows
                  (unusable_inputs (map (λ row. row.input) rows) (ground arith) (ground arith)))
            | inr e ↦ rw e (AllSettled-reapply_rows rows)
          ]

    -- What `reapply_to_stored` leaves agrees with the feeds, so that doing it again changes nothing and counts nothing.
    pub reapply_to_stored_idem :
        (rows : List (Stored S))
        → let after = reapply_to_stored scores max_age now store rows in
          reapply_to_stored scores max_age now store after.0 ≡ (after.0, 0)
    reapply_to_stored_idem rows = reapply_settled _ (AllSettled-reapply_to_stored rows)
