-- ===== src/Feeds/Reapplying.antt =====
-- `reapply_to_stored` of backend/app/services/enrichment.py against `enrich`, which it repeats.
use cvedeck.Prelude.{
  ℕ, suc, ◌≡◌, ◌≢◌, refl, sym, ◌∙◌, Bool, true, false, not, ◌&&◌, List, [], ◌∷◌, map, Bool-cases,
  inl, inr, if◌then◌else◌,
}
use cvedeck.Findings.{Intel, Stored}
use cvedeck.Feeds.Refreshing.{Store}
use cvedeck.Feeds.Enriching.{
  with_intel, kev_usable, epss_usable, intel_of, enrich_findings, Scores, if_touched, reapply_rows,
  reapply_to_stored,
}
use cvedeck.Feeds.Settled.{Changes, columns_of, columns-Changes, reapply_row-input}

-- The stored findings before and after, in order, and how many moved: one that did not is as it was, one
-- that did has other columns than before and is pending, and all else about it is as it was.
pub data Rewrites {S : Type 0} : List (Stored S) → List (Stored S) → ℕ → Type 0 where
  none_left : Rewrites [] [] 0
  kept :
      {row : Stored S} {rows rows' : List (Stored S)} {n : ℕ}
      → Rewrites rows rows' n
      → Rewrites (row ∷ rows) (row ∷ rows') n
  moved :
      {row : Stored S} {rows rows' : List (Stored S)} {n : ℕ} (intel : Intel S)
      → intel ≢ row.input.intel
      → Rewrites rows rows' n
      → Rewrites
          (row ∷ rows)
          (record row { input = with_intel row.input intel; pending = true } ∷ rows')
          (suc n)

all_kept : {S : Type 0} (rows : List (Stored S)) → Rewrites rows rows 0
all_kept [] = none_left
all_kept (row ∷ rows) = kept (all_kept rows)

module _ (scores : Scores) {K : Type 0} (max_age now : ℕ) where
  open scores use {S}

  module _ (store : Store S K) where
    row-Rewrites :
        (row : Stored S) (r : Intel S × Bool) {rows rows' : List (Stored S)} {n : ℕ}
        → Changes scores row.input.intel (intel_of max_age now store row.input) r
        → Rewrites rows rows' n
        → Rewrites
            (row ∷ rows)
            ((if_touched scores row r).0 ∷ rows')
            (if (if_touched scores row r).1 then suc n else n)
    row-Rewrites row (intel, true) (e, same) rest =
        moved intel (λ back. cc (same.1 (sym e ∙ back))) rest
    row-Rewrites row (intel, false) c rest = kept rest

    rows-Rewrites :
        (rows : List (Stored S))
        → Rewrites rows
            (reapply_rows scores max_age now store rows).0
            (reapply_rows scores max_age now store rows).1
    unfolding reapply_rows
    rows-Rewrites [] = none_left
    rows-Rewrites (row ∷ rows) =
        row-Rewrites row (columns_of scores max_age now store row)
          (columns-Changes scores max_age now store row) (rows-Rewrites rows)

    rows-inputs :
        (rows : List (Stored S))
        → map (λ row. row.input) (reapply_rows scores max_age now store rows).0
          ≡ map (λ g. with_intel g (intel_of max_age now store g)) (map (λ row. row.input) rows)
    unfolding reapply_rows
    rows-inputs [] = refl
    rows-inputs (row ∷ rows) =
        rw (reapply_row-input scores max_age now store row, rows-inputs rows) refl

  -- `reapply_to_stored` leaves in the store, in order, what `enrich` makes of the stored findings,
  -- whatever is stored and whichever feeds are usable; a finding is written, counted and pending
  -- exactly where that gives it other columns, and any other is as it was.
  pub reapply-enrich_findings :
      (store : Store S K) (rows : List (Stored S))
      → let after = reapply_to_stored scores max_age now store rows in
        (map (λ row. row.input) after.0
          ≡ enrich_findings max_age now store (map (λ row. row.input) rows))
        × Rewrites rows after.0 after.1
  unfolding reapply_to_stored enrich_findings
  reapply-enrich_findings store [] =
      elim (Bool-cases
        (not (kev_usable max_age now store) && not (epss_usable max_age now store))) [
          | inl e ↦ rw e (refl, none_left)
          | inr e ↦ rw e (rows-inputs store [], rows-Rewrites store [])
        ]
  reapply-enrich_findings store (row ∷ rows) =
      elim (Bool-cases
        (not (kev_usable max_age now store) && not (epss_usable max_age now store))) [
          | inl e ↦ rw e (refl, all_kept (row ∷ rows))
          | inr e ↦ rw e (rows-inputs store (row ∷ rows), rows-Rewrites store (row ∷ rows))
        ]
