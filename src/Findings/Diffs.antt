-- ===== src/Findings/Diffs.antt =====
-- The difference that `save_findings` returns, against what was stored and what was reported.
use cvedeck.Prelude.{
  select-append, ℕ, ◌≡◌, refl, ap, ◌∙◌, Bool, true, false, not, ◌&&◌, List, [], ◌∷◌, map, select,
  is_some, arith, append-nil,
}
use cvedeck.Prelude.Text.{Text, text_eq, text_eq_iff}
use cvedeck.Findings.{
  Input, Snapshot, snapshot, Stored, FindingKey, finding_key, has_key, key_of_input, key_of_row,
  is_on, rows_of, first_seen, first_rows, save_finding, saved, new_findings, is_stale_row,
  delete_stale, resolved_rows, save_findings,
}
use cvedeck.Findings.Changes.{key_cong, key_eq_refl, has_key-first_seen, rows_of-saved}

-- No key twice
unfoldable pub all_distinct : List FindingKey → Bool
all_distinct [] = true
all_distinct (k ∷ keys) = not (has_key k keys) && all_distinct keys

not_both : (s t u : Text) → text_eq s t ≡ false → text_eq u s ≡ true → text_eq u t ≡ false
not_both s t u h e = ap (λ x. text_eq x t) ((text_eq_iff u s).0 e) ∙ h

module _ {S : Type 0} where
  abbrev pub key_of_snapshot : Snapshot S → FindingKey
  key_of_snapshot f = finding_key f.cve_id f.package_identifier

  has_key-new_findings :
      (known : List FindingKey) (k : FindingKey) (reported : List FindingKey) (fs : List (Input S))
      → has_key k (map key_of_input (new_findings known reported fs))
        ≡ (has_key k (map key_of_input fs) && (not (has_key k known) && not (has_key k reported)))
  unfolding new_findings
  has_key-new_findings known k reported [] = refl
  has_key-new_findings known k reported (f ∷ fs) = ground (
    arith,
    has_key-new_findings known k reported fs,
    has_key-new_findings known k (key_of_input f ∷ reported) fs,
    key_cong k (key_of_input f) known,
    key_cong k (key_of_input f) reported,
  )

  new_findings-all_distinct :
      (known reported : List FindingKey) (fs : List (Input S))
      → all_distinct (map key_of_input (new_findings known reported fs)) ≡ true
  unfolding new_findings all_distinct
  new_findings-all_distinct known reported [] = refl
  new_findings-all_distinct known reported (f ∷ fs) = ground (
    arith,
    new_findings-all_distinct known (key_of_input f ∷ reported) fs,
    has_key-new_findings known (key_of_input f) (key_of_input f ∷ reported) fs,
    key_eq_refl (key_of_input f),
  )

  has_key-first_rows :
      (k : FindingKey) (seen : List FindingKey) (rows : List (Stored S))
      → has_key k (map key_of_row (first_rows seen rows))
        ≡ (has_key k (map key_of_row rows) && not (has_key k seen))
  unfolding first_rows
  has_key-first_rows k seen [] = refl
  has_key-first_rows k seen (row ∷ rows) = ground (
    arith,
    has_key-first_rows k seen rows,
    has_key-first_rows k (key_of_row row ∷ seen) rows,
    key_cong k (key_of_row row) seen,
  )

  first_rows-all_distinct :
      (seen : List FindingKey) (rows : List (Stored S))
      → all_distinct (map key_of_row (first_rows seen rows)) ≡ true
  unfolding first_rows all_distinct
  first_rows-all_distinct seen [] = refl
  first_rows-all_distinct seen (row ∷ rows) = ground (
    arith,
    first_rows-all_distinct seen rows,
    first_rows-all_distinct (key_of_row row ∷ seen) rows,
    has_key-first_rows (key_of_row row) (key_of_row row ∷ seen) rows,
    key_eq_refl (key_of_row row),
  )

  module _ (keys : List FindingKey) where
    abbrev unreported : Stored S → Bool
    unreported row = not (has_key (key_of_row row) keys)

    has_key-unreported :
        (k : FindingKey) (rows : List (Stored S))
        → has_key k (map key_of_row (select unreported rows))
          ≡ (has_key k (map key_of_row rows) && not (has_key k keys))
    unfolding select
    has_key-unreported k [] = refl
    has_key-unreported k (row ∷ rows) =
        ground (arith, has_key-unreported k rows, key_cong k (key_of_row row) keys)

    unreported-all_distinct :
        (rows : List (Stored S))
        → all_distinct (map key_of_row rows) ≡ true
        → all_distinct (map key_of_row (select unreported rows)) ≡ true
    unfolding select all_distinct
    unreported-all_distinct [] h = refl
    unreported-all_distinct (row ∷ rows) h =
        ground (arith, unreported-all_distinct rows, has_key-unreported (key_of_row row) rows)

    has_key-resolved_rows :
        (sup : Bool) (k : FindingKey) (old : List (Stored S))
        → has_key k (map key_of_row (resolved_rows sup keys old))
          ≡ (has_key k (map key_of_row old) && (not sup && not (has_key k keys)))
    unfolding resolved_rows
    has_key-resolved_rows true k old = ground arith
    has_key-resolved_rows false k old =
        ground (arith, has_key-unreported k (first_rows [] old), has_key-first_rows k [] old)

    resolved_rows-all_distinct :
        (sup : Bool) (old : List (Stored S))
        → all_distinct (map key_of_row (resolved_rows sup keys old)) ≡ true
    unfolding resolved_rows all_distinct
    resolved_rows-all_distinct true old = refl
    resolved_rows-all_distinct false old =
        unreported-all_distinct (first_rows [] old) (first_rows-all_distinct [] old)

  keys_of_new : (fs : List (Input S)) → map key_of_snapshot (map snapshot fs) ≡ map key_of_input fs
  keys_of_new [] = refl
  keys_of_new (f ∷ fs) = ap (λ r. key_of_input f ∷ r) (keys_of_new fs)

  keys_of_resolved :
      (rows : List (Stored S))
      → map key_of_snapshot (map (λ row. snapshot row.input) rows) ≡ map key_of_row rows
  keys_of_resolved [] = refl
  keys_of_resolved (row ∷ rows) = ap (λ r. key_of_row row ∷ r) (keys_of_resolved rows)

  module _ (machine : Text) (findings : List (Input S)) (sup : Bool) (now : ℕ)
      (table : List (Stored S)) where
    -- A finding is new exactly where the machine has had a successful run, the scan reports the finding and the machine had no row of it; it is resolved exactly where the machine has had a successful run and had a row of it, the scan does not report it, and every configured source answered. Neither list has a finding twice.
    pub diff-save_findings :
        (baseline : Bool) (k : FindingKey)
        → let changes = (save_findings machine findings sup now baseline table).1 in
          let old = rows_of machine table in
          (has_key k (map key_of_snapshot changes.new) ≡ (
            not baseline
            && (has_key k (map key_of_input findings) && not (is_some (first_seen k old)))))
          × (has_key k (map key_of_snapshot changes.resolved) ≡ (
              not baseline
              && (is_some (first_seen k old)
                  && (not sup && not (has_key k (map key_of_input findings))))))
          × (all_distinct (map key_of_snapshot changes.new) ≡ true)
          × (all_distinct (map key_of_snapshot changes.resolved) ≡ true)
    unfolding save_findings all_distinct
    diff-save_findings true k = (refl, refl, refl, refl)
    diff-save_findings false k =
        let old = rows_of machine table in
        let keys = map key_of_input findings in
        let known = map key_of_row old in
        let stored = has_key-first_seen k old in
        rw
          (
            keys_of_new (new_findings known [] findings),
            keys_of_resolved (resolved_rows sup keys old),
          )
          ((
            ground (arith, stored, has_key-new_findings known k [] findings),
            ground (arith, stored, has_key-resolved_rows keys sup k old),
            new_findings-all_distinct known [] findings,
            resolved_rows-all_distinct keys sup old,
          ))

    kept_of_other :
        (other : Text) (keys : List FindingKey)
        → text_eq machine other ≡ false
        → (rows : List (Stored S))
        → rows_of other (delete_stale machine sup keys rows) ≡ rows_of other rows
    unfolding delete_stale select
    kept_of_other other keys h [] = refl
    kept_of_other other keys h (row ∷ rows) =
        ground (arith, kept_of_other other keys h rows, not_both machine other row.machine_id h)

    saved_of_other :
        (other : Text) (old : List (Stored S))
        → text_eq machine other ≡ false
        → (fs : List (Input S)) → rows_of other (saved machine now old fs) ≡ []
    unfolding saved save_finding select
    saved_of_other other old h [] = refl
    saved_of_other other old h (f ∷ fs) = rw h (saved_of_other other old h fs)

    -- A scan of a machine leaves the rows of every other machine as they are.
    pub save_findings_frame :
        (other : Text) (baseline : Bool)
        → text_eq machine other ≡ false
        → rows_of other (save_findings machine findings sup now baseline table).0
          ≡ rows_of other table
    unfolding save_findings
    save_findings_frame other baseline h =
        let keys = map key_of_input findings in
        let old = rows_of machine table in
        rw
          (
            select-append (is_on other) (delete_stale machine sup keys table)
                (saved machine now old findings),
            saved_of_other other old h findings,
            kept_of_other other keys h table,
          )
          (append-nil (rows_of other table))

    all_stale :
        (keys : List FindingKey) (rows : List (Stored S))
        → rows_of machine (delete_stale machine false keys rows) ≡ []
    unfolding delete_stale select is_stale_row
    all_stale keys [] = refl
    all_stale keys (row ∷ rows) = ground (arith, all_stale keys rows)

    saved_inputs :
        (old : List (Stored S)) (fs : List (Input S))
        → map (λ row. row.input) (saved machine now old fs) ≡ fs
    unfolding saved save_finding
    saved_inputs old [] = refl
    saved_inputs old (f ∷ fs) = ap (λ r. f ∷ r) (saved_inputs old fs)

  -- After a complete scan of a machine its rows are the findings of the scan, each one as it was reported and in that order.
  pub save_findings_replaces :
      (machine : Text) (findings : List (Input S)) (now : ℕ) (baseline : Bool)
      (table : List (Stored S))
      → map
          (λ row. row.input)
          (rows_of machine (save_findings machine findings false now baseline table).0)
        ≡ findings
  unfolding save_findings
  save_findings_replaces machine findings now baseline table =
      let keys = map key_of_input findings in
      let old = rows_of machine table in
      rw
        (
          select-append (is_on machine) (delete_stale machine false keys table)
              (saved machine now old findings),
          all_stale machine findings false now table keys table,
          rows_of-saved machine now old findings,
        )
        (saved_inputs machine findings false now table old findings)
