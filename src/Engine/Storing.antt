-- ===== src/Engine/Storing.antt =====
-- What a scan stores when a source or the enrichment fails.
use mathlib.Core.Path.{fun_ext}
use cvedeck.Prelude.{
  all-append, ◌≡◌, refl, ap, Bool, true, false, ◌||◌, Option, none, some, List, [], ◌∷◌, ◌++◌, all,
  arith, Bool-cases, inl, inr,
}
use cvedeck.Prelude.Text.{Text}
use cvedeck.Prelude.Dicts.{Dict}
use cvedeck.Floats.{Floats}
use cvedeck.Matcher.{
  SourceStatus, ok, data_source_unavailable, Call, partial_match, outage, MatchResult, Outcome,
  done, reraised, match, Finding,
}
use cvedeck.Matcher.Laws.{IsComplete, match-Reports}
use cvedeck.Kernels.{FindingInput, UnfixedCount, split_kernel_findings}
use cvedeck.Engine.{
  Error, Result, got, raises, Inventory, MachineScan, Write, findings_saved, status_recorded, Run,
  ◌>>=◌, call, write, KernelCheck, Host, unavailable_sources, enrich, record_assessed, of_outcome,
  is_partial, name_unless_ok, inputs, assessed, store_scan, with_answers, scan_one, scan_or_failed,
  scan_target,
}

-- The findings that are no longer there are not resolved.
abbrev pub resolves_nothing : {F : Type 0} → Write F → Bool
resolves_nothing (findings_saved findings suppress_resolved) = suppress_resolved
resolves_nothing _ = true

-- A source that did not answer, or answered in part
abbrev pub is_outage : {F : Type 0} → Option (Call F) → Bool
is_outage (some outage) = true
is_outage (some (partial_match raws)) = true
is_outage _ = false

-- All writes of a run pass.
abbrev AllWrites : {F A : Type 0} → Run F A → Type 0
AllWrites run = all resolves_nothing run.0 ≡ true

call-AllWrites :
    {F A B : Type 0} (r : Result A) (f : A → Run F B)
    → ((a : A) → r ≡ got a → AllWrites (f a))
    → AllWrites (call r >>= f)
call-AllWrites (got a) f h = h a refl
call-AllWrites (raises e) f h = refl

write-AllWrites :
    {F A B : Type 0} (w : Write F) (r : Result A) (f : A → Run F B)
    → resolves_nothing w ≡ true
    → ((a : A) → AllWrites (f a))
    → AllWrites (write w r >>= f)
write-AllWrites w (got a) f h k = ground (arith, k a)
write-AllWrites w (raises e) f h k = refl

of_outcome_got :
    {F : Type 0} (e : Error) (o : Outcome (MatchResult F)) (r : MatchResult F)
    → of_outcome e o ≡ got r
    → o ≡ done r
of_outcome_got e (done r') r h = ground arith
of_outcome_got e reraised r h = ground arith

-- A source that does not answer in full is not `ok`.
not_complete :
    (floats : Floats) (x : Option (Call floats.F)) (fs : List (Finding floats.F)) (s : SourceStatus)
    → is_outage x ≡ true
    → IsComplete floats x fs s
    → s ≡ data_source_unavailable
not_complete floats x fs data_source_unavailable h c = refl
not_complete floats x fs ok h c = let answers : is_outage x ≡ false = ap is_outage (c refl).1 in cc

is_partial-append : (xs ys : List Text) → is_partial xs ≡ true → is_partial (xs ++ ys) ≡ true
is_partial-append [] ys h = cc
is_partial-append (x ∷ xs) ys h = refl

append-is_partial : (xs ys : List Text) → is_partial ys ≡ true → is_partial (xs ++ ys) ≡ true
append-is_partial [] ys h = h
append-is_partial (x ∷ xs) ys h = refl

named :
    {F : Type 0} (name : Text) (x : Option (Call F)) (s : SourceStatus)
    → is_outage x ≡ true
    → s ≡ data_source_unavailable
    → is_partial (name_unless_ok name x s) ≡ true
named name none s h e = cc
named name (some x) data_source_unavailable h e = refl
named name (some x) ok h e = cc

module _ (floats : Floats) (host : Host floats.F) where
  unavailable_named :
      (r : MatchResult floats.F)
      → match floats host.machine_id host.nvd host.osv ≡ done r
      → is_outage host.nvd || is_outage host.osv ≡ true
      → is_partial (unavailable_sources host r) ≡ true
  unfolding unavailable_sources
  unavailable_named r e h =
      let both = match-Reports floats host.machine_id host.nvd host.osv r e in
      elim (Bool-cases (is_outage host.nvd)) [
        | inl n ↦
            is_partial-append (name_unless_ok _ host.nvd r.nvd_status) _ (
              named _ host.nvd r.nvd_status n
                (not_complete floats host.nvd _ r.nvd_status n both.0))
        | inr n ↦
            let o : is_outage host.osv ≡ true = ground arith in
            append-is_partial (name_unless_ok _ host.nvd r.nvd_status)
              (name_unless_ok _ host.osv r.osv_status)
              (named _ host.osv r.osv_status o
                (not_complete floats host.osv _ r.osv_status o both.1))
      ]

  record-AllWrites :
      (keys : List Text) (counts : Dict UnfixedCount)
      (f : Unit → Run floats.F (MachineScan floats.F))
      → ((a : Unit) → AllWrites (f a))
      → AllWrites (record_assessed host keys counts >>= f)
  record-AllWrites [] counts f k = k _
  record-AllWrites (key ∷ keys) counts f k = write-AllWrites _ host.record_unfixed f refl k

  store-AllWrites :
      (inventory : Inventory) (r : MatchResult floats.F) (ubuntu feeds : Option KernelCheck)
      → is_partial (unavailable_sources host r) ≡ true
      → AllWrites (store_scan floats host inventory r ubuntu feeds)
  unfolding store_scan
  store-AllWrites inventory r ubuntu feeds h = write-AllWrites _ host.save_inventory _ refl λ _.
      write-AllWrites _ host.save_findings _ h λ diff.
        record-AllWrites (assessed host inventory r ubuntu feeds)
          (split_kernel_findings (enrich host.enricher (inputs r ubuntu feeds))).1 _ λ _. refl

  scan-AllWrites :
      is_outage host.nvd || is_outage host.osv ≡ true → AllWrites (scan_one floats host)
  unfolding scan_one
  scan-AllWrites h = call-AllWrites host.collector _ λ _ _. call-AllWrites host.credentials _ λ _ _.
      call-AllWrites host.inventory _ λ inventory _.
        call-AllWrites (of_outcome host.defect (match floats host.machine_id host.nvd host.osv)) _
          λ r e. call-AllWrites (host.ubuntu inventory) _ λ ubuntu _.
            call-AllWrites (host.feeds inventory) _ λ feeds _.
              store-AllWrites inventory r ubuntu feeds
                (unavailable_named r (of_outcome_got host.defect _ r e) h)

-- When a source that is configured does not answer, or answers in part, every write of findings that
-- the scan of the host makes leaves the findings that are no longer reported unresolved, whatever the
-- host, the feeds, the enrichment and the store do.
pub scan_target-resolves_nothing :
    (floats : Floats) (host : Host floats.F)
    → is_outage host.nvd || is_outage host.osv ≡ true
    → all resolves_nothing (scan_target floats host).0 ≡ true
unfolding scan_target
scan_target-resolves_nothing floats host h =
    all-append resolves_nothing (scan_one floats host).0
      (status_recorded (scan_or_failed host.machine_id (scan_one floats host).1) ∷ [])
      (scan-AllWrites floats host h) refl

-- Enrichment that raises
abbrev pub with_enricher :
    {F : Type 0} → Host F → Option (List FindingInput → Result (List FindingInput)) → Host F
with_enricher host enricher = record host { enricher = enricher }

enrich_raising :
    (f : List FindingInput → Result (List FindingInput)) (e : Error) (fs : List FindingInput)
    → f fs ≡ raises e
    → enrich (some f) fs ≡ enrich none fs
unfolding enrich
enrich_raising f e [] h = refl
enrich_raising f e (x ∷ fs) h = rw h refl

store_raising :
    (floats : Floats) (host : Host floats.F) (f : List FindingInput → Result (List FindingInput))
    (e : List FindingInput → Error)
    → ((fs : List FindingInput) → f fs ≡ raises (e fs))
    → (inventory : Inventory) (r : MatchResult floats.F) (ubuntu feeds : Option KernelCheck)
    → store_scan floats (with_enricher host (some f)) inventory r ubuntu feeds
      ≡ store_scan floats (with_enricher host none) inventory r ubuntu feeds
unfolding store_scan unavailable_sources assessed
store_raising floats host f e h inventory r ubuntu feeds =
    rw
      (enrich_raising f (e (inputs r ubuntu feeds)) (inputs r ubuntu feeds)
        (h (inputs r ubuntu feeds)))
      refl

-- A defect in the enrichment costs a scan nothing but the enrichment: with an enricher that raises,
-- whatever it is given, every write and the outcome are those of a scan without an enricher.
pub scan_target-enricher :
    (floats : Floats) (host : Host floats.F) (f : List FindingInput → Result (List FindingInput))
    (e : List FindingInput → Error)
    → ((fs : List FindingInput) → f fs ≡ raises (e fs))
    → scan_target floats (with_enricher host (some f))
      ≡ scan_target floats (with_enricher host none)
unfolding scan_target scan_one
scan_target-enricher floats host f e h =
    ap
      (λ store.
        let run = with_answers floats host store in
        let scan = scan_or_failed host.machine_id run.1 in
        (run.0 ++ status_recorded scan ∷ [], scan))
      (fun_ext λ inventory. fun_ext λ r.
        fun_ext λ ubuntu. fun_ext λ feeds. store_raising floats host f e h inventory r ubuntu feeds)
