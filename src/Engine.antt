-- ===== src/Engine.antt =====
-- backend/app/scanner/engine.py: the scan of one host, from the connection to what is stored, and how
-- its failures are told apart. What a host, a store or a feed does is an argument: what each call
-- returns or raises. A write that raises has not taken place; each other one is in the list of writes.
mod Records
pub mod Storing
pub mod Failing
mod Samples
unfoldable pub use Records.*
use cvedeck.Prelude.{
  String, Bool, true, false, not, ◌&&◌, Option, none, some, List, [], ◌∷◌, ◌++◌, map, is_some,
  if◌then◌else◌,
}
use cvedeck.Prelude.Text.{Text, codes, strip}
use cvedeck.Prelude.Dicts.{Dict, update_at}
use cvedeck.Floats.{Floats}
use cvedeck.Matcher.{
  SourceStatus, ok, data_source_unavailable, Finding, Call, MatchResult, Outcome, done, reraised,
  match,
}
use cvedeck.ScanJobs.{
  ScanStatus, success, connection_failure, auth_failure, inventory_unavailable, host_key_mismatch,
  host_key_unknown, Diff,
}
use cvedeck.PackageId.{is_empty}
use cvedeck.PackageId.Kernel.{Package, is_kernel_image, kernel_is_matched}
use cvedeck.Kernels.{FindingInput, UnfixedCount, no_count, split_kernel_findings}

-- `_unavailable_sources`
abbrev pub name_unless_ok : {F : Type 0} → Text → Option (Call F) → SourceStatus → List Text
name_unless_ok name (some answer) data_source_unavailable = name ∷ []
name_unless_ok name (some answer) ok = []
name_unless_ok name none status = []

unfoldable pub unavailable_sources : {F : Type 0} → Host F → MatchResult F → List Text
unavailable_sources host r =
    name_unless_ok (codes "NVD") host.nvd r.nvd_status
    ++ name_unless_ok (codes "OSV") host.osv r.osv_status

-- `_finding_to_input`
abbrev pub text_of : Option String → Option Text
text_of none = none
text_of (some s) = some (codes s)

abbrev pub finding_to_input : {F : Type 0} → Finding F → FindingInput
finding_to_input f = record {
  cve_id = codes f.cve_id;
  package_identifier = text_of f.package_identifier;
  kev_listed = none;
}

-- `_enrich`
abbrev pub or_unenriched : List FindingInput → Result (List FindingInput) → List FindingInput
or_unenriched findings (got enriched) = enriched
or_unenriched findings (raises e) = findings

unfoldable pub enrich :
    Option (List FindingInput → Result (List FindingInput)) → List FindingInput → List FindingInput
enrich none findings = findings
enrich (some enricher) [] = []
enrich (some enricher) (f ∷ fs) = or_unenriched (f ∷ fs) (enricher (f ∷ fs))

-- `inputs`, and what each check adds to it
abbrev pub check_findings : Option KernelCheck → List FindingInput
check_findings none = []
check_findings (some check) = elim check.reason [ none ↦ check.findings | some reason ↦ [] ]

unfoldable pub inputs :
    {F : Type 0} → MatchResult F → Option KernelCheck → Option KernelCheck → List FindingInput
inputs r ubuntu feeds =
    (map finding_to_input r.findings ++ check_findings ubuntu) ++ check_findings feeds

-- `assessed`
abbrev pub image_keys : List Package → List Text
image_keys [] = []
image_keys (p ∷ ps) =
    let rest = image_keys ps in
    if is_kernel_image p.name && kernel_is_matched p.ecosystem
    then (p.name ++ b'@' ∷ p.version) ∷ rest
    else rest

abbrev pub osv_assessed : {F : Type 0} → Option (Call F) → SourceStatus → List Package → List Text
osv_assessed (some answer) ok packages = image_keys packages
osv_assessed _ _ packages = []

abbrev pub ubuntu_assessed : Option KernelCheck → List Text
ubuntu_assessed none = []
ubuntu_assessed (some check) = check.assessed

abbrev pub feed_assessed : Option KernelCheck → List Text
feed_assessed none = []
feed_assessed (some check) = elim check.reason [ none ↦ check.assessed | some reason ↦ [] ]

unfoldable pub assessed :
    {F : Type 0}
    → Host F
    → Inventory
    → MatchResult F
    → Option KernelCheck
    → Option KernelCheck
    → List Text
assessed host inventory r ubuntu feeds =
    (osv_assessed host.osv r.osv_status inventory.packages ++ ubuntu_assessed ubuntu)
    ++ feed_assessed feeds

-- `unfixed.setdefault(key, UnfixedCount())` for each key
unfoldable pub set_defaults : List Text → Dict UnfixedCount → Dict UnfixedCount
set_defaults [] counts = counts
set_defaults (key ∷ keys) counts = set_defaults keys (update_at (λ c. c) no_count key counts)

abbrev pub record_assessed : {F : Type 0} → Host F → List Text → Dict UnfixedCount → Run F Unit
record_assessed host [] counts = call (got _)
record_assessed host (key ∷ keys) counts =
    write (unfixed_recorded (set_defaults (key ∷ keys) counts)) host.record_unfixed

-- The programming error that the matcher raises again
abbrev pub of_outcome : {F : Type 0} → Error → Outcome (MatchResult F) → Result (MatchResult F)
of_outcome defect (done r) = got r
of_outcome defect reraised = raises defect

abbrev pub is_partial : List Text → Bool
is_partial [] = false
is_partial (name ∷ names) = true

module _ (floats : Floats) where
  open floats use {F}

  -- What `_scan_one` does once the host and its sources have answered
  unfoldable pub store_scan :
      Host F
      → Inventory
      → MatchResult F
      → Option KernelCheck
      → Option KernelCheck
      → Run F (MachineScan F)
  store_scan host inventory r ubuntu feeds = do
    let split = split_kernel_findings (enrich host.enricher (inputs r ubuntu feeds))
    let unavailable = unavailable_sources host r
    _ ← write (inventory_saved inventory) host.save_inventory
    diff ← write (findings_saved split.0 (is_partial unavailable)) host.save_findings
    _ ← record_assessed host (assessed host inventory r ubuntu feeds) split.1
    call (
        got (record {
          machine_id = host.machine_id;
          status = success;
          inventory = some inventory;
          match_result = some r;
          error = none;
          unavailable_sources = unavailable;
          diff = diff;
        }))

  -- The answers that `_scan_one` collects, and what it does with them
  abbrev pub with_answers :
      Host F
      → (Inventory
          → MatchResult F
          → Option KernelCheck
          → Option KernelCheck
          → Run F (MachineScan F))
      → Run F (MachineScan F)
  with_answers host store = do
    _ ← call host.collector
    _ ← call host.credentials
    inventory ← call host.inventory
    r ← call (of_outcome host.defect (match floats host.machine_id host.nvd host.osv))
    ubuntu ← call (host.ubuntu inventory)
    feeds ← call (host.feeds inventory)
    store inventory r ubuntu feeds

  -- `_scan_one`
  unfoldable pub scan_one : Host F → Run F (MachineScan F)
  scan_one host = with_answers host (store_scan host)

-- The handlers of `_scan_target`
abbrev pub status_of : ErrorKind → ScanStatus
status_of auth_error = auth_failure
status_of host_key_mismatch_error = host_key_mismatch
status_of host_key_unknown_error = host_key_unknown
status_of inventory_unavailable_error = inventory_unavailable
status_of connection_error = connection_failure
status_of other_error = connection_failure

abbrev pub failed_scan : {F : Type 0} → String → Error → MachineScan F
failed_scan machine_id e = record {
  machine_id = machine_id;
  status = status_of e.kind;
  inventory = none;
  match_result = none;
  error = some e;
  unavailable_sources = [];
  diff = none;
}

abbrev pub scan_or_failed : {F : Type 0} → String → Result (MachineScan F) → MachineScan F
scan_or_failed machine_id (got scan) = scan
scan_or_failed machine_id (raises e) = failed_scan machine_id e

-- `_scan_target`, with `_record`
unfoldable pub scan_target :
    (floats : Floats) → Host floats.F → List (Write floats.F) × MachineScan floats.F
scan_target floats host =
    let run = scan_one floats host in
    let scan = scan_or_failed host.machine_id run.1 in (run.0 ++ status_recorded scan ∷ [], scan)
