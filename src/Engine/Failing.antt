-- ===== src/Engine/Failing.antt =====
-- How a scan ends: stored, or with the exception that stopped it.
use cvedeck.Prelude.{◌≡◌, Bool, true, false, ◌&&◌, ◌⊎◌, none, some, List, [], ◌∷◌}
use cvedeck.Floats.{Floats}
use cvedeck.ScanJobs.{ScanStatus, success}
use cvedeck.Prelude.Text.{Text}
use cvedeck.Prelude.Dicts.{Dict}
use cvedeck.Kernels.{FindingInput, UnfixedCount}
use cvedeck.Engine.{
  Error, Result, got, raises, Inventory, MachineScan, Write, Run, Host, is_partial, inventory_saved,
  findings_saved, unfixed_recorded,
}

abbrev pub is_success : ScanStatus → Bool
is_success success = true
is_success _ = false

abbrev pub is_got : {A : Type 0} → Result A → Bool
is_got (got a) = true
is_got (raises e) = false

-- The store takes what it is given.
abbrev pub storage_works : {F : Type 0} → Host F → Bool
storage_works host =
    is_got host.save_inventory && is_got host.save_findings && is_got host.record_unfixed

-- At most one record of the kernels' counts
abbrev pub IsUnfixed : {F : Type 0} → List (Write F) → Type 0
IsUnfixed {F} writes =
    (writes ≡ []) ⊎ ((counts : Dict UnfixedCount) × (writes ≡ unfixed_recorded counts ∷ []))

-- A successful scan of this inventory, which is stored, then its findings, then the kernels' counts.
abbrev pub IsStored : {F : Type 0} → List (Write F) → MachineScan F → Type 0
IsStored {F} writes scan =
    (inventory : Inventory) × (found : List FindingInput) × (more : List (Write F)) × (scan.status
      ≡ success)
    × (scan.error ≡ none)
    × (scan.inventory ≡ some inventory)
    × (writes
        ≡ inventory_saved inventory
          ∷ findings_saved found (is_partial scan.unavailable_sources)
          ∷ more)
    × IsUnfixed more

-- A run that ends in a successful scan that is stored, or in an exception with nothing written.
abbrev Clean : {F : Type 0} → Run F (MachineScan F) → Type 0
Clean {F} run =
    ((scan : MachineScan F) × (run.1 ≡ got scan) × IsStored run.0 scan)
    ⊎ ((e : Error) × (run.0 ≡ []) × (run.1 ≡ raises e))
