-- ===== src/Findings.antt =====
-- The findings and scan runs of a machine in backend/app/data/repository.py: `save_findings`, what it
-- says has changed, and `record_scan_run`. The tables are lists of rows; a delete by primary key is
-- a delete of those rows. `S` are the floats, which are only copied here.
pub mod Changes
pub mod Diffs
pub mod Runs
pub mod History
mod Samples
use cvedeck.Prelude.{
  ℕ, ◌≡◌, refl, Bool, true, false, not, ◌&&◌, ◌||◌, Option, none, some, List, [], ◌∷◌, ◌++◌, map,
  any, select, leb, if◌then◌else◌, ◌↔◌, arith,
}
use cvedeck.Prelude.Text.{Text, text_eq, text_eq_iff}
use cvedeck.Severity.{Severity}
use cvedeck.PackageId.Kernel.{finding_package}

-- The columns that the feeds fill in
pub record Intel (S : Type 0) : Type 0 where
  pub kev_listed : Option Bool
  pub kev_due_date : Option Text
  pub epss_score : Option S
  pub epss_percentile : Option S

-- `FindingInput`
pub record Input (S : Type 0) : Type 0 where
  pub cve_id : Text
  pub package_identifier : Option Text
  pub severity : Severity
  pub cvss_score : Option S
  pub intel : Intel S

-- `FindingSnapshot` and `_snapshot`
pub record Snapshot (S : Type 0) : Type 0 where
  pub cve_id : Text
  pub package_identifier : Option Text
  pub severity : Severity
  pub cvss_score : Option S
  pub kev_listed : Option Bool

abbrev pub snapshot : {S : Type 0} → Input S → Snapshot S
snapshot f = record {
  cve_id = f.cve_id;
  package_identifier = f.package_identifier;
  severity = f.severity;
  cvss_score = f.cvss_score;
  kev_listed = f.intel.kev_listed;
}

-- A row of `CveFinding`; `pending` is the sync status `PENDING_SYNC`
pub record Stored (S : Type 0) : Type 0 where
  pub machine_id : Text
  pub input : Input S
  pub first_seen_at : ℕ
  pub pending : Bool

-- `FindingKey` and `finding_key`
abbrev pub FindingKey : Type 0
FindingKey = Text × Option Text

unfoldable pub finding_key : Text → Option Text → FindingKey
finding_key cve_id package_identifier = (cve_id, finding_package package_identifier)

unfoldable pub optional_eq : Option Text → Option Text → Bool
optional_eq none none = true
optional_eq none (some t) = false
optional_eq (some s) none = false
optional_eq (some s) (some t) = text_eq s t

unfoldable pub key_eq : FindingKey → FindingKey → Bool
key_eq k l = text_eq k.0 l.0 && optional_eq k.1 l.1

-- `key in keys`
abbrev pub has_key : FindingKey → List FindingKey → Bool
has_key k keys = any (key_eq k) keys

abbrev pub earlier : ℕ → Option ℕ → Option ℕ
earlier a none = some a
earlier a (some b) = some (if leb a b then a else b)

abbrev pub or_now : ℕ → Option ℕ → ℕ
or_now now none = now
or_now now (some at) = at

module _ {S : Type 0} where
  abbrev pub key_of_input : Input S → FindingKey
  key_of_input f = finding_key f.cve_id f.package_identifier

  abbrev pub key_of_row : Stored S → FindingKey
  key_of_row row = key_of_input row.input

  -- `select(CveFinding).where(CveFinding.machine_id == machine_id)`
  abbrev pub is_on : Text → Stored S → Bool
  is_on machine row = text_eq row.machine_id machine

  abbrev pub rows_of : Text → List (Stored S) → List (Stored S)
  rows_of machine = select (is_on machine)

  -- `first_seen.get(key)`: the earliest of the rows of that key
  unfoldable pub first_seen : FindingKey → List (Stored S) → Option ℕ
  first_seen k [] = none
  first_seen k (row ∷ rows) =
      let rest = first_seen k rows in
      if key_eq k (key_of_row row) then earlier row.first_seen_at rest else rest

  -- `old_by_key`: the first row of each key, but for those `seen`
  unfoldable pub first_rows : List FindingKey → List (Stored S) → List (Stored S)
  first_rows seen [] = []
  first_rows seen (row ∷ rows) =
      let skip = first_rows seen rows in
      let more = row ∷ first_rows (key_of_row row ∷ seen) rows in
      if has_key (key_of_row row) seen then skip else more

  -- `save_finding`
  unfoldable pub save_finding : Text → ℕ → Input S → Stored S
  save_finding machine first_seen_at f = record {
    machine_id = machine;
    input = f;
    first_seen_at = first_seen_at;
    pending = true;
  }

  -- The loop over the reported findings: the rows, and the snapshots of the new ones
  unfoldable pub saved : Text → ℕ → List (Stored S) → List (Input S) → List (Stored S)
  saved machine now old [] = []
  saved machine now old (f ∷ fs) =
      save_finding machine (or_now now (first_seen (key_of_input f) old)) f
      ∷ saved machine now old fs

  unfoldable pub new_findings : List FindingKey → List FindingKey → List (Input S) → List (Input S)
  new_findings known reported [] = []
  new_findings known reported (f ∷ fs) =
      let rest = new_findings known (key_of_input f ∷ reported) fs in
      if not (has_key (key_of_input f) known) && not (has_key (key_of_input f) reported)
      then f ∷ rest
      else rest

  unfoldable pub is_stale_row : Bool → List FindingKey → Stored S → Bool
  is_stale_row suppress_resolved new_keys row =
      not suppress_resolved || has_key (key_of_row row) new_keys

  unfoldable pub delete_stale : Text → Bool → List FindingKey → List (Stored S) → List (Stored S)
  delete_stale machine suppress_resolved new_keys =
      select λ row. not (is_on machine row && is_stale_row suppress_resolved new_keys row)

  unfoldable pub resolved_rows : Bool → List FindingKey → List (Stored S) → List (Stored S)
  resolved_rows suppress_resolved new_keys old =
      if suppress_resolved
      then []
      else select (λ row. not (has_key (key_of_row row) new_keys)) (first_rows [] old)

-- `FindingDiff`
pub record FindingDiff (S : Type 0) : Type 0 where
  pub new : List (Snapshot S)
  pub resolved : List (Snapshot S)
  pub baseline : Bool
  pub resolved_assessed : Bool
  pub scanned_at : ℕ

-- `save_findings`, where `baseline` says that no run of the machine has succeeded
unfoldable pub save_findings :
    {S : Type 0}
    → Text
    → List (Input S)
    → Bool
    → ℕ
    → Bool
    → List (Stored S)
    → List (Stored S) × FindingDiff S
save_findings machine findings suppress_resolved now baseline table =
    let old = rows_of machine table in
    let new_keys = map key_of_input findings in
    let new = map snapshot (new_findings (map key_of_row old) [] findings) in
    let resolved = map (λ row. snapshot row.input) (resolved_rows suppress_resolved new_keys old) in
    (
      delete_stale machine suppress_resolved new_keys table ++ saved machine now old findings,
      record {
        new = if baseline then [] else new;
        resolved = if baseline then [] else resolved;
        baseline = baseline;
        resolved_assessed = not suppress_resolved;
        scanned_at = now;
      },
    )

pub optional_eq_iff : (s t : Option Text) → (optional_eq s t ≡ true) ↔ (s ≡ t)
unfolding optional_eq
optional_eq_iff none none = ground arith
optional_eq_iff none (some t) = ground arith
optional_eq_iff (some s) none = ground arith
optional_eq_iff (some s) (some t) = ground (arith, text_eq_iff s t)

pub key_eq_iff : (k l : FindingKey) → (key_eq k l ≡ true) ↔ (k ≡ l)
unfolding key_eq
key_eq_iff k l = ground (arith, text_eq_iff k.0 l.0, optional_eq_iff k.1 l.1)
