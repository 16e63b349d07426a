-- ===== src/Engine/Records.antt =====
-- The records of engine.py: the outcome of a scan with its message, what a scan writes, and what the
-- world does during one.
use cvedeck.Prelude.{String, Bool, true, false, Option, none, some, List, [], ◌∷◌, ◌++◌}
use cvedeck.Prelude.Text.{Text, codes, strip}
use cvedeck.Prelude.Dicts.{Dict}
use cvedeck.Matcher.{Call, MatchResult}
use cvedeck.ScanJobs.{ScanStatus, Diff}
use cvedeck.PackageId.Kernel.{Package}
use cvedeck.Kernels.{FindingInput, UnfixedCount}

-- The exceptions of exceptions.py that the engine tells apart, `ConnectionError`, and all others
pub data ErrorKind : Type 0 where
  auth_error host_key_mismatch_error host_key_unknown_error : ErrorKind
  inventory_unavailable_error connection_error other_error : ErrorKind

pub record Error : Type 0 where
  pub kind : ErrorKind
  pub type_name : Text
  pub text : Text

pub data Result (A : Type 0) : Type 0 where
  got : A → Result A
  raises : Error → Result A

-- `Inventory`, as far as it is read here
pub record Inventory : Type 0 where
  pub packages : List Package

-- `MachineScan`
pub record MachineScan (F : Type 0) : Type 0 where
  pub machine_id : String
  pub status : ScanStatus
  pub inventory : Option Inventory
  pub match_result : Option (MatchResult F)
  pub error : Option Error
  pub unavailable_sources : List Text
  pub diff : Option Diff

abbrev pub sources_ok : {F : Type 0} → MachineScan F → Bool
sources_ok scan = is_none_left scan.unavailable_sources
  where
    is_none_left : List Text → Bool
    is_none_left [] = true
    is_none_left (name ∷ names) = false

-- `message`
abbrev pub those : List Text → Text
those (name ∷ []) = codes "that source"
those names = codes "those sources"

unfoldable pub joined_by_and : List Text → Text
joined_by_and [] = []
joined_by_and (name ∷ []) = name
joined_by_and (name ∷ next ∷ names) = name ++ (codes " and " ++ joined_by_and (next ∷ names))

abbrev pub partial_message : List Text → Option Text
partial_message [] = none
partial_message (name ∷ names) = some (
    codes "Partial results: "
    ++ (joined_by_and (name ∷ names)
        ++ (codes " unreachable. Findings from "
            ++ (those (name ∷ names) ++ codes " are missing."))))

abbrev pub text_or_type : Error → Text → Text
text_or_type e [] = e.type_name
text_or_type e (c ∷ s) = c ∷ s

abbrev pub message_of : Option Error → List Text → Option Text
message_of (some e) unavailable = some (text_or_type e (strip e.text))
message_of none unavailable = partial_message unavailable

unfoldable pub message : {F : Type 0} → MachineScan F → Option Text
message scan = message_of scan.error scan.unavailable_sources

-- What a scan writes, and its end: a value or an exception.
pub data Write (F : Type 0) : Type 0 where
  inventory_saved : Inventory → Write F
  findings_saved : List FindingInput → Bool → Write F
  unfixed_recorded : Dict UnfixedCount → Write F
  status_recorded : MachineScan F → Write F

abbrev pub Run : Type 0 → Type 0 → Type 0
Run F A = List (Write F) × Result A

infixl 5 ◌>>=◌
abbrev pub ◌>>=◌ : {F A B : Type 0} → Run F A → (A → Run F B) → Run F B
(writes, got a) >>= f = (writes ++ (f a).0, (f a).1)
(writes, raises e) >>= f = (writes, raises e)

abbrev pub call : {F A : Type 0} → Result A → Run F A
call result = ([], result)

abbrev pub write : {F A : Type 0} → Write F → Result A → Run F A
write w (got a) = (w ∷ [], got a)
write w (raises e) = ([], raises e)

-- A kernel check against a feed: why there was none, what it found, and the kernels it assessed.
pub record KernelCheck : Type 0 where
  pub reason : Option Text
  pub findings : List FindingInput
  pub assessed : List Text

-- What the world does during one scan.
pub record Host (F : Type 0) : Type 0 where
  pub machine_id : String
  pub collector : Result Unit
  pub credentials : Result Unit
  pub inventory : Result Inventory
  pub nvd : Option (Call F)
  pub osv : Option (Call F)
  pub defect : Error
  pub ubuntu : Inventory → Result (Option KernelCheck)
  pub feeds : Inventory → Result (Option KernelCheck)
  pub enricher : Option (List FindingInput → Result (List FindingInput))
  pub save_inventory : Result Unit
  pub save_findings : Result (Option Diff)
  pub record_unfixed : Result Unit
