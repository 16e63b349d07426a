-- ===== src/ScanJobs/Pruning.antt =====
-- The collection of jobs, when old jobs are dropped and when the process starts.
use cvedeck.Prelude.{
  length-append, ℕ, zero, suc, ◌≡◌, refl, sym, ap, ◌∙◌, true, false, List, [], ◌∷◌, ◌++◌, arith,
  take, drop, length, ◌⊎◌, none, ◌+◌, ◌≤◌,
}
use cvedeck.ScanJobs.{Slot, is_active, interrupted}
use cvedeck.ScanJobs.Store.{max_jobs, active_slots, prune, interrupt_slot}

active_slots_append :
    (xs ys : List Slot) → active_slots (xs ++ ys) ≡ active_slots xs ++ active_slots ys
unfolding active_slots
active_slots_append [] ys = refl
active_slots_append (s ∷ xs) ys = ground (arith, active_slots_append xs ys)

active_slots_idem : (xs : List Slot) → active_slots (active_slots xs) ≡ active_slots xs
unfolding active_slots
active_slots_idem [] = refl
active_slots_idem (s ∷ xs) = ground (arith, active_slots_idem xs)

take_and_drop : (n : ℕ) (xs : List Slot) → take n xs ++ drop n xs ≡ xs
take_and_drop zero xs = refl
take_and_drop (suc n) [] = refl
take_and_drop (suc n) (s ∷ xs) = ap (λ r. s ∷ r) (take_and_drop n xs)

take_bound : (n : ℕ) (xs : List Slot) → length (take n xs) ≤ n
take_bound zero xs = omega arith
take_bound (suc n) [] = omega arith
take_bound (suc n) (s ∷ xs) = grind (arith, take_bound n xs)

-- A full list that is cut off keeps its first part, whatever is put behind.
newest_again :
    (n : ℕ) (xs : List Slot) (f : List Slot → List Slot)
    → f [] ≡ []
    → take n (take n xs ++ f (drop n xs)) ≡ take n xs
newest_again zero xs f e = refl
newest_again (suc n) [] f e = rw e refl
newest_again (suc n) (s ∷ xs) f e = ap (λ r. s ∷ r) (newest_again n xs f e)

-- Dropping old jobs never drops an active one, nor changes the order of those; it keeps the
-- `max_jobs` newest; and of the others only active ones stay.
pub prune-active_slots :
    (slots : List Slot)
    → (active_slots (prune slots) ≡ active_slots slots)
      × (take max_jobs (prune slots) ≡ take max_jobs slots)
      × (length (prune slots) ≤ max_jobs + length (active_slots (drop max_jobs slots)))
unfolding prune
prune-active_slots slots =
    let newest = take max_jobs slots in
    let older = drop max_jobs slots in
    (
      active_slots_append newest (active_slots older)
          ∙ ap (λ r. active_slots newest ++ r) (active_slots_idem older)
          ∙ sym (active_slots_append newest older)
          ∙ ap active_slots (take_and_drop max_jobs slots),
      newest_again max_jobs slots active_slots (unfold active_slots in refl),
      grind (arith, length-append newest (active_slots older), take_bound max_jobs slots),
    )

-- Nobody holds or asks for anything.
abbrev pub IsIdle : Slot → Type 0
IsIdle s = (s.held ≡ false) × (s.cancel_by ≡ none) × (s.waited_on ≡ false)

abbrev pub IsEndedBy : ℕ → Slot → Type 0
IsEndedBy now s =
    ((is_active s.job.status ≡ false) × ((interrupt_slot now s).job ≡ s.job))
    ⊎ ((is_active s.job.status ≡ true)
        × ((interrupt_slot now s).job.status ≡ interrupted)
        × ((interrupt_slot now s).job.targets ≡ s.job.targets))
