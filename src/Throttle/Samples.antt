-- ===== src/Throttle/Samples.antt =====
-- One address against a new throttle.
use cvedeck.Prelude.{ℕ, Bool, ◌≤◌, ◌≡◌, refl, true, false, ◌⊎◌, some, List, [], ◌∷◌, arith}
use cvedeck.Prelude.Text.{Text, codes, strip, lower, text_eq}
use cvedeck.Throttle.{
  Entry, Key, address, account_key, Entries, put, key_eq, is_stale, keep_fresh, forget_stale,
  wait_of, retry_after, delay, fail_entry, fail, record_failure, reset,
}
use cvedeck.Throttle.Isolation.{IsOverdue, record_failure_overflow}
use cvedeck.Throttle.Waits.{started, failed, retry_after-le}
use cvedeck.Throttle.Burst.{attempts, attempts_lock_address}

run : ℕ → Entries → ℕ
unfolding retry_after wait_of record_failure fail fail_entry forget_stale keep_fresh is_stale put
    key_eq account_key strip lower text_eq delay reset attempts
run now entries = retry_after now entries "10.0.0.1" (codes " Admin ")

abbrev five : List (ℕ × Text)
five =
    (0, codes "admin")
    ∷ (1000, codes "ADMIN ")
    ∷ (1000, codes "admin")
    ∷ (1000, codes "admin")
    ∷ (1000, codes "admin")
    ∷ []

-- The fifth failure locks the account, however its name is spelled.
five_failures :
    retry_after 5000 (attempts "10.0.0.1" five (0, reset)).1 "10.0.0.1" (codes " Admin ") ≡ 29
unfolding run
five_failures = refl

-- An account that has failed 1,028 times, just now.
abbrev tired : Entry
tired = record { failures = 1028; locked_until = 5; last_failure = 4 }

abbrev tired_entries : Entries
tired_entries = put (account_key "10.0.0.1" (codes "admin")) (some tired) reset

abbrev admin : Key
admin = account_key "10.0.0.1" (codes "admin")

abbrev tired_after : Entries × Bool
tired_after = record_failure 9 "10.0.0.1" (codes "admin") tired_entries

record_failure_overflow_example :
    ((tired_after.1 ≡ false)
      × (¬ IsOverdue 5 9 (tired_entries admin))
      × (¬ IsOverdue 20 9 (tired_entries (address "10.0.0.1"))))
    ⊎ ((tired_after.1 ≡ true)
        × IsOverdue 5 9 (tired_entries admin)
        × (retry_after 9 tired_after.0 "10.0.0.1" (codes "admin")
            ≡ retry_after 9 tired_entries "10.0.0.1" (codes "admin")))
    ⊎ ((tired_after.1 ≡ true)
        × (¬ IsOverdue 5 9 (tired_entries admin))
        × IsOverdue 20 9 (tired_entries (address "10.0.0.1"))
        × (wait_of 9 (tired_after.0 (address "10.0.0.1"))
            ≡ wait_of 9 (tired_entries (address "10.0.0.1"))))
record_failure_overflow_example =
    record_failure_overflow 9 9 "10.0.0.1" (codes "admin") tired_entries (omega arith)

tired_raises : tired_after.1 ≡ true
unfolding run
tired_raises = refl

retry_after-le_example :
    retry_after 7 (record_failure 7 "10.0.0.1" (codes "admin") reset).0 "10.0.0.1" (codes "admin")
    ≤ 900
retry_after-le_example =
    retry_after-le 7 (record_failure 7 "10.0.0.1" (codes "admin") reset).0 "10.0.0.1"
      (codes "admin") (failed "10.0.0.1" (codes "admin") (started 7))

abbrev four_names : List (ℕ × Text) → List (ℕ × Text)
four_names us = (500, codes "a") ∷ (500, codes "b") ∷ (500, codes "c") ∷ (500, codes "d") ∷ us

abbrev spray : List (ℕ × Text)
spray = four_names (four_names (four_names (four_names (four_names []))))

attempts_lock_address_example :
    30
    ≤ retry_after
        (attempts "10.0.0.1" spray (0, reset)).0
        (attempts "10.0.0.1" spray (0, reset)).1
        "10.0.0.1"
        (codes "new")
attempts_lock_address_example =
    attempts_lock_address "10.0.0.1" spray 0 (codes "new") (omega arith) (omega arith) (omega arith)
