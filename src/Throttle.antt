-- ===== src/Throttle.antt =====
-- backend/app/auth/throttle.py: `LoginThrottle`. A clock reading is a whole number of milliseconds
-- (the source has float seconds), and each method is one step, as it holds the lock throughout. The
-- dictionary is a function from keys: nothing iterates over it but `_forget_stale`, whose order does
-- not show. `now - entry.last_failure` and `locked_until - now` are used only where a negative
-- difference counts as 0, so truncated subtraction is exact.
pub mod Store
pub mod Waits
pub mod Isolation
pub mod Burst
mod Samples
use Prim.Native.Nat.{min, max}
use text.Mathlib.Text.{◌==◌ as str_eq}
use cvedeck.Prelude.{
  ℕ, ◌+◌, ◌-◌, ◌*◌, ◌/◌, ◌^◌, String, Bool, true, false, ◌&&◌, Option, none, some, ltb, leb,
  if◌then◌else◌,
}
use cvedeck.Prelude.Text.{Text, text_eq, strip, lower}

-- `FREE_ATTEMPTS`, `FREE_ATTEMPTS_PER_CLIENT`, `BASE_DELAY`, `MAX_DELAY`, `_FORGET_AFTER`
abbrev pub free_attempts : ℕ
free_attempts = 5

abbrev pub free_attempts_per_client : ℕ
free_attempts_per_client = 20

abbrev pub base_delay : ℕ
base_delay = 30_000

abbrev pub max_delay : ℕ
max_delay = 900_000

abbrev pub forget_after : ℕ
forget_after = 3_600_000

-- `_Entry`
pub record Entry : Type 0 where
  pub failures : ℕ
  pub locked_until : ℕ
  pub last_failure : ℕ

abbrev pub new_entry : Entry
new_entry = record { failures = 0; locked_until = 0; last_failure = 0 }

-- `(client, username)` or `(client,)`
pub data Key : Type 0 where
  account : String → Text → Key
  address : String → Key

-- `_key`
unfoldable pub account_key : String → Text → Key
account_key client username = account client (lower (strip username))

unfoldable pub key_eq : Key → Key → Bool
key_eq (account c u) (account c' u') = str_eq c c' && text_eq u u'
key_eq (address c) (address c') = str_eq c c'
key_eq (account c u) (address c') = false
key_eq (address c) (account c' u') = false

abbrev pub Entries : Type 0
Entries = Key → Option Entry

unfoldable pub put : Key → Option Entry → Entries → Entries
put k e entries j = if key_eq k j then e else entries j

unfoldable pub is_stale : ℕ → Entry → Bool
is_stale now e = ltb forget_after (now - e.last_failure) && leb e.locked_until now

unfoldable pub keep_fresh : ℕ → Option Entry → Option Entry
unfolding is_stale
keep_fresh now none = none
keep_fresh now (some e) = if is_stale now e then none else some e

-- `_forget_stale`
unfoldable pub forget_stale : ℕ → Entries → Entries
forget_stale now entries j = keep_fresh now (entries j)

-- The milliseconds that `retry_after` takes of one key, 0 where it has no entry.
unfoldable pub wait_of : ℕ → Option Entry → ℕ
wait_of now none = 0
wait_of now (some e) = e.locked_until - now

-- `int(x + 0.999)` in whole seconds
unfoldable pub retry_after : ℕ → Entries → String → Text → ℕ
retry_after now entries client username =
    (max (wait_of now (entries (account_key client username)))
        (wait_of now (entries (address client)))
      + 999)
    / 1000

-- `self._entries.setdefault(key, _Entry())`
abbrev pub or_new : Option Entry → Entry
or_new none = new_entry
or_new (some e) = e

-- The largest `over` for which `2**over` becomes a float: above it the product raises OverflowError.
abbrev pub max_exponent : ℕ
max_exponent = 1023

unfoldable pub delay : ℕ → ℕ
delay over = min max_delay (base_delay * 2 ^ over)

-- A failure on an entry, and whether it raised. What was assigned before the error stays.
unfoldable pub fail_entry : ℕ → ℕ → Entry → Entry × Bool
fail_entry free now e =
    let counted = record e { failures = e.failures + 1; last_failure = now } in
    let over = counted.failures - free in
    if leb free counted.failures
    then (if ltb max_exponent over
        then (counted, true)
        else (record counted { locked_until = now + delay over }, false))
    else (counted, false)

-- `_fail`
unfoldable pub fail : Key → ℕ → ℕ → Entries → Entries × Bool
fail k free now entries =
    let (e, raised) = fail_entry free now (or_new (entries k)) in (put k (some e) entries, raised)

abbrev unless_raised : Entries × Bool → (Entries → Entries × Bool) → Entries × Bool
unless_raised (entries, true) next = (entries, true)
unless_raised (entries, false) next = next entries

-- `record_failure`; the flag says that it raised OverflowError.
unfoldable pub record_failure : ℕ → String → Text → Entries → Entries × Bool
record_failure now client username entries =
    unless_raised (fail (account_key client username) free_attempts now (forget_stale now entries))
      (fail (address client) free_attempts_per_client now)

-- `record_success`
unfoldable pub record_success : String → Text → Entries → Entries
record_success client username entries =
    put (address client) none (put (account_key client username) none entries)

-- `reset`, and the state that `__init__` makes
unfoldable pub reset : Entries
reset k = none
