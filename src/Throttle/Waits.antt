-- ===== src/Throttle/Waits.antt =====
-- How long the throttle makes anyone wait, in every state that it can come to.
use cvedeck.Prelude.{
  ℕ, ◌+◌, ◌≤◌, String, Bool, true, false, Option, none, some, arith, Bool-cases, inl, inr,
}
use cvedeck.Prelude.Text.{Text}
use cvedeck.Throttle.{
  Entry, Key, address, account_key, Entries, put, key_eq, keep_fresh, forget_stale, wait_of,
  retry_after, delay, fail_entry, fail, record_failure, record_success, reset, or_new,
  unless_raised, free_attempts, free_attempts_per_client, max_delay,
}

-- No lock reaches further than the longest delay from now.
abbrev pub IsBounded : ℕ → Option Entry → Type 0
IsBounded now none = Unit
IsBounded now (some e) = e.locked_until ≤ now + max_delay

abbrev pub AllBounded : ℕ → Entries → Type 0
AllBounded now entries = (k : Key) → IsBounded now (entries k)

later-IsBounded : (now gap : ℕ) (o : Option Entry) → IsBounded now o → IsBounded (now + gap) o
later-IsBounded now gap none h = tt
later-IsBounded now gap (some e) h = omega arith

keep_fresh-IsBounded :
    (now : ℕ) (o : Option Entry) → IsBounded now o → IsBounded now (keep_fresh now o)
unfolding keep_fresh
keep_fresh-IsBounded now none h = tt
keep_fresh-IsBounded now (some e) h = ground arith

put-AllBounded :
    (now : ℕ) (k : Key) (o : Option Entry) (entries : Entries)
    → IsBounded now o
    → AllBounded now entries
    → AllBounded now (put k o entries)
unfolding put
put-AllBounded now k o entries h all j = elim (Bool-cases (key_eq k j)) [
  | inl t ↦ rw t h
  | inr f ↦ rw f (all j)
]

fail_entry-IsBounded :
    (free now : ℕ) (o : Option Entry)
    → IsBounded now o
    → IsBounded now (some (fail_entry free now (or_new o)).0)
unfolding fail_entry delay
fail_entry-IsBounded free now none h = ground arith
fail_entry-IsBounded free now (some e) h = ground arith

fail-AllBounded :
    (k : Key) (free now : ℕ) (entries : Entries)
    → AllBounded now entries
    → AllBounded now (fail k free now entries).0
unfolding fail
fail-AllBounded k free now entries all =
    put-AllBounded now k _ entries (fail_entry-IsBounded free now (entries k) (all k)) all

unless_raised-AllBounded :
    (r : Entries × Bool) (k : Key) (free now : ℕ)
    → AllBounded now r.0
    → AllBounded now (unless_raised r (fail k free now)).0
unless_raised-AllBounded (entries, true) k free now all = all
unless_raised-AllBounded (entries, false) k free now all = fail-AllBounded k free now entries all

-- The states of the process's throttle, with the clock: what the routes do in any order, at any
-- times.
pub data Reach : ℕ → Entries → Type 0 where
  started : (now : ℕ) → Reach now reset
  wait : {now : ℕ} {entries : Entries} (gap : ℕ) → Reach now entries → Reach (now + gap) entries
  failed :
      {now : ℕ} {entries : Entries} (client : String) (username : Text)
      → Reach now entries
      → Reach now (record_failure now client username entries).0
  signed_in :
      {now : ℕ} {entries : Entries} (client : String) (username : Text)
      → Reach now entries
      → Reach now (record_success client username entries)

Reach-AllBounded : {now : ℕ} {entries : Entries} → Reach now entries → AllBounded now entries
unfolding record_failure record_success reset forget_stale
Reach-AllBounded (started now) k = tt
Reach-AllBounded (wait {now} {entries} gap r) k =
    later-IsBounded now gap (entries k) (Reach-AllBounded r k)
Reach-AllBounded (failed {now} {entries} client username r) k =
    unless_raised-AllBounded _ (address client) free_attempts_per_client now
      (fail-AllBounded (account_key client username) free_attempts now (forget_stale now entries)
        (λ j. keep_fresh-IsBounded now (entries j) (Reach-AllBounded r j)))
      k
Reach-AllBounded (signed_in {now} {entries} client username r) k =
    put-AllBounded now (address client) none _ tt
      (put-AllBounded now (account_key client username) none entries tt (Reach-AllBounded r)) k

wait_of-le : (now : ℕ) (o : Option Entry) → IsBounded now o → wait_of now o ≤ max_delay
unfolding wait_of
wait_of-le now none h = omega arith
wait_of-le now (some e) h = omega arith

-- In every state that the throttle can reach nobody is told to wait more than 15 minutes.
pub retry_after-le :
    (now : ℕ) (entries : Entries) (client : String) (username : Text)
    → Reach now entries
    → retry_after now entries client username ≤ 900
unfolding retry_after
retry_after-le now entries client username r = omega (
  arith,
  wait_of-le now (entries (account_key client username))
      (Reach-AllBounded r (account_key client username)),
  wait_of-le now (entries (address client)) (Reach-AllBounded r (address client)),
)
