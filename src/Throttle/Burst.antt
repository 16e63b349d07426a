-- ===== src/Throttle/Burst.antt =====
-- Attempts in a row from one address, under whatever names.
use cvedeck.Prelude.{
  ℕ, zero, suc, ◌+◌, ◌-◌, ◌≤◌, ◌<◌, String, ◌≡◌, refl, sym, ap, ◌∙◌, false, Option, none, some,
  List, [], ◌∷◌, All, length, arith, Bool-cases, inl, inr,
}
use mathlib.Core.Path.{subst}
use native.Mathlib.Nat.{one-le-pow}
use cvedeck.Prelude.Text.{Text}
use cvedeck.Throttle.{
  Entry, Key, address, account_key, Entries, put, key_eq, keep_fresh, forget_stale, wait_of,
  retry_after, delay, fail_entry, fail, record_failure, reset, or_new, unless_raised, free_attempts,
  free_attempts_per_client, max_exponent, base_delay, forget_after,
}
use cvedeck.Throttle.Store.{put_self, put_ne}
use cvedeck.Throttle.Isolation.{account_ne_address}

-- One failed attempt `gap` milliseconds after the last, and so on; the time and the entries at the end.
unfoldable pub attempts : String → List (ℕ × Text) → ℕ × Entries → ℕ × Entries
attempts client [] s = s
attempts client ((gap, username) ∷ rest) (now, entries) =
    attempts client rest (now + gap, (record_failure (now + gap) client username entries).0)

-- an hour at most since the last one
abbrev pub IsPersistent : List (ℕ × Text) → Type 0
IsPersistent = All (λ attempt. attempt.0 ≤ forget_after)

-- No entry has more than `n` failures, and each was counted.
abbrev Counts : ℕ → Option Entry → Type 0
Counts n none = Unit
Counts n (some e) = e.failures ≤ n

abbrev AllCount : ℕ → Entries → Type 0
AllCount n entries = (k : Key) → Counts n (entries k)

keep_fresh-Counts : (n now : ℕ) (o : Option Entry) → Counts n o → Counts n (keep_fresh now o)
unfolding keep_fresh
keep_fresh-Counts n now none h = tt
keep_fresh-Counts n now (some e) h = ground arith

more-Counts : (n : ℕ) (o : Option Entry) → Counts n o → Counts (suc n) o
more-Counts n none h = tt
more-Counts n (some e) h = omega arith

put-AllCount :
    (n : ℕ) (k : Key) (e : Entry) (entries : Entries)
    → e.failures ≤ n
    → AllCount n entries
    → AllCount n (put k (some e) entries)
unfolding put
put-AllCount n k e entries h all j = elim (Bool-cases (key_eq k j)) [
  | inl t ↦ rw t h
  | inr f ↦ rw f (all j)
]

-- A failure that does not raise: one more, at this time, and locked where no attempt is free.
fail_entry_lem :
    (free now n : ℕ) (o : Option Entry)
    → Counts n o
    → n < free + max_exponent
    → ((fail_entry free now (or_new o)).1 ≡ false)
      × ((fail_entry free now (or_new o)).0.failures ≡ (or_new o).failures + 1)
      × ((fail_entry free now (or_new o)).0.last_failure ≡ now)
      × (free ≤ (or_new o).failures + 1
          → (fail_entry free now (or_new o)).0.locked_until
            ≡ now + delay ((or_new o).failures + 1 - free))
unfolding fail_entry
fail_entry_lem free now n none c h = ground arith
fail_entry_lem free now n (some e) c h = ground arith

-- The address's entry after `i` attempts, the last of them now.
abbrev Tracked : ℕ → ℕ → Option Entry → Type 0
Tracked zero now o = o ≡ none
Tracked (suc i) now o =
    (e : Entry) × (o ≡ some e)
    × (e.failures ≡ suc i)
    × (e.last_failure ≡ now)
    × (free_attempts_per_client ≤ suc i
        → e.locked_until ≡ now + delay (suc i - free_attempts_per_client))

-- Within the hour the sweep keeps the entry, so that its count goes on.
swept_failures :
    (i now gap : ℕ) (o : Option Entry)
    → gap ≤ forget_after
    → Tracked i now o
    → (or_new (keep_fresh (now + gap) o)).failures ≡ i
unfolding keep_fresh
swept_failures zero now gap o h e = rw e refl
swept_failures (suc i) now gap o h (e, found, count, last, lock) = rw found (ground arith)

-- One `_fail` that does not raise, on the entries of at most `i` failures.
fail_lem :
    (k : Key) (free now i : ℕ) (entries : Entries)
    → AllCount i entries
    → i < free + max_exponent
    → (e : Entry) × (fail k free now entries ≡ (put k (some e) entries, false))
      × (e.failures ≡ (or_new (entries k)).failures + 1)
      × (e.last_failure ≡ now)
      × (free ≤ (or_new (entries k)).failures + 1
          → e.locked_until ≡ now + delay ((or_new (entries k)).failures + 1 - free))
unfolding fail
fail_lem k free now i entries all h =
    let (calm, count, last, lock) = fail_entry_lem free now i (entries k) (all k) h in
    (
      (fail_entry free now (or_new (entries k))).0,
      ap (λ b. (put k (some (fail_entry free now (or_new (entries k))).0) entries, b)) calm,
      count,
      last,
      lock,
    )

or_new-Counts : (n : ℕ) (o : Option Entry) → Counts n o → (or_new o).failures ≤ n
or_new-Counts n none h = omega arith
or_new-Counts n (some e) h = h

module _ (client : String) (username : Text) where
  -- The first `_fail` of an attempt does not touch the address's entry.
  account_step :
      (i t : ℕ) (swept : Entries)
      → i < 1028
      → AllCount i swept
      → (once : Entries) × (fail (account_key client username) free_attempts t swept
          ≡ (once, false))
        × AllCount (suc i) once
        × (once (address client) ≡ swept (address client))
  account_step i t swept h few =
      let k = account_key client username in
      let (e, ends, count, last, lock) = fail_lem k free_attempts t i swept few (omega arith) in
      (
        put k (some e) swept,
        ends,
        put-AllCount (suc i) k e swept (omega (arith, or_new-Counts i (swept k) (few k)))
            (λ j. more-Counts i (swept j) (few j)),
        put_ne k (some e) swept (address client) (account_ne_address client client username),
      )

  address_step :
      (i t : ℕ) (once : Entries)
      → i < 1028
      → AllCount (suc i) once
      → (or_new (once (address client))).failures ≡ i
      → (twice : Entries) × (fail (address client) free_attempts_per_client t once ≡ (twice, false))
        × AllCount (suc i) twice
        × Tracked (suc i) t (twice (address client))
  address_step i t once h few so_far =
      let a = address client in
      let (e, ends, count, last, lock) =
        fail_lem a free_attempts_per_client t (suc i) once few (omega arith) in
      let reached : (or_new (once a)).failures + 1 ≡ suc i = omega arith in
      (
        put a (some e) once,
        ends,
        put-AllCount (suc i) a e once (omega arith) few,
        (e, put_self a (some e) once, omega arith, last, rw reached at lock),
      )

  record_failure_step :
      (i now gap : ℕ) (entries : Entries)
      → i < 1028
      → gap ≤ forget_after
      → AllCount i entries
      → Tracked i now (entries (address client))
      → (twice : Entries) × (record_failure (now + gap) client username entries ≡ (twice, false))
        × AllCount (suc i) twice
        × Tracked (suc i) (now + gap) (twice (address client))
  unfolding record_failure
  record_failure_step i now gap entries h near all tracked =
      let a = address client in
      let swept = forget_stale (now + gap) entries in
      let (once, first, few, same_entry) =
        account_step i (now + gap) swept h
          (λ j. unfold forget_stale in keep_fresh-Counts i (now + gap) (entries j) (all j)) in
      let so_far : (or_new (once a)).failures ≡ i =
        ap (λ o. (or_new o).failures) same_entry
        ∙ (unfold forget_stale in swept_failures i now gap (entries a) near tracked) in
      let (twice, second, few', tracked') = address_step i (now + gap) once h few so_far in
      (
        twice,
        ap (λ r. unless_raised r (fail a free_attempts_per_client (now + gap))) first ∙ second,
        few',
        tracked',
      )

attempts-Tracked :
    (client : String) (us : List (ℕ × Text)) (i now : ℕ) (entries : Entries)
    → i + length us ≤ 1028
    → IsPersistent us
    → AllCount i entries
    → Tracked i now (entries (address client))
    → Tracked
        (i + length us)
        (attempts client us (now, entries)).0
        ((attempts client us (now, entries)).1 (address client))
unfolding attempts
attempts-Tracked client [] i now entries h _ all tracked =
    let same_count : i + 0 ≡ i = omega arith in rw same_count tracked
attempts-Tracked client ((gap, username) ∷ us) i now entries h (near, rest) all tracked =
    let (twice, e, few, tracked') =
      record_failure_step client username i now gap entries (omega arith) near all tracked in
    let count : i + suc (length us) ≡ suc i + length us = omega arith in
    let stepped : attempts client ((gap, username) ∷ us) (now, entries)
        ≡ attempts client us (now + gap, twice) =
      ap (λ r. attempts client us (now + gap, r.0)) e in
    rw count (
      subst (λ s. Tracked (suc i + length us) s.0 (s.1 (address client))) (sym stepped)
        (attempts-Tracked client us (suc i) (now + gap) twice (omega arith) rest few tracked'))

long_delay : (over : ℕ) → base_delay ≤ delay over
unfolding delay
long_delay over = omega (arith, one-le-pow over 2 (omega arith))

locked :
    (n now : ℕ) (o : Option Entry)
    → free_attempts_per_client ≤ n
    → Tracked n now o
    → base_delay ≤ wait_of now o
unfolding wait_of
locked zero now o h tracked = absurd (omega arith)
locked (suc n) now o h (e, found, count, last, lock) =
    rw found (omega (arith, lock h, long_delay (suc n - free_attempts_per_client)))

-- From a throttle with no entries: after 20 to 1,028 failures in a row of one address, each an hour at
-- most after the last, the address has to wait at least 30 seconds at the time of the last of them,
-- whatever name it tries next, be the names that it failed under the same or all different.
pub attempts_lock_address :
    (client : String) (us : List (ℕ × Text)) (start : ℕ) (next : Text)
    → free_attempts_per_client ≤ length us
    → length us ≤ 1028
    → IsPersistent us
    → 30
      ≤ retry_after
          (attempts client us (start, reset)).0
          (attempts client us (start, reset)).1
          client
          next
unfolding retry_after
attempts_lock_address client us start next many few near =
    let tracked =
      attempts-Tracked client us 0 start reset (omega arith) near (unfold reset in λ k. tt)
        (unfold reset in refl) in
    omega (arith, locked (0 + length us) _ _ (omega arith) tracked)
