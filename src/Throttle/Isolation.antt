-- ===== src/Throttle/Isolation.antt =====
-- Whom a recorded attempt concerns: its account and its address, and no other key.
use cvedeck.Prelude.{
  Option, ◌⊎◌, inl, inr, Bool-cases, ◌↔◌, ℕ, ◌+◌, ◌≤◌, ◌<◌, String, ◌≡◌, ◌≢◌, ◌∙◌, refl, sym, Bool,
  true, false, none, some, arith, ap,
}
use cvedeck.Prelude.Text.{Text}
use cvedeck.Throttle.{
  Entry, Key, address, account_key, Entries, put, forget_stale, wait_of, retry_after, fail_entry,
  fail, record_failure, record_success, free_attempts, free_attempts_per_client, unless_raised,
  is_stale, keep_fresh, max_exponent, or_new,
}
use cvedeck.Throttle.Store.{put_self, put_ne, wait_of-forget_stale}

fail_ne :
    (k j : Key) (free now : ℕ) (entries : Entries)
    → k ≢ j
    → (fail k free now entries).0 j ≡ entries j
unfolding fail
fail_ne k j free now entries h = put_ne k _ entries j h

unless_raised_ne :
    (r : Entries × Bool) (k j : Key) (free now : ℕ)
    → k ≢ j
    → (unless_raised r (fail k free now)).0 j ≡ r.0 j
unless_raised_ne (entries, true) k j free now h = refl
unless_raised_ne (entries, false) k j free now h = fail_ne k j free now entries h

module _ (now t : ℕ) (client : String) (username : Text) (entries : Entries) where
  -- A failure changes no wait but its account's and its address's, from that time on: someone
  -- hammering one account does not lock the others, and forgetting stale entries frees nobody.
  pub record_failure_isolated :
      (j : Key)
      → now ≤ t
      → account_key client username ≢ j
      → address client ≢ j
      → wait_of t ((record_failure now client username entries).0 j) ≡ wait_of t (entries j)
  unfolding record_failure
  record_failure_isolated j h na nc =
      let k = account_key client username in
      let swept = forget_stale now entries in
      ap (wait_of t) (
        unless_raised_ne (fail k free_attempts now swept) (address client) j
          free_attempts_per_client now nc
        ∙ fail_ne k j free_attempts now swept na)
      ∙ wait_of-forget_stale now t entries j h

pub account_ne_address :
    (client other : String) (username : Text) → account_key client username ≢ address other
unfolding account_key
account_ne_address client other username e = cc

success_account :
    (client : String) (username : Text) (entries : Entries)
    → record_success client username entries (account_key client username) ≡ none
unfolding record_success
success_account client username entries =
    put_ne (address client) none (put (account_key client username) none entries)
      (account_key client username) (λ e. account_ne_address client client username (sym e))
    ∙ put_self (account_key client username) none entries

success_address :
    (client : String) (username : Text) (entries : Entries)
    → record_success client username entries (address client) ≡ none
unfolding record_success
success_address client username entries =
    put_self (address client) none (put (account_key client username) none entries)

-- A success lets the account and the address try again at once, and changes no other entry.
pub record_success_clears :
    (t : ℕ) (client : String) (username : Text) (entries : Entries) (j : Key)
    → account_key client username ≢ j
    → address client ≢ j
    → (retry_after t (record_success client username entries) client username ≡ 0)
      × (record_success client username entries j ≡ entries j)
unfolding retry_after wait_of
record_success_clears t client username entries j na nc = (
  rw (success_account client username entries, success_address client username entries)
      (omega arith),
  unfold record_success in
      put_ne (address client) none (put (account_key client username) none entries) j nc
      ∙ put_ne (account_key client username) none entries j na,
)

-- The entry outlives the sweep and has failed so often that `2**over` of one more failure is no float.
abbrev pub IsOverdue : ℕ → ℕ → Option Entry → Type 0
IsOverdue free now o =
    (e : Entry) × (o ≡ some e) × (is_stale now e ≡ false) × (free + max_exponent < e.failures + 1)

abbrev pub raised_of : ℕ → ℕ → Option Entry → Bool
raised_of free now o = (fail_entry free now (or_new (keep_fresh now o))).1

-- Whether `_fail` raises on the entry that the sweep left
raised_of-IsOverdue :
    (free now : ℕ) (o : Option Entry) → (raised_of free now o ≡ true) ↔ IsOverdue free now o
unfolding fail_entry keep_fresh
raised_of-IsOverdue free now none = (λ h. ground arith, λ h. ground arith)
raised_of-IsOverdue free now (some e) =
    (λ h. (e, refl, ground arith, ground arith), λ h. ground arith)

-- A `_fail` that raises leaves the wait for its entry as it was.
raised_wait :
    (free now t : ℕ) (o : Option Entry)
    → IsOverdue free now o
    → wait_of t (some (fail_entry free now (or_new (keep_fresh now o))).0) ≡ wait_of t o
unfolding fail_entry keep_fresh wait_of
raised_wait free now t o (e, found, fresh, over) = rw (found, fresh) (ground arith)

module _ (now t : ℕ) (client : String) (username : Text) (entries : Entries) where
  abbrev after : Entries × Bool
  after = record_failure now client username entries

  abbrev account_entry : Option Entry
  account_entry = entries (account_key client username)

  abbrev counted : Entry
  counted = (fail_entry free_attempts now (or_new (keep_fresh now account_entry))).0

  abbrev once : Entries
  once = put (account_key client username) (some counted) (forget_stale now entries)

  fail_account :
      fail (account_key client username) free_attempts now (forget_stale now entries)
      ≡ (once, raised_of free_attempts now account_entry)
  unfolding fail forget_stale
  fail_account = refl

  once_address : once (address client) ≡ keep_fresh now (entries (address client))
  unfolding forget_stale
  once_address =
      put_ne (account_key client username) (some counted) (forget_stale now entries)
        (address client) (account_ne_address client client username)

  ended :
      (b : Bool)
      → raised_of free_attempts now account_entry ≡ b
      → after ≡ unless_raised (once, b) (fail (address client) free_attempts_per_client now)
  unfolding record_failure
  ended b e =
      ap (λ r. unless_raised r (fail (address client) free_attempts_per_client now))
        (fail_account ∙ ap (λ b. (once, b)) e)

  address_raises_lem :
      (fail (address client) free_attempts_per_client now once).1
      ≡ raised_of free_attempts_per_client now (entries (address client))
  unfolding fail
  address_raises_lem = ap (λ o. (fail_entry free_attempts_per_client now (or_new o)).1) once_address

  address_entry_lem :
      (fail (address client) free_attempts_per_client now once).0 (address client)
      ≡ some
          (fail_entry free_attempts_per_client now
            (or_new (keep_fresh now (entries (address client))))).0
  unfolding fail
  address_entry_lem =
      put_self (address client) _ once
      ∙ ap (λ o. some (fail_entry free_attempts_per_client now (or_new o)).0) once_address

  -- Where the account's `_fail` raises, nobody's wait changes.
  account_waits :
      now ≤ t
      → raised_of free_attempts now account_entry ≡ true
      → retry_after t after.0 client username ≡ retry_after t entries client username
  unfolding retry_after
  account_waits h e =
      let k = account_key client username in
      let own : wait_of t (once k) ≡ wait_of t (entries k) =
        ap (wait_of t) (put_self k (some counted) (forget_stale now entries))
        ∙ raised_wait free_attempts now t account_entry
            ((raised_of-IsOverdue free_attempts now account_entry).0 e) in
      let others : wait_of t (once (address client)) ≡ wait_of t (entries (address client)) =
        record_failure_kept h in
      rw (ended true e, own, others) refl
    where
      record_failure_kept :
          now ≤ t → wait_of t (once (address client)) ≡ wait_of t (entries (address client))
      record_failure_kept h =
          ap (wait_of t) (
            put_ne (account_key client username) (some counted) (forget_stale now entries)
              (address client) (account_ne_address client client username))
          ∙ wait_of-forget_stale now t entries (address client) h

  -- `record_failure` raises exactly where the account's entry, or else the address's, outlives the sweep and has failed so often that `2**over` is no float after one more failure. Where the account's does, the wait of the account at its address is, from that time on, what it was without the failure; where only the address's does, that is so of the address's own wait.
  pub record_failure_overflow :
      now ≤ t
      → ((after.1 ≡ false)
          × (¬ IsOverdue free_attempts now account_entry)
          × (¬ IsOverdue free_attempts_per_client now (entries (address client))))
        ⊎ ((after.1 ≡ true)
            × IsOverdue free_attempts now account_entry
            × (retry_after t after.0 client username ≡ retry_after t entries client username))
        ⊎ ((after.1 ≡ true)
            × (¬ IsOverdue free_attempts now account_entry)
            × IsOverdue free_attempts_per_client now (entries (address client))
            × (wait_of t (after.0 (address client)) ≡ wait_of t (entries (address client))))
  record_failure_overflow h =
      let (as_raised, as_overdue) = raised_of-IsOverdue free_attempts now account_entry in
      let (as_raised', as_overdue') =
        raised_of-IsOverdue free_attempts_per_client now (entries (address client)) in
      elim (Bool-cases (raised_of free_attempts now account_entry)) [
        | inl e ↦ inr (inl (ap (λ r. r.1) (ended true e), as_raised e, account_waits h e))
        | inr e ↦
            let calm : ¬ IsOverdue free_attempts now account_entry = λ o. cc (as_overdue o) in
            elim (Bool-cases (raised_of free_attempts_per_client now (entries (address client)))) [
              | inl e' ↦ inr (
                  inr (
                    ap (λ r. r.1) (ended false e) ∙ address_raises_lem ∙ e',
                    calm,
                    as_raised' e',
                    ap (λ r. wait_of t (r.0 (address client))) (ended false e)
                        ∙ ap (wait_of t) address_entry_lem
                        ∙ raised_wait free_attempts_per_client now t (entries (address client))
                            (as_raised' e'),
                  ))
              | inr e' ↦ inl (
                ap (λ r. r.1) (ended false e) ∙ address_raises_lem ∙ e',
                calm,
                λ o. cc (as_overdue' o),
              )
            ]
      ]
