-- ===== src/Throttle/Store.antt =====
-- The dictionary of throttle.py: equality of keys, and what an entry counts for after a pass of
-- `_forget_stale`.
use text.Mathlib.TextEquality.{eq_iff}
use cvedeck.Prelude.{ℕ, ◌≤◌, ◌≡◌, ◌≢◌, ◌↔◌, true, false, Option, none, some, arith}
use cvedeck.Prelude.Text.{text_eq_iff}
use cvedeck.Throttle.{
  Entry, Key, account, address, key_eq, Entries, put, keep_fresh, forget_stale, wait_of,
}

pub key_eq_iff : (k j : Key) → (key_eq k j ≡ true) ↔ (k ≡ j)
unfolding key_eq
key_eq_iff (account c u) (account c' u') = ground (arith, eq_iff c c', text_eq_iff u u')
key_eq_iff (address c) (address c') = ground (arith, eq_iff c c')
key_eq_iff (account c u) (address c') = ground arith
key_eq_iff (address c) (account c' u') = ground arith

pub ne_of_key_eq : (k j : Key) → key_eq k j ≡ false → k ≢ j
ne_of_key_eq k j h e = cc ((key_eq_iff k j).1 e)

module _ (k : Key) (e : Option Entry) (entries : Entries) where
  pub put_self : put k e entries k ≡ e
  unfolding put
  put_self = ground (arith, key_eq_iff k k)

  pub put_ne : (j : Key) → k ≢ j → put k e entries j ≡ entries j
  unfolding put
  put_ne j h = ground (arith, key_eq_iff k j)

-- Only entries that no longer make anyone wait are forgotten.
pub wait_of-keep_fresh :
    (now t : ℕ) (o : Option Entry) → now ≤ t → wait_of t (keep_fresh now o) ≡ wait_of t o
unfolding wait_of keep_fresh
wait_of-keep_fresh now t none h = ground arith
wait_of-keep_fresh now t (some e) h = ground arith

pub wait_of-forget_stale :
    (now t : ℕ) (entries : Entries) (k : Key)
    → now ≤ t
    → wait_of t (forget_stale now entries k) ≡ wait_of t (entries k)
unfolding forget_stale
wait_of-forget_stale now t entries k h = wait_of-keep_fresh now t (entries k) h
