-- ===== src/Severity/Bands.antt =====
-- What the bands of a score are, and that a higher score never ranks lower.
use cvedeck.Prelude.{
  if◌then◌else◌, ℕ, ltb, ◌≤◌, ◌≡◌, ◌≢◌, ◌↔◌, refl, true, false, Option, none, some, arith, ◌&&◌,
}
use cvedeck.Floats.{Floats}
use cvedeck.Severity.{
  Severity, critical, unscored, high, medium, low, rank, derive_severity, resolve_severity,
}

module _ (floats : Floats) where
  open floats use {F, tenths, leq, leq_trans, leq_tenths}

  -- A higher score never ranks lower: of two scores in order, both in range, the severity of the
  -- greater is at most that of the smaller in the triage order, and neither is `unscored`.
  pub derive_severity_mono :
      (x y : F) (s t : Severity)
      → leq x y ≡ true
      → derive_severity floats x ≡ some s
      → derive_severity floats y ≡ some t
      → (rank t ≤ rank s) × (s ≢ unscored) × (t ≢ unscored)
  unfolding derive_severity rank
  derive_severity_mono x y s t h p q =
      ground
        (arith, leq_trans (tenths 90) x y, leq_trans (tenths 70) x y, leq_trans (tenths 40) x y)

  -- A severity comes out exactly when the band is given, or there is no score, or the score is in
  -- range: no other input fails, and every input in range has a band.
  pub resolve_severity-eq-none :
      (score : Option F) (band : Option Severity)
      → (resolve_severity floats score band ≡ none) ↔ (
          (x : F) × (score ≡ some x)
          × (band ≡ none)
          × ((leq (tenths 0) x && leq x (tenths 100)) ≡ false))
  unfolding resolve_severity derive_severity
  resolve_severity-eq-none none none = ground arith
  resolve_severity-eq-none none (some b) = ground arith
  resolve_severity-eq-none (some x) none =
      (λ h. (x, refl, refl, ground arith), λ (y, p, q, r). ground arith)
  resolve_severity-eq-none (some x) (some b) = ground arith

  -- The documented bands, on the scores of one decimal: 0.0-3.9 low, 4.0-6.9 medium, 7.0-8.9 high,
  -- 9.0-10.0 critical, and a ValueError above 10.0.
  pub derive_severity-tenths :
      (n : ℕ)
      → derive_severity floats (tenths n) ≡ (
          if ltb n 40
          then some low
          else if ltb n 70
          then some medium
          else if ltb n 90
          then some high
          else if ltb n 101
          then some critical
          else none)
  unfolding derive_severity
  derive_severity-tenths n = simp leq_tenths (ground arith)
