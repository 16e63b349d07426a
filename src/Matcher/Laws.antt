-- ===== src/Matcher/Laws.antt =====
-- What a match reports of its sources: completeness, isolation, and the only way to raise.
use cvedeck.Prelude.{
  String, ◌≡◌, ◌≢◌, ◌↔◌, ◌⊎◌, inl, inr, refl, ap, ◌∙◌, Bool, true, false, Option, none, some, List,
  [], ◌∷◌, ◌++◌, map, All, append-nil, arith,
}
use mathlib.Core.Path.{subst}
use cvedeck.Floats.{Floats}
use cvedeck.Severity.{Severity, resolve_severity}
use cvedeck.Matcher.{
  SourceStatus, ok, data_source_unavailable, Source, nvd, osv, RawAdvisory, Finding, Call, answered,
  partial_match, outage, defect, MatchResult, Outcome, done, reraised, Part, finding,
  append_finding, joined, append_findings, match_nvd, match_osv, match, ◌>>=◌,
}

abbrev same_source : Source → Source → Bool
same_source nvd nvd = true
same_source osv osv = true
same_source _ _ = false

-- The findings of one source, in order.
unfoldable pub from_source : {F : Type 0} → Source → List (Finding F) → List (Finding F)
from_source s [] = []
from_source s (f ∷ fs) =
    let rest = from_source s fs in elim (same_source f.source s) [ true ↦ f ∷ rest | false ↦ rest ]

from_source-append :
    {F : Type 0} (s : Source) (fs gs : List (Finding F))
    → from_source s (fs ++ gs) ≡ from_source s fs ++ from_source s gs
unfolding from_source
from_source-append s [] gs = refl
from_source-append s (f ∷ fs) gs = ground (arith, from_source-append s fs gs)

abbrev IsFrom : {F : Type 0} → Source → Finding F → Type 0
IsFrom s f = f.source ≡ s

from_source_self :
    {F : Type 0} (s : Source) (fs : List (Finding F)) → All (IsFrom s) fs → from_source s fs ≡ fs
unfolding from_source
from_source_self s [] h = refl
from_source_self nvd (f ∷ fs) (e, h) = ground (arith, from_source_self nvd fs h)
from_source_self osv (f ∷ fs) (e, h) = ground (arith, from_source_self osv fs h)

from_source_other :
    {F : Type 0} (s t : Source) (fs : List (Finding F))
    → s ≢ t
    → All (IsFrom s) fs
    → from_source t fs ≡ []
unfolding from_source
from_source_other s t [] n h = refl
from_source_other nvd nvd (f ∷ fs) n (e, h) = absurd (n refl)
from_source_other nvd osv (f ∷ fs) n (e, h) = ground (arith, from_source_other nvd osv fs n h)
from_source_other osv nvd (f ∷ fs) n (e, h) = ground (arith, from_source_other osv nvd fs n h)
from_source_other osv osv (f ∷ fs) n (e, h) = absurd (n refl)

module _ (floats : Floats) where
  open floats use {F}

  append_finding-IsFrom :
      (machine : String) (s : Source) (raw : RawAdvisory F) (band : Option Severity) (part : Part F)
      → All (IsFrom s) part.0
      → All (IsFrom s) (append_finding floats machine s raw band part).0
  unfolding append_finding finding
  append_finding-IsFrom machine s raw none part h = tt
  append_finding-IsFrom machine s raw (some band) part h = (refl, h)

  append_findings-IsFrom :
      (machine : String) (s : Source) (status : SourceStatus) (raws : List (RawAdvisory F))
      → All (IsFrom s) (append_findings floats machine s status raws).0
  unfolding append_findings
  append_findings-IsFrom machine s status [] = tt
  append_findings-IsFrom machine s status (raw ∷ raws) =
      append_finding-IsFrom machine s raw _ (append_findings floats machine s status raws)
        (append_findings-IsFrom machine s status raws)

  -- The identifiers and the severities that were published, in order.
  abbrev pub published : List (RawAdvisory F) → List (String × Option Severity)
  published raws =
      map (λ raw. (raw.cve_id, resolve_severity floats raw.cvss_score raw.severity)) raws

  abbrev pub reported : List (Finding F) → List (String × Option Severity)
  reported fs = map (λ f. (f.cve_id, some f.severity)) fs

  append_finding_ok :
      (machine : String) (s : Source) (raw : RawAdvisory F) (band : Option Severity) (part : Part F)
      → (append_finding floats machine s raw band part).1 ≡ ok
      → (part.1 ≡ ok)
        × (reported (append_finding floats machine s raw band part).0
            ≡ (raw.cve_id, band) ∷ reported part.0)
  unfolding append_finding finding
  append_finding_ok machine s raw none part h = cc
  append_finding_ok machine s raw (some b) part h = (h, refl)

  -- The loop ends well only on records that all resolve, and then it has reported each of them.
  append_findings_ok :
      (machine : String) (s : Source) (status : SourceStatus) (raws : List (RawAdvisory F))
      → (append_findings floats machine s status raws).1 ≡ ok
      → (status ≡ ok) × (reported (append_findings floats machine s status raws).0 ≡ published raws)
  unfolding append_findings
  append_findings_ok machine s status [] h = (h, refl)
  append_findings_ok machine s status (raw ∷ raws) h =
      let (rest_ok, e) =
        append_finding_ok machine s raw (resolve_severity floats raw.cvss_score raw.severity)
          (append_findings floats machine s status raws) h in
      let (fine, ih) = append_findings_ok machine s status raws rest_ok in
      (fine, e ∙ ap (λ l. (raw.cve_id, resolve_severity floats raw.cvss_score raw.severity) ∷ l) ih)

  -- What a half of the match says of its source: complete where its status is `ok`.
  abbrev pub IsComplete : Option (Call F) → List (Finding F) → SourceStatus → Type 0
  IsComplete call fs status =
      status ≡ ok
      → (raws : List (RawAdvisory F)) × (call ≡ some (answered raws))
        × (reported fs ≡ published raws)

  -- A half is complete, or it raises, and then its client had a defect.
  abbrev IsHalf : Source → Option (Call F) → Outcome (Part F) → Type 0
  IsHalf s call (done p) = All (IsFrom s) p.0 × IsComplete call p.0 p.1 × (call ≢ some defect)
  IsHalf s call reraised = call ≡ some defect

  match_nvd-IsHalf :
      (machine : String) (call : Option (Call F)) → IsHalf nvd call (match_nvd floats machine call)
  unfolding match_nvd
  match_nvd-IsHalf machine none = (tt, λ e. cc, λ e. cc)
  match_nvd-IsHalf machine (some (answered raws)) = (
    append_findings-IsFrom machine nvd ok raws,
    λ e. (raws, refl, (append_findings_ok machine nvd ok raws e).1),
    λ e. cc,
  )
  match_nvd-IsHalf machine (some (partial_match raws)) = (tt, λ e. cc, λ e. cc)
  match_nvd-IsHalf machine (some outage) = (tt, λ e. cc, λ e. cc)
  match_nvd-IsHalf machine (some defect) = refl

  match_osv-IsHalf :
      (machine : String) (call : Option (Call F)) → IsHalf osv call (match_osv floats machine call)
  unfolding match_osv
  match_osv-IsHalf machine none = (tt, λ e. cc, λ e. cc)
  match_osv-IsHalf machine (some (answered raws)) = (
    append_findings-IsFrom machine osv ok raws,
    λ e. (raws, refl, (append_findings_ok machine osv ok raws e).1),
    λ e. cc,
  )
  match_osv-IsHalf machine (some (partial_match raws)) = (
    append_findings-IsFrom machine osv data_source_unavailable raws,
    λ e. cc (append_findings_ok machine osv data_source_unavailable raws e).0,
    λ e. cc,
  )
  match_osv-IsHalf machine (some outage) = (tt, λ e. cc, λ e. cc)
  match_osv-IsHalf machine (some defect) = refl

  -- The findings of each source in a joined result.
  joined_nvd :
      (p q : List (Finding F))
      → All (IsFrom nvd) p
      → All (IsFrom osv) q
      → from_source nvd (p ++ q) ≡ p
  joined_nvd p q hp hq = simp (
    from_source-append,
    from_source_self nvd p hp,
    from_source_other osv nvd q (λ e. cc) hq,
    append-nil,
  )

  joined_osv :
      (p q : List (Finding F))
      → All (IsFrom nvd) p
      → All (IsFrom osv) q
      → from_source osv (p ++ q) ≡ q
  joined_osv p q hp hq =
      simp (from_source-append, from_source_self osv q hq, from_source_other nvd osv p (λ e. cc) hp)

  -- What a result says of the two calls.
  abbrev pub Reports : Option (Call F) → Option (Call F) → MatchResult F → Type 0
  Reports n o r =
      IsComplete n (from_source nvd r.findings) r.nvd_status
      × IsComplete o (from_source osv r.findings) r.osv_status

  halves-Reports :
      (machine : String) (n o : Option (Call F)) (p q : Outcome (Part F))
      → IsHalf nvd n p
      → IsHalf osv o q
      → (r : MatchResult F) → (p >>= λ a. q >>= λ b. done (joined floats machine a b)) ≡ done r
      → Reports n o r
  halves-Reports machine n o reraised q hp hq r e = cc
  halves-Reports machine n o (done p) reraised hp hq r e = cc
  halves-Reports machine n o (done (p, ps)) (done (q, qs)) (fp, cp, _) (fq, cq, _) r e =
      let made : joined floats machine (p, ps) (q, qs) ≡ r = cc in
      subst (Reports n o) made (rw (joined_nvd p q fp fq) cp, rw (joined_osv p q fp fq) cq)

  -- A source whose status is `ok` answered in full, and the result holds one finding for each of its
  -- records, in order, with the severity that the record's score and band resolve to. So a partial
  -- answer, an outage, an absent client and a record with a score out of range all show in the status.
  pub match-Reports :
      (machine : String) (n o : Option (Call F)) (r : MatchResult F)
      → match floats machine n o ≡ done r
      → Reports n o r
  unfolding match
  match-Reports machine n o r e =
      halves-Reports machine n o (match_nvd floats machine n) (match_osv floats machine o)
        (match_nvd-IsHalf machine n) (match_osv-IsHalf machine o) r e

  halves-eq-reraised :
      (machine : String) (n o : Option (Call F)) (p q : Outcome (Part F))
      → IsHalf nvd n p
      → IsHalf osv o q
      → ((p >>= λ a. q >>= λ b. done (joined floats machine a b)) ≡ reraised)
        ↔ ((n ≡ some defect) ⊎ (o ≡ some defect))
  halves-eq-reraised machine n o reraised q hp hq = (λ _. inl hp, λ _. refl)
  halves-eq-reraised machine n o (done p) reraised hp hq = (λ _. inr hq, λ _. refl)
  halves-eq-reraised machine n o (done (p, ps)) (done (q, qs)) (_, _, np) (_, _, nq) =
      (λ e. cc, elim [ inl e ↦ absurd (np e) | inr e ↦ absurd (nq e) ])

  -- A match raises exactly when a client's call raised a programming error.
  pub match-eq-reraised :
      (machine : String) (n o : Option (Call F))
      → (match floats machine n o ≡ reraised) ↔ ((n ≡ some defect) ⊎ (o ≡ some defect))
  unfolding match
  match-eq-reraised machine n o =
      halves-eq-reraised machine n o (match_nvd floats machine n) (match_osv floats machine o)
        (match_nvd-IsHalf machine n) (match_osv-IsHalf machine o)

  halves_isolated :
      (machine : String) (n n' o : Option (Call F)) (p p' q : Outcome (Part F))
      → IsHalf nvd n p
      → IsHalf nvd n' p'
      → IsHalf osv o q
      → (r r' : MatchResult F) → (p >>= λ a. q >>= λ b. done (joined floats machine a b)) ≡ done r
      → (p' >>= λ a. q >>= λ b. done (joined floats machine a b)) ≡ done r'
      → (from_source osv r.findings ≡ from_source osv r'.findings) × (r.osv_status ≡ r'.osv_status)
  halves_isolated machine n n' o reraised p' q hp hp' hq r r' e e' = cc
  halves_isolated machine n n' o (done p) reraised q hp hp' hq r r' e e' = cc
  halves_isolated machine n n' o (done p) (done p') reraised hp hp' hq r r' e e' = cc
  halves_isolated machine n n' o (done (p, ps)) (done (p', ps')) (done (q, qs)) hp hp' hq r r' e
        e' =
      let made : joined floats machine (p, ps) (q, qs) ≡ r = cc in
      let made' : joined floats machine (p', ps') (q, qs) ≡ r' = cc in
      ground (arith, joined_osv p q hp.0 hq.0, joined_osv p' q hp'.0 hq.0, made, made')

  -- Whatever the NVD client does, short of a programming error, the OSV findings and the OSV status
  -- are the same: an outage of one source costs nothing of the other.
  pub match_isolated :
      (machine : String) (n n' o : Option (Call F)) (r r' : MatchResult F)
      → match floats machine n o ≡ done r
      → match floats machine n' o ≡ done r'
      → (from_source osv r.findings ≡ from_source osv r'.findings) × (r.osv_status ≡ r'.osv_status)
  unfolding match
  match_isolated machine n n' o r r' e e' =
      halves_isolated machine n n' o (match_nvd floats machine n) (match_nvd floats machine n')
        (match_osv floats machine o) (match_nvd-IsHalf machine n) (match_nvd-IsHalf machine n')
        (match_osv-IsHalf machine o) r r' e e'
