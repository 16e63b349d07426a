-- ===== src/Feeds/Skipping.antt =====
-- `refresh_feeds_and_reapply` leaves the reapplication out after a refresh that changed nothing.
use cvedeck.Prelude.{
  ℕ, ◌≡◌, refl, sym, ◌∙◌, Bool, true, false, ◌&&◌, Option, none, some, List, [], ◌∷◌, ◌++◌, all,
  if◌then◌else◌, arith, Bool-cases, inl, inr,
}
use cvedeck.Prelude.Text.{Text, codes}
use cvedeck.Findings.{Input, Stored}
use cvedeck.Feeds.{
  CachedFeed, FeedRefreshOutcome, record_feed_failure, refreshed, matches_cached_digest, FeedAnswer,
  records, outage, defect, apply_records, fetch_records, record_ok,
}
use cvedeck.Feeds.Refreshing.{
  KevEntry, EpssScore, Store, Sources, Pending, fetch_configured, apply_pending, refresh_kernels,
  refresh_all,
}
use cvedeck.Feeds.Enriching.{
  feed_health, usable, intel_of, Scores, reapply_to_stored, nothing_changed,
  refresh_feeds_and_reapply,
}
use cvedeck.Feeds.Soundness.{IsSound, IfAny, IfAny-bind, usable-feed_health}
use cvedeck.Feeds.Outages.{always, matched_nonempty}
use cvedeck.Feeds.Settled.{AllSettled, reapply_settled}

abbrev is_unchanged : FeedRefreshOutcome → Bool
is_unchanged o = o.unchanged

module _ {A : Type 0} where
  -- The catalogue, and whether it is usable
  abbrev Same : CachedFeed A → CachedFeed A → Type 0
  Same feed before =
      (feed.catalogue ≡ before.catalogue)
      × ((max_age now : ℕ)
          → usable (feed_health max_age now feed) ≡ usable (feed_health max_age now before))

  abbrev SameIfUnchanged : Pending A → Type 0
  SameIfUnchanged write =
      (now : ℕ) (feed : CachedFeed A)
      → IsSound feed
      → all is_unchanged (apply_pending now write feed).1 ≡ true
      → Same (apply_pending now write feed).0 feed

  matched_usable :
      (d : Text) (feed : CachedFeed A)
      → IsSound feed
      → matches_cached_digest d feed ≡ true
      → (max_age now : ℕ) → usable (feed_health max_age now feed) ≡ true
  unfolding matches_cached_digest
  matched_usable d feed h e max_age now = usable-feed_health max_age now feed h ∙ ground arith

  -- Both branches behind the comparison of the digests
  branch-Same :
      (b : Bool) (d name : Text) (rs : List A) (now : ℕ) (feed : CachedFeed A)
      → IsSound feed
      → matches_cached_digest d feed ≡ b
      → (if b
          then refreshed now name (some d) true feed.catalogue feed
          else refreshed now name (some d) false rs feed).1.unchanged
        ≡ true
      → Same
          (if b
            then refreshed now name (some d) true feed.catalogue feed
            else refreshed now name (some d) false rs feed).0
          feed
  unfolding usable feed_health record_ok
  branch-Same true d name rs now feed h m e = (
    refl,
    λ max_age now'. matched_nonempty d feed m ∙ sym (matched_usable d feed h m max_age now'),
  )
  branch-Same false d name rs now feed h m e = ground arith

  apply-Same :
      (digest : List A → Text) (name : Text) (rs : List A) (now : ℕ) (feed : CachedFeed A)
      → IsSound feed
      → (apply_records digest now name rs feed).1.unchanged ≡ true
      → Same (apply_records digest now name rs feed).0 feed
  unfolding apply_records record_feed_failure
  apply-Same digest name [] now feed h e = ground arith
  apply-Same digest name (r ∷ rs) now feed h e =
      branch-Same _ (digest (r ∷ rs)) name (r ∷ rs) now feed h refl e

  fetch-Same :
      (digest : List A → Text) (name : Text) (answer : Option (FeedAnswer A))
      → IfAny SameIfUnchanged (fetch_configured digest name answer)
  unfolding fetch_configured fetch_records record_feed_failure
  fetch-Same digest name none = λ now feed h e. (refl, λ max_age now'. refl)
  fetch-Same digest name (some defect) = tt
  fetch-Same digest name (some (outage detail)) = λ now feed h e. ground arith
  fetch-Same digest name (some (records rs)) =
      λ now feed h e. apply-Same digest name rs now feed h (ground arith)

all-append_eq :
    (xs ys : List FeedRefreshOutcome)
    → all is_unchanged (xs ++ ys) ≡ (all is_unchanged xs && all is_unchanged ys)
all-append_eq [] ys = refl
all-append_eq (x ∷ xs) ys = ground (arith, all-append_eq xs ys)

nothing_changed-all :
    (os : List FeedRefreshOutcome) → nothing_changed os ≡ true → all is_unchanged os ≡ true
nothing_changed-all [] h = refl
nothing_changed-all (o ∷ os) h = h

module _ {S K : Type 0} where
  abbrev SameStore : Store S K → Store S K → Type 0
  SameStore after before = Same after.kev before.kev × Same after.epss before.epss

  module _ (kev_digest : List KevEntry → Text) (epss_digest : List (EpssScore S) → Text) (now : ℕ)
      (sources : Sources S K) (store : Store S K) where
    unchanged-SameStore :
        IsSound store.kev
        → IsSound store.epss
        → IfAny
            (λ r. nothing_changed r.1 ≡ true → SameStore r.0 store)
            (refresh_all kev_digest epss_digest now sources store)
    unfolding refresh_all
    unchanged-SameStore h k =
        IfAny-bind _ _ (fetch_configured kev_digest (codes "kev") sources.kev) _
          (fetch-Same kev_digest _ sources.kev)
          λ kev one.
            IfAny-bind _ _ (fetch_configured epss_digest (codes "epss") sources.epss) _
              (fetch-Same epss_digest _ sources.epss)
              λ epss two.
                IfAny-bind (λ _. Unit) _ (refresh_kernels now sources.kernels store.kernels) _
                  (always _)
                  λ kernels _ quiet.
                    let a = (apply_pending now kev store.kev).1 in
                    let b = (apply_pending now epss store.epss).1 in
                    let every = nothing_changed-all (a ++ (b ++ kernels.1)) quiet in
                    let first = all-append_eq a (b ++ kernels.1) in
                    let second = all-append_eq b kernels.1 in
                    (one now store.kev h (ground arith), two now store.epss k (ground arith))

  same_intel_of :
      (max_age now : ℕ) (after before : Store S K) (f : Input S)
      → SameStore after before
      → intel_of max_age now after f ≡ intel_of max_age now before f
  same_intel_of max_age now after before f ((c, u), (c', u')) =
      rw (u max_age now, u' max_age now, c, c') refl

module _ (scores : Scores) {K : Type 0} where
  open scores use {S}

  still_settled :
      (max_age now : ℕ) (after before : Store S K)
      → SameStore after before
      → (rows : List (Stored S)) → AllSettled scores max_age now before rows
      → AllSettled scores max_age now after rows
  still_settled max_age now after before same [] h = tt
  still_settled max_age now after before same (row ∷ rows) (h, hs) = (
    same_intel_of max_age now after before row.input same ∙ h,
    still_settled max_age now after before same rows hs,
  )

  -- What `refresh_feeds_and_reapply` would be without its shortcut
  abbrev pub always_reapplied :
      ℕ
      → ℕ
      → List (Stored S)
      → Option (Store S K × List FeedRefreshOutcome)
      → Option (Store S K × List (Stored S) × List FeedRefreshOutcome × ℕ)
  always_reapplied max_age now rows none = none
  always_reapplied max_age now rows (some (after, outcomes)) =
      let reapplied = reapply_to_stored scores max_age now after rows in
      some (after, reapplied.0, outcomes, reapplied.1)

  module _ (kev_digest : List KevEntry → Text) (epss_digest : List (EpssScore S) → Text) where
    -- Where the rows of both feeds count their catalogues, and the stored findings agree with the feeds before the refresh: leaving the reapplication out, as is done where every outcome is unchanged, gives what reapplying gives.
    pub refresh_feeds_and_reapply-always :
        (max_age now : ℕ) (sources : Sources S K) (store : Store S K) (rows : List (Stored S))
        → IsSound store.kev
        → IsSound store.epss
        → AllSettled scores max_age now store rows
        → refresh_feeds_and_reapply scores kev_digest epss_digest false max_age now sources store
            rows
          ≡ always_reapplied max_age now rows (refresh_all kev_digest epss_digest now sources store)
    unfolding refresh_feeds_and_reapply
    refresh_feeds_and_reapply-always max_age now sources store rows h k settled =
        with_result (refresh_all kev_digest epss_digest now sources store)
          (unchanged-SameStore kev_digest epss_digest now sources store h k)
      where
        with_result :
            (r : Option (Store S K × List FeedRefreshOutcome))
            → IfAny (λ x. nothing_changed x.1 ≡ true → SameStore x.0 store) r
            → elim r [
              | none ↦ none
              | some (after, outcomes) ↦
                  let reapplied = reapply_to_stored scores max_age now after rows in
                  if nothing_changed outcomes
                  then some (after, rows, outcomes, 0)
                  else some (after, reapplied.0, outcomes, reapplied.1)
            ]
              ≡ always_reapplied max_age now rows r
        with_result none q = refl
        with_result (some (after, outcomes)) q = elim (Bool-cases (nothing_changed outcomes)) [
          | inl e ↦
              rw
                (
                  e,
                  reapply_settled scores max_age now after rows
                      (still_settled max_age now after store (q e) rows settled),
                )
                refl
          | inr e ↦ rw e refl
        ]
