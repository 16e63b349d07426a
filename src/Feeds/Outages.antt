-- ===== src/Feeds/Outages.antt =====
-- What a refresh does to a feed that does not answer, and to one that answers with what is cached.
use cvedeck.Prelude.{
  ℕ, ◌≡◌, refl, Bool, true, false, Option, none, some, List, [], ◌∷◌, length, ltb, arith,
  Bool-cases, inl, inr,
}
use cvedeck.Prelude.Text.{Text, codes}
use cvedeck.Feeds.{
  FeedStatus, ok, failed, FeedRow, CachedFeed, digest_of, record_ok, record_not_ok,
  record_feed_failure, matches_cached_digest, FeedAnswer, records, outage, defect, apply_records,
  fetch_records,
}
use cvedeck.Feeds.Refreshing.{
  KevEntry, EpssScore, Store, Sources, fetch_configured, apply_pending, refresh_kernels,
  refresh_all,
}
use cvedeck.Feeds.Enriching.{feed_health, usable}
use cvedeck.Feeds.Soundness.{IsGood, matched, IfAny, IfAny-bind}

-- No source, no answer, or an empty one
abbrev pub is_silent : {A : Type 0} → Option (FeedAnswer A) → Bool
is_silent none = true
is_silent (some (outage detail)) = true
is_silent (some (records [])) = true
is_silent _ = false

abbrev pub refreshed_at : Option FeedRow → Option ℕ
refreshed_at none = none
refreshed_at (some row) = row.last_refreshed_at

-- The data that a feed gives, and its age
pub record SameData {A : Type 0} (feed before : CachedFeed A) : Type 0 where
  pub catalogue : feed.catalogue ≡ before.catalogue
  pub digest : digest_of feed.row ≡ digest_of before.row
  pub age : refreshed_at feed.row ≡ refreshed_at before.row
  pub still_usable :
      (max_age now : ℕ)
      → usable (feed_health max_age now feed) ≡ usable (feed_health max_age now before)

module _ {A : Type 0} where
  not_ok-SameData :
      (now : ℕ) (status : FeedStatus) (detail : Option Text) (catalogue : List A)
      (row : Option FeedRow)
      → SameData
          (record { catalogue = catalogue; row = some (record_not_ok now status detail row) })
          (record { catalogue = catalogue; row = row })
  unfolding record_not_ok usable feed_health
  not_ok-SameData now status detail catalogue none = record {
    catalogue = refl;
    digest = refl;
    age = refl;
    still_usable = λ max_age now'. refl;
  }
  not_ok-SameData now status detail catalogue (some row) = record {
    catalogue = refl;
    digest = refl;
    age = refl;
    still_usable = λ max_age now'. refl;
  }

  same_data : (feed : CachedFeed A) → SameData feed feed
  same_data feed = record {
    catalogue = refl;
    digest = refl;
    age = refl;
    still_usable = λ max_age now. refl;
  }

  silent-SameData :
      (digest : List A → Text) (name : Text) (answer : Option (FeedAnswer A))
      → is_silent answer ≡ true
      → IfAny
          (λ write.
            (now : ℕ) (feed : CachedFeed A) → SameData (apply_pending now write feed).0 feed)
          (fetch_configured digest name answer)
  unfolding fetch_configured fetch_records apply_records record_feed_failure
  silent-SameData digest name none h = λ now feed. same_data feed
  silent-SameData digest name (some defect) h = tt
  silent-SameData digest name (some (outage detail)) h =
      λ now feed. not_ok-SameData now failed (some detail) feed.catalogue feed.row
  silent-SameData digest name (some (records [])) h =
      λ now feed. not_ok-SameData now failed _ feed.catalogue feed.row
  silent-SameData digest name (some (records (r ∷ rs))) h = ground arith

  pub matched_nonempty :
      (d : Text) (feed : CachedFeed A)
      → matches_cached_digest d feed ≡ true
      → ltb 0 (length feed.catalogue) ≡ true
  unfolding matches_cached_digest
  matched_nonempty d feed e = ground arith

  -- A refresh with records, of a feed whose kept digest is that of its catalogue: it is a success that leaves a usable feed, whose catalogue has the digest of the download, whether it is rewritten or left.
  pub apply_records-digest :
      (digest : List A → Text) (now : ℕ) (name : Text) (r : A) (rs : List A) (feed : CachedFeed A)
      → IsGood digest feed
      → let after = apply_records digest now name (r ∷ rs) feed in
        (digest after.0.catalogue ≡ digest (r ∷ rs))
        × (after.1.status ≡ ok)
        × (refreshed_at after.0.row ≡ some now)
        × ((max_age later : ℕ) → usable (feed_health max_age later after.0) ≡ true)
  unfolding apply_records record_ok usable feed_health
  apply_records-digest digest now name r rs feed good =
      elim (Bool-cases (matches_cached_digest (digest (r ∷ rs)) feed)) [
        | inl e ↦ rw e (
          good.1 (digest (r ∷ rs)) (matched digest (digest (r ∷ rs)) feed e),
          refl,
          refl,
          λ max_age later. matched_nonempty (digest (r ∷ rs)) feed e,
        )
        | inr e ↦ rw e (refl, refl, refl, λ max_age later. ground arith)
      ]

pub always : {X : Type 0} (o : Option X) → IfAny (λ x. Unit) o
always none = tt
always (some x) = tt

module _ {S K : Type 0} (kev_digest : List KevEntry → Text)
    (epss_digest : List (EpssScore S) → Text) (now : ℕ) (sources : Sources S K)
    (store : Store S K) where
  -- Where KEV is down, not configured or empty, a refresh keeps its catalogue, digest and age, and it is usable where it was before, whatever the other feeds do.
  pub refresh_all-SameData :
      is_silent sources.kev ≡ true
      → IfAny
          (λ r. SameData r.0.kev store.kev)
          (refresh_all kev_digest epss_digest now sources store)
  unfolding refresh_all
  refresh_all-SameData silent =
      IfAny-bind _ _ (fetch_configured kev_digest (codes "kev") sources.kev) _
        (silent-SameData kev_digest _ sources.kev silent)
        λ kev one.
          IfAny-bind (λ _. Unit) _ (fetch_configured epss_digest (codes "epss") sources.epss) _
            (always _)
            λ epss _.
              IfAny-bind (λ _. Unit) _ (refresh_kernels now sources.kernels store.kernels) _
                (always _) λ kernels _. one now store.kev
