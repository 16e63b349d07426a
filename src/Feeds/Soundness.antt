-- ===== src/Feeds/Soundness.antt =====
-- A feed counts as usable exactly where its catalogue has entries, over any history of refreshes.
use cvedeck.Prelude.{
  ℕ, ◌≡◌, refl, sym, ap, ◌∙◌, Bool, true, false, Option, none, some, List, [], ◌∷◌, length, ltb,
  All, arith, Bool-cases, inl, inr, ◌>>=◌,
}
use cvedeck.Prelude.Text.{Text, text_eq_iff}
use cvedeck.Feeds.{
  FeedStatus, failed, FeedRow, CachedFeed, FeedRefreshOutcome, digest_of, record_ok, record_not_ok,
  record_feed_failure, record_unconfigured, refreshed, is_digest, matches_cached_digest, FeedAnswer,
  records, outage, defect, apply_records, fetch_records, KernelAnswer, not_modified, table,
  kernel_outage, kernel_defect, asked_digest, kernel_write,
}
use cvedeck.Feeds.Refreshing.{
  KernelFeed, Pending, fetch_configured, apply_pending, kernel_pending, apply_kernel,
  refresh_kernels,
}
use cvedeck.Feeds.Enriching.{feed_health, usable}

-- The row of a feed says what its catalogue has.
abbrev pub RowIsOf : {A : Type 0} → List A → Option FeedRow → Type 0
RowIsOf catalogue none = length catalogue ≡ 0
RowIsOf catalogue (some row) =
    (row.record_count ≡ length catalogue) × (row.last_refreshed_at ≡ none → length catalogue ≡ 0)

abbrev pub IsSound : {A : Type 0} → CachedFeed A → Type 0
IsSound feed = RowIsOf feed.catalogue feed.row

-- Its digest is that of its catalogue.
abbrev pub HasDigest : {A : Type 0} → (List A → Text) → CachedFeed A → Type 0
HasDigest digest feed = (d : Text) → digest_of feed.row ≡ some d → digest feed.catalogue ≡ d

-- What holds of a result, where there is one
abbrev pub IfAny : {X : Type 0} → (X → Type 0) → Option X → Type 0
IfAny P none = Unit
IfAny P (some x) = P x

pub IfAny-bind :
    {X Y : Type 0} (P : X → Type 0) (Q : Y → Type 0) (o : Option X) (f : X → Option Y)
    → IfAny P o
    → ((x : X) → P x → IfAny Q (f x))
    → IfAny Q (o >>= f)
IfAny-bind P Q none f h k = tt
IfAny-bind P Q (some x) f h k = k x h

module _ {A : Type 0} where
  pub usable-feed_health :
      (max_age now : ℕ) (feed : CachedFeed A)
      → IsSound feed
      → usable (feed_health max_age now feed) ≡ ltb 0 (length feed.catalogue)
  unfolding usable feed_health
  usable-feed_health max_age now feed h = ground arith

  not_ok-IsSound :
      (now : ℕ) (status : FeedStatus) (detail : Option Text) (catalogue : List A)
      (row : Option FeedRow)
      → RowIsOf catalogue row
      → RowIsOf catalogue (some (record_not_ok now status detail row))
  unfolding record_not_ok
  not_ok-IsSound now status detail catalogue none h = (sym h, λ _. h)
  not_ok-IsSound now status detail catalogue (some row) h = h

  refreshed-IsSound :
      (now : ℕ) (name : Text) (digest : Option Text) (unchanged : Bool) (rs : List A)
      (feed : CachedFeed A)
      → IsSound (refreshed now name digest unchanged rs feed).0
  unfolding record_ok
  refreshed-IsSound now name digest unchanged rs feed = (refl, λ e. cc)

digest-not_ok :
    (now : ℕ) (status : FeedStatus) (detail : Option Text) (row : Option FeedRow)
    → digest_of (some (record_not_ok now status detail row)) ≡ digest_of row
unfolding record_not_ok
digest-not_ok now status detail none = refl
digest-not_ok now status detail (some row) = refl

some_of_digest : (d : Text) (o : Option Text) → is_digest d o ≡ true → o ≡ some d
some_of_digest d none h = ground arith
some_of_digest d (some t) h = ap some ((text_eq_iff t d).0 h)

module _ {A : Type 0} (digest : List A → Text) where
  -- Both together, of a write
  abbrev pub IsGood : CachedFeed A → Type 0
  IsGood feed = IsSound feed × HasDigest digest feed

  failure-IsGood :
      (now : ℕ) (name detail : Text) (feed : CachedFeed A)
      → IsGood feed
      → IsGood (record_feed_failure now name detail feed).0
  unfolding record_feed_failure
  failure-IsGood now name detail feed (h, k) = (
    not_ok-IsSound now _ _ feed.catalogue feed.row h,
    λ d e. k d (sym (digest-not_ok now _ _ feed.row) ∙ e),
  )

  unconfigured-IsGood :
      (now : ℕ) (name : Text) (feed : CachedFeed A)
      → IsGood feed
      → IsGood (record_unconfigured now name feed).0
  unfolding record_unconfigured
  unconfigured-IsGood now name feed (h, k) = (
    not_ok-IsSound now _ _ feed.catalogue feed.row h,
    λ d e. k d (sym (digest-not_ok now _ _ feed.row) ∙ e),
  )

  pub matched :
      (d : Text) (feed : CachedFeed A)
      → matches_cached_digest d feed ≡ true
      → digest_of feed.row ≡ some d
  unfolding matches_cached_digest
  matched d feed e = some_of_digest d (digest_of feed.row) (ground arith)

  apply-IsGood :
      (now : ℕ) (name : Text) (rs : List A) (feed : CachedFeed A)
      → IsGood feed
      → IsGood (apply_records digest now name rs feed).0
  unfolding apply_records record_ok
  apply-IsGood now name [] feed h = failure-IsGood now name _ feed h
  apply-IsGood now name (r ∷ rs) feed h =
      elim (Bool-cases (matches_cached_digest (digest (r ∷ rs)) feed)) [
        | inl e ↦ rw e (
          refreshed-IsSound now name (some (digest (r ∷ rs))) true feed.catalogue feed,
          λ d same. h.1 (digest (r ∷ rs)) (matched (digest (r ∷ rs)) feed e) ∙ ground arith,
        )
        | inr e ↦ rw e (
          refreshed-IsSound now name (some (digest (r ∷ rs))) false (r ∷ rs) feed,
          λ d same. ground arith,
        )
      ]

  abbrev pub KeepsGood : Pending A → Type 0
  KeepsGood none = Unit
  KeepsGood (some write) = (now : ℕ) (feed : CachedFeed A) → IsGood feed → IsGood (write now feed).0

  pub fetch-KeepsGood :
      (name : Text) (answer : Option (FeedAnswer A))
      → IfAny KeepsGood (fetch_configured digest name answer)
  unfolding fetch_configured fetch_records
  fetch-KeepsGood name none = tt
  fetch-KeepsGood name (some defect) = tt
  fetch-KeepsGood name (some (outage detail)) = λ now feed h. failure-IsGood now name detail feed h
  fetch-KeepsGood name (some (records rs)) = λ now feed h. apply-IsGood now name rs feed h

  pub pending-IsGood :
      (now : ℕ) (write : Pending A) (feed : CachedFeed A)
      → KeepsGood write
      → IsGood feed
      → IsGood (apply_pending now write feed).0
  pending-IsGood now none feed k h = h
  pending-IsGood now (some write) feed k h = k now feed h

module _ {K : Type 0} where
  -- The write of a kernel feed leaves a sound feed.
  abbrev WritesSound : Option (ℕ → CachedFeed K × FeedRefreshOutcome) → Type 0
  WritesSound none = Unit
  WritesSound (some write) = (now : ℕ) → IsSound (write now).0

  kernel-WritesSound :
      (k : KernelFeed K) (fetch : Option (Option Text → KernelAnswer K))
      → IsSound k.feed
      → IfAny WritesSound (kernel_pending k fetch)
  unfolding kernel_write record_feed_failure
  kernel-WritesSound k none h = tt
  kernel-WritesSound k (some fetch) h = answered (fetch (asked_digest k.feed))
    where
      answered :
          (answer : KernelAnswer K)
          → IfAny WritesSound (elim (kernel_write k.name k.feed answer) [
            | none ↦ none
            | some write ↦ some (some write)
          ])
      answered not_modified =
          λ now. refreshed-IsSound now k.name (asked_digest k.feed) true k.feed.catalogue k.feed
      answered (table entries digest) =
          λ now. refreshed-IsSound now k.name (some digest) false entries k.feed
      answered (kernel_outage detail) =
          λ now. not_ok-IsSound now failed (some detail) k.feed.catalogue k.feed.row h
      answered kernel_defect = tt

  abbrev pub AllSound : List (KernelFeed K) → Type 0
  AllSound = All λ k. IsSound k.feed

  apply_kernel-IsSound :
      (now : ℕ) (k : KernelFeed K) (write : Option (ℕ → CachedFeed K × FeedRefreshOutcome))
      → WritesSound write
      → IsSound k.feed
      → IsSound (apply_kernel now k write).0.feed
  apply_kernel-IsSound now k none w h = h
  apply_kernel-IsSound now k (some write) w h = w now

  pub kernels-AllSound :
      (now : ℕ) (sources : Text → Option (Option Text → KernelAnswer K)) (ks : List (KernelFeed K))
      → AllSound ks
      → IfAny (λ r. AllSound r.0) (refresh_kernels now sources ks)
  unfolding refresh_kernels
  kernels-AllSound now sources [] h = tt
  kernels-AllSound now sources (k ∷ ks) (h, hs) =
      IfAny-bind _ _ (kernel_pending k (sources k.name)) _ (kernel-WritesSound k (sources k.name) h)
        λ write w.
          IfAny-bind _ _ (refresh_kernels now sources ks) _ (kernels-AllSound now sources ks hs)
            λ rest r. (apply_kernel-IsSound now k write w h, r)
