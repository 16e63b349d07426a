-- ===== src/Feeds/Refreshing.antt =====
-- `refresh_all` of backend/app/services/enrichment.py: every fetch comes before any write.
use cvedeck.Prelude.{Bool, Option, none, some, List, [], ◌∷◌, ◌++◌, ℕ, ◌>>=◌, map}
use cvedeck.Prelude.Text.{Text, codes}
use cvedeck.Feeds.{
  CachedFeed, no_feed, FeedRefreshOutcome, FeedAnswer, fetch_records, KernelAnswer, asked_digest,
  kernel_write,
}

-- `KevEntry` and `EpssScore`
pub record KevEntry : Type 0 where
  pub cve_id : Text
  pub vendor_project : Option Text
  pub product : Option Text
  pub vulnerability_name : Option Text
  pub date_added : Option Text
  pub due_date : Option Text
  pub known_ransomware_use : Bool
  pub notes : Option Text

pub record EpssScore (S : Type 0) : Type 0 where
  pub cve_id : Text
  pub score : S
  pub percentile : S

-- A kernel feed with its name, and the server that answers for it, given the digest
pub record KernelFeed (K : Type 0) : Type 0 where
  pub name : Text
  pub feed : CachedFeed K

pub record Store (S K : Type 0) : Type 0 where
  pub kev : CachedFeed KevEntry
  pub epss : CachedFeed (EpssScore S)
  pub kernels : List (KernelFeed K)

-- Before the first refresh, with the kernel feeds that the fleet needs
abbrev pub empty_store : {S K : Type 0} → List Text → Store S K
empty_store names = record {
  kev = no_feed;
  epss = no_feed;
  kernels = map (λ n. record { name = n; feed = no_feed }) names;
}

pub record Sources (S K : Type 0) : Type 0 where
  pub kev : Option (FeedAnswer KevEntry)
  pub epss : Option (FeedAnswer (EpssScore S))
  pub kernels : Text → Option (Option Text → KernelAnswer K)

-- A source that is there is fetched from; its write is pending. `none` is a defect.
abbrev pub Pending : Type 0 → Type 0
Pending A = Option (ℕ → CachedFeed A → CachedFeed A × FeedRefreshOutcome)

module _ {A : Type 0} where
  unfoldable pub fetch_configured :
      (List A → Text) → Text → Option (FeedAnswer A) → Option (Pending A)
  fetch_configured digest name none = some none
  fetch_configured digest name (some answer) = elim (fetch_records digest name (some answer)) [
    | none ↦ none
    | some write ↦ some (some write)
  ]

  abbrev pub apply_pending : ℕ → Pending A → CachedFeed A → CachedFeed A × List FeedRefreshOutcome
  apply_pending now none feed = (feed, [])
  apply_pending now (some write) feed =
      let (after, outcome) = write now feed in (after, outcome ∷ [])

module _ {K : Type 0} where
  abbrev pub kernel_pending :
      KernelFeed K
      → Option (Option Text → KernelAnswer K)
      → Option (Option (ℕ → CachedFeed K × FeedRefreshOutcome))
  kernel_pending k none = some none
  kernel_pending k (some fetch) = elim (kernel_write k.name k.feed (fetch (asked_digest k.feed))) [
    | none ↦ none
    | some write ↦ some (some write)
  ]

  abbrev pub apply_kernel :
      ℕ
      → KernelFeed K
      → Option (ℕ → CachedFeed K × FeedRefreshOutcome)
      → KernelFeed K × List FeedRefreshOutcome
  apply_kernel now k none = (k, [])
  apply_kernel now k (some write) =
      let (after, outcome) = write now in (record k { feed = after }, outcome ∷ [])

  -- `_fetch_ubuntu_kernels` and `_fetch_kernel_feeds`, then what they leave pending
  unfoldable pub refresh_kernels :
      ℕ
      → (Text → Option (Option Text → KernelAnswer K))
      → List (KernelFeed K)
      → Option (List (KernelFeed K) × List FeedRefreshOutcome)
  refresh_kernels now sources [] = some ([], [])
  refresh_kernels now sources (k ∷ ks) = do
    write ← kernel_pending k (sources k.name)
    rest ← refresh_kernels now sources ks
    let one = apply_kernel now k write
    some (one.0 ∷ rest.0, one.1 ++ rest.1)

module _ {S K : Type 0} (kev_digest : List KevEntry → Text)
    (epss_digest : List (EpssScore S) → Text) where
  -- `refresh_all`: every fetch, then every write; `none` where a fetch raises a defect
  unfoldable pub refresh_all :
      ℕ → Sources S K → Store S K → Option (Store S K × List FeedRefreshOutcome)
  refresh_all now sources store = do
    kev ← fetch_configured kev_digest (codes "kev") sources.kev
    epss ← fetch_configured epss_digest (codes "epss") sources.epss
    kernels ← refresh_kernels now sources.kernels store.kernels
    let one = apply_pending now kev store.kev
    let two = apply_pending now epss store.epss
    some (record { kev = one.0; epss = two.0; kernels = kernels.0 }, one.1 ++ (two.1 ++ kernels.1))
