-- ===== src/Feeds.antt =====
-- backend/app/services/enrichment.py: `FeedRefreshService`, which keeps copies of the KEV and EPSS feeds
-- and of the kernel feeds, with the tables and `record_feed_refresh` of backend/app/data/repository.py.
-- What a source answers is an argument, as is the digest (SHA-256 over the sorted records). A feed is
-- the rows of its catalogue with its row of `FeedRefresh`. Times are a clock's readings.
pub mod Refreshing
pub mod Enriching
pub mod Soundness
pub mod Histories
pub mod Outages
pub mod Settled
pub mod Reapplying
pub mod Skipping
pub mod Listing
mod Samples
use cvedeck.Prelude.{
  ℕ, ◌+◌, Bool, true, false, not, ◌&&◌, Option, none, some, List, [], ◌∷◌, ◌++◌, map, all, is_some,
  is_none, if◌then◌else◌, length, ltb,
}
use cvedeck.Prelude.Text.{Text, text_eq, codes}

-- `FeedStatus`
pub data FeedStatus : Type 0 where
  never_refreshed ok failed skipped : FeedStatus

-- `FeedRefresh`
pub record FeedRow : Type 0 where
  pub last_status : FeedStatus
  pub last_refreshed_at : Option ℕ
  pub last_attempted_at : ℕ
  pub record_count : ℕ
  pub error_detail : Option Text
  pub payload_digest : Option Text

pub record CachedFeed (A : Type 0) : Type 0 where
  pub catalogue : List A
  pub row : Option FeedRow

-- Before the first refresh
abbrev pub no_feed : {A : Type 0} → CachedFeed A
no_feed = record { catalogue = []; row = none }

-- `FeedRefreshOutcome`
pub record FeedRefreshOutcome : Type 0 where
  pub feed_name : Text
  pub status : FeedStatus
  pub record_count : ℕ
  pub error_detail : Option Text
  pub unchanged : Bool

-- `record_feed_refresh`, on success
abbrev pub kept_digest : Option Text → Option Text → Option Text
kept_digest (some given) before = some given
kept_digest none before = before

abbrev pub digest_of : Option FeedRow → Option Text
digest_of none = none
digest_of (some row) = row.payload_digest

unfoldable pub record_ok : ℕ → ℕ → Option Text → Option FeedRow → FeedRow
record_ok now count digest before = record {
  last_status = ok;
  last_refreshed_at = some now;
  last_attempted_at = now;
  record_count = count;
  error_detail = none;
  payload_digest = kept_digest digest (digest_of before);
}

-- and on any other status
unfoldable pub record_not_ok : ℕ → FeedStatus → Option Text → Option FeedRow → FeedRow
record_not_ok now status detail none = record {
  last_status = status;
  last_refreshed_at = none;
  last_attempted_at = now;
  record_count = 0;
  error_detail = detail;
  payload_digest = none;
}
record_not_ok now status detail (some row) = record row {
  last_status = status;
  last_attempted_at = now;
  error_detail = detail;
}

abbrev pub outcome_ok : Text → ℕ → Bool → FeedRefreshOutcome
outcome_ok name count unchanged = record {
  feed_name = name;
  status = ok;
  record_count = count;
  error_detail = none;
  unchanged = unchanged;
}

abbrev pub is_digest : Text → Option Text → Bool
is_digest digest none = false
is_digest digest (some stored) = text_eq stored digest

module _ {A : Type 0} where
  -- `_record_failure` and `_record_unconfigured`
  unfoldable pub record_feed_failure :
      ℕ → Text → Text → CachedFeed A → CachedFeed A × FeedRefreshOutcome
  record_feed_failure now name detail feed = (
    record feed { row = some (record_not_ok now failed (some detail) feed.row) },
    record {
      feed_name = name;
      status = failed;
      record_count = 0;
      error_detail = some detail;
      unchanged = false;
    },
  )

  unfoldable pub record_unconfigured : ℕ → Text → CachedFeed A → CachedFeed A × FeedRefreshOutcome
  record_unconfigured now name feed =
      let detail = some (name ++ codes " feed is not configured") in
      (
        record feed { row = some (record_not_ok now never_refreshed detail feed.row) },
        record {
          feed_name = name;
          status = never_refreshed;
          record_count = 0;
          error_detail = detail;
          unchanged = false;
        },
      )

  -- `_matches_cached_digest`, as a test
  unfoldable pub matches_cached_digest : Text → CachedFeed A → Bool
  matches_cached_digest digest feed =
      is_digest digest (digest_of feed.row) && ltb 0 (length feed.catalogue)

  -- A success with a catalogue: `replace_kev_entries` and its kin, or the one that is there
  abbrev pub refreshed :
      ℕ → Text → Option Text → Bool → List A → CachedFeed A → CachedFeed A × FeedRefreshOutcome
  refreshed now name digest unchanged records feed = (
    record { catalogue = records; row = some (record_ok now (length records) digest feed.row) },
    outcome_ok name (length records) unchanged,
  )

-- What a fetch comes back with: records, an exception with its text, or `defect`, which is one of `_PROGRAMMING_ERRORS`.
pub data FeedAnswer (A : Type 0) : Type 0 where
  records : List A → FeedAnswer A
  outage : Text → FeedAnswer A
  defect : FeedAnswer A

-- What is recorded of a catalogue that came back empty
unfoldable pub empty_detail : Text → Text
empty_detail name =
    if text_eq name (codes "kev")
    then codes "KEV feed returned no entries; keeping previous cache"
    else codes "EPSS feed returned no rows; keeping previous cache"

module _ {A : Type 0} (digest : List A → Text) where
  -- `_apply_kev` and `_apply_epss`
  unfoldable pub apply_records :
      ℕ → Text → List A → CachedFeed A → CachedFeed A × FeedRefreshOutcome
  apply_records now name [] feed = record_feed_failure now name (empty_detail name) feed
  apply_records now name (r ∷ rs) feed =
      if matches_cached_digest (digest (r ∷ rs)) feed
      then refreshed now name (some (digest (r ∷ rs))) true feed.catalogue feed
      else refreshed now name (some (digest (r ∷ rs))) false (r ∷ rs) feed

  -- `_fetch_kev` and `_fetch_epss`: the write that is pending; `none` where the defect is raised again
  unfoldable pub fetch_records :
      Text → Option (FeedAnswer A) → Option (ℕ → CachedFeed A → CachedFeed A × FeedRefreshOutcome)
  fetch_records name none = some λ now. record_unconfigured now name
  fetch_records name (some defect) = none
  fetch_records name (some (outage detail)) = some λ now. record_feed_failure now name detail
  fetch_records name (some (records rs)) = some λ now. apply_records now name rs

-- What a kernel feed's server answers: the file has not changed, or a table with its digest.
pub data KernelAnswer (K : Type 0) : Type 0 where
  not_modified : KernelAnswer K
  table : List K → Text → KernelAnswer K
  kernel_outage : Text → KernelAnswer K
  kernel_defect : KernelAnswer K

module _ {K : Type 0} where
  -- The digest to ask with: only where there is a table to keep
  unfoldable pub asked_digest : CachedFeed K → Option Text
  asked_digest feed = if ltb 0 (length feed.catalogue) then digest_of feed.row else none

  -- `_apply_ubuntu_kernel` and `_apply_kernel_feed`, behind `_fetch_ubuntu_kernel` and `_fetch_kernel_feed`
  unfoldable pub kernel_write :
      Text → CachedFeed K → KernelAnswer K → Option (ℕ → CachedFeed K × FeedRefreshOutcome)
  kernel_write name feed not_modified =
      some λ now. refreshed now name (asked_digest feed) true feed.catalogue feed
  kernel_write name feed (table entries digest) =
      some λ now. refreshed now name (some digest) false entries feed
  kernel_write name feed (kernel_outage detail) =
      some λ now. record_feed_failure now name detail feed
  kernel_write name feed kernel_defect = none
