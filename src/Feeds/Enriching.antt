-- ===== src/Feeds/Enriching.antt =====
-- `FindingEnricher` of backend/app/services/enrichment.py, and `refresh_feeds_and_reapply`. `S` are the
-- scores of EPSS with `!=` on them.
use cvedeck.Prelude.{
  ℕ, ◌+◌, ◌≡◌, ◌↔◌, Bool, true, false, not, ◌&&◌, Option, none, some, List, [], ◌∷◌, map, all,
  is_some, if◌then◌else◌, ltb, suc,
}
use cvedeck.Prelude.Text.{Text, text_eq, codes}
use cvedeck.Releases.Names.{upper_char}
use cvedeck.Findings.{Intel, Input, Stored, optional_eq}
use cvedeck.Feeds.{FeedStatus, never_refreshed, skipped, CachedFeed, FeedRefreshOutcome}
use cvedeck.Feeds.Refreshing.{KevEntry, EpssScore, Store, Sources, refresh_all}

-- `FeedHealth`, without the feed's name
pub record FeedHealth : Type 0 where
  pub status : FeedStatus
  pub last_refreshed_at : Option ℕ
  pub last_attempted_at : Option ℕ
  pub record_count : ℕ
  pub error_detail : Option Text
  pub stale : Bool

-- `_is_stale`
unfoldable pub is_stale_at : ℕ → ℕ → Option ℕ → Bool
is_stale_at max_age now none = true
is_stale_at max_age now (some at) = ltb (at + max_age) now

-- `feed_health`
unfoldable pub feed_health : {A : Type 0} → ℕ → ℕ → CachedFeed A → FeedHealth
feed_health max_age now feed = elim feed.row [
  | none ↦ record {
    status = never_refreshed;
    last_refreshed_at = none;
    last_attempted_at = none;
    record_count = 0;
    error_detail = none;
    stale = true;
  }
  | some row ↦ record {
    status = row.last_status;
    last_refreshed_at = row.last_refreshed_at;
    last_attempted_at = some row.last_attempted_at;
    record_count = row.record_count;
    error_detail = row.error_detail;
    stale = is_stale_at max_age now row.last_refreshed_at;
  }
]

-- `usable`
unfoldable pub usable : FeedHealth → Bool
usable health = is_some health.last_refreshed_at && ltb 0 health.record_count

-- `s.upper()`
abbrev pub upper : Text → Text
upper = map upper_char

-- The entry of a catalogue for the identifier of a finding: `get_kev_map`, then `kev_map.get(key)`
unfoldable pub kev_entry : Text → List KevEntry → Option KevEntry
kev_entry key [] = none
kev_entry key (e ∷ es) =
    let rest = kev_entry key es in if text_eq e.cve_id key then some e else rest

unfoldable pub epss_entry : {S : Type 0} → Text → List (EpssScore S) → Option (EpssScore S)
epss_entry key [] = none
epss_entry key (e ∷ es) =
    let rest = epss_entry key es in if text_eq e.cve_id key then some e else rest

-- No identifier is asked for where a finding has none.
abbrev pub look_up : {A : Type 0} → Text → (Text → Option A) → Option A
look_up [] look = none
look_up (c ∷ cve) look = look (upper (c ∷ cve))

-- `updates`, applied
abbrev pub due_of : Option KevEntry → Option Text
due_of none = none
due_of (some e) = e.due_date

module _ {S : Type 0} where
  abbrev pub with_kev : Bool → Option KevEntry → Intel S → Intel S
  with_kev false entry intel = intel
  with_kev true entry intel = record intel {
    kev_listed = some (is_some entry);
    kev_due_date = due_of entry;
  }

  abbrev pub with_epss : Bool → Option (EpssScore S) → Intel S → Intel S
  with_epss true (some e) intel = record intel {
    epss_score = some e.score;
    epss_percentile = some e.percentile;
  }
  with_epss _ _ intel = intel

  -- What the two feeds make of the columns of one finding
  unfoldable pub updated :
      Bool → Bool → List KevEntry → List (EpssScore S) → Text → Intel S → Intel S
  updated kev_usable epss_usable kevs scores cve intel =
      with_epss epss_usable (look_up cve λ key. epss_entry key scores)
        (with_kev kev_usable (look_up cve λ key. kev_entry key kevs) intel)

  abbrev pub with_intel : Input S → Intel S → Input S
  with_intel f intel = record f { intel = intel }

module _ {S K : Type 0} (max_age now : ℕ) (store : Store S K) where
  abbrev pub kev_usable : Bool
  kev_usable = usable (feed_health max_age now store.kev)

  abbrev pub epss_usable : Bool
  epss_usable = usable (feed_health max_age now store.epss)

  abbrev pub intel_of : Input S → Intel S
  intel_of f =
      updated kev_usable epss_usable store.kev.catalogue store.epss.catalogue f.cve_id f.intel

  -- `enrich`
  unfoldable pub enrich_findings : List (Input S) → List (Input S)
  enrich_findings [] = []
  enrich_findings (f ∷ fs) =
      if not kev_usable && not epss_usable
      then f ∷ fs
      else map (λ g. with_intel g (intel_of g)) (f ∷ fs)

abbrev pub skipped_outcome : Text → FeedRefreshOutcome
skipped_outcome name = record {
  feed_name = name;
  status = skipped;
  record_count = 0;
  error_detail = some (codes "demo mode: the seeded intel is a fixture and is never refreshed");
  unchanged = false;
}

abbrev pub nothing_changed : List FeedRefreshOutcome → Bool
nothing_changed [] = false
nothing_changed (o ∷ os) = all (λ x. x.unchanged) (o ∷ os)

-- `!=` on the columns, with `!=` on scores
pub record Scores : Type 1 where
  pub S : Type 0
  pub same : S → S → Bool
  pub same_iff : (x y : S) → (same x y ≡ true) ↔ (x ≡ y)

module _ (scores : Scores) where
  open scores use {S, same}

  abbrev pub same_optional : Option S → Option S → Bool
  same_optional none none = true
  same_optional (some x) (some y) = same x y
  same_optional _ _ = false

  abbrev pub same_flag : Option Bool → Option Bool → Bool
  same_flag none none = true
  same_flag (some true) (some true) = true
  same_flag (some false) (some false) = true
  same_flag _ _ = false

  -- `setattr` of one column where its value differs; the flag is `touched`.
  abbrev pub set_kev_listed : Option Bool → Intel S × Bool → Intel S × Bool
  set_kev_listed value (intel, touched) =
      if same_flag intel.kev_listed value
      then (intel, touched)
      else (record intel { kev_listed = value }, true)

  abbrev pub set_kev_due_date : Option Text → Intel S × Bool → Intel S × Bool
  set_kev_due_date value (intel, touched) =
      if optional_eq intel.kev_due_date value
      then (intel, touched)
      else (record intel { kev_due_date = value }, true)

  abbrev pub set_epss_score : Option S → Intel S × Bool → Intel S × Bool
  set_epss_score value (intel, touched) =
      if same_optional intel.epss_score value
      then (intel, touched)
      else (record intel { epss_score = value }, true)

  abbrev pub set_epss_percentile : Option S → Intel S × Bool → Intel S × Bool
  set_epss_percentile value (intel, touched) =
      if same_optional intel.epss_percentile value
      then (intel, touched)
      else (record intel { epss_percentile = value }, true)

  -- The `updates` of `reapply_to_stored`, by feed, in the order in which they are assigned
  abbrev pub reapply_kev : Bool → Option KevEntry → Intel S × Bool → Intel S × Bool
  reapply_kev false kev columns = columns
  reapply_kev true none columns = set_kev_due_date none (set_kev_listed (some false) columns)
  reapply_kev true (some kev) columns =
      set_kev_due_date kev.due_date (set_kev_listed (some true) columns)

  abbrev pub reapply_epss : Bool → Option (EpssScore S) → Intel S × Bool → Intel S × Bool
  reapply_epss true (some epss) columns =
      set_epss_percentile (some epss.percentile) (set_epss_score (some epss.score) columns)
  reapply_epss _ _ columns = columns

  unfoldable pub reapply_columns :
      Bool → Bool → List KevEntry → List (EpssScore S) → Text → Intel S → Intel S × Bool
  reapply_columns kev_usable epss_usable kevs scores cve intel =
      reapply_epss epss_usable (look_up cve λ key. epss_entry key scores)
        (reapply_kev kev_usable (look_up cve λ key. kev_entry key kevs) (intel, false))

  -- One stored finding: it is written, and pending again, where a column was touched.
  abbrev pub if_touched : Stored S → Intel S × Bool → Stored S × Bool
  if_touched row (intel, true) =
      (record row { input = with_intel row.input intel; pending = true }, true)
  if_touched row (intel, false) = (row, false)

  abbrev pub reapply_row : {K : Type 0} → ℕ → ℕ → Store S K → Stored S → Stored S × Bool
  reapply_row max_age now store row = if_touched row (
      reapply_columns (kev_usable max_age now store) (epss_usable max_age now store)
        store.kev.catalogue store.epss.catalogue row.input.cve_id row.input.intel)

  unfoldable pub reapply_rows :
      {K : Type 0} → ℕ → ℕ → Store S K → List (Stored S) → List (Stored S) × ℕ
  reapply_rows max_age now store [] = ([], 0)
  reapply_rows max_age now store (row ∷ rows) =
      let rest = reapply_rows max_age now store rows in
      let one = reapply_row max_age now store row in
      (one.0 ∷ rest.0, if one.1 then suc rest.1 else rest.1)

  -- `reapply_to_stored`
  unfoldable pub reapply_to_stored :
      {K : Type 0} → ℕ → ℕ → Store S K → List (Stored S) → List (Stored S) × ℕ
  reapply_to_stored max_age now store rows =
      if not (kev_usable max_age now store) && not (epss_usable max_age now store)
      then (rows, 0)
      else reapply_rows max_age now store rows

  module _ {K : Type 0} (kev_digest : List KevEntry → Text)
      (epss_digest : List (EpssScore S) → Text) where
    -- `refresh_feeds_and_reapply`; `none` where a defect is raised
    unfoldable pub refresh_feeds_and_reapply :
        Bool
        → ℕ
        → ℕ
        → Sources S K
        → Store S K
        → List (Stored S)
        → Option (Store S K × List (Stored S) × List FeedRefreshOutcome × ℕ)
    refresh_feeds_and_reapply true max_age now sources store rows =
        some (store, rows, skipped_outcome (codes "kev") ∷ skipped_outcome (codes "epss") ∷ [], 0)
    refresh_feeds_and_reapply false max_age now sources store rows =
        elim (refresh_all kev_digest epss_digest now sources store) [
          | none ↦ none
          | some (after, outcomes) ↦
              let reapplied = reapply_to_stored max_age now after rows in
              if nothing_changed outcomes
              then some (after, rows, outcomes, 0)
              else some (after, reapplied.0, outcomes, reapplied.1)
        ]
