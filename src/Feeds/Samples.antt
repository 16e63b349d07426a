-- ===== src/Feeds/Samples.antt =====
-- A KEV catalogue of one entry, over an outage and an unchanged refresh.
use cvedeck.Prelude.{
  ℕ, ◌≡◌, refl, true, false, Option, none, some, List, [], ◌∷◌, ◌++◌, map, length, ltb, ◌==◌,
  ==_iff,
}
use cvedeck.Prelude.Text.{Text, codes, text_eq}
use cvedeck.Severity.{high}
use cvedeck.Findings.{Input, Stored, save_finding, optional_eq}
use cvedeck.Feeds.{
  FeedRefreshOutcome, FeedAnswer, records, outage, record_ok, matches_cached_digest, apply_records,
  fetch_records,
}
use cvedeck.Feeds.Refreshing.{
  KevEntry, EpssScore, Store, Sources, empty_store, fetch_configured, refresh_kernels, refresh_all,
}
use cvedeck.Feeds.Enriching.{
  kev_usable, epss_usable, enrich_findings, Scores, feed_health, usable, kev_entry, updated,
  reapply_rows, reapply_columns, reapply_to_stored, refresh_feeds_and_reapply,
}
use cvedeck.Feeds.Soundness.{IsSound, HasDigest, AllSound, IfAny}
use cvedeck.Feeds.Histories.{refreshes, refreshes-usable}
use cvedeck.Feeds.Outages.{SameData, refresh_all-SameData}
use cvedeck.Feeds.Listing.{answer_of, enrich_findings-kev_listed}
use cvedeck.Feeds.Settled.{AllSettled}
use cvedeck.Feeds.Reapplying.{Rewrites, reapply-enrich_findings}
use cvedeck.Feeds.Skipping.{always_reapplied, refresh_feeds_and_reapply-always}

abbrev entry : KevEntry
entry = record {
  cve_id = codes "CVE-1";
  vendor_project = some (codes "Acme");
  product = none;
  vulnerability_name = none;
  date_added = none;
  due_date = some (codes "2026-01-01");
  known_ransomware_use = false;
  notes = none;
}

-- Digests that list the identifiers
abbrev kev_digest : List KevEntry → Text
kev_digest [] = []
kev_digest (e ∷ es) = e.cve_id ++ kev_digest es

abbrev epss_digest : List (EpssScore ℕ) → Text
epss_digest [] = []
epss_digest (e ∷ es) = e.cve_id ++ epss_digest es

abbrev answers : FeedAnswer KevEntry → Sources ℕ ℕ
answers kev = record {
  kev = some kev;
  epss = some (outage (codes "no route"));
  kernels = λ name. none;
}

abbrev listed : Sources ℕ ℕ
listed = answers (records (entry ∷ []))

abbrev down : Sources ℕ ℕ
down = answers (outage (codes "timed out"))

abbrev past : List (ℕ × Sources ℕ ℕ)
past = (1, listed) ∷ (2, down) ∷ []

-- The store after `past`
abbrev store : Store ℕ ℕ
store = refreshes kev_digest epss_digest past (empty_store [])

refreshes-usable_example :
    (kev_usable 48 3 store ≡ ltb 0 (length store.kev.catalogue))
    × (epss_usable 48 3 store ≡ ltb 0 (length store.epss.catalogue))
    × HasDigest kev_digest store.kev
    × HasDigest epss_digest store.epss
    × AllSound store.kernels
refreshes-usable_example = refreshes-usable kev_digest epss_digest [] past 48 3

refresh_all-SameData_example :
    IfAny (λ r. SameData r.0.kev store.kev) (refresh_all kev_digest epss_digest 4 down store)
refresh_all-SameData_example = refresh_all-SameData kev_digest epss_digest 4 down store refl

abbrev sample_finding : Text → Input ℕ
sample_finding cve = record {
  cve_id = cve;
  package_identifier = none;
  severity = high;
  cvss_score = none;
  intel = record {
    kev_listed = none;
    kev_due_date = none;
    epss_score = none;
    epss_percentile = none;
  };
}

abbrev findings : List (Input ℕ)
findings = sample_finding (codes "cve-1") ∷ sample_finding (codes "CVE-2") ∷ []

-- The feeds as they are after a refresh that found the entry
abbrev held : Store ℕ ℕ
held = record {
  kev = record { catalogue = entry ∷ []; row = some (record_ok 1 1 (some (codes "CVE-1")) none) };
  epss = record { catalogue = []; row = none };
  kernels = [];
}

held-IsSound : IsSound held.kev
unfolding record_ok
held-IsSound = (refl, λ e. cc)

says_listed :
    map (λ f. f.intel.kev_listed) (enrich_findings 48 3 held findings) ≡ some true ∷ some false ∷ []
unfolding record_ok enrich_findings updated feed_health usable kev_entry text_eq
says_listed = refl

enrich_findings-kev_listed_example :
    map (λ f. f.intel.kev_listed) (enrich_findings 48 3 held findings)
    ≡ map (λ f. answer_of held.kev.catalogue f.cve_id f.intel.kev_listed) findings
enrich_findings-kev_listed_example = enrich_findings-kev_listed 48 3 held held-IsSound findings

abbrev numbers : Scores
numbers = record { S = ℕ; same = ◌==◌; same_iff = ==_iff }

-- The rows of a scan that has just enriched its findings
abbrev stored : Input ℕ → Stored ℕ
stored f = save_finding (codes "web") 2 f

abbrev enriched_rows : List (Stored ℕ)
enriched_rows = map stored (enrich_findings 48 3 held findings)

-- The rows of a scan that no feed was usable for
abbrev plain_rows : List (Stored ℕ)
plain_rows = map stored findings

abbrev reapplied : List (Stored ℕ) × ℕ
reapplied = reapply_to_stored numbers 48 3 held plain_rows

reapply-enrich_findings_example :
    (map (λ row. row.input) reapplied.0
      ≡ enrich_findings 48 3 held (map (λ row. row.input) plain_rows))
    × Rewrites plain_rows reapplied.0 reapplied.1
reapply-enrich_findings_example = reapply-enrich_findings numbers 48 3 held plain_rows

enriched-IsSettled : AllSettled numbers 48 3 held enriched_rows
unfolding save_finding enrich_findings updated record_ok feed_health usable kev_entry text_eq
enriched-IsSettled = (refl, (refl, tt))

refresh_feeds_and_reapply-always_example :
    refresh_feeds_and_reapply numbers kev_digest epss_digest false 48 3 listed held enriched_rows
    ≡ always_reapplied numbers 48 3 enriched_rows (refresh_all kev_digest epss_digest 3 listed held)
refresh_feeds_and_reapply-always_example =
    refresh_feeds_and_reapply-always numbers kev_digest epss_digest 48 3 listed held enriched_rows
      held-IsSound refl enriched-IsSettled

-- Findings that a reapplication has not reached, since it broke off behind the feeds' own commits:
-- the next refresh finds the digest unchanged and leaves them as they are.
abbrev old_rows : List (Stored ℕ)
old_rows = map stored findings

abbrev kev_only : Sources ℕ ℕ
kev_only = record listed { epss = none }

abbrev written_rows :
    Option (Store ℕ ℕ × List (Stored ℕ) × List FeedRefreshOutcome × ℕ)
    → Option (List (Stored ℕ) × ℕ)
written_rows none = none
written_rows (some (after, rows, outcomes, changed)) = some (rows, changed)

left_behind :
    (written_rows
        (refresh_feeds_and_reapply numbers kev_digest epss_digest false 48 3 kev_only held old_rows)
      ≡ some (old_rows, 0))
    × ((reapply_to_stored numbers 48 3 held old_rows).1 ≡ 2)
unfolding refresh_feeds_and_reapply refresh_all fetch_configured fetch_records apply_records
    matches_cached_digest refresh_kernels record_ok save_finding reapply_to_stored reapply_rows
    updated reapply_columns feed_health usable kev_entry text_eq optional_eq
left_behind = (refl, refl)
