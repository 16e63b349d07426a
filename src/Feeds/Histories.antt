-- ===== src/Feeds/Histories.antt =====
-- Any history of refreshes of the feeds.
use cvedeck.Prelude.{ℕ, ◌≡◌, refl, Option, none, some, List, [], ◌∷◌, map, length, ltb, arith}
use cvedeck.Prelude.Text.{Text, codes}
use cvedeck.Feeds.{FeedRefreshOutcome}
use cvedeck.Feeds.Refreshing.{
  KevEntry, EpssScore, Store, Sources, fetch_configured, refresh_kernels, refresh_all,
}
use cvedeck.Feeds.Enriching.{kev_usable, epss_usable}
use cvedeck.Feeds.{no_feed}
use cvedeck.Feeds.Refreshing.{empty_store}
use cvedeck.Feeds.Soundness.{
  HasDigest, IsGood, AllSound, IfAny, IfAny-bind, usable-feed_health, fetch-KeepsGood,
  pending-IsGood, kernels-AllSound,
}

empty-AllSound :
    (K : Type 0) (names : List Text)
    → AllSound {K = K} (map (λ n. record { name = n; feed = no_feed }) names)
empty-AllSound K [] = tt
empty-AllSound K (n ∷ names) = (refl, empty-AllSound K names)

module _ {S K : Type 0} (kev_digest : List KevEntry → Text)
    (epss_digest : List (EpssScore S) → Text) where
  pub record IsGoodStore (store : Store S K) : Type 0 where
    pub kev : IsGood kev_digest store.kev
    pub epss : IsGood epss_digest store.epss
    pub kernels : AllSound store.kernels

  pub refresh_all-IsGoodStore :
      (now : ℕ) (sources : Sources S K) (store : Store S K)
      → IsGoodStore store
      → IfAny (λ r. IsGoodStore r.0) (refresh_all kev_digest epss_digest now sources store)
  unfolding refresh_all
  refresh_all-IsGoodStore now sources store good =
      IfAny-bind _ _ (fetch_configured kev_digest (codes "kev") sources.kev) _
        (fetch-KeepsGood kev_digest _ sources.kev)
        λ kev one.
          IfAny-bind _ _ (fetch_configured epss_digest (codes "epss") sources.epss) _
            (fetch-KeepsGood epss_digest _ sources.epss)
            λ epss two.
              IfAny-bind _ _ (refresh_kernels now sources.kernels store.kernels) _
                (kernels-AllSound now sources.kernels store.kernels good.kernels)
                λ kernels three. record {
                  kev = pending-IsGood kev_digest now kev store.kev one good.kev;
                  epss = pending-IsGood epss_digest now epss store.epss two good.epss;
                  kernels = three;
                }

  -- A history of refreshes; one that raises a defect leaves the store as it was.
  unfoldable pub refreshes : List (ℕ × Sources S K) → Store S K → Store S K
  refreshes [] store = store
  refreshes ((now, sources) ∷ rest) store =
      refreshes rest (elim (refresh_all kev_digest epss_digest now sources store) [
        | none ↦ store
        | some (after, outcomes) ↦ after
      ])

  one-IsGoodStore :
      (r : Option (Store S K × List FeedRefreshOutcome)) (store : Store S K)
      → IfAny (λ r. IsGoodStore r.0) r
      → IsGoodStore store
      → IsGoodStore (elim r [ none ↦ store | some (after, outcomes) ↦ after ])
  one-IsGoodStore none store h good = good
  one-IsGoodStore (some (after, outcomes)) store h good = h

  pub refreshes-IsGoodStore :
      (history : List (ℕ × Sources S K)) (store : Store S K)
      → IsGoodStore store
      → IsGoodStore (refreshes history store)
  unfolding refreshes
  refreshes-IsGoodStore [] store good = good
  refreshes-IsGoodStore ((now, sources) ∷ rest) store good =
      refreshes-IsGoodStore rest _
        (one-IsGoodStore _ store (refresh_all-IsGoodStore now sources store good) good)

  empty-IsGoodStore : (names : List Text) → IsGoodStore (empty_store names)
  empty-IsGoodStore names = record {
    kev = (refl, λ d e. ground arith);
    epss = (refl, λ d e. ground arith);
    kernels = empty-AllSound K names;
  }

  -- Whatever the sources answered over any history of refreshes of an empty store, with outages and defects among them: each of the two feeds counts as usable exactly where its catalogue has entries, and the digest that is kept for a feed is that of its catalogue; and the row of each kernel feed has the number of its entries.
  pub refreshes-usable :
      (names : List Text) (history : List (ℕ × Sources S K)) (max_age now : ℕ)
      → let store = refreshes history (empty_store names) in
        (kev_usable max_age now store ≡ ltb 0 (length store.kev.catalogue))
        × (epss_usable max_age now store ≡ ltb 0 (length store.epss.catalogue))
        × HasDigest kev_digest store.kev
        × HasDigest epss_digest store.epss
        × AllSound store.kernels
  refreshes-usable names history max_age now =
      let good = refreshes-IsGoodStore history (empty_store names) (empty-IsGoodStore names) in
      let store = refreshes history (empty_store names) in
      (
        usable-feed_health max_age now store.kev good.kev.0,
        usable-feed_health max_age now store.epss good.epss.0,
        good.kev.1,
        good.epss.1,
        good.kernels,
      )
