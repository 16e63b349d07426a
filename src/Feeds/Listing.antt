-- ===== src/Feeds/Listing.antt =====
-- What an enriched finding says of the KEV catalogue.
use mathlib.Core.Path.{ap₂}
use cvedeck.Prelude.{
  ℕ, ◌≡◌, refl, ap, ◌∙◌, Bool, false, not, ◌&&◌, Option, some, List, [], ◌∷◌, map, any, length, ltb,
  if◌then◌else◌, arith, Bool-cases, inl, inr, is_some,
}
use cvedeck.Prelude.Text.{Text, text_eq}
use cvedeck.Findings.{Intel, Input}
use cvedeck.Feeds.Refreshing.{KevEntry, Store}
use cvedeck.Feeds.Enriching.{
  upper, kev_entry, look_up, updated, with_intel, kev_usable, epss_usable, intel_of,
  enrich_findings,
}
use cvedeck.Feeds.Soundness.{IsSound, usable-feed_health}

-- An entry of the catalogue has the identifier, in capitals.
abbrev pub is_listed : Text → List KevEntry → Bool
is_listed [] catalogue = false
is_listed (c ∷ cve) catalogue = any (λ e. text_eq e.cve_id (upper (c ∷ cve))) catalogue

abbrev pub answer_of : List KevEntry → Text → Option Bool → Option Bool
answer_of catalogue cve before =
    if ltb 0 (length catalogue) then some (is_listed cve catalogue) else before

kev_entry-any :
    (key : Text) (catalogue : List KevEntry)
    → is_some (kev_entry key catalogue) ≡ any (λ e. text_eq e.cve_id key) catalogue
unfolding kev_entry
kev_entry-any key [] = refl
kev_entry-any key (e ∷ es) = ground (arith, kev_entry-any key es)

listed_entry :
    (cve : Text) (catalogue : List KevEntry)
    → is_some (look_up cve (λ key. kev_entry key catalogue)) ≡ is_listed cve catalogue
listed_entry [] catalogue = refl
listed_entry (c ∷ cve) catalogue = kev_entry-any (upper (c ∷ cve)) catalogue

module _ {S K : Type 0} (max_age now : ℕ) (store : Store S K) where
  updated-kev_listed :
      (k e : Bool) (cve : Text) (intel : Intel S)
      → (updated k e store.kev.catalogue store.epss.catalogue cve intel).kev_listed
        ≡ (if k then some (is_listed cve store.kev.catalogue) else intel.kev_listed)
  unfolding updated
  updated-kev_listed k e cve intel = ground (arith, listed_entry cve store.kev.catalogue)

  abbrev listed_of : List (Input S) → List (Option Bool)
  listed_of = map (λ f. f.intel.kev_listed)

  abbrev said_of : Bool → List (Input S) → List (Option Bool)
  said_of k =
      map (λ f. if k then some (is_listed f.cve_id store.kev.catalogue) else f.intel.kev_listed)

  each :
      (fs : List (Input S))
      → listed_of (map (λ g. with_intel g (intel_of max_age now store g)) fs)
        ≡ said_of (kev_usable max_age now store) fs
  each [] = refl
  each (f ∷ fs) =
      ap₂ (λ x xs. x ∷ xs) (updated-kev_listed _ (epss_usable max_age now store) f.cve_id f.intel)
        (each fs)

  nothing_said : (fs : List (Input S)) → listed_of fs ≡ said_of false fs
  nothing_said [] = refl
  nothing_said (f ∷ fs) = ap (λ r. f.intel.kev_listed ∷ r) (nothing_said fs)

  -- Of a store whose KEV row counts its catalogue: enrichment says of each finding, in order, that it is listed or that it is not only where the catalogue has entries, and then exactly by whether one of them has its identifier; where the catalogue is empty a finding keeps what it had.
  pub enrich_findings-kev_listed :
      IsSound store.kev
      → (findings : List (Input S))
      → map (λ f. f.intel.kev_listed) (enrich_findings max_age now store findings)
        ≡ map (λ f. answer_of store.kev.catalogue f.cve_id f.intel.kev_listed) findings
  unfolding enrich_findings
  enrich_findings-kev_listed sound [] = refl
  enrich_findings-kev_listed sound (f ∷ fs) =
      let known = ap (λ k. said_of k (f ∷ fs)) (usable-feed_health max_age now store.kev sound) in
      elim (Bool-cases
        (not (kev_usable max_age now store) && not (epss_usable max_age now store))) [
          | inl e ↦ rw e (
              nothing_said (f ∷ fs)
              ∙ ap (λ k. said_of k (f ∷ fs)) {x = false} (ground arith)
              ∙ known)
          | inr e ↦ rw e (each (f ∷ fs) ∙ known)
        ]
