-- ===== src/Prelude/Dicts.antt =====
-- A Python dictionary with text as its keys, in the order in which the keys were added.
use mathlib.Core.Path.{◌≡◌, refl, ap, ◌∙◌}
use mathlib.Core.Bool.{false}
use mathlib.Core.Logic.{inl, inr}
use mathlib.Core.Option.{Option, none, some}
use mathlib.Core.List.{List, [], ◌∷◌}
use cvedeck.Prelude.Tests.{if◌then◌else◌, Bool-cases}
use cvedeck.Prelude.Text.{Text, text_eq, text_eq_iff, text_eq_refl}

abbrev pub Dict : Type 0 → Type 0
Dict A = List (Text × A)

-- `d.get(key, default)`
unfoldable pub get_or : {A : Type 0} → A → Text → Dict A → A
get_or default key [] = default
get_or default key ((k, x) ∷ d) =
    let rest = get_or default key d in if text_eq k key then x else rest

-- `d.get(key)`
unfoldable pub find : {A : Type 0} → Text → Dict A → Option A
find key [] = none
find key ((k, x) ∷ d) = let rest = find key d in if text_eq k key then some x else rest

-- `d[key] = f(d.get(key, default))`
unfoldable pub update_at : {A : Type 0} → (A → A) → A → Text → Dict A → Dict A
update_at f default key [] = (key, f default) ∷ []
update_at f default key ((k, x) ∷ d) =
    let rest = update_at f default key d in if text_eq k key then (k, f x) ∷ d else (k, x) ∷ rest

module _ {A : Type 0} (f : A → A) (default : A) where
  pub get_or-update_at_same :
      (key : Text) (d : Dict A)
      → get_or default key (update_at f default key d) ≡ f (get_or default key d)
  unfolding get_or update_at
  get_or-update_at_same key [] = rw (text_eq_refl key) refl
  get_or-update_at_same key ((k, x) ∷ d) = elim (Bool-cases (text_eq k key)) [
    | inl e ↦ rw (e) (rw (e) refl)
    | inr e ↦ rw (e) (rw (e) (get_or-update_at_same key d))
  ]

  pub get_or-update_at_other :
      (key other : Text) (d : Dict A)
      → text_eq key other ≡ false
      → get_or default other (update_at f default key d) ≡ get_or default other d
  unfolding get_or update_at
  get_or-update_at_other key other [] h = rw h refl
  get_or-update_at_other key other ((k, x) ∷ d) h = elim (Bool-cases (text_eq k key)) [
    | inl e ↦
        let off : text_eq k other ≡ false =
          ap (λ t. text_eq t other) ((text_eq_iff k key).0 e) ∙ h in
        rw e (rw off refl)
    | inr e ↦
        rw e (ap (λ r. if text_eq k other then x else r) (get_or-update_at_other key other d h))
  ]
