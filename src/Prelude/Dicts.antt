-- ===== src/Prelude/Dicts.antt =====
-- A Python dict as an association list in insertion order, over a test for equal keys.
use mathlib.Core.Bool.{Bool}
use mathlib.Core.Option.{Option, none, some}
use mathlib.Core.List.{List, [], ◌∷◌, map}
use ipa_arman.Prelude.Tests.{if◌then◌else◌}

abbrev pub Dict {ℓ κ} : Type ℓ → Type κ → Type (ℓ ⊔ κ)
Dict K V = List (K × V)

module _ {ℓ κ} {K : Type ℓ} {V : Type κ} (same : K → K → Bool) where
  unfoldable pub lookup : K → Dict K V → Option V
  lookup key [] = none
  lookup key ((j, v) ∷ rest) = if same j key then some v else lookup key rest

  -- `d[k] = v`: a key that is there keeps its place.
  unfoldable pub insert : K → V → Dict K V → Dict K V
  insert key v [] = (key, v) ∷ []
  insert key v ((j, w) ∷ rest) = if same j key then (j, v) ∷ rest else (j, w) ∷ insert key v rest

module _ {ℓ κ} {K : Type ℓ} {V : Type κ} where
  unfoldable pub keys : Dict K V → List K
  keys d = map (λ (e : K × V). e.0) d

  unfoldable pub values : Dict K V → List V
  values d = map (λ (e : K × V). e.1) d
