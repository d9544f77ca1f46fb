-- ===== src/Models/Profile/Interpolated.antt =====
-- optimizer/models.py: the batch sizes that `regression_model` interpolates.
use mathlib.Core.Path.{subst}
use ipa_arman.Prelude.{
  ℕ, zero, suc, ◌+◌, ◌-◌, ◌^◌, ◌≤◌, ◌<◌, ◌≡◌, refl, sym, ◌∙◌, ap, List, [], ◌∷◌, map, get_elem?,
  length, some, none, Option, inl, inr, arith, Listed, place, sort_by, range_from, Runtime,
}
use ipa_arman.Models.Profile.{
  Profile, Regression, QuadraticFit, training_data, predicted_profile, by_batch,
  selected_profiles_indices, pick, interpolated, log2,
}

module _ {ℓ} {A : Type ℓ} where
  pick-Listed :
      (xs : List A) (is : List ℕ) (x : A)
      → Listed x (pick xs is)
      → (i : ℕ) × Listed i is × (get_elem? xs i ≡ some x)
  unfolding pick
  pick-Listed xs [] x m = elim m [ ]
  pick-Listed xs (i ∷ is) x m = go (get_elem? xs i) refl m (λ later. pick-Listed xs is x later)
    where
      Found : List ℕ → Type ℓ
      Found js = (k : ℕ) × Listed k js × (get_elem? xs k ≡ some x)

      go :
          (o : Option A)
          → get_elem? xs i ≡ o
          → Listed x (elim o [ some y ↦ y ∷ pick xs is | none ↦ pick xs is ])
          → (Listed x (pick xs is) → Found is)
          → Found (i ∷ is)
      go none e l rest = let (k, lk, g) = rest l in (k, inr lk, g)
      go (some y) e (inl here) rest = (i, inl refl, e ∙ ap some here)
      go (some y) e (inr later) rest = let (k, lk, g) = rest later in (k, inr lk, g)

  map_range-get_elem? :
      (f : ℕ → A) (a n i : ℕ) {x : A}
      → get_elem? (map f (range_from a n)) i ≡ some x
      → (f (a + i) ≡ x) × (i < n)
  unfolding range_from
  map_range-get_elem? f a zero i g = cc
  map_range-get_elem? f a (suc n) zero {x} g =
      let h : f a ≡ x = cc in (ap f (omega arith) ∙ h, omega arith)
  map_range-get_elem? f a (suc n) (suc i) g =
      let (h, below) = map_range-get_elem? f (suc a) n i g in (ap f (omega arith) ∙ h, omega arith)

map_range-Listed : (f : ℕ → ℕ) (a n i : ℕ) → Listed i (map f (range_from a n)) → (j : ℕ) × (i ≡ f j)
unfolding range_from
map_range-Listed f a zero i m = elim m [ ]
map_range-Listed f a (suc n) i (inl e) = (a, sym e)
map_range-Listed f a (suc n) i (inr m) = map_range-Listed f (suc a) n i m

module _ {F : Type 0} ⦃r : Runtime F⦄ where
  -- The predicted profiles are in order before they are sorted.
  sort_by-predicted :
      (q : QuadraticFit F) (linear : ℕ → F) (a n : ℕ)
      → sort_by by_batch (map (predicted_profile q linear) (range_from a n))
        ≡ map (predicted_profile q linear) (range_from a n)
  unfolding sort_by place by_batch predicted_profile range_from
  sort_by-predicted q linear a zero = refl
  sort_by-predicted q linear a (suc n) =
      ap (place by_batch (predicted_profile q linear a)) (sort_by-predicted q linear (suc a) n)
      ∙ placed n
    where
      placed :
          (n : ℕ)
          → place by_batch
              (predicted_profile q linear a)
              (map (predicted_profile q linear) (range_from (suc a) n))
            ≡ predicted_profile q linear a ∷ map (predicted_profile q linear) (range_from (suc a) n)
      placed zero = refl
      placed (suc n) = ground arith

  -- Each interpolated profile has a batch size `lo + 2 ^ j - 1` of at most `hi`, where `lo` and `hi`
  -- are the least and the largest measured batch size, and the latency that the fits give for it.
  pub interpolated-batches :
      (fit : Regression F) (ps : List (Profile F)) (lo hi : ℕ) (p : Profile F)
      → Listed p (interpolated fit ps lo hi)
      → (j : ℕ) × (p
          ≡ predicted_profile
              (fit.quadratic (training_data ps))
              (fit.linear (training_data ps))
              (lo + (2 ^ j - 1)))
        × (lo + (2 ^ j - 1) ≤ hi)
  unfolding interpolated selected_profiles_indices
  interpolated-batches fit ps lo hi p m =
      let q = fit.quadratic (training_data ps) in
      let linear = fit.linear (training_data ps) in
      let all = map (predicted_profile q linear) (range_from lo (suc hi - lo)) in
      let sorted = sort_by by_batch all in
      let n = length sorted in
      let (i, li, g) = pick-Listed sorted (selected_profiles_indices n) p m in
      let (j, e) = map_range-Listed (λ k. 2 ^ k - 1) 0 (log2 n + 1) i li in
      let same = sort_by-predicted q linear lo (suc hi - lo) in
      let (h, below) =
        map_range-get_elem? (predicted_profile q linear) lo (suc hi - lo) i
          (subst (λ l. get_elem? l i ≡ some p) same g) in
      (j, sym h ∙ ap (λ k. predicted_profile q linear (lo + k)) e, omega arith)
