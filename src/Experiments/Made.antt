-- ===== src/Experiments/Made.antt =====
-- experiments/utils/simulation_operations.py: the models that `make_task_profiles` makes.
use mathlib.Core.Path.{subst}
use ipa_arman.Prelude.{
  String, Bool, not, ap, inl, inr, Bool-cases, ◌&&◌, ◌≡◌, refl, sym, List, [], ◌∷◌, Option, some,
  none, str_eq, ok, >>=-eq-ok, ok-injective, keep, keep-keep, Dict, lookup, All, All-append,
  sort_by, Runtime,
}
use ipa_arman.Models.Profile.{
  ResourceAllocation, Profile, Model, Regression, by_batch, new_allocation, new_model,
  regression_model,
}
use ipa_arman.Experiments.Simulated.{
  ProfilingRow, profiles_of, model_of, models_on, models_of_variant, models_of, make_task_profiles,
}

module _ {F : Type 0} ⦃r : Runtime F⦄ where
  open r use {of_ℕ, div, eq}

  -- The rows of a variant on one CPU request.
  abbrev pub rows_on : String → F → List (ProfilingRow F) → List (ProfilingRow F)
  rows_on variant cpu table =
      keep (λ (row : ProfilingRow F). str_eq row.model_variant variant && eq row.cpu_request cpu)
        table

  -- A model of the table: its variant has an accuracy, which it takes in hundredths, and it has a
  -- profile for each row of its variant and its CPU request, by their batch sizes.
  pub record IsMade (only_measured : Bool) (accuracies : Dict String F)
      (table : List (ProfilingRow F)) (m : Model F) : Type 0 where
    pub given : F
    pub found : lookup str_eq m.name accuracies ≡ some given
    pub accuracy : m.accuracy ≡ div given (of_ℕ 100)
    pub measured : List (Profile F)
    pub rows :
        profiles_of only_measured (rows_on m.name m.resource_allocation.cpu table) ≡ some measured
    pub profiles : m.measured_profiles ≡ sort_by by_batch measured

  new_allocation-cpu :
      (cpu : F) {a : ResourceAllocation F} → new_allocation cpu (of_ℕ 0) ≡ ok a → a.cpu ≡ cpu
  unfolding new_allocation
  new_allocation-cpu cpu h =
      elim (Bool-cases (not (eq cpu (of_ℕ 0)) && not (eq (of_ℕ 0) (of_ℕ 0)))) [
        | inl refused ↦ let none_left = rw refused at h in cc
        | inr allowed ↦
            ap (λ (a : ResourceAllocation F). a.cpu) (sym (ok-injective (rw allowed at h)))
      ]

  model_of-IsMade :
      (fit : Regression F) (only_measured : Bool) (accuracies : Dict String F)
      (table : List (ProfilingRow F)) (variant : String) (accuracy cpu : F)
      (profiles : Option (List (Profile F))) {ms : List (Model F)}
      → lookup str_eq variant accuracies ≡ some accuracy
      → profiles_of only_measured (rows_on variant cpu table) ≡ profiles
      → model_of fit only_measured variant accuracy cpu profiles ≡ ok ms
      → All (IsMade only_measured accuracies table) ms
  unfolding model_of new_model
  model_of-IsMade fit only_measured accuracies table variant accuracy cpu none there rows h =
      subst (All (IsMade only_measured accuracies table)) (ok-injective h) tt
  model_of-IsMade fit only_measured accuracies table variant accuracy cpu (some ps) there rows h =
      let (a, h1, h2) = >>=-eq-ok (new_allocation cpu (of_ℕ 0)) _ h in
      let (m, h3, h4) = >>=-eq-ok (new_model fit variant a ps only_measured accuracy) _ h2 in
      let (filled, h5, h6) =
        >>=-eq-ok (regression_model fit only_measured (sort_by by_batch ps)) _ h3 in
      let same = new_allocation-cpu cpu h1 in
      let made = subst (IsMade only_measured accuracies table) (ok-injective h6) (record {
        given = accuracy;
        found = there;
        accuracy = refl;
        measured = ps;
        rows = rw same rows;
        profiles = refl;
      }) in
      subst (All (IsMade only_measured accuracies table)) (ok-injective h4) (made, tt)

  models_on-IsMade :
      (fit : Regression F) (only_measured : Bool) (accuracies : Dict String F)
      (table : List (ProfilingRow F)) (variant : String) (accuracy : F) (cpus : List F)
      {ms : List (Model F)}
      → lookup str_eq variant accuracies ≡ some accuracy
      → models_on fit only_measured variant accuracy
          (keep (λ (row : ProfilingRow F). str_eq row.model_variant variant) table)
          cpus
        ≡ ok ms
      → All (IsMade only_measured accuracies table) ms
  unfolding models_on
  models_on-IsMade fit only_measured accuracies table variant accuracy [] there h =
      subst (All (IsMade only_measured accuracies table)) (ok-injective h) tt
  models_on-IsMade fit only_measured accuracies table variant accuracy (cpu ∷ cpus) there h =
      let rows = keep (λ (row : ProfilingRow F). str_eq row.model_variant variant) table in
      let here = keep (λ (row : ProfilingRow F). eq row.cpu_request cpu) rows in
      let (models, h1, h2) =
        >>=-eq-ok (model_of fit only_measured variant accuracy cpu (profiles_of only_measured here))
          _ h in
      let (others, h3, h4) =
        >>=-eq-ok (models_on fit only_measured variant accuracy rows cpus) _ h2 in
      let same =
        keep-keep (λ (row : ProfilingRow F). eq row.cpu_request cpu)
          (λ (row : ProfilingRow F). str_eq row.model_variant variant) table in
      subst (All (IsMade only_measured accuracies table)) (ok-injective h4) (
        (All-append (IsMade only_measured accuracies table) models others).1 (
          model_of-IsMade fit only_measured accuracies table variant accuracy cpu
              (profiles_of only_measured here) there (ap (profiles_of only_measured) (sym same)) h1,
          models_on-IsMade fit only_measured accuracies table variant accuracy cpus there h3,
        ))

  models_of_variant-IsMade :
      (fit : Regression F) (only_measured : Bool) (accuracies : Dict String F)
      (table : List (ProfilingRow F)) (variant : String) (found : Option F) {ms : List (Model F)}
      → lookup str_eq variant accuracies ≡ found
      → models_of_variant fit only_measured variant found
          (keep (λ (row : ProfilingRow F). str_eq row.model_variant variant) table)
        ≡ ok ms
      → All (IsMade only_measured accuracies table) ms
  unfolding models_of_variant
  models_of_variant-IsMade fit only_measured accuracies table variant none there h =
      subst (All (IsMade only_measured accuracies table)) (ok-injective h) tt
  models_of_variant-IsMade fit only_measured accuracies table variant (some accuracy) there h =
      models_on-IsMade fit only_measured accuracies table variant accuracy _ there h

  models_of-IsMade :
      (fit : Regression F) (only_measured : Bool) (accuracies : Dict String F)
      (table : List (ProfilingRow F)) (variants : List String) {ms : List (Model F)}
      → models_of fit only_measured accuracies table variants ≡ ok ms
      → All (IsMade only_measured accuracies table) ms
  unfolding models_of
  models_of-IsMade fit only_measured accuracies table [] h =
      subst (All (IsMade only_measured accuracies table)) (ok-injective h) tt
  models_of-IsMade fit only_measured accuracies table (variant ∷ variants) h =
      let (models, h1, h2) =
        >>=-eq-ok
          (models_of_variant fit only_measured variant (lookup str_eq variant accuracies)
            (keep (λ (row : ProfilingRow F). str_eq row.model_variant variant) table))
          _ h in
      let (others, h3, h4) =
        >>=-eq-ok (models_of fit only_measured accuracies table variants) _ h2 in
      subst (All (IsMade only_measured accuracies table)) (ok-injective h4) (
        (All-append (IsMade only_measured accuracies table) models others).1 (
          models_of_variant-IsMade fit only_measured accuracies table variant
              (lookup str_eq variant accuracies) refl h1,
          models_of-IsMade fit only_measured accuracies table variants h3,
        ))

  -- Each model that `make_task_profiles` makes is of a variant with an accuracy, which it takes in
  -- hundredths, and its measured profiles are those of exactly the rows of its variant and its CPU
  -- request, each of which has a latency, by their batch sizes.
  pub make_task_profiles-IsMade :
      (fit : Regression F) (table : List (ProfilingRow F)) (accuracies : Dict String F)
      (only_measured : Bool) {ms : List (Model F)}
      → make_task_profiles fit table accuracies only_measured ≡ ok ms
      → All (IsMade only_measured accuracies table) ms
  unfolding make_task_profiles
  make_task_profiles-IsMade fit table accuracies only_measured h =
      models_of-IsMade fit only_measured accuracies table _ h
