-- ===== src/Models/Task.antt =====
-- optimizer/models.py: the state of a task, its properties and the setters that cannot raise.
use mathlib.Core.List.{foldl}
use ipa_arman.Prelude.{
  ℕ, suc, ◌-◌, String, Bool, List, [], ◌∷◌, ◌++◌, map, not, ◌==◌, if◌then◌else◌, str_eq, str_lt,
  value_error, index_error, stop_iteration, key_error, zero_division_error, Outcome, ok, raised,
  ◌>>=◌, or_raise, traverse, length, get_elem?, keep, last?, sort_by, Dict, insert, lookup, Runtime,
  sum,
}
use ipa_arman.Models.Profile.{
  ResourceAllocation, Profile, Model, ModelParams, new_allocation, profile_throughput,
}

pub record Task (F : Type 0) : Type 0 where
  pub name : String
  pub available_model_profiles : List (Model F)
  pub active_variant : String
  pub active_variant_index : ℕ
  pub active_allocation : ResourceAllocation F
  pub initial_allocation : ResourceAllocation F
  pub replicas : ℕ
  pub batch : ℕ
  pub allocation_mode : String
  pub threshold : ℕ
  pub sla_factor : F
  pub normalize_accuracy : Bool
  pub gpu_mode : Bool

-- The first profile of a batch size: `next` over `filter`.
unfoldable pub find_profile : {F : Type 0} → ℕ → List (Profile F) → Outcome (Profile F)
find_profile batch [] = raised stop_iteration
find_profile batch (p ∷ ps) = if p.batch == batch then ok p else find_profile batch ps

module _ {F : Type 0} where
  unfoldable pub active_model : Task F → Outcome (Model F)
  active_model t =
      or_raise (get_elem? t.available_model_profiles t.active_variant_index) index_error

  unfoldable pub latency_model_params : Task F → Outcome (ModelParams F)
  latency_model_params t = do m ← active_model t; ok m.latency_model_params

  unfoldable pub is_named : String → Model F → Bool
  is_named name m = str_eq m.name name

  unfoldable pub get_all_models_by_name : String → Task F → List (Model F)
  get_all_models_by_name name t = keep (is_named name) t.available_model_profiles

  -- The active index is left as it is.
  unfoldable pub remove_model_profiles_by_name : String → Task F → Task F
  remove_model_profiles_by_name name t = record t {
    available_model_profiles = keep (λ m. not (is_named name m)) t.available_model_profiles;
  }

  unfoldable pub add_model_profiles : List (Model F) → Task F → Task F
  add_model_profiles models t = record t {
    available_model_profiles = t.available_model_profiles ++ models;
  }

  unfoldable pub add_model_profile : Model F → Task F → Task F
  add_model_profile model t = record t {
    available_model_profiles = t.available_model_profiles ++ (model ∷ []);
  }

  unfoldable pub re_scale : ℕ → Task F → Task F
  re_scale replica t = record t { replicas = replica }

  unfoldable pub change_batch : ℕ → Task F → Task F
  change_batch batch t = record t { batch = batch }

  -- The profile that the active model has for the active batch size.
  unfoldable pub active_profile : Task F → Outcome (Profile F)
  active_profile t = do m ← active_model t; find_profile t.batch m.profiles

  unfoldable pub model_latency : Task F → Outcome F
  model_latency t = do p ← active_profile t; ok p.latency

  unfoldable pub measured : Task F → Outcome Bool
  measured t = do p ← active_profile t; ok p.measured

  unfoldable pub batches : Task F → Outcome (List ℕ)
  batches t = do m ← active_model t; ok (map (λ (p : Profile F). p.batch) m.profiles)

module _ {F : Type 0} ⦃r : Runtime F⦄ where
  open r use {of_ℕ, add, mul, div, lt, eq, set_names, set_numbers}

  unfoldable pub variant_names : Task F → List String
  variant_names t = set_names (map (λ (m : Model F). m.name) t.available_model_profiles)

  unfoldable pub num_variants : Task F → ℕ
  num_variants t = length (variant_names t)

  unfoldable pub queue_latency : Task F → F
  queue_latency t = of_ℕ 0

  unfoldable pub latency : Task F → Outcome F
  latency t = do l ← model_latency t; ok (add l (queue_latency t))

  unfoldable pub throughput : Task F → Outcome F
  throughput t = do p ← active_profile t; profile_throughput p

  unfoldable pub throughput_all_replicas : Task F → Outcome F
  throughput_all_replicas t = do x ← throughput t; ok (mul x (of_ℕ t.replicas))

  unfoldable pub cpu : Task F → Outcome F
  cpu t =
      if t.gpu_mode
      then raised value_error
      else (active_model t >>= λ m. ok m.resource_allocation.cpu)

  unfoldable pub gpu : Task F → Outcome F
  gpu t = if t.gpu_mode then (active_model t >>= λ m. ok m.resource_allocation.gpu) else ok (of_ℕ 0)

  unfoldable pub cpu_all_replicas : Task F → Outcome F
  cpu_all_replicas t =
      if t.gpu_mode
      then raised value_error
      else (active_model t >>= λ m. ok (mul m.resource_allocation.cpu (of_ℕ t.replicas)))

  unfoldable pub gpu_all_replicas : Task F → Outcome F
  gpu_all_replicas t =
      if t.gpu_mode
      then (active_model t >>= λ m. ok (mul m.resource_allocation.gpu (of_ℕ t.replicas)))
      else ok (of_ℕ 0)

  unfoldable pub accuracies_of : List (Model F) → Dict String F
  accuracies_of models =
      foldl (λ (d : Dict String F) (m : Model F). insert str_eq m.name m.accuracy d) [] models

  -- In the order of the accuracies.
  unfoldable pub variants_accuracies : Task F → Dict String F
  variants_accuracies t =
      sort_by (λ (a b : String × F). lt a.1 b.1) (accuracies_of t.available_model_profiles)

  -- The order of tuples of an accuracy and a name.
  unfoldable pub accuracy_before : String × F → String × F → Bool
  accuracy_before (v, a) (w, b) = if eq a b then str_lt v w else lt a b

  -- `i / (n - 1)` for the names from the `i`-th on. The names are the keys of a dict, so the
  -- comprehension has one entry for each.
  unfoldable pub rank_from : ℕ → ℕ → Dict String F → Dict String F
  rank_from n i [] = []
  rank_from n i ((v, _) ∷ d) = (v, div (of_ℕ i) (of_ℕ (n - 1))) ∷ rank_from n (suc i) d

  unfoldable pub variants_accuracies_normalized : Task F → Dict String F
  variants_accuracies_normalized t =
      let ranked = sort_by accuracy_before (variants_accuracies t) in
      if length ranked == 1
      then map (λ (e : String × F). (e.0, of_ℕ 1)) ranked
      else rank_from (length ranked) 0 ranked

  unfoldable pub accuracy : Task F → Outcome F
  accuracy t =
      if t.normalize_accuracy
      then or_raise (lookup str_eq t.active_variant (variants_accuracies_normalized t)) key_error
      else (active_model t >>= λ m. ok m.accuracy)

  unfoldable pub resource_allocations_cpu_mode : Task F → Outcome (List (ResourceAllocation F))
  resource_allocations_cpu_mode t =
      traverse (λ c. new_allocation c (of_ℕ 0))
        (set_numbers (map (λ (m : Model F). m.resource_allocation.cpu) t.available_model_profiles))

  unfoldable pub resource_allocations_gpu_mode : Task F → Outcome (List (ResourceAllocation F))
  resource_allocations_gpu_mode t =
      traverse (new_allocation (of_ℕ 0))
        (set_numbers (map (λ (m : Model F). m.resource_allocation.gpu) t.available_model_profiles))

  -- The models of each variant, in the order of `variant_names`: a dict comprehension and two loops.
  unfoldable pub models_by_variant : Task F → Dict String (List (Model F))
  models_by_variant t = map (λ v. (v, get_all_models_by_name v t)) (variant_names t)

  -- The latency of the first profile of the last allocation, by the factor.
  unfoldable pub variant_sla : F → List (Model F) → Outcome F
  variant_sla factor models = do
    m ← or_raise (last? models) index_error
    p ← or_raise (get_elem? m.profiles 0) index_error
    ok (mul p.latency factor)

  unfoldable pub sla : Task F → Outcome F
  sla t = do
    slas ←
        traverse (λ (e : String × List (Model F)). variant_sla t.sla_factor e.1)
          (models_by_variant t)
    if length slas == 0
        then raised zero_division_error
        else ok (mul (div (sum slas) (of_ℕ (length slas))) (of_ℕ 5))
