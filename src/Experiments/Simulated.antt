-- ===== src/Experiments/Simulated.antt =====
-- experiments/utils/simulation_operations.py: pipelines from the tables of profiling results.
use ipa_arman.Prelude.{
  ℕ, String, Bool, true, false, List, [], ◌∷◌, ◌++◌, map, Option, some, none, if◌then◌else◌, str_eq,
  index_error, key_error, Outcome, ok, ◌>>=◌, or_raise, traverse, get_elem?, range_from, keep, Dict,
  lookup, Runtime,
}
use ipa_arman.Models.Profile.{Profile, Model, Regression, new_allocation, new_model}
use ipa_arman.Models.Task.{Task}
use ipa_arman.Models.Switch.{new_task}
use ipa_arman.Models.Pipeline.{Pipeline, new_pipeline}

-- A row of the table that `load_profile` returns. The latency is none where the node did not answer.
pub record ProfilingRow (F : Type 0) : Type 0 where
  pub model_variant : String
  pub cpu_request : F
  pub max_batch_size : ℕ
  pub latency : Option F
  pub throughput : F

-- `profiling_load`: a number, or one for each task.
pub data ProfilingLoad : Type 0 where
  same_load : ℕ → ProfilingLoad
  load_of : List ℕ → ProfilingLoad

-- The arguments of `generate_simulated_pipeline`, without those that only `load_profile` reads.
pub record PipelineSettings (F : Type 0) : Type 0 where
  pub number_tasks : ℕ
  pub profiling_series : List ℕ
  pub model_names : List String
  pub task_names : List String
  pub initial_active_model : List String
  pub initial_cpu_allocation : List F
  pub initial_replica : List ℕ
  pub initial_batch : List ℕ
  pub allocation_mode : String
  pub threshold : ℕ
  pub sla_factor : F
  pub accuracy_method : String
  pub normalize_accuracy : Bool
  pub pipeline_accuracies : Dict String (Dict String F)
  pub only_measured_profiles : Bool
  pub profiling_load : ProfilingLoad

-- `unique` of a column: each value where it first stands, behind those that were seen.
unfoldable pub is_among {ℓ} : {A : Type ℓ} → (A → A → Bool) → A → List A → Bool
is_among same x [] = false
is_among same x (y ∷ ys) = let rest = is_among same x ys in if same x y then true else rest

unfoldable pub unique_from {ℓ} : {A : Type ℓ} → (A → A → Bool) → List A → List A → List A
unique_from same seen [] = []
unique_from same seen (x ∷ xs) =
    let old = unique_from same seen xs in
    let new = x ∷ unique_from same (x ∷ seen) xs in if is_among same x seen then old else new

unfoldable pub at_index {ℓ} : {A : Type ℓ} → List A → ℕ → Outcome A
at_index xs i = or_raise (get_elem? xs i) index_error

unfoldable pub load_at : ProfilingLoad → ℕ → Outcome ℕ
load_at (same_load n) i = ok n
load_at (load_of ns) i = at_index ns i

module _ {F : Type 0} where
  -- The profiles of the rows: none where one of the latencies is None.
  unfoldable pub profiles_of : Bool → List (ProfilingRow F) → Option (List (Profile F))
  profiles_of only_measured [] = some []
  profiles_of only_measured (row ∷ rows) = elim (row.latency) [
    | none ↦ none
    | some latency ↦ elim (profiles_of only_measured rows) [
      | none ↦ none
      | some ps ↦ some (
          record {
            batch = row.max_batch_size;
            latency = latency;
            measured = true;
            measured_throughput = if only_measured then some row.throughput else none;
          }
          ∷ ps)
    ]
  ]

module _ {F : Type 0} ⦃r : Runtime F⦄ (fit : Regression F) where
  open r use {of_ℕ, eq}

  -- The model of a variant on one CPU request, if all its rows have a latency.
  unfoldable pub model_of :
      Bool → String → F → F → Option (List (Profile F)) → Outcome (List (Model F))
  model_of only_measured variant accuracy cpu none = ok []
  model_of only_measured variant accuracy cpu (some profiles) = do
    allocation ← new_allocation cpu (of_ℕ 0)
    model ← new_model fit variant allocation profiles only_measured accuracy
    ok (model ∷ [])

  -- The loop over the CPU requests of a variant.
  unfoldable pub models_on :
      Bool → String → F → List (ProfilingRow F) → List F → Outcome (List (Model F))
  models_on only_measured variant accuracy rows [] = ok []
  models_on only_measured variant accuracy rows (cpu ∷ cpus) = do
    let here = keep (λ (row : ProfilingRow F). eq row.cpu_request cpu) rows
    models ← model_of only_measured variant accuracy cpu (profiles_of only_measured here)
    others ← models_on only_measured variant accuracy rows cpus
    ok (models ++ others)

  -- A variant without an accuracy is left out.
  unfoldable pub models_of_variant :
      Bool → String → Option F → List (ProfilingRow F) → Outcome (List (Model F))
  models_of_variant only_measured variant none rows = ok []
  models_of_variant only_measured variant (some accuracy) rows =
      models_on only_measured variant accuracy rows
        (unique_from eq [] (map (λ (row : ProfilingRow F). row.cpu_request) rows))

  -- The loop over the variants.
  unfoldable pub models_of :
      Bool → Dict String F → List (ProfilingRow F) → List String → Outcome (List (Model F))
  models_of only_measured accuracies table [] = ok []
  models_of only_measured accuracies table (variant ∷ variants) = do
    models ←
        models_of_variant only_measured variant (lookup str_eq variant accuracies)
          (keep (λ (row : ProfilingRow F). str_eq row.model_variant variant) table)
    others ← models_of only_measured accuracies table variants
    ok (models ++ others)

  unfoldable pub make_task_profiles :
      List (ProfilingRow F) → Dict String F → Bool → Outcome (List (Model F))
  make_task_profiles table accuracies only_measured =
      models_of only_measured accuracies table
        (unique_from str_eq [] (map (λ (row : ProfilingRow F). row.model_variant) table))

  -- `load_profile` by the series, the name of the model and the load.
  module _ (load_profile : ℕ → String → ℕ → Outcome (List (ProfilingRow F))) where
    -- The body of the loop over the tasks.
    unfoldable pub simulated_task : PipelineSettings F → ℕ → Outcome (Task F)
    simulated_task s i = do
      series ← at_index s.profiling_series i
      model_name ← at_index s.model_names i
      load ← load_at s.profiling_load i
      table ← load_profile series model_name load
      name ← at_index s.task_names i
      accuracies ← or_raise (lookup str_eq name s.pipeline_accuracies) key_error
      models ← make_task_profiles table accuracies s.only_measured_profiles
      variant ← at_index s.initial_active_model i
      cpu ← at_index s.initial_cpu_allocation i
      allocation ← new_allocation cpu (of_ℕ 0)
      replica ← at_index s.initial_replica i
      batch ← at_index s.initial_batch i
      new_task name models variant allocation replica batch s.allocation_mode s.threshold
          s.sla_factor s.normalize_accuracy false

    unfoldable pub generate_simulated_pipeline : PipelineSettings F → Outcome (Pipeline F)
    generate_simulated_pipeline s = do
      graph ← traverse (simulated_task s) (range_from 0 s.number_tasks)
      new_pipeline graph false s.sla_factor s.accuracy_method s.normalize_accuracy
