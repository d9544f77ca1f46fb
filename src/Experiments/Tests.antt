-- ===== src/Experiments/Tests.antt =====
-- A table of two variants on two CPU requests, and the pipelines that are made of it.
use ipa_arman.Prelude.{
  ℕ, String, ◌-◌, ◌*◌, ◌≡◌, refl, true, false, List, [], ◌∷◌, map, some, none, Outcome, ok, All,
  range_from, for_each,
}
use ipa_arman.Models.Profile.{
  Model, profile_throughput, measured_profile, by_batch, new_allocation, regression_model,
  new_model,
}
use ipa_arman.Models.Task.{
  variants_accuracies_normalized, accuracy_before, rank_from, variant_names, num_variants,
  get_all_models_by_name, remove_model_profiles_by_name, add_model_profiles,
}
use ipa_arman.Models.Pipeline.{
  any_gpu, Pipeline, new_pipeline, num_nodes, add_task, but_last, remove_task,
}
use ipa_arman.Models.Switch.Tests.{switch_program}
use ipa_arman.Models.Profile.Tests.{fit}
use ipa_arman.Experiments.Simulated.{
  ProfilingRow, PipelineSettings, same_load, is_among, unique_from, at_index, load_at, profiles_of,
  model_of, models_on, models_of_variant, models_of, make_task_profiles, simulated_task,
  generate_simulated_pipeline,
}
use ipa_arman.Experiments.Fake.{
  from_end, sugar_char, sugar_val, largest_key, max_key, trim_once, trim, sweeten_profile, sweeten,
  fill_up, fit_task, remove_tasks, copy_task, copy_tasks, generate_fake_pipeline,
  generate_fake_simulated_pipelines,
}
use ipa_arman.Experiments.Sizes.{generate_fake_simulated_pipelines-num_nodes}
use ipa_arman.Experiments.Made.{IsMade, make_task_profiles-IsMade}
use ipa_arman.Samples.{from_ok, returned, returned-eq, milli, profile, model as sampled}

-- All that a run unfolds.
unfoldable pub simulated_program : Unit {0}
unfolding switch_program any_gpu variants_accuracies_normalized accuracy_before rank_from
    profile_throughput measured_profile by_batch new_allocation regression_model new_model
    variant_names num_variants get_all_models_by_name remove_model_profiles_by_name
    add_model_profiles new_pipeline num_nodes add_task but_last remove_task for_each range_from
    is_among unique_from at_index load_at profiles_of model_of models_on models_of_variant models_of
    make_task_profiles simulated_task generate_simulated_pipeline from_end sugar_char sugar_val
    largest_key max_key trim_once trim sweeten_profile sweeten fill_up fit_task remove_tasks
    copy_task copy_tasks generate_fake_pipeline generate_fake_simulated_pipelines
simulated_program = tt

abbrev pub row : String → ℕ → ℕ → ℕ → ℕ → ProfilingRow ℕ
row variant cpu batch latency x = record {
  model_variant = variant;
  cpu_request = cpu * 1000;
  max_batch_size = batch;
  latency = some latency;
  throughput = x;
}

-- The large variant did not answer on one CPU with batches of two.
abbrev table : List (ProfilingRow ℕ)
table =
    row "small" 1 2 150 12_000
    ∷ row "small" 1 1 100 10_000
    ∷ row "large" 1 1 400 2_000
    ∷ record (row "large" 1 2 700 3_000) { latency = none }
    ∷ row "large" 2 1 200 6_000
    ∷ []

abbrev accuracies : List (String × ℕ)
accuracies = ("small", 60_000) ∷ ("large", 80_000) ∷ []

abbrev made : Outcome (List (Model ℕ))
made = make_task_profiles fit table accuracies true

-- No profile for the large variant on one CPU.
abbrev models : List (Model ℕ)
models =
    sampled "small" 1 600 (profile 1 100 10_000 ∷ profile 2 150 12_000 ∷ [])
    ∷ sampled "large" 2 800 (profile 1 200 6_000 ∷ [])
    ∷ []

made-ok : made ≡ ok models
unfolding simulated_program
made-ok = refl

make_task_profiles-IsMade_example : All (IsMade true accuracies table) models
make_task_profiles-IsMade_example =
    make_task_profiles-IsMade fit table accuracies true {ms = models} made-ok

abbrev settings : PipelineSettings ℕ
settings = record {
  number_tasks = 1;
  profiling_series = 5 ∷ [];
  model_names = "detect" ∷ [];
  task_names = "detect" ∷ [];
  initial_active_model = "small" ∷ [];
  initial_cpu_allocation = 1000 ∷ [];
  initial_replica = 1 ∷ [];
  initial_batch = 1 ∷ [];
  allocation_mode = "variable";
  threshold = 5;
  sla_factor = 5000;
  accuracy_method = "multiply";
  normalize_accuracy = false;
  pipeline_accuracies = ("detect", accuracies) ∷ [];
  only_measured_profiles = true;
  profiling_load = same_load 1;
}

abbrev load_profile : ℕ → String → ℕ → Outcome (List (ProfilingRow ℕ))
load_profile series model_name load = ok table

abbrev fakes : Outcome (List (Pipeline ℕ))
fakes = generate_fake_simulated_pipelines fit load_profile settings (2, 4) (1, 3)

fakes-returned : returned fakes ≡ true
unfolding simulated_program
fakes-returned = refl

-- One and two tasks, each with two and with three variants.
fakes-sizes : map num_nodes (from_ok [] fakes) ≡ 1 ∷ 1 ∷ 2 ∷ 2 ∷ []
unfolding simulated_program
fakes-sizes = refl

generate_fake_simulated_pipelines-num_nodes_example :
    map num_nodes (from_ok [] fakes)
    ≡ for_each
        (λ task_num. map (λ (model_num : ℕ). task_num) (range_from 2 (4 - 2)))
        (range_from 1 (3 - 1))
generate_fake_simulated_pipelines-num_nodes_example =
    generate_fake_simulated_pipelines-num_nodes fit load_profile settings 2 4 1 3
      {ps = from_ok [] fakes} (returned-eq [] fakes fakes-returned)
