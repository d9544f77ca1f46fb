-- ===== src/Optimizer/States/Tests.antt =====
-- The search on the sample pipeline.
use ipa_arman.Prelude.{
  ℕ, ◌≡◌, ◌↔◌, ◌≤◌, String, refl, true, false, Option, none, some, List, [], ◌∷◌, ok, Outcome,
  length, All, Listed, for_each, range_from, values, arith, raised, value_error,
}
use ipa_arman.Models.Task.{
  batches, measured, accuracy, cpu, gpu, cpu_all_replicas, gpu_all_replicas,
  resource_allocations_cpu_mode, resource_allocations_gpu_mode,
}
use ipa_arman.Models.Pipeline.{
  Pipeline, any_gpu, cpu_of, gpu_of, stage_wise_cpu, stage_wise_gpu, pipeline_cpu, pipeline_gpu,
  stage_wise_throughput, smallest, min_of, pipeline_throughput, task_accuracy, tasks_accuracies,
  last_accuracy, pipeline_accuracy,
}
use ipa_arman.Optimizer.Objective.{Optimizer, batch_objective, objective}
use ipa_arman.Optimizer.Objective.Tests.{objective_program}
use ipa_arman.Optimizer.States.{
  product, Knobs, Combination, Search, at_limit, all_combinations, rest_of, allowed_allocations,
  knobs_of, configure_allocation, configure_task, configure, ok_to_add, record_state, skip_missing,
  try_combination, search_states, combinations, all_states,
}
use ipa_arman.Optimizer.Rows.{
  TaskConfig, State, task_config, task_stats, pipeline_stats, complete_stats, state_of,
}
use ipa_arman.Optimizer.States.Tried.{IsChoice, combinations_iff}
use ipa_arman.Optimizer.States.Sound.{Accounted, all_states-Accounted}
use ipa_arman.Optimizer.States.Limit.{Settled, left_by, all_states_bounded, all_states_complete}
use ipa_arman.Optimizer.States.Gpu.{all_states-gpu}
use ipa_arman.Samples.{milli, classify, video}

-- All that a run unfolds.
unfoldable pub states_program : Unit {0}
unfolding objective_program values batches measured accuracy cpu gpu cpu_all_replicas
    gpu_all_replicas resource_allocations_cpu_mode resource_allocations_gpu_mode cpu_of gpu_of
    stage_wise_cpu stage_wise_gpu pipeline_cpu pipeline_gpu stage_wise_throughput smallest min_of
    pipeline_throughput task_accuracy tasks_accuracies last_accuracy pipeline_accuracy
    batch_objective objective for_each range_from product at_limit all_combinations rest_of
    allowed_allocations knobs_of configure_allocation configure_task configure task_config
    task_stats pipeline_stats complete_stats state_of ok_to_add record_state skip_missing
    try_combination search_states combinations all_states
states_program = tt

abbrev pub take_all : List (Combination ℕ) → Option ℕ → Outcome (List (Combination ℕ))
take_all cs limit = ok cs

abbrev pub optimizer : Optimizer
optimizer = record {
  allocation_mode = "base";
  complete_profile = false;
  only_measured_profiles = true;
  random_sample = false;
  baseline_mode = none;
}

abbrev pub search : Search ℕ
search = record {
  weights = record { alpha = 1000; beta = 1000; gamma = 1 };
  check_constraints = true;
  arrival_rate = 5;
  num_state_limit = some 2;
}

abbrev config : String → ℕ → TaskConfig ℕ
config variant batch = record {
  variant = variant;
  cpu = 1000;
  gpu = 0;
  batch = batch;
  replicas = 1;
}

abbrev row : List (TaskConfig ℕ) → ℕ → ℕ → ℕ → State ℕ
row configs accuracy resource batch = record {
  profile = none;
  configs = configs;
  objective = record {
    accuracy_objective = accuracy;
    resource_objective = resource;
    batch_objective = batch;
    objective = 0;
  };
}

abbrev rows : List (State ℕ)
rows =
    row (config "small" 1 ∷ config "resnet18" 1 ∷ []) 420 2000 2
    ∷ row (config "small" 1 ∷ config "resnet18" 4 ∷ []) 420 2000 5
    ∷ []

video-rows : (all_states take_all optimizer search 1 video).0 ≡ ok rows
unfolding states_program
video-rows = refl

all_states_bounded_example : length rows ≤ 2
all_states_bounded_example =
    all_states_bounded optimizer search take_all 1 2 video rows refl (ground arith) video-rows

all_states-Accounted_example :
    (cs : List (Combination ℕ)) × (combinations take_all optimizer search 1 video.inference_graph
      ≡ ok cs)
    × All (Accounted optimizer search cs) rows
all_states-Accounted_example =
    all_states-Accounted optimizer search take_all 1 video {rows = rows} video-rows

abbrev pub classifier : Pipeline ℕ
classifier = record video { inference_graph = classify ∷ [] }

abbrev unlimited : Search ℕ
unlimited = record search { num_state_limit = none; arrival_rate = 15 }

abbrev gpu_classifier : Pipeline ℕ
gpu_classifier = record video { inference_graph = record classify { gpu_mode = true } ∷ [] }

abbrev knobs : List (Knobs ℕ)
knobs =
    record {
      variants = "resnet18" ∷ "resnet50" ∷ [];
      replicas = 1 ∷ 2 ∷ [];
      batches = 1 ∷ 4 ∷ [];
      allocations = [];
    }
    ∷ []

abbrev chosen : Combination ℕ
chosen = record {
  variants = "resnet50" ∷ [];
  replicas = 2 ∷ [];
  batches = 4 ∷ [];
  allocations = [];
}

-- The rows of the classifier alone, where nothing is cut off.
abbrev classifier_rows : List (State ℕ)
classifier_rows =
    row (config "resnet18" 1 ∷ []) 700 1000 1
    ∷ row (config "resnet18" 4 ∷ []) 700 1000 4
    ∷ row (config "resnet50" 4 ∷ []) 760 1000 4
    ∷ []

abbrev tried : String → ℕ → Combination ℕ
tried variant batch = record {
  variants = variant ∷ [];
  replicas = 1 ∷ [];
  batches = batch ∷ [];
  allocations = [];
}

abbrev all_tried : List (Combination ℕ)
all_tried = tried "resnet18" 1 ∷ tried "resnet18" 4 ∷ tried "resnet50" 1 ∷ tried "resnet50" 4 ∷ []

classifier-tried :
    combinations take_all optimizer unlimited 1 classifier.inference_graph ≡ ok all_tried
unfolding states_program
classifier-tried = refl

classifier-found : (all_states take_all optimizer unlimited 1 classifier).0 ≡ ok classifier_rows
unfolding states_program
classifier-found = refl

combinations_iff_example :
    Listed (tried "resnet50" 4) all_tried
    ↔ IsChoice "base" 1 classifier.inference_graph (tried "resnet50" 4)
combinations_iff_example =
    combinations_iff take_all optimizer unlimited 1 classifier.inference_graph {cs = all_tried} refl
      classifier-tried (tried "resnet50" 4)

all_states_complete_example :
    Settled optimizer unlimited
      (tried "resnet50" 1)
      classifier_rows
      (left_by optimizer unlimited (tried "resnet18" 1 ∷ tried "resnet18" 4 ∷ []) classifier)
all_states_complete_example =
    all_states_complete optimizer unlimited take_all 1 classifier
      (tried "resnet18" 1 ∷ tried "resnet18" 4 ∷ []) (tried "resnet50" 4 ∷ []) (tried "resnet50" 1)
      classifier_rows refl classifier-tried classifier-found

-- Under a load that no configuration carries.
abbrev flooded : Search ℕ
flooded = record unlimited { arrival_rate = 100 }

abbrev no_rows : List (State ℕ)
no_rows = []

gpu_classifier-rows : (all_states take_all optimizer flooded 1 gpu_classifier).0 ≡ ok no_rows
unfolding states_program
gpu_classifier-rows = refl

gpu_classifier-any_gpu : any_gpu gpu_classifier.inference_graph ≡ true
unfolding any_gpu
gpu_classifier-any_gpu = refl

all_states-gpu_example : no_rows ≡ []
all_states-gpu_example =
    all_states-gpu take_all optimizer flooded 1 gpu_classifier no_rows gpu_classifier-any_gpu
      gpu_classifier-rows

-- Where a configuration carries the load, the search raises.
gpu_classifier_raises :
    (all_states take_all optimizer unlimited 1 gpu_classifier).0 ≡ raised value_error
unfolding states_program
gpu_classifier_raises = refl
