-- ===== src/Experiments/Fake.antt =====
-- experiments/utils/simulation_operations.py: `generate_fake_pipeline`, which trims or fills up a
-- pipeline to a number of tasks and of variants.
use ipa_arman.Prelude.{
  ℕ, zero, suc, ◌+◌, ◌-◌, String, List, [], ◌∷◌, map, some, ltb, if◌then◌else◌, value_error,
  index_error, Outcome, ok, raised, ◌>>=◌, traverse, length, for_each, range_from, join, Dict,
  Runtime,
}
use ipa_arman.Models.Profile.{Profile, Model, Regression, get_measured_throughput}
use ipa_arman.Models.Task.{
  Task, variant_names, num_variants, get_all_models_by_name, remove_model_profiles_by_name,
  add_model_profiles, variants_accuracies_normalized,
}
use ipa_arman.Models.Switch.{model_switch}
use ipa_arman.Models.Pipeline.{Pipeline, num_nodes, add_task, remove_task}
use ipa_arman.Experiments.Simulated.{
  PipelineSettings, ProfilingRow, generate_simulated_pipeline, at_index,
}

-- `xs[len(xs) - 1 - i]`, which counts from the end where it is negative.
unfoldable pub from_end {ℓ} : {A : Type ℓ} → List A → ℕ → Outcome A
from_end xs i =
    if ltb i (length xs)
    then at_index xs (length xs - 1 - i)
    else (if ltb i (length xs + length xs)
        then at_index xs (length xs + length xs - 1 - i)
        else raised index_error)

-- `"s"` that is added to for each new name: `s` stands at the name of the turn.
unfoldable pub sugar_char : ℕ → String
sugar_char zero = "s"
sugar_char (suc i) = join (sugar_char i) "s"

module _ {F : Type 0} ⦃r : Runtime F⦄ where
  open r use {of_ℕ, add, sub, div, lt}

  -- 0.000001, which each turn adds once more.
  unfoldable pub sugar_val : ℕ → F
  sugar_val zero = div (of_ℕ 1) (of_ℕ 1_000_000)
  sugar_val (suc i) = add (sugar_val i) (div (of_ℕ 1) (of_ℕ 1_000_000))

  -- The first key with the largest value.
  unfoldable pub largest_key : String → F → Dict String F → String
  largest_key name best [] = name
  largest_key name best ((other, x) ∷ rest) =
      if lt best x then largest_key other x rest else largest_key name best rest

  unfoldable pub max_key : Dict String F → Outcome String
  max_key [] = raised value_error
  max_key ((name, x) ∷ rest) = ok (largest_key name x rest)

  -- The removal of one variant, and the switch to the first that is left.
  unfoldable pub trim_once : ℕ → Task F → Outcome (Task F)
  trim_once i t = do
    name ← from_end (variant_names t) i
    let t1 = remove_model_profiles_by_name name t
    first ← at_index (variant_names t1) 0
    let (done, t2) = model_switch first t1
    done >>= λ u. ok t2

  unfoldable pub trim : List ℕ → Task F → Outcome (Task F)
  trim [] t = ok t
  trim (i ∷ turns) t = trim_once i t >>= λ t'. trim turns t'

  unfoldable pub sweeten_profile : F → Profile F → Outcome (Profile F)
  sweeten_profile sugar p = do
    x ← get_measured_throughput p
    ok (record p { latency = add p.latency sugar; measured_throughput = some (sub x sugar) })

  -- A copy of a model of the heaviest variant, under a new name.
  unfoldable pub sweeten : ℕ → Model F → Outcome (Model F)
  sweeten i m = do
    profiles ← traverse (sweeten_profile (sugar_val i)) m.profiles
    ok (record m {
      name = join m.name (sugar_char i);
      accuracy = add m.accuracy (sugar_val i);
      profiles = profiles;
    })

  unfoldable pub fill_up : String → List ℕ → Task F → Outcome (Task F)
  fill_up heaviest [] t = ok t
  fill_up heaviest (i ∷ turns) t = do
    models ← traverse (sweeten i) (get_all_models_by_name heaviest t)
    fill_up heaviest turns (add_model_profiles models t)

  -- The body of the loop over the tasks.
  unfoldable pub fit_task : ℕ → Task F → Outcome (Task F)
  fit_task model_num t =
      if ltb model_num (num_variants t)
      then trim (range_from 0 (num_variants t - model_num)) t
      else (if ltb (num_variants t) model_num
          then (max_key (variants_accuracies_normalized t) >>= λ heaviest.
              fill_up heaviest (range_from 0 (model_num - num_variants t)) t)
          else ok t)

  unfoldable pub remove_tasks : ℕ → Pipeline F → Outcome (Pipeline F)
  remove_tasks zero p = ok p
  remove_tasks (suc n) p = remove_task p >>= λ p'. remove_tasks n p'

  unfoldable pub copy_task : ℕ → Pipeline F → Outcome (Pipeline F)
  copy_task i p = do
    t ← at_index p.inference_graph 0
    ok (add_task (record t { name = join t.name (sugar_char i) }) p)

  unfoldable pub copy_tasks : List ℕ → Pipeline F → Outcome (Pipeline F)
  copy_tasks [] p = ok p
  copy_tasks (i ∷ turns) p = copy_task i p >>= λ p'. copy_tasks turns p'

  unfoldable pub generate_fake_pipeline : Pipeline F → ℕ → ℕ → Outcome (Pipeline F)
  generate_fake_pipeline base model_num task_num = do
    graph ← traverse (fit_task model_num) base.inference_graph
    trimmed ← remove_tasks (num_nodes base - task_num) (record base { inference_graph = graph })
    copy_tasks (range_from 0 (task_num - num_nodes trimmed)) trimmed

  -- For each number of tasks and each number of models, each up to the end of its range.
  unfoldable pub generate_fake_simulated_pipelines :
      Regression F
      → (ℕ → String → ℕ → Outcome (List (ProfilingRow F)))
      → PipelineSettings F
      → (models_num_range tasks_num_range : ℕ × ℕ) → Outcome (List (Pipeline F))
  generate_fake_simulated_pipelines fit load_profile s (models_start, models_end)
        (tasks_start, tasks_end) =
      do
        base ← generate_simulated_pipeline fit load_profile s
        traverse (λ (n : ℕ × ℕ). generate_fake_pipeline base n.1 n.0)
            (for_each
              (λ task_num.
                map (λ model_num. (task_num, model_num))
                  (range_from models_start (models_end - models_start)))
              (range_from tasks_start (tasks_end - tasks_start)))
