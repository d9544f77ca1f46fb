-- ===== src/Models/Pipeline.antt =====
-- optimizer/models.py: a pipeline, the linear graph of its tasks, and what it adds up over them.
use mathlib.Core.List.{foldl}
use ipa_arman.Prelude.{
  ℕ, String, Bool, true, false, not, ◌&&◌, List, [], ◌∷◌, ◌++◌, if◌then◌else◌, map, ◌==◌, str_eq,
  value_error, key_error, index_error, unbound_local_error, zero_division_error, Outcome, ok,
  raised, ◌>>=◌, or_raise, traverse, list_map, length, Dict, lookup, insert, values, Runtime, sum,
}
use ipa_arman.Models.Task.{
  Task, variant_names, latency, throughput_all_replicas, accuracy, cpu_all_replicas,
  gpu_all_replicas, variants_accuracies, variants_accuracies_normalized, sla,
}

pub record Pipeline (F : Type 0) : Type 0 where
  pub inference_graph : List (Task F)
  pub gpu_mode : Bool
  pub sla_factor : F
  pub accuracy_method : String
  pub normalize_accuracy : Bool

-- Whether some task of the graph is on GPU.
unfoldable pub any_gpu : {F : Type 0} → List (Task F) → Bool
any_gpu [] = false
any_gpu (t ∷ ts) = if t.gpu_mode then true else any_gpu ts

-- `Pipeline.__init__`
unfoldable pub new_pipeline :
    {F : Type 0} → List (Task F) → Bool → F → String → Bool → Outcome (Pipeline F)
new_pipeline graph gpu_mode factor method normalize =
    if not gpu_mode && any_gpu graph
    then raised value_error
    else ok (record {
      inference_graph = graph;
      gpu_mode = gpu_mode;
      sla_factor = factor;
      accuracy_method = method;
      normalize_accuracy = normalize;
    })

unfoldable pub add_task : {F : Type 0} → Task F → Pipeline F → Pipeline F
add_task t p = record p { inference_graph = p.inference_graph ++ (t ∷ []) }

-- A list without its last item.
unfoldable pub but_last {ℓ} : {A : Type ℓ} → List A → List A
but_last [] = []
but_last (x ∷ []) = []
but_last (x ∷ y ∷ ys) = x ∷ but_last (y ∷ ys)

-- `pop` raises on an empty list.
unfoldable pub remove_task : {F : Type 0} → Pipeline F → Outcome (Pipeline F)
remove_task p = elim p.inference_graph [
  | [] ↦ raised index_error
  | t ∷ ts ↦ ok (record p { inference_graph = but_last (t ∷ ts) })
]

module _ {F : Type 0} where
  unfoldable pub stage_wise_replicas : Pipeline F → List ℕ
  stage_wise_replicas p = map (λ (t : Task F). t.replicas) p.inference_graph

  unfoldable pub stage_wise_task_names : Pipeline F → List String
  stage_wise_task_names p = map (λ (t : Task F). t.name) p.inference_graph

  unfoldable pub num_nodes : Pipeline F → ℕ
  num_nodes p = length p.inference_graph

module _ {F : Type 0} ⦃r : Runtime F⦄ where
  open r use {of_ℕ, add, mul, div, lt}

  unfoldable pub stage_wise_throughput : Pipeline F → Outcome (List F)
  stage_wise_throughput p = list_map throughput_all_replicas p.inference_graph

  unfoldable pub stage_wise_latencies : Pipeline F → Outcome (List F)
  stage_wise_latencies p = list_map latency p.inference_graph

  unfoldable pub stage_wise_accuracies : Pipeline F → Outcome (List F)
  stage_wise_accuracies p = list_map accuracy p.inference_graph

  -- The property `sla`. `sum` over a `map`, which an escaping StopIteration would end as well.
  unfoldable pub pipeline_sla : Pipeline F → Outcome F
  pipeline_sla p = do slas ← list_map sla p.inference_graph; ok (sum slas)

  -- `dict(map(…))`, keyed by the names of the tasks.
  unfoldable pub stage_wise_slas : Pipeline F → Outcome (Dict String F)
  stage_wise_slas p = do
    pairs ← list_map (λ (t : Task F). sla t >>= λ s. ok (t.name, s)) p.inference_graph
    ok (foldl (λ (d : Dict String F) (e : String × F). insert str_eq e.0 e.1 d) [] pairs)

  -- One entry of `stage_wise_cpu`.
  unfoldable pub cpu_of : Task F → Outcome F
  cpu_of t = if not t.gpu_mode then cpu_all_replicas t else ok (of_ℕ 0)

  unfoldable pub gpu_of : Task F → Outcome F
  gpu_of t = if t.gpu_mode then gpu_all_replicas t else ok (of_ℕ 0)

  unfoldable pub stage_wise_cpu : Pipeline F → Outcome (List F)
  stage_wise_cpu p = traverse cpu_of p.inference_graph

  unfoldable pub stage_wise_gpu : Pipeline F → Outcome (List F)
  stage_wise_gpu p = traverse gpu_of p.inference_graph

  unfoldable pub stage_wise_available_variants : Pipeline F → Dict String (List String)
  stage_wise_available_variants p =
      foldl
        (λ (d : Dict String (List String)) (t : Task F). insert str_eq t.name (variant_names t) d)
        [] p.inference_graph

  -- `pipeline_cpu`, and `cpu_usage`, which has the same body.
  unfoldable pub pipeline_cpu : Pipeline F → Outcome F
  pipeline_cpu p = do xs ← stage_wise_cpu p; ok (sum xs)

  unfoldable pub pipeline_gpu : Pipeline F → Outcome F
  pipeline_gpu p = do xs ← stage_wise_gpu p; ok (sum xs)

  unfoldable pub pipeline_latency : Pipeline F → Outcome F
  pipeline_latency p = do xs ← stage_wise_latencies p; ok (sum xs)

  unfoldable pub smallest : F → List F → F
  smallest m [] = m
  smallest m (x ∷ xs) = smallest (if lt x m then x else m) xs

  -- `min` raises on an empty list.
  unfoldable pub min_of : List F → Outcome F
  min_of [] = raised value_error
  min_of (x ∷ xs) = ok (smallest x xs)

  unfoldable pub pipeline_throughput : Pipeline F → Outcome F
  pipeline_throughput p = do xs ← stage_wise_throughput p; min_of xs

  -- The accuracy that a task contributes: of its active variant, in the table of its variants.
  unfoldable pub task_accuracy : Bool → Task F → Outcome F
  task_accuracy normalize t =
      or_raise
        (lookup str_eq t.active_variant
          (if normalize then variants_accuracies_normalized t else variants_accuracies t))
        key_error

  -- `tasks_accuracies`, keyed by the active variants.
  unfoldable pub tasks_accuracies : Bool → List (Task F) → Dict String F → Outcome (Dict String F)
  tasks_accuracies normalize [] d = ok d
  tasks_accuracies normalize (t ∷ ts) d = task_accuracy normalize t >>= λ a.
      tasks_accuracies normalize ts (insert str_eq t.active_variant a d)

  -- What the loop variable `accuracy` holds when the method is none of the three.
  unfoldable pub last_accuracy : Bool → List (Task F) → Outcome F
  last_accuracy normalize [] = raised unbound_local_error
  last_accuracy normalize (t ∷ []) = task_accuracy normalize t
  last_accuracy normalize (t ∷ u ∷ ts) = last_accuracy normalize (u ∷ ts)

  unfoldable pub pipeline_accuracy : Pipeline F → Outcome F
  pipeline_accuracy p = do
    d ← tasks_accuracies p.normalize_accuracy p.inference_graph []
    if str_eq p.accuracy_method "multiply"
        then ok (foldl mul (of_ℕ 1) (values d))
        else (if str_eq p.accuracy_method "sum"
            then ok (sum (values d))
            else (if str_eq p.accuracy_method "average"
                then (if num_nodes p == 0
                    then raised zero_division_error
                    else ok (div (sum (values d)) (of_ℕ (num_nodes p))))
                else last_accuracy p.normalize_accuracy p.inference_graph))
