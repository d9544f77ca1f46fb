-- ===== src/Optimizer/Objective.antt =====
-- optimizer/optimizer.py: the objective, the constraints and the bottlenecks of a configuration.
pub mod Load
pub mod Constraints
pub mod Tests
use ipa_arman.Prelude.{
  ℕ, suc, ◌+◌, String, Bool, true, false, Option, List, [], ◌∷◌, if◌then◌else◌, value_error,
  Outcome, ok, raised, ◌>>=◌, Runtime,
}
use ipa_arman.Models.Task.{Task, throughput_all_replicas}
use ipa_arman.Models.Pipeline.{
  Pipeline, pipeline_accuracy, pipeline_cpu, pipeline_latency, pipeline_sla,
}

-- The options of an optimizer. Its pipeline is the state that the methods thread.
pub record Optimizer : Type 0 where
  pub allocation_mode : String
  pub complete_profile : Bool
  pub only_measured_profiles : Bool
  pub random_sample : Bool
  pub baseline_mode : Option String

-- The weights of the three objectives.
pub record Weights (F : Type 0) : Type 0 where
  pub alpha : F
  pub beta : F
  pub gamma : F

-- The dictionary that `objective` returns.
pub record Objectives (F : Type 0) : Type 0 where
  pub accuracy_objective : F
  pub resource_objective : F
  pub batch_objective : F
  pub objective : F

-- The sum of the batch sizes.
unfoldable pub batch_objective : {F : Type 0} → List (Task F) → ℕ
batch_objective [] = 0
batch_objective (t ∷ ts) = t.batch + batch_objective ts

module _ {F : Type 0} ⦃r : Runtime F⦄ where
  open r use {of_ℕ, sub, mul, lt}

  unfoldable pub objective : Weights F → Pipeline F → Outcome (Objectives F)
  objective w p = do
    accuracy ← pipeline_accuracy p
    resource ← pipeline_cpu p
    let a = mul w.alpha accuracy
    let c = mul w.beta resource
    let b = mul w.gamma (of_ℕ (batch_objective p.inference_graph))
    ok (record {
      accuracy_objective = a;
      resource_objective = c;
      batch_objective = b;
      objective = sub (sub a c) b;
    })

  unfoldable pub can_sustain_load : ℕ → List (Task F) → Outcome Bool
  can_sustain_load arrival_rate [] = ok true
  can_sustain_load arrival_rate (t ∷ ts) = throughput_all_replicas t >>= λ x.
      if lt x (of_ℕ arrival_rate) then ok false else can_sustain_load arrival_rate ts

  unfoldable pub sla_is_met : Pipeline F → Outcome Bool
  sla_is_met p = do latency ← pipeline_latency p; limit ← pipeline_sla p; ok (lt latency limit)

  unfoldable pub constraints : ℕ → Pipeline F → Outcome Bool
  constraints arrival_rate p = do
    met ← sla_is_met p
    if met then can_sustain_load arrival_rate p.inference_graph else ok false

  -- The loop of `find_load_bottlenecks`, from the task `i` on.
  unfoldable pub bottlenecks_from : ℕ → ℕ → List (Task F) → Outcome (List ℕ)
  bottlenecks_from arrival_rate i [] = ok []
  bottlenecks_from arrival_rate i (t ∷ ts) = do
    x ← throughput_all_replicas t
    rest ← bottlenecks_from arrival_rate (suc i) ts
    ok (if lt x (of_ℕ arrival_rate) then i ∷ rest else rest)

  unfoldable pub find_load_bottlenecks : ℕ → List (Task F) → Outcome (List ℕ)
  find_load_bottlenecks arrival_rate graph = do
    sustained ← can_sustain_load arrival_rate graph
    if sustained then raised value_error else bottlenecks_from arrival_rate 0 graph
