-- ===== src/Optimizer/Rows.antt =====
-- optimizer/optimizer.py: the rows that `all_states` records of a pipeline.
use ipa_arman.Prelude.{
  ℕ, String, Bool, true, false, Option, none, some, List, Outcome, ok, ◌>>=◌, traverse, Runtime,
}
use ipa_arman.Models.Task.{
  Task, latency, throughput, throughput_all_replicas, accuracy, measured, cpu, gpu,
  cpu_all_replicas, gpu_all_replicas,
}
use ipa_arman.Models.Pipeline.{
  Pipeline, pipeline_accuracy, pipeline_latency, pipeline_throughput, pipeline_cpu, pipeline_gpu,
}
use ipa_arman.Optimizer.Objective.{Weights, Objectives, objective, batch_objective}

-- The columns `task_i_…` that every state has.
pub record TaskConfig (F : Type 0) : Type 0 where
  pub variant : String
  pub cpu : F
  pub gpu : F
  pub batch : ℕ
  pub replicas : ℕ

-- The columns `task_i_…` of a complete profile.
pub record TaskStats (F : Type 0) : Type 0 where
  pub latency : F
  pub throughput : F
  pub throughput_all_replicas : F
  pub accuracy : F
  pub measured : Bool
  pub cpu_all_replicas : F
  pub gpu_all_replicas : F

-- The columns `pipeline_…` of a complete profile, with the weights and the plain objectives.
pub record PipelineStats (F : Type 0) : Type 0 where
  pub pipeline_accuracy : F
  pub pipeline_latency : F
  pub pipeline_throughput : F
  pub pipeline_cpu : F
  pub pipeline_gpu : F
  pub weights : Weights F
  pub accuracy_objective : F
  pub resource_objective : F
  pub batch_objective : ℕ

-- A row of the data frame.
pub record State (F : Type 0) : Type 0 where
  pub profile : Option (List (TaskStats F) × PipelineStats F)
  pub configs : List (TaskConfig F)
  pub objective : Objectives F

module _ {F : Type 0} ⦃r : Runtime F⦄ where
  unfoldable pub task_config : Task F → Outcome (TaskConfig F)
  task_config t = do
    c ← cpu t
    g ← gpu t
    ok (record {
      variant = t.active_variant;
      cpu = c;
      gpu = g;
      batch = t.batch;
      replicas = t.replicas;
    })

  unfoldable pub task_stats : Task F → Outcome (TaskStats F)
  task_stats t = do
    l ← latency t
    x ← throughput t
    xs ← throughput_all_replicas t
    a ← accuracy t
    m ← measured t
    c ← cpu_all_replicas t
    g ← gpu_all_replicas t
    ok (record {
      latency = l;
      throughput = x;
      throughput_all_replicas = xs;
      accuracy = a;
      measured = m;
      cpu_all_replicas = c;
      gpu_all_replicas = g;
    })

  unfoldable pub pipeline_stats : Weights F → Pipeline F → Outcome (PipelineStats F)
  pipeline_stats w p = do
    a ← pipeline_accuracy p
    l ← pipeline_latency p
    x ← pipeline_throughput p
    c ← pipeline_cpu p
    g ← pipeline_gpu p
    ok (record {
      pipeline_accuracy = a;
      pipeline_latency = l;
      pipeline_throughput = x;
      pipeline_cpu = c;
      pipeline_gpu = g;
      weights = w;
      accuracy_objective = a;
      resource_objective = c;
      batch_objective = batch_objective p.inference_graph;
    })

  unfoldable pub complete_stats :
      Bool → Weights F → Pipeline F → Outcome (Option (List (TaskStats F) × PipelineStats F))
  complete_stats false w p = ok none
  complete_stats true w p = do
    each ← traverse task_stats p.inference_graph
    whole ← pipeline_stats w p
    ok (some (each, whole))

  -- The dictionary of a configuration, read off the pipeline as it stands.
  unfoldable pub state_of : Bool → Weights F → Pipeline F → Outcome (State F)
  state_of complete w p = do
    profile ← complete_stats complete w p
    configs ← traverse task_config p.inference_graph
    o ← objective w p
    ok (record { profile = profile; configs = configs; objective = o })
