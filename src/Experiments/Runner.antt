-- ===== src/Experiments/Runner.antt =====
-- experiments/runner/simulation_runner.py: a simulation from its configuration file.
use ipa_arman.Prelude.{
  ℕ, String, Bool, not, ◌&&◌, List, [], ◌∷◌, map, Option, some, none, if◌then◌else◌, str_eq,
  value_error, key_error, Outcome, ok, raised, ◌>>=◌, or_raise, Dict, insert, lookup, Conversions,
  Runtime,
}
use ipa_arman.Models.Profile.{Regression}
use ipa_arman.Models.Pipeline.{Pipeline}
use ipa_arman.Optimizer.Objective.{Objectives}
use ipa_arman.Optimizer.States.{Combination}
use ipa_arman.Optimizer.Program.{Program}
use ipa_arman.Adapter.Configs.{Config, count}
use ipa_arman.Adapter.Simulation.{Sim}
use ipa_arman.Adapter.Built.{Settings, SimAdapter, new_sim_adapter, run_simulation}
use ipa_arman.LoadTester.Workload.{WorkloadConfig, make_workload}
use ipa_arman.Experiments.Simulated.{PipelineSettings, ProfilingRow, generate_simulated_pipeline}

-- An entry of `config["nodes"]`. The CPU request is text, the other numbers are ints.
pub record NodeSetup : Type 0 where
  pub node_name : String
  pub model_variants : String
  pub max_batch_size : ℕ
  pub cpu_request : String
  pub replicas : ℕ

-- The configuration, whose entries stand with what they are passed to, and the file of accuracies. The
-- accuracies of the pipeline are read from that file, and the entries of `adapter` that the nodes and
-- the pipeline have as well are read there.
pub record RunnerConfig (F : Type 0) : Type 0 where
  pub pipeline_name : String
  pub nodes : List NodeSetup
  pub pipeline : PipelineSettings F
  pub adapter : Settings F
  pub accuracies : Dict String (Dict String (Dict String F))
  pub simulation_mode : Bool
  pub teleport_mode : Bool
  pub workload : WorkloadConfig F

-- `--type-of`
pub data TypeOf : Type 0 where
  experiment adaptation : TypeOf

unfoldable pub node_names_of : List NodeSetup → List String
node_names_of nodes = map (λ (n : NodeSetup). n.node_name) nodes

-- The arguments of `SimAdapter`.
unfoldable pub adapter_settings : {F : Type 0} → RunnerConfig F → Settings F
adapter_settings c = record c.adapter {
  node_names = node_names_of c.nodes;
  allocation_mode = c.pipeline.allocation_mode;
  only_measured_profiles = c.pipeline.only_measured_profiles;
}

module _ {F : Type 0} ⦃r : Runtime F⦄ (texts : Conversions F) where
  -- The nodes are named in their order, so that the entries of a node are those at its position.
  unfoldable pub initial_from : List NodeSetup → Config F → Outcome (Config F)
  initial_from [] config = ok config
  initial_from (n ∷ nodes) config = do
    cpu ← texts.parse_int n.cpu_request
    initial_from nodes (
        insert str_eq n.node_name
          (record {
            cpu = count cpu;
            replicas = n.replicas;
            batch = count n.max_batch_size;
            variant = n.model_variants;
          })
          config)

  unfoldable pub find_initial_config : List NodeSetup → Outcome (Config F)
  find_initial_config nodes = initial_from nodes []

  unfoldable pub check_mode : Bool → Bool → Outcome (Unit {0})
  check_mode simulation teleport =
      if not simulation
      then raised value_error
      else (if teleport && simulation then raised value_error else ok tt)

  module _ (fit : Regression F) (load_profile : ℕ → String → ℕ → Outcome (List (ProfilingRow F)))
      (data_ : String) (solve : Program F → Option ℕ → Outcome (List (Dict String F)))
      (sample : List (Combination F) → Option ℕ → Outcome (List (Combination F)))
      (series_max : List (Objectives F) → Outcome (Objectives F))
      (lstm_predict lstm_call : List ℕ → Outcome F) (forecast : List ℕ → Outcome (F × F)) where
    -- What a run leaves, by its type: nothing, or the simulation at its end.
    unfoldable pub run_as :
        TypeOf → SimAdapter F → List ℕ → Config F → Pipeline F → Outcome (Option (Sim F))
    run_as experiment a workload initial p = ok none
    run_as adaptation a workload initial p =
        run_simulation texts solve sample series_max lstm_predict lstm_call forecast a workload
          initial p
        >>= λ s. ok (some s)

    unfoldable pub main : RunnerConfig F → TypeOf → Outcome (Option (Sim F))
    main c type_of = do
      accuracies ← or_raise (lookup str_eq c.pipeline_name c.accuracies) key_error
      initial ← find_initial_config c.nodes
      p ←
          generate_simulated_pipeline fit load_profile
            (record c.pipeline { pipeline_accuracies = accuracies })
      _ ← check_mode c.simulation_mode c.teleport_mode
      a ← new_sim_adapter (adapter_settings c) p
      made ← make_workload texts data_ none c.workload
      run_as type_of a made.1 initial p
