-- ===== src/Adapter/Built.antt =====
-- optimizer/adapter.py and optimizer/sim_adapter.py: the adapters as their constructors build them,
-- with their loops over the predictor and the optimizer.
pub mod Reports
pub mod Tests
use ipa_arman.Prelude.{
  ℕ, String, Bool, false, List, [], ◌∷◌, Option, none, index_error, Outcome, ok, raised, ◌>>=◌,
  Dict, insert, str_eq, Method, Conversions, Runtime,
}
use ipa_arman.Models.Pipeline.{Pipeline, pipeline_sla, stage_wise_slas}
use ipa_arman.Optimizer.Objective.{Optimizer, Objectives, Weights}
use ipa_arman.Optimizer.Parameters.{base_parameters}
use ipa_arman.Optimizer.States.{Combination}
use ipa_arman.Optimizer.Rows.{State}
use ipa_arman.Optimizer.Program.{Program}
use ipa_arman.Optimizer.Program.Gurobi.{Request, optimize}
use ipa_arman.Adapter.Configs.{Config}
use ipa_arman.Adapter.Predictor.{Predictor, new_predictor, predict, simulated_load}
use ipa_arman.Adapter.Cluster.{Kube}
use ipa_arman.Adapter.Monitoring.{Report, new_report}
use ipa_arman.Adapter.Passes.{Options, Round, Loop, Verdict}
use ipa_arman.Adapter.Rounds.{start_adaptation}
use ipa_arman.Adapter.Simulation.{Setup, Sim, SimReport, start_simulation}

-- The arguments of both constructors, but the pipeline and its name.
pub record Settings (F : Type 0) : Type 0 where
  pub node_names : List String
  pub adaptation_interval : ℕ
  pub optimization_method : String
  pub allocation_mode : String
  pub only_measured_profiles : Bool
  pub scaling_cap : ℕ
  pub batching_cap : Option ℕ
  pub weights : Weights F
  pub num_state_limit : Option ℕ
  pub monitoring_duration : ℕ
  pub predictor_type : String
  pub baseline_mode : Option String
  pub backup_predictor_type : String
  pub backup_predictor_duration : ℕ

-- The further arguments of `Adapter`.
pub record ClusterSettings : Type 0 where
  pub from_storage : List Bool
  pub central_queue : Bool
  pub predictor_margin : ℕ
  pub teleport_mode : Bool

-- An adapter that plans with its predictor.
pub record Adapter (F : Type 0) : Type 0 where
  pub settings : Settings F
  pub options : Options
  pub predictor : Predictor
  pub report : Report F

pub record SimAdapter (F : Type 0) : Type 0 where
  pub settings : Settings F
  pub predictor : Predictor
  pub report : SimReport F

-- `from_storage` by the name of the node. A list that is too short raises.
unfoldable pub storage_of : List String → List Bool → Dict String Bool → Outcome (Dict String Bool)
storage_of [] _ d = ok d
storage_of (name ∷ names) [] d = raised index_error
storage_of (name ∷ names) (flag ∷ others) d = storage_of names others (insert str_eq name flag d)

module _ {F : Type 0} where
  -- The optimizer that both constructors make.
  unfoldable pub optimizer_of : Settings F → Optimizer
  optimizer_of s = record {
    allocation_mode = s.allocation_mode;
    complete_profile = false;
    only_measured_profiles = s.only_measured_profiles;
    random_sample = false;
    baseline_mode = s.baseline_mode;
  }

  -- The arguments that the loops pass to `optimize`.
  unfoldable pub request_for : Settings F → ℕ → Request F
  request_for s load = record {
    scaling_cap = s.scaling_cap;
    batching_cap = s.batching_cap;
    weights = s.weights;
    arrival_rate = load;
    num_state_limit = s.num_state_limit;
  }

  -- What the loop of the simulation reads.
  unfoldable pub setup_of : Settings F → Setup
  setup_of s = record {
    node_names = s.node_names;
    adaptation_interval = s.adaptation_interval;
    monitoring_duration = s.monitoring_duration;
  }

module _ {F : Type 0} ⦃r : Runtime F⦄ where
  -- `Adapter.__init__`. The workload is the argument of the loop.
  unfoldable pub new_adapter :
      Settings F → ClusterSettings → Option (List ℕ) → Pipeline F → Outcome (Adapter F)
  new_adapter s c workload p = do
    sla ← pipeline_sla p
    predictor ←
        new_predictor s.predictor_type s.backup_predictor_type s.backup_predictor_duration
          c.predictor_margin
    storage ← storage_of s.node_names c.from_storage []
    ok (record {
      settings = s;
      options = record {
        nodes = record {
          node_names = s.node_names;
          central_queue = c.central_queue;
          from_storage = storage;
        };
        adaptation_interval = s.adaptation_interval;
        monitoring_duration = s.monitoring_duration;
        teleport_mode = c.teleport_mode;
        workload = workload;
      };
      predictor = predictor;
      report = new_report sla;
    })

  -- `SimAdapter.__init__`. The three properties are read for the metadata of the report; the
  -- predictor of the simulation has no margin.
  unfoldable pub new_sim_adapter : Settings F → Pipeline F → Outcome (SimAdapter F)
  new_sim_adapter s p = do
    _ ← pipeline_sla p
    _ ← base_parameters p.gpu_mode p.inference_graph
    _ ← stage_wise_slas p
    predictor ← new_predictor s.predictor_type s.backup_predictor_type s.backup_predictor_duration 0
    ok (record {
      settings = s;
      predictor = predictor;
      report = record { timesteps = []; recieved_load = none };
    })

  module _ (texts : Conversions F) (solve : Program F → Option ℕ → Outcome (List (Dict String F)))
      (sample : List (Combination F) → Option ℕ → Outcome (List (Combination F)))
      (series_max : List (Objectives F) → Outcome (Objectives F)) where
    -- `self.optimizer.optimize` in the loops.
    unfoldable pub plan : Settings F → ℕ → Method (Pipeline F) (List (State F))
    plan s load =
        optimize texts solve sample series_max (optimizer_of s) s.optimization_method
          (request_for s load)

    module _ (lstm_predict lstm_call : List ℕ → Outcome F)
        (forecast : List ℕ → Outcome (F × F)) where
      -- `Adapter.start_adaptation`
      unfoldable pub run_adapter :
          {K : Type 0}
          → Kube K
          → Adapter F
          → List (Bool × Bool)
          → List (Round K)
          → Pipeline F
          → K
          → Outcome (Option (Verdict × Loop F K))
      run_adapter kube a polls rounds p k =
          start_adaptation texts kube (predict texts lstm_predict lstm_call forecast a.predictor)
            (plan a.settings) a.options polls rounds p a.report k

      -- `SimAdapter.start_adaptation`
      unfoldable pub run_simulation :
          SimAdapter F → List ℕ → Config F → Pipeline F → Outcome (Sim F)
      run_simulation a workload initial_config p =
          start_simulation texts (simulated_load texts lstm_predict lstm_call forecast a.predictor)
            (plan a.settings) (setup_of a.settings) workload initial_config a.report p
