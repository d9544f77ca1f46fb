-- ===== src/Experiments/RunnerTests.antt =====
-- A run of the simulation over a static load, from its configuration.
use ipa_arman.Prelude.{
  ℕ, Bool, String, ◌≡◌, refl, true, false, List, [], ◌∷◌, map, Option, none, some, value_error,
  Outcome, ok, raised, All, length,
}
use ipa_arman.Models.Pipeline.{Pipeline}
use ipa_arman.Models.Profile.Tests.{fit}
use ipa_arman.Optimizer.States.Tests.{take_all, classifier}
use ipa_arman.Optimizer.Program.Tests.{solve, best}
use ipa_arman.Adapter.Predictor.{simulated_load}
use ipa_arman.Adapter.Monitoring.{Step}
use ipa_arman.Adapter.Simulation.{Sim, range_by}
use ipa_arman.Adapter.Simulation.Steps.{Observed}
use ipa_arman.Adapter.Tests.{texts}
use ipa_arman.Adapter.LoopTests.{no_network, no_forecast}
use ipa_arman.Adapter.Built.{SimAdapter, setup_of, new_sim_adapter}
use ipa_arman.Adapter.Built.Tests.{simulation_program, settings}
use ipa_arman.LoadTester.Workload.{static}
use ipa_arman.LoadTester.Tests.{load_program}
use ipa_arman.LoadTester.Windows.{IsLoad}
use ipa_arman.Experiments.Simulated.{ProfilingRow, same_load}
use ipa_arman.Experiments.Tests.{simulated_program, row}
use ipa_arman.Experiments.Runner.{
  RunnerConfig, adaptation, node_names_of, adapter_settings, initial_from, find_initial_config,
  check_mode, run_as, main,
}
use ipa_arman.Experiments.Loads.{main-Observed}
use ipa_arman.Samples.{milli}

unfoldable runner_program : Unit {0}
unfolding simulation_program simulated_program load_program node_names_of adapter_settings
    initial_from find_initial_config check_mode run_as main
runner_program = tt

abbrev table : List (ProfilingRow ℕ)
table =
    row "resnet18" 1 1 50 20_000
    ∷ row "resnet18" 1 4 120 33_000
    ∷ row "resnet50" 1 1 80 12_000
    ∷ row "resnet50" 1 4 200 20_000
    ∷ []

abbrev load_profile : ℕ → String → ℕ → Outcome (List (ProfilingRow ℕ))
load_profile series model_name load = ok table

abbrev config : RunnerConfig ℕ
config = record {
  pipeline_name = "image";
  nodes =
      record {
        node_name = "classify";
        model_variants = "resnet18";
        max_batch_size = 1;
        cpu_request = "|";
        replicas = 1;
      }
      ∷ [];
  pipeline = record {
    number_tasks = 1;
    profiling_series = 5 ∷ [];
    model_names = "classify" ∷ [];
    task_names = "classify" ∷ [];
    initial_active_model = "resnet18" ∷ [];
    initial_cpu_allocation = 1000 ∷ [];
    initial_replica = 1 ∷ [];
    initial_batch = 1 ∷ [];
    allocation_mode = "base";
    threshold = 5;
    sla_factor = 5000;
    accuracy_method = "multiply";
    normalize_accuracy = false;
    pipeline_accuracies = [];
    only_measured_profiles = true;
    profiling_load = same_load 1;
  };
  adapter = settings;
  accuracies = ("image", ("classify", ("resnet18", 70_000) ∷ ("resnet50", 76_000) ∷ []) ∷ []) ∷ [];
  simulation_mode = true;
  teleport_mode = false;
  workload = static 7 5;
}

abbrev run : RunnerConfig ℕ → Outcome (Option (Sim ℕ))
run c =
    main texts fit load_profile "" solve take_all best no_network no_network no_forecast c
      adaptation

-- In teleport mode nothing is simulated.
run-teleport : run (record config { teleport_mode = true }) ≡ raised value_error
unfolding runner_program
run-teleport = refl

abbrev simulates : Outcome (Option (Sim ℕ)) → Bool
simulates (ok (some s)) = true
simulates (ok none) = false
simulates (raised e) = false

abbrev end_of : Sim ℕ → Outcome (Option (Sim ℕ)) → Sim ℕ
end_of s (ok (some t)) = t
end_of s (ok none) = s
end_of s (raised e) = s

simulates-eq :
    (s : Sim ℕ) (m : Outcome (Option (Sim ℕ))) → simulates m ≡ true → m ≡ ok (some (end_of s m))
simulates-eq s (ok (some t)) h = refl
simulates-eq s (ok none) h = cc
simulates-eq s (raised e) h = cc

abbrev before : Sim ℕ
before = record {
  time_interval = 0;
  old_config = none;
  report = record { timesteps = []; recieved_load = none };
  pipeline = classifier;
}

abbrev ended : Sim ℕ
ended = end_of before (run config)

run-simulates : simulates (run config) ≡ true
unfolding runner_program
run-simulates = refl

ended-loads :
    map (λ (e : ℕ × Step ℕ). e.1.monitored_load) ended.report.timesteps
    ≡ (7 ∷ 7 ∷ []) ∷ (7 ∷ 7 ∷ 7 ∷ 7 ∷ []) ∷ []
unfolding runner_program
ended-loads = refl

main-Observed_example :
    (workload : List ℕ) × (p : Pipeline ℕ) × (a : SimAdapter ℕ) × (timesteps : List ℕ) × IsLoad
      texts "" none config.workload workload
    × (new_sim_adapter (adapter_settings config) p ≡ ok a)
    × (range_by 2 (length workload) 2 ≡ ok timesteps)
    × (map (λ (e : ℕ × Step ℕ). e.0) ended.report.timesteps ≡ timesteps)
    × All
        (Observed
          (simulated_load texts no_network no_network no_forecast a.predictor)
          (setup_of (adapter_settings config))
          workload)
        ended.report.timesteps
main-Observed_example =
    main-Observed texts fit load_profile "" solve take_all best no_network no_network no_forecast
      config {sim = ended} (simulates-eq before (run config) run-simulates)
