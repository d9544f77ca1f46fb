-- ===== src/Adapter/Built/Tests.antt =====
-- A simulation of the sample pipeline over a short workload.
use ipa_arman.Prelude.{
  ℕ, Outcome, ◌≡◌, refl, true, List, [], ◌∷◌, map, none, some, ok, raised, index_error, insert,
  keep, slice, range_from, traverse,
}
use ipa_arman.Models.Pipeline.{
  stage_wise_slas, stage_wise_latencies, stage_wise_accuracies, stage_wise_throughput,
}
use ipa_arman.Optimizer.States.Tests.{take_all, classifier}
use ipa_arman.Optimizer.Program.Tests.{gurobi_program, solve, best}
use ipa_arman.Adapter.Configs.{
  Config, count, number, parse_tasks, save_nodes, output_parser, choose_closest,
  saving_config_builder,
}
use ipa_arman.Adapter.Predictor.{
  maximum, reactive, simulated_load, kind_of, new_predictor, largest, max_of, aggregate, call_model,
  main_model, model_output,
}
use ipa_arman.Adapter.Monitoring.{Step, first_objective}
use ipa_arman.Adapter.Simulation.{
  Sim, range_by, update_load, report_pass, choose_new, next_config, saved_config, settle,
  simulate_once, simulate, start_simulation,
}
use ipa_arman.Adapter.Tests.{texts, adapter_program}
use ipa_arman.Adapter.LoopTests.{no_network, no_forecast}
use ipa_arman.Adapter.Built.{
  Settings, SimAdapter, storage_of, optimizer_of, request_for, setup_of, new_sim_adapter, plan,
  run_simulation,
}
use ipa_arman.Samples.{from_ok, returned, returned-eq, milli}

unfoldable pub simulation_program : Unit {0}
unfolding gurobi_program adapter_program parse_tasks save_nodes stage_wise_slas kind_of
    new_predictor largest max_of aggregate call_model main_model model_output simulated_load
    first_objective range_by update_load report_pass choose_new next_config saved_config settle
    simulate_once simulate start_simulation slice range_from traverse insert keep output_parser
    choose_closest saving_config_builder optimizer_of request_for setup_of new_sim_adapter plan
    run_simulation stage_wise_latencies stage_wise_accuracies stage_wise_throughput
simulation_program = tt

-- A list of flags that is too short.
short_storage : storage_of ("a" ∷ "b" ∷ []) (true ∷ []) [] ≡ raised index_error
unfolding storage_of
short_storage = refl

abbrev pub settings : Settings ℕ
settings = record {
  node_names = "classify" ∷ [];
  adaptation_interval = 2;
  optimization_method = "gurobi";
  allocation_mode = "base";
  only_measured_profiles = true;
  scaling_cap = 2;
  batching_cap = some 8;
  weights = record { alpha = 1000; beta = 1000; gamma = 1 };
  num_state_limit = some 1;
  monitoring_duration = 1;
  predictor_type = "max";
  baseline_mode = none;
  backup_predictor_type = "reactive";
  backup_predictor_duration = 0;
}

abbrev default_sim : SimAdapter ℕ
default_sim = record {
  settings = settings;
  predictor = record {
    predictor_type = maximum;
    backup_predictor = reactive;
    backup_predictor_duration = 0;
    predictor_margin = 0;
  };
  report = record { timesteps = []; recieved_load = none };
}

built : new_sim_adapter settings classifier ≡ ok default_sim
unfolding simulation_program
built = refl

abbrev workload : List ℕ
workload = 5 ∷ 7 ∷ 9 ∷ 12 ∷ 8 ∷ []

abbrev initial : Config ℕ
initial =
    ("classify", record { cpu = number 1000; replicas = 1; batch = count 1; variant = "resnet18" })
    ∷ []

abbrev ran : Outcome (Sim ℕ)
ran =
    run_simulation texts solve take_all best no_network no_network no_forecast default_sim workload
      initial classifier

abbrev before : Sim ℕ
before = record {
  time_interval = 0;
  old_config = none;
  report = default_sim.report;
  pipeline = classifier;
}

-- The end of the run, with a state in place of an exception.
abbrev ended : Sim ℕ
ended = from_ok before ran

ran-returned : returned ran ≡ true
unfolding simulation_program
ran-returned = refl

ended-ok : ran ≡ ok ended
ended-ok = returned-eq before ran ran-returned

ended-loads : map (λ (e : ℕ × Step ℕ). e.1.predicted_load) ended.report.timesteps ≡ 7 ∷ 12 ∷ []
unfolding simulation_program
ended-loads = refl
