-- ===== src/Adapter/LoopTests.antt =====
-- Passes of the adapter's loop on a sample cluster, and a choice of the simulation.
use ipa_arman.Prelude.{
  Method, list_map, insert, traverse, slice, range_from, get_elem?, ◌/◌, ◌≤◌, ℕ, String, ◌≡◌, refl,
  true, false, List, [], ◌∷◌, ok, Outcome, some, none,
}
use ipa_arman.Samples.{milli, from_ok, returned, returned-eq}
use ipa_arman.Models.Pipeline.{
  Pipeline, stage_wise_latencies, stage_wise_accuracies, stage_wise_throughput,
}
use ipa_arman.Optimizer.Rows.{State}
use ipa_arman.Adapter.Cluster.{extract_nodes, extract_current_config}
use ipa_arman.Models.Task.{
  latency, model_latency, active_profile, active_model, find_profile, accuracy,
  throughput_all_replicas, throughput,
}
use ipa_arman.Models.Profile.{profile_throughput, get_measured_throughput}
use ipa_arman.Optimizer.States.{all_states, Search}
use ipa_arman.Optimizer.States.Tests.{take_all, optimizer, search, classifier}
use ipa_arman.Adapter.Configs.{Config, saving_config_builder, save_nodes}
use ipa_arman.Adapter.Predictor.{Predictor, reactive, maximum, predict, aggregate, max_of, largest}
use ipa_arman.Adapter.Predictor.Windows.{aggregate_lem}
use ipa_arman.Adapter.Monitoring.{Step, new_report, adaptation_step_report}
use ipa_arman.Adapter.Rounds.{adapt, report_initial}
use ipa_arman.Adapter.Passes.{Options, Round, Loop, save_config}
use ipa_arman.Adapter.Rounds.Times.{IsTimed, Extends, adapt-report_initial-IsTimed}
use ipa_arman.Adapter.Simulation.{choose_new}
use ipa_arman.Adapter.Simulation.Batches.{with_batches, choose_new-batches}
use ipa_arman.Adapter.Tests.{
  adapter_program, Store, texts, kube, nodes, store, candidate, candidates,
}

-- All that the start of the loop unfolds.
unfoldable loop_program : Unit {0}
unfolding adapter_program extract_nodes list_map latency model_latency active_profile active_model
    find_profile accuracy throughput_all_replicas throughput profile_throughput
    get_measured_throughput report_initial new_report adaptation_step_report save_config
    saving_config_builder save_nodes stage_wise_latencies stage_wise_accuracies
    stage_wise_throughput extract_current_config insert
loop_program = tt

abbrev options : Options
options = record {
  nodes = nodes;
  adaptation_interval = 10;
  monitoring_duration = 1;
  teleport_mode = false;
  workload = none;
}

abbrev first_step : Step ℕ
first_step = record {
  config = none;
  objective = none;
  time_interval = 0;
  monitored_load = 0 ∷ [];
  predicted_load = 0;
}

abbrev started : Loop ℕ Store
started = record {
  workload_timestep = none;
  time_interval = 0;
  timestep = 0;
  rps_series = none;
  saved = [];
  changed = none;
  report = record {
    change_successful = some (false ∷ []);
    timesteps = (0, first_step) ∷ [];
    sla = 1000;
    recieved_load = none;
  };
  pipeline = classifier;
  cluster = store;
}

abbrev answers : List ℕ → Round Store
answers loads = record {
  drift = λ k. k;
  up = true;
  up_again = true;
  loads = some loads;
  all_loads = none;
}

abbrev rounds : List (Round Store)
rounds = answers (5 ∷ 7 ∷ []) ∷ answers (9 ∷ 12 ∷ []) ∷ []

abbrev predictor : Predictor
predictor = record {
  predictor_type = maximum;
  backup_predictor = reactive;
  backup_predictor_duration = 2;
  predictor_margin = 10;
}

abbrev pub no_network : List ℕ → Outcome ℕ
no_network xs = ok 0

abbrev pub no_forecast : List ℕ → Outcome (ℕ × ℕ)
no_forecast xs = ok (0, 0)

abbrev planned : List ℕ → Outcome ℕ
planned = predict texts no_network no_network no_forecast predictor

abbrev search_for : ℕ → Search ℕ
search_for load = record search { arrival_rate = load }

abbrev search_all : ℕ → Method (Pipeline ℕ) (List (State ℕ))
search_all load = all_states take_all optimizer (search_for load) 1

-- The loop as it starts on the sample cluster.
abbrev at_start : Outcome (Loop ℕ Store)
at_start = report_initial texts kube planned search_all options classifier (new_report 1000) store

at_start-returned : returned at_start ≡ true
unfolding loop_program
at_start-returned = refl

abbrev first_loop : Loop ℕ Store
first_loop = from_ok started at_start

adapt-report_initial-IsTimed_example :
    IsTimed options (adapt texts kube planned search_all options rounds first_loop).1
    × Extends first_loop (adapt texts kube planned search_all options rounds first_loop).1
adapt-report_initial-IsTimed_example =
    adapt-report_initial-IsTimed texts kube planned search_all options rounds classifier 1000 store
      {s = first_loop} (returned-eq started at_start at_start-returned)

abbrev old : Config ℕ
old = candidate "small" 4

abbrev eights : String → ℕ
eights name = 8

choose_new-batches_example :
    choose_new texts candidates (some old)
    ≡ choose_new texts candidates (some (with_batches eights old))
choose_new-batches_example = choose_new-batches texts eights candidates old ((4, refl), tt)

abbrev series : List ℕ
series = 5 ∷ 7 ∷ 4 ∷ 3 ∷ 8 ∷ 1 ∷ 2 ∷ 6 ∷ 5 ∷ 4 ∷ 9 ∷ 3 ∷ []

series-maxima : aggregate series ≡ ok (8 ∷ 9 ∷ [])
unfolding aggregate max_of largest traverse slice range_from
series-maxima = refl

aggregate_lem_example :
    (maxima : List ℕ) × (aggregate series ≡ ok maxima)
    × ((i x : ℕ)
        → get_elem? series i ≡ some x
        → (m : ℕ) × (get_elem? maxima (i / 10) ≡ some m) × (x ≤ m))
aggregate_lem_example = aggregate_lem series
