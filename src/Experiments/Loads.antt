-- ===== src/Experiments/Loads.antt =====
-- experiments/runner/simulation_runner.py: the report that a run leaves, by the workload of its
-- configuration.
use mathlib.Core.Path.{subst}
use ipa_arman.Prelude.{
  ℕ, String, ◌≡◌, List, map, Option, some, none, str_eq, key_error, Outcome, ok, or_raise,
  >>=-eq-ok, ok-injective, Dict, length, lookup, All, Conversions, Runtime,
}
use mathlib.Core.Option.{some-injective}
use ipa_arman.Models.Profile.{Regression}
use ipa_arman.Models.Pipeline.{Pipeline}
use ipa_arman.Optimizer.Objective.{Objectives}
use ipa_arman.Optimizer.States.{Combination}
use ipa_arman.Optimizer.Program.{Program}
use ipa_arman.Adapter.Predictor.{simulated_load}
use ipa_arman.Adapter.Monitoring.{Step}
use ipa_arman.Adapter.Simulation.{Sim, range_by}
use ipa_arman.Adapter.Simulation.Steps.{Observed}
use ipa_arman.Adapter.Built.{SimAdapter, setup_of, new_sim_adapter, run_simulation}
use ipa_arman.Adapter.Built.Reports.{run_simulation-Observed}
use ipa_arman.LoadTester.Workload.{make_workload}
use ipa_arman.LoadTester.Windows.{IsLoad, make_workload_lem}
use ipa_arman.Experiments.Simulated.{ProfilingRow, generate_simulated_pipeline}
use ipa_arman.Experiments.Runner.{
  RunnerConfig, adaptation, adapter_settings, find_initial_config, check_mode, run_as, main,
}

module _ {F : Type 0} ⦃r : Runtime F⦄ (texts : Conversions F) (fit : Regression F)
    (load_profile : ℕ → String → ℕ → Outcome (List (ProfilingRow F))) (data_ : String)
    (solve : Program F → Option ℕ → Outcome (List (Dict String F)))
    (sample : List (Combination F) → Option ℕ → Outcome (List (Combination F)))
    (series_max : List (Objectives F) → Outcome (Objectives F))
    (lstm_predict lstm_call : List ℕ → Outcome F) (forecast : List ℕ → Outcome (F × F)) where
  -- When the simulation runner adapts to its end, the report has one entry for each time step of the
  -- loop, in order, over the workload that the configuration asks for: the time that has passed is the
  -- time step, the load is that of the seconds of the workload before it as far back as the monitoring
  -- reaches, and the load that is planned for is what the predictor of the new adapter makes of it.
  pub main-Observed :
      (c : RunnerConfig F) {sim : Sim F}
      → main texts fit load_profile data_ solve sample series_max lstm_predict lstm_call forecast c
          adaptation
        ≡ ok (some sim)
      → (workload : List ℕ) × (p : Pipeline F) × (a : SimAdapter F) × (timesteps : List ℕ) × IsLoad
          texts data_ none c.workload workload
        × (new_sim_adapter (adapter_settings c) p ≡ ok a)
        × (range_by c.adapter.adaptation_interval (length workload) c.adapter.adaptation_interval
            ≡ ok timesteps)
        × (map (λ (e : ℕ × Step F). e.0) sim.report.timesteps ≡ timesteps)
        × All
            (Observed
              (simulated_load texts lstm_predict lstm_call forecast a.predictor)
              (setup_of (adapter_settings c))
              workload)
            sim.report.timesteps
  unfolding main run_as adapter_settings
  main-Observed c {sim} h =
      let (accuracies, h1, k1) =
        >>=-eq-ok (or_raise (lookup str_eq c.pipeline_name c.accuracies) key_error) _ h in
      let (initial, h2, k2) = >>=-eq-ok (find_initial_config texts c.nodes) _ k1 in
      let (p, h3, k3) =
        >>=-eq-ok
          (generate_simulated_pipeline fit load_profile
            (record c.pipeline { pipeline_accuracies = accuracies }))
          _ k2 in
      let (u, h4, k4) = >>=-eq-ok (check_mode texts c.simulation_mode c.teleport_mode) _ k3 in
      let (a, h5, k5) = >>=-eq-ok (new_sim_adapter (adapter_settings c) p) _ k4 in
      let ((duration, workload), h6, k6) =
        >>=-eq-ok (make_workload texts data_ none c.workload) _ k5 in
      let (s, h7, k7) =
        >>=-eq-ok
          (run_simulation texts solve sample series_max lstm_predict lstm_call forecast a workload
            initial p)
          _ k6 in
      let (timesteps, steps, times, observed) =
        run_simulation-Observed texts solve sample series_max lstm_predict lstm_call forecast
          (adapter_settings c) workload initial p h5
          (subst
            (λ (end : Sim F).
              run_simulation texts solve sample series_max lstm_predict lstm_call forecast a
                workload initial p
              ≡ ok end)
            (some-injective _ _ (ok-injective k7)) h7) in
      (
        workload,
        p,
        a,
        timesteps,
        (make_workload_lem texts data_ none c.workload h6).1,
        h5,
        steps,
        times,
        observed,
      )
