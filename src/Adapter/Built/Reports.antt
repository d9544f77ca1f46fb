-- ===== src/Adapter/Built/Reports.antt =====
-- optimizer/sim_adapter.py: the report of a simulation that its constructor and its loop leave.
use mathlib.Core.Path.{subst}
use ipa_arman.Prelude.{
  ℕ, String, ◌≡◌, refl, sym, List, [], map, Option, Outcome, ok, >>=-eq-ok, ok-injective, Dict,
  length, All, Conversions, Runtime,
}
use ipa_arman.Models.Pipeline.{Pipeline, pipeline_sla, stage_wise_slas}
use ipa_arman.Optimizer.Objective.{Objectives}
use ipa_arman.Optimizer.Parameters.{base_parameters}
use ipa_arman.Optimizer.States.{Combination}
use ipa_arman.Optimizer.Program.{Program}
use ipa_arman.Adapter.Configs.{Config}
use ipa_arman.Adapter.Predictor.{new_predictor, simulated_load}
use ipa_arman.Adapter.Monitoring.{Step}
use ipa_arman.Adapter.Simulation.{Sim, range_by}
use ipa_arman.Adapter.Simulation.Steps.{Observed, start_simulation-Observed}
use ipa_arman.Adapter.Built.{Settings, SimAdapter, setup_of, new_sim_adapter, plan, run_simulation}

module _ {F : Type 0} ⦃r : Runtime F⦄ where
  -- A new simulation keeps its settings, and its report is empty.
  new_sim_adapter-empty :
      (s : Settings F) (p : Pipeline F) {a : SimAdapter F}
      → new_sim_adapter s p ≡ ok a
      → (a.settings ≡ s) × (a.report.timesteps ≡ [])
  unfolding new_sim_adapter
  new_sim_adapter-empty s p {a} h =
      let (sla, _, h1) = >>=-eq-ok (pipeline_sla p) _ h in
      let (bases, _, h2) = >>=-eq-ok (base_parameters p.gpu_mode p.inference_graph) _ h1 in
      let (slas, _, h3) = >>=-eq-ok (stage_wise_slas p) _ h2 in
      let (predictor, _, h4) =
        >>=-eq-ok
          (new_predictor s.predictor_type s.backup_predictor_type s.backup_predictor_duration 0) _
          h3 in
      subst (λ (b : SimAdapter F). (b.settings ≡ s) × (b.report.timesteps ≡ [])) (ok-injective h4)
        (refl, refl)

  module _ (texts : Conversions F) (solve : Program F → Option ℕ → Outcome (List (Dict String F)))
      (sample : List (Combination F) → Option ℕ → Outcome (List (Combination F)))
      (series_max : List (Objectives F) → Outcome (Objectives F))
      (lstm_predict lstm_call : List ℕ → Outcome F) (forecast : List ℕ → Outcome (F × F)) where
    -- When a new simulation runs to its end, its report has one entry for each time step of the
    -- loop, in order: the time that has passed is the time step, the load is that of the seconds of
    -- the workload before it as far back as the monitoring reaches, and the load that is planned
    -- for is what the predictor of the simulation makes of it.
    pub run_simulation-Observed :
        (s : Settings F) (workload : List ℕ) (initial_config : Config F) (p : Pipeline F)
        → {a : SimAdapter F} {sim : Sim F} → new_sim_adapter s p ≡ ok a
        → run_simulation texts solve sample series_max lstm_predict lstm_call forecast a workload
            initial_config p
          ≡ ok sim
        → (timesteps : List ℕ) × (range_by s.adaptation_interval
              (length workload)
              s.adaptation_interval
            ≡ ok timesteps)
          × (map (λ (e : ℕ × Step F). e.0) sim.report.timesteps ≡ timesteps)
          × All
              (Observed
                (simulated_load texts lstm_predict lstm_call forecast a.predictor)
                (setup_of s)
                workload)
              sim.report.timesteps
    unfolding run_simulation setup_of
    run_simulation-Observed s workload initial_config p {a} {sim} built done =
        let (same, empty) = new_sim_adapter-empty s p built in
        let (timesteps, steps, times, observed) =
          start_simulation-Observed texts
            (simulated_load texts lstm_predict lstm_call forecast a.predictor)
            (plan texts solve sample series_max a.settings) (setup_of a.settings) workload
            initial_config a.report p empty done in
        (timesteps, rw (sym same) steps, times, rw (sym same) observed)
