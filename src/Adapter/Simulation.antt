-- ===== src/Adapter/Simulation.antt =====
-- optimizer/sim_adapter.py: the adapter of the simulations, which reads its load from a workload and
-- has no cluster.
pub mod Batches
pub mod Steps
use ipa_arman.Prelude.{
  ℕ, suc, ◌+◌, ◌-◌, ◌*◌, ◌/◌, ◌==◌, String, List, [], ◌∷◌, map, if◌then◌else◌, value_error,
  index_error, Outcome, ok, raised, ◌>>=◌, or_raise, some, none, Option, Method, Dict, insert,
  slice, length, get_elem?, range_from, Conversions, Runtime,
}
use ipa_arman.Models.Pipeline.{
  Pipeline, stage_wise_latencies, stage_wise_accuracies, stage_wise_throughput,
}
use ipa_arman.Optimizer.Rows.{State}
use ipa_arman.Adapter.Configs.{
  Config, SavedNode, output_parser, choose_closest, saving_config_builder,
}
use ipa_arman.Adapter.Monitoring.{Step, first_objective}

-- What the adapter was built with and the loop reads.
pub record Setup : Type 0 where
  pub node_names : List String
  pub adaptation_interval : ℕ
  pub monitoring_duration : ℕ

-- `adaptation_report`, without the durations that the optimizer took and the metadata of the
-- constructor.
pub record SimReport (F : Type 0) : Type 0 where
  pub timesteps : Dict ℕ (Step F)
  pub recieved_load : Option (List ℕ)

-- What outlives a pass through the loop. `old_config` is None after a pass without a solution.
pub record Sim (F : Type 0) : Type 0 where
  pub time_interval : ℕ
  pub old_config : Option (Config F)
  pub report : SimReport F
  pub pipeline : Pipeline F

-- `range(start, stop, step)`
unfoldable pub range_by : ℕ → ℕ → ℕ → Outcome (List ℕ)
range_by start stop step =
    if step == 0
    then raised value_error
    else ok (map (λ k. start + k * step) (range_from 0 ((stop - start + (step - 1)) / step)))

module _ {F : Type 0} where
  unfoldable pub update_load : List ℕ → SimReport F → SimReport F
  update_load loads report = record report { recieved_load = some loads }

  unfoldable pub report_pass : ℕ → Step F → SimReport F → SimReport F
  report_pass timestep step report = record report {
    timesteps = insert ◌==◌ timestep step report.timesteps;
  }

  -- Without a current configuration the first one is taken.
  unfoldable pub choose_new :
      Conversions F → List (Config F) → Option (Config F) → Outcome (Config F)
  choose_new texts news none = or_raise (get_elem? news 0) index_error
  choose_new texts news (some current) = choose_closest texts news current

  -- `to_apply_config`: none where the optimizer found nothing.
  unfoldable pub next_config :
      Conversions F → Setup → List (State F) → Option (Config F) → Outcome (Option (Config F))
  next_config texts o [] old = ok none
  next_config texts o (row ∷ rows) old = do
    news ← output_parser o.node_names (row ∷ rows)
    config ← choose_new texts news old
    ok (some config)

module _ {F : Type 0} ⦃r : Runtime F⦄ where
  unfoldable pub saved_config :
      Setup → Option (Config F) → Pipeline F → Outcome (Option (Dict String (SavedNode F)))
  saved_config o none p = ok none
  saved_config o (some config) p = do
    ls ← stage_wise_latencies p
    as_ ← stage_wise_accuracies p
    xs ← stage_wise_throughput p
    saved ← saving_config_builder config o.node_names ls as_ xs
    ok (some saved)

  module _ (texts : Conversions F) (predict : List ℕ → Outcome ℕ)
      (optimize : ℕ → Method (Pipeline F) (List (State F))) where
    -- What a pass leaves after the optimizer has run.
    unfoldable pub settle : Setup → ℕ → List ℕ → ℕ → List (State F) → Sim F → Outcome (Sim F)
    settle o timestep loads predicted rows s = do
      config ← next_config texts o rows s.old_config
      saved ← saved_config o config s.pipeline
      objective ← first_objective (elim rows [ [] ↦ none | row ∷ more ↦ some (row ∷ more) ])
      ok (record s {
        old_config = config;
        report =
            report_pass timestep
              (record {
                config = saved;
                objective = objective;
                time_interval = s.time_interval;
                monitored_load = loads;
                predicted_load = predicted;
              })
              s.report;
      })

    -- One pass, at a second of the workload.
    unfoldable pub simulate_once : Setup → List ℕ → ℕ → Sim F → Outcome (Sim F)
    simulate_once o workload timestep s =
        let loads = slice (timestep - o.monitoring_duration * 60) timestep workload in
        predict loads >>= λ predicted.
        let (optimal, p) = optimize predicted s.pipeline in
        optimal >>= λ rows. settle o timestep loads predicted rows (record s {
          time_interval = s.time_interval + o.adaptation_interval;
          report = update_load loads s.report;
          pipeline = p;
        })

    unfoldable pub simulate : Setup → List ℕ → List ℕ → Sim F → Outcome (Sim F)
    simulate o workload [] s = ok s
    simulate o workload (timestep ∷ timesteps) s =
        simulate_once o workload timestep s >>= λ s'. simulate o workload timesteps s'

    -- `start_adaptation` of the simulation.
    unfoldable pub start_simulation :
        Setup → List ℕ → Config F → SimReport F → Pipeline F → Outcome (Sim F)
    start_simulation o workload initial_config report p =
        range_by o.adaptation_interval (length workload) o.adaptation_interval >>= λ timesteps.
        simulate o workload timesteps (record {
          time_interval = 0;
          old_config = some initial_config;
          report = report;
          pipeline = p;
        })
