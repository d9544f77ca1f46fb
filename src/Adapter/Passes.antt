-- ===== src/Adapter/Passes.antt =====
-- optimizer/adapter.py: the state of the loop of `start_adaptation`, and the ends of a pass.
use ipa_arman.Prelude.{
  ℕ, ◌+◌, ◌-◌, ◌*◌, String, Bool, true, false, List, if◌then◌else◌, unbound_local_error, type_error,
  Outcome, ok, raised, ◌>>=◌, or_raise, some, none, Option, Method, Dict, slice, Runtime,
}
use ipa_arman.Models.Pipeline.{
  Pipeline, stage_wise_latencies, stage_wise_accuracies, stage_wise_throughput,
}
use ipa_arman.Optimizer.Objective.{Objectives}
use ipa_arman.Optimizer.Rows.{State}
use ipa_arman.Adapter.Configs.{Config, SavedNode, saving_config_builder}
use ipa_arman.Adapter.Cluster.{Nodes}
use ipa_arman.Adapter.Monitoring.{
  Report, first_objective, adaptation_step_report, update_recieved_load,
}

-- What the adapter was built with and the loop reads. `workload` is the argument of the loop.
pub record Options : Type 0 where
  pub nodes : Nodes
  pub adaptation_interval : ℕ
  pub monitoring_duration : ℕ
  pub teleport_mode : Bool
  pub workload : Option (List ℕ)

-- The answers of one pass: what others do to the cluster, whether the router is up at the start and
-- before the change, the load of the last minutes, and that of the whole experiment.
pub record Round (K : Type 0) : Type 0 where
  pub drift : K → K
  pub up : Bool
  pub up_again : Bool
  pub loads : Option (List ℕ)
  pub all_loads : Option (List ℕ)

-- The local variables of the loop that outlive a pass, the report, the pipeline and the cluster.
-- `changed` and `rps_series` are none until they are assigned.
pub record Loop (F K : Type 0) : Type 0 where
  pub workload_timestep : Option ℕ
  pub time_interval : ℕ
  pub timestep : ℕ
  pub rps_series : Option (Option (List ℕ))
  pub saved : Dict String (SavedNode F)
  pub changed : Option (List Bool)
  pub report : Report F
  pub pipeline : Pipeline F
  pub cluster : K

-- Whether the loop goes on.
pub data Verdict : Type 0 where
  goes_on stops : Verdict

module _ {F : Type 0} ⦃r : Runtime F⦄ where
  unfoldable pub save_config : Options → Config F → Pipeline F → Outcome (Dict String (SavedNode F))
  save_config o config p = do
    ls ← stage_wise_latencies p
    as_ ← stage_wise_accuracies p
    xs ← stage_wise_throughput p
    saving_config_builder config o.nodes.node_names ls as_ xs

  -- `to_save_config`, which stays where there is nothing to apply.
  unfoldable pub next_saved :
      Options
      → Option (Config F)
      → Pipeline F
      → Dict String (SavedNode F)
      → Outcome (Dict String (SavedNode F))
  next_saved o none p saved = ok saved
  next_saved o (some config) p saved = save_config o config p

module _ {F K : Type 0} where
  -- `Adapter.update_recieved_load`, with the load that a teleport passes.
  unfoldable pub receive : Round K → Option (List ℕ) → Loop F K → Loop F K
  receive now none s = record s { report = update_recieved_load now.all_loads s.report }
  receive now (some loads) s = record s { report = update_recieved_load (some loads) s.report }

  -- By the mode, and by the load that a teleport has read so far.
  unfoldable pub abort_with : Bool → Option (Option (List ℕ)) → Round K → Method (Loop F K) Verdict
  abort_with true none now s = (raised unbound_local_error, s)
  abort_with true (some loads) now s = (ok stops, receive now loads s)
  abort_with false _ now s = (ok stops, receive now none s)

  -- The pipeline is gone: the report gets the load, and the loop ends.
  unfoldable pub abort : Options → Round K → Method (Loop F K) Verdict
  abort o now s = abort_with o.teleport_mode s.rps_series now s

  -- The report of a pass, which reads the local variables.
  unfoldable pub report_step :
      Outcome (Dict String (SavedNode F))
      → Option (List Bool)
      → Option (Objectives F)
      → List ℕ
      → ℕ
      → Method (Loop F K) Verdict
  report_step (raised e) changed objective loads predicted s = (raised e, s)
  report_step (ok saved) none objective loads predicted s =
      (raised unbound_local_error, record s { saved = saved })
  report_step (ok saved) (some changed) objective loads predicted s = (
    ok goes_on,
    record s {
      saved = saved;
      report =
          adaptation_step_report (some saved) objective s.timestep s.time_interval loads predicted
            changed s.report;
    },
  )

  -- `rps_series` of the pass.
  unfoldable pub monitored : Options → Round K → Loop F K → Outcome (Option (List ℕ))
  monitored o now s =
      if o.teleport_mode
      then (do
        w ← or_raise s.workload_timestep unbound_local_error
        loads ← or_raise o.workload type_error
        ok (some (slice (w - o.monitoring_duration * 60) w loads)))
      else ok now.loads

  -- The time of a teleport goes on before anything else.
  unfoldable pub advance : Options → Loop F K → Outcome (Loop F K)
  advance o s =
      if o.teleport_mode
      then (or_raise s.workload_timestep unbound_local_error >>= λ w.
          ok (record s { workload_timestep = some (w + o.adaptation_interval) }))
      else ok s

module _ {F : Type 0} ⦃r : Runtime F⦄ {K : Type 0} where
  -- The end of a pass. `config` is `to_apply_config`.
  unfoldable pub finish :
      Options → Option (Config F) → Option (Objectives F) → List ℕ → ℕ → Method (Loop F K) Verdict
  finish o config objective loads predicted s =
      report_step (next_saved o config s.pipeline s.saved) s.changed objective loads predicted s

  unfoldable pub report_found :
      Options → Option (Config F) → List (State F) → List ℕ → ℕ → Method (Loop F K) Verdict
  report_found o config rows loads predicted s = elim (first_objective (some rows)) [
    | raised e ↦ (raised e, s)
    | ok objective ↦ finish o config objective loads predicted s
  ]
