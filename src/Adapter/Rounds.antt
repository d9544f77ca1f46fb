-- ===== src/Adapter/Rounds.antt =====
-- optimizer/adapter.py: `start_adaptation`, the loop from the monitored load to a new configuration.
-- What the outside answers is an argument: the polls before the start, and a `Round` for each pass
-- through the loop.
pub mod Clock
pub mod Times
use ipa_arman.Prelude.{
  ℕ, suc, ◌+◌, ◌-◌, ◌*◌, String, Bool, true, false, not, ◌&&◌, List, [], ◌∷◌, map, if◌then◌else◌,
  unbound_local_error, type_error, api_exception, Outcome, ok, raised, ◌>>=◌, ◌>>◌, or_raise, some,
  none, Option, Method, Dict, slice, Conversions, Runtime,
}
use ipa_arman.Models.Pipeline.{
  Pipeline, stage_wise_latencies, stage_wise_accuracies, stage_wise_throughput,
}
use ipa_arman.Optimizer.Objective.{Objectives}
use ipa_arman.Optimizer.Rows.{State}
use ipa_arman.Adapter.Configs.{
  Config, SavedNode, output_parser, choose_closest, saving_config_builder,
}
use ipa_arman.Adapter.Predictor.{Predictor}
use ipa_arman.Adapter.Cluster.{Kube, Nodes, extract_current_config, change_pipeline_config}
use ipa_arman.Adapter.Monitoring.{
  Report, first_objective, adaptation_step_report, update_recieved_load,
}
use ipa_arman.Adapter.Passes.{
  Options, Round, Loop, Verdict, goes_on, stops, save_config, next_saved, receive, abort_with,
  abort, report_step, monitored, advance, finish, report_found,
}

module _ {F : Type 0} ⦃r : Runtime F⦄ (texts : Conversions F) {K : Type 0} (kube : Kube K) where
  -- `Adapter.choose_config`: none where the current configuration cannot be read.
  unfoldable pub choose_config : Nodes → List (Config F) → K → Outcome (Option (Config F))
  choose_config a news k = elim (extract_current_config texts kube a k) [
    | ok current ↦ choose_closest texts news current >>= λ chosen. ok (some chosen)
    | raised api_exception ↦ ok none
    | raised e ↦ raised e
  ]

  -- `change_pipeline_config` has run, and left the cluster `k`.
  unfoldable pub changed_to :
      Options
      → Config F
      → Outcome (List Bool)
      → K
      → List (State F)
      → List ℕ
      → ℕ
      → Method (Loop F K) Verdict
  changed_to o c (raised e) k rows loads predicted s = (raised e, record s { cluster = k })
  changed_to o c (ok changed) k rows loads predicted s =
      report_found o (some c) rows loads predicted
        (record s { cluster = k; changed = some changed })

  -- `choose_config` has run.
  unfoldable pub apply_chosen :
      Options
      → Outcome (Option (Config F))
      → List (State F)
      → List ℕ
      → ℕ
      → Method (Loop F K) Verdict
  apply_chosen o (raised e) rows loads predicted s = (raised e, s)
  apply_chosen o (ok none) rows loads predicted s = report_found o none rows loads predicted s
  apply_chosen o (ok (some c)) rows loads predicted s =
      let (results, k) = change_pipeline_config texts kube o.nodes c s.cluster in
      changed_to o c results k rows loads predicted s

  -- The router was asked again whether it is up.
  unfoldable pub apply_if :
      Bool
      → Options
      → Round K
      → List (Config F)
      → List (State F)
      → List ℕ
      → ℕ
      → Method (Loop F K) Verdict
  apply_if false o now news rows loads predicted s = abort o now s
  apply_if true o now news rows loads predicted s =
      apply_chosen o (choose_config o.nodes news s.cluster) rows loads predicted s

  -- The optimizer found configurations.
  unfoldable pub apply : Options → Round K → List (State F) → List ℕ → ℕ → Method (Loop F K) Verdict
  apply o now rows loads predicted s = elim (output_parser o.nodes.node_names rows) [
    | raised e ↦ (raised e, s)
    | ok news ↦ apply_if now.up_again o now news rows loads predicted s
  ]

  unfoldable pub keep_current :
      Options → Round K → Outcome (Config F) → List ℕ → ℕ → Method (Loop F K) Verdict
  keep_current o now (ok current) loads predicted s = finish o (some current) none loads predicted s
  keep_current o now (raised api_exception) loads predicted s = (ok stops, receive now none s)
  keep_current o now (raised e) loads predicted s = (raised e, s)

  -- The optimizer found nothing: the configuration stays.
  unfoldable pub keep_config : Options → Round K → List ℕ → ℕ → Method (Loop F K) Verdict
  keep_config o now loads predicted s =
      keep_current o now (extract_current_config texts kube o.nodes s.cluster) loads predicted
        (record s { changed = some (map (λ (name : String). false) o.nodes.node_names) })

  -- `predict` is `self.predictor.predict` and `optimize` is `self.optimizer.optimize` on the load.
  module _ (predict : List ℕ → Outcome ℕ)
      (optimize : ℕ → Method (Pipeline F) (List (State F))) where
    unfoldable pub decide : Options → Round K → List ℕ → Method (Loop F K) Verdict
    decide o now loads s = elim (predict loads) [
      | raised e ↦ (raised e, s)
      | ok predicted ↦
          let (optimal, p) = optimize predicted s.pipeline in
          let s1 = record s { pipeline = p } in
          elim optimal [
            | raised e ↦ (raised e, s1)
            | ok [] ↦ keep_config o now loads predicted s1
            | ok (row ∷ rows) ↦ apply o now (row ∷ rows) loads predicted s1
          ]
    ]

    -- The load of the pass was read.
    unfoldable pub observe :
        Options → Round K → Outcome (Option (List ℕ)) → Method (Loop F K) Verdict
    observe o now (raised e) s = (raised e, s)
    observe o now (ok none) s = (ok goes_on, record s { rps_series = some none })
    observe o now (ok (some loads)) s =
        decide o now loads (record s { rps_series = some (some loads) })

    -- The router was asked whether it is up.
    unfoldable pub adapt_if : Bool → Options → Round K → Method (Loop F K) Verdict
    adapt_if false o now s = abort o now s
    adapt_if true o now s =
        let s1 = record s {
          time_interval = s.time_interval + o.adaptation_interval;
          timestep = suc s.timestep;
        } in
        observe o now (monitored o now s1) s1

    -- One pass through the loop.
    unfoldable pub adapt_once : Options → Round K → Method (Loop F K) Verdict
    adapt_once o now s0 = elim (advance o (record s0 { cluster = now.drift s0.cluster })) [
      | raised e ↦ (raised e, s0)
      | ok s ↦ adapt_if now.up o now s
    ]

    -- The passes, until one ends the loop or the answers are used up.
    unfoldable pub adapt : Options → List (Round K) → Method (Loop F K) Verdict
    adapt o [] s = (ok goes_on, s)
    adapt o (now ∷ rounds) s =
        let (verdict, s') = adapt_once o now s in
        elim verdict [
          | raised e ↦ (raised e, s')
          | ok stops ↦ (ok stops, s')
          | ok goes_on ↦ adapt o rounds s'
        ]

    -- The wait for the pipeline: whether the router is loaded, and whether it terminates.
    unfoldable pub found_pipeline : List (Bool × Bool) → Bool
    found_pipeline [] = false
    found_pipeline ((loaded, terminating) ∷ polls) =
        if loaded && not terminating then true else found_pipeline polls

    -- The report of the time step 0, before anything is changed.
    unfoldable pub report_initial : Options → Pipeline F → Report F → K → Outcome (Loop F K)
    report_initial o p report k = do
      current ← extract_current_config texts kube o.nodes k
      saved ← save_config o current p
      ok (record {
        workload_timestep = elim o.workload [ none ↦ none | some _ ↦ some 0 ];
        time_interval = 0;
        timestep = 0;
        rps_series = none;
        saved = saved;
        changed = none;
        report =
            adaptation_step_report (some saved) none 0 0 (0 ∷ []) 0
              (map (λ (name : String). false) o.nodes.node_names) report;
        pipeline = p;
        cluster = k;
      })

    -- None where the pipeline is not found within the polls.
    unfoldable pub start_adaptation :
        Options
        → List (Bool × Bool)
        → List (Round K)
        → Pipeline F
        → Report F
        → K
        → Outcome (Option (Verdict × Loop F K))
    start_adaptation o polls rounds p report k =
        if not (found_pipeline polls)
        then ok none
        else (report_initial o p report k >>= λ s.
            let (verdict, s') = adapt o rounds s in verdict >>= λ v. ok (some (v, s')))
