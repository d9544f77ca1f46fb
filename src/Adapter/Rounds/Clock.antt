-- ===== src/Adapter/Rounds/Clock.antt =====
-- optimizer/adapter.py: what one decision of `start_adaptation` does to the time and the report.
use ipa_arman.Prelude.{
  ℕ, String, ◌≡◌, refl, Bool, true, false, List, [], ◌∷◌, map, ◌==◌, inl, inr, ◌⊎◌, Outcome-cases,
  Outcome, ok, raised, api_exception, some, none, Option, Method, Dict, insert, Conversions,
  Runtime,
}
use ipa_arman.Models.Pipeline.{Pipeline}
use ipa_arman.Optimizer.Objective.{Objectives}
use ipa_arman.Optimizer.Rows.{State}
use ipa_arman.Adapter.Configs.{Config, SavedNode, output_parser}
use ipa_arman.Adapter.Cluster.{Kube, extract_current_config, change_pipeline_config}
use ipa_arman.Adapter.Monitoring.{
  Step, first_objective, adaptation_step_report, update_recieved_load,
}
use ipa_arman.Adapter.Rounds.{
  choose_config, changed_to, apply_chosen, apply_if, apply, keep_current, keep_config, decide,
}
use ipa_arman.Adapter.Passes.{
  Options, Round, Loop, receive, abort_with, abort, report_step, report_found, next_saved, finish,
}

module _ {F K : Type 0} where
  -- A pass keeps the clock, and the report gets at most the entry of the time step.
  pub record EndsAt (n time : ℕ) (steps : Dict ℕ (Step F)) (s' : Loop F K) : Type 0 where
    pub same_step : s'.timestep ≡ n
    pub same_time : s'.time_interval ≡ time
    pub entries :
        (s'.report.timesteps ≡ steps)
        ⊎ ((e : Step F) × (e.time_interval ≡ time) × (s'.report.timesteps ≡ insert ◌==◌ n e steps))

  abbrev pub Settles : Loop F K → Loop F K → Type 0
  Settles s s' = EndsAt s.timestep s.time_interval s.report.timesteps s'

  unchanged :
      (s s' : Loop F K)
      → s'.timestep ≡ s.timestep
      → s'.time_interval ≡ s.time_interval
      → s'.report.timesteps ≡ s.report.timesteps
      → Settles s s'
  unchanged s s' a b c = record { same_step = a; same_time = b; entries = inl c }

  -- Nothing of that changes at all.
  abbrev pub Same : Loop F K → Loop F K → Type 0
  Same s s' =
      (s'.timestep ≡ s.timestep)
      × (s'.time_interval ≡ s.time_interval)
      × (s'.report.timesteps ≡ s.report.timesteps)

  receive-Same :
      (now : Round K) (loads : Option (List ℕ)) (s : Loop F K) → Same s (receive now loads s)
  unfolding receive update_recieved_load
  receive-Same now none s = (refl, refl, refl)
  receive-Same now (some loads) s = (refl, refl, refl)

  pub abort_with-Same :
      (teleport : Bool) (rps : Option (Option (List ℕ))) (now : Round K) (s : Loop F K)
      → Same s (abort_with teleport rps now s).1
  unfolding abort_with
  abort_with-Same true none now s = (refl, refl, refl)
  abort_with-Same true (some loads) now s = receive-Same now loads s
  abort_with-Same false rps now s = receive-Same now none s

  Same-Settles : (s s' : Loop F K) → Same s s' → Settles s s'
  Same-Settles s s' (a, b, c) = unchanged s s' a b c

  report_step-Settles :
      (saved : Outcome (Dict String (SavedNode F))) (changed : Option (List Bool))
      (j : Option (Objectives F))
      → (loads : List ℕ) (n : ℕ) (s : Loop F K)
      → Settles s (report_step saved changed j loads n s).1
  unfolding report_step adaptation_step_report
  report_step-Settles (raised e) changed j loads n s = unchanged s s refl refl refl
  report_step-Settles (ok d) none j loads n s = unchanged s _ refl refl refl
  report_step-Settles (ok d) (some changed) j loads n s = record {
    same_step = refl;
    same_time = refl;
    entries = inr (_, refl, refl);
  }

module _ {F : Type 0} ⦃r : Runtime F⦄ {K : Type 0} where
  report_found-Settles :
      (o : Options) (c : Option (Config F)) (rows : List (State F)) (loads : List ℕ) (n : ℕ)
      (s : Loop F K)
      → Settles s (report_found o c rows loads n s).1
  unfolding report_found finish
  report_found-Settles o c rows loads n s = elim (Outcome-cases (first_objective (some rows))) [
    | inr (e, g) ↦ rw (g, report_found) (unchanged s s refl refl refl)
    | inl (j, g) ↦
        rw (g, report_found)
          (report_step-Settles (next_saved o c s.pipeline s.saved) s.changed j loads n s)
  ]

module _ {F : Type 0} ⦃r : Runtime F⦄ (texts : Conversions F) {K : Type 0} (kube : Kube K) where
  changed_to-Settles :
      (o : Options) (c : Config F) (results : Outcome (List Bool)) (k : K) (rows : List (State F))
      → (loads : List ℕ) (n : ℕ) (s : Loop F K)
      → Settles s (changed_to texts kube o c results k rows loads n s).1
  unfolding changed_to
  changed_to-Settles o c (raised e) k rows loads n s = unchanged s _ refl refl refl
  changed_to-Settles o c (ok changed) k rows loads n s =
      (report_found-Settles o (some c) rows loads n
        (record s { cluster = k; changed = some changed }))

  apply_chosen-Settles :
      (o : Options) (c : Outcome (Option (Config F))) (rows : List (State F))
      → (loads : List ℕ) (n : ℕ) (s : Loop F K)
      → Settles s (apply_chosen texts kube o c rows loads n s).1
  unfolding apply_chosen
  apply_chosen-Settles o (raised e) rows loads n s = unchanged s s refl refl refl
  apply_chosen-Settles o (ok none) rows loads n s = report_found-Settles o none rows loads n s
  apply_chosen-Settles o (ok (some c)) rows loads n s =
      let (results, k) = change_pipeline_config texts kube o.nodes c s.cluster in
      changed_to-Settles o c results k rows loads n s

  apply_if-Settles :
      (up : Bool) (o : Options) (now : Round K) (news : List (Config F)) (rows : List (State F))
      → (loads : List ℕ) (n : ℕ) (s : Loop F K)
      → Settles s (apply_if texts kube up o now news rows loads n s).1
  unfolding apply_if abort
  apply_if-Settles false o now news rows loads n s =
      Same-Settles s _ (abort_with-Same o.teleport_mode s.rps_series now s)
  apply_if-Settles true o now news rows loads n s =
      apply_chosen-Settles o (choose_config texts kube o.nodes news s.cluster) rows loads n s

  apply-Settles :
      (o : Options) (now : Round K) (rows : List (State F)) (loads : List ℕ) (n : ℕ) (s : Loop F K)
      → Settles s (apply texts kube o now rows loads n s).1
  unfolding apply
  apply-Settles o now rows loads n s =
      elim (Outcome-cases (output_parser o.nodes.node_names rows)) [
        | inr (e, g) ↦ rw (g, apply) (unchanged s s refl refl refl)
        | inl (news, g) ↦ rw (g, apply) (apply_if-Settles now.up_again o now news rows loads n s)
      ]

  keep_current-Settles :
      (o : Options) (now : Round K) (c : Outcome (Config F)) (loads : List ℕ) (n : ℕ) (s : Loop F K)
      → Settles s (keep_current texts kube o now c loads n s).1
  unfolding keep_current finish
  keep_current-Settles o now (ok c) loads n s =
      report_step-Settles (next_saved o (some c) s.pipeline s.saved) s.changed none loads n s
  keep_current-Settles o now (raised api_exception) loads n s =
      Same-Settles s _ (receive-Same now none s)
  keep_current-Settles o now (raised e) loads n s = unchanged s s refl refl refl

  keep_config-Settles :
      (o : Options) (now : Round K) (loads : List ℕ) (n : ℕ) (s : Loop F K)
      → Settles s (keep_config texts kube o now loads n s).1
  unfolding keep_config
  keep_config-Settles o now loads n s =
      (keep_current-Settles o now (extract_current_config texts kube o.nodes s.cluster) loads n
        (record s { changed = some (map (λ (name : String). false) o.nodes.node_names) }))

  module _ (predict : List ℕ → Outcome ℕ)
      (optimize : ℕ → Method (Pipeline F) (List (State F))) where
    pub decide-Settles :
        (o : Options) (now : Round K) (loads : List ℕ) (s : Loop F K)
        → Settles s (decide texts kube predict optimize o now loads s).1
    unfolding decide
    decide-Settles o now loads s = elim (Outcome-cases (predict loads)) [
      | inr (e, g) ↦ rw (g, decide) (unchanged s s refl refl refl)
      | inl (n, g) ↦ elim (Outcome-cases (optimize n s.pipeline).0) [
        | inr (e, f) ↦
            rw (g, f, decide)
              (unchanged s (record s { pipeline = (optimize n s.pipeline).1 }) refl refl refl)
        | inl ([], f) ↦
            rw (g, f, decide)
              ((keep_config-Settles o now loads n
                (record s { pipeline = (optimize n s.pipeline).1 })))
        | inl (row ∷ rows, f) ↦
            rw (g, f, decide)
              ((apply-Settles o now (row ∷ rows) loads n
                (record s { pipeline = (optimize n s.pipeline).1 })))
      ]
    ]
