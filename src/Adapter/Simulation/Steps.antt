-- ===== src/Adapter/Simulation/Steps.antt =====
-- optimizer/sim_adapter.py: the time steps of the report that the loop of the simulation builds up.
use native.Mathlib.Nat.{suc-mul}
use mathlib.Core.Path.{subst}
use ipa_arman.Prelude.{
  ℕ, zero, suc, ◌+◌, ◌-◌, ◌*◌, ◌/◌, ◌<◌, ◌≤◌, ◌==◌, ◌≡◌, refl, sym, ◌∙◌, ap, List, [], ◌∷◌, ◌++◌,
  map, Outcome, ok, >>=-eq-ok, ok-injective, some, Method, Dict, insert, slice, length, range_from,
  All, arith, inl, inr, Bool-cases, Conversions, Runtime, append_assoc, append-nil,
}
use ipa_arman.Models.Pipeline.{Pipeline}
use ipa_arman.Optimizer.Rows.{State}
use ipa_arman.Adapter.Configs.{Config}
use ipa_arman.Adapter.Monitoring.{Step, first_objective}
use ipa_arman.Adapter.Simulation.{
  Setup, Sim, SimReport, range_by, report_pass, update_load, next_config, saved_config, settle,
  simulate_once, simulate, start_simulation,
}

module _ {F : Type 0} where
  insert-later :
      (t : ℕ) (x : Step F) (steps : Dict ℕ (Step F))
      → All (λ (e : ℕ × Step F). e.0 < t) steps
      → insert ◌==◌ t x steps ≡ steps ++ ((t, x) ∷ [])
  unfolding insert
  insert-later t x [] h = refl
  insert-later t x ((j, w) ∷ steps) (a, h) = let later = insert-later t x steps h in ground arith

  All-later :
      (t u : ℕ) (x : Step F) (steps : Dict ℕ (Step F))
      → t < u
      → All (λ (e : ℕ × Step F). e.0 < t) steps
      → All (λ (e : ℕ × Step F). e.0 < u) (steps ++ ((t, x) ∷ []))
  All-later t u x [] more h = (more, tt)
  All-later t u x (e ∷ steps) more (a, h) = (omega arith, All-later t u x steps more h)

module _ {F : Type 0} where
  -- An entry of the report: its time step is the time that has passed, its load the seconds of the
  -- workload before it, as far back as the monitoring reaches, and what it plans for is predicted
  -- from that load.
  abbrev pub Observed : (List ℕ → Outcome ℕ) → Setup → List ℕ → (ℕ × Step F) → Type 0
  Observed predict o workload e =
      (e.1.time_interval ≡ e.0)
      × (e.1.monitored_load ≡ slice (e.0 - o.monitoring_duration * 60) e.0 workload)
      × (predict e.1.monitored_load ≡ ok e.1.predicted_load)

-- The time steps of the loop from the turn `i` on.
abbrev turns : ℕ → ℕ → ℕ → List ℕ
turns a i n = map (λ k. a + k * a) (range_from i n)

next_turn : (i a : ℕ) → suc i * a ≡ a + i * a
next_turn i a = let next = suc-mul i a in omega arith

turn-later : (i a : ℕ) → 1 ≤ a → a + i * a < a + suc i * a
turn-later i a pos = let next = suc-mul i a in omega arith

range_by-turns :
    (a stop : ℕ) {timesteps : List ℕ}
    → range_by a stop a ≡ ok timesteps
    → (1 ≤ a) × (timesteps ≡ turns a 0 ((stop - a + (a - 1)) / a))
unfolding range_by
range_by-turns a stop h = elim (Bool-cases (a == 0)) [
  | inl zero_step ↦ let none_left = rw zero_step at h in cc
  | inr steps ↦ (ground arith, sym (ok-injective (rw steps at h)))
]

module _ {F : Type 0} ⦃r : Runtime F⦄ (texts : Conversions F) (predict : List ℕ → Outcome ℕ)
    (optimize : ℕ → Method (Pipeline F) (List (State F))) where
  -- What one pass adds.
  pub record Passed (o : Setup) (workload : List ℕ) (t : ℕ) (s s' : Sim F) : Type 0 where
    pub step : Step F
    pub clock : s'.time_interval ≡ s.time_interval + o.adaptation_interval
    pub added : s'.report.timesteps ≡ insert ◌==◌ t step s.report.timesteps
    pub same_clock : step.time_interval ≡ s'.time_interval
    pub load : step.monitored_load ≡ slice (t - o.monitoring_duration * 60) t workload
    pub plan : predict step.monitored_load ≡ ok step.predicted_load

  simulate_once-Passed :
      (o : Setup) (workload : List ℕ) (t : ℕ) (s : Sim F) {s' : Sim F}
      → simulate_once texts predict optimize o workload t s ≡ ok s'
      → Passed o workload t s s'
  unfolding simulate_once settle report_pass update_load
  simulate_once-Passed o workload t s {s'} h =
      let (predicted, h1, k1) =
        >>=-eq-ok (predict (slice (t - o.monitoring_duration * 60) t workload)) _ h in
      let (rows, h2, k2) = >>=-eq-ok (optimize predicted s.pipeline).0 _ k1 in
      let (config, h3, k3) = >>=-eq-ok (next_config texts o rows s.old_config) _ k2 in
      let (saved, h4, k4) = >>=-eq-ok (saved_config o config _) _ k3 in
      let (objective, h5, k5) = >>=-eq-ok (first_objective _) _ k4 in
      subst (Passed o workload t s) (ok-injective k5)
        (record { step = _; clock = refl; added = refl; same_clock = refl; load = refl; plan = h1 })

  simulate-grows :
      (o : Setup) (workload : List ℕ) (i n : ℕ) (s : Sim F) {s' : Sim F}
      → 1 ≤ o.adaptation_interval
      → s.time_interval ≡ i * o.adaptation_interval
      → All
          (λ (e : ℕ × Step F). e.0 < o.adaptation_interval + i * o.adaptation_interval)
          s.report.timesteps
      → simulate texts predict optimize o workload (turns o.adaptation_interval i n) s ≡ ok s'
      → (new : Dict ℕ (Step F)) × (s'.report.timesteps ≡ s.report.timesteps ++ new)
        × (map (λ (e : ℕ × Step F). e.0) new ≡ turns o.adaptation_interval i n)
        × All (Observed predict o workload) new
  unfolding simulate range_from
  simulate-grows o workload i zero s {s'} pos clock older h = (
    [],
    ap (λ (x : Sim F). x.report.timesteps) (sym (ok-injective h))
        ∙ sym (append-nil s.report.timesteps),
    refl,
    tt,
  )
  simulate-grows o workload i (suc n) s {s'} pos clock older h =
      let a = o.adaptation_interval in
      let t = a + i * a in
      let (s1, first, others) =
        >>=-eq-ok (simulate_once texts predict optimize o workload t s) _ h in
      let once = simulate_once-Passed o workload t s first in
      let next = suc-mul i a in
      let time = once.clock ∙ ap (λ x. x + a) clock ∙ sym next in
      let now = time ∙ next_turn i a in
      let grown = once.added ∙ insert-later t once.step s.report.timesteps older in
      let older' =
        subst (All (λ (e : ℕ × Step F). e.0 < a + suc i * a)) (sym grown)
          (All-later t (a + suc i * a) once.step s.report.timesteps (turn-later i a pos) older) in
      let (new, extends, times, observed) =
        simulate-grows o workload (suc i) n s1 pos time older' others in
      (
        (t, once.step) ∷ new,
        extends
            ∙ ap (λ l. l ++ new) grown
            ∙ append_assoc s.report.timesteps ((t, once.step) ∷ []) new,
        ap (λ l. t ∷ l) times,
        ((once.same_clock ∙ now, once.load, once.plan), observed),
      )

  -- From an empty report, the loop leaves one entry for each of its time steps, in order, and in each
  -- the time that has passed, the seconds of the workload before it as far back as the monitoring
  -- reaches, and the load that is predicted from them.
  pub start_simulation-Observed :
      (o : Setup) (workload : List ℕ) (initial_config : Config F) (report : SimReport F)
      → (p : Pipeline F) {s : Sim F} → report.timesteps ≡ []
      → start_simulation texts predict optimize o workload initial_config report p ≡ ok s
      → (timesteps : List ℕ) × (range_by o.adaptation_interval
            (length workload)
            o.adaptation_interval
          ≡ ok timesteps)
        × (map (λ (e : ℕ × Step F). e.0) s.report.timesteps ≡ timesteps)
        × All (Observed predict o workload) s.report.timesteps
  unfolding start_simulation
  start_simulation-Observed o workload initial_config report p {s} empty h =
      let a = o.adaptation_interval in
      let (timesteps, h1, h2) = >>=-eq-ok (range_by a (length workload) a) _ h in
      let (pos, shape) = range_by-turns a (length workload) h1 in
      let start : Sim F = record {
        time_interval = 0;
        old_config = some initial_config;
        report = report;
        pipeline = p;
      } in
      let none_yet = subst (All (λ (e : ℕ × Step F). e.0 < a + 0 * a)) (sym empty) tt in
      let (new, extends, times, observed) =
        simulate-grows o workload 0 ((length workload - a + (a - 1)) / a) start pos (omega arith)
          none_yet
          (subst (λ l. simulate texts predict optimize o workload l start ≡ ok s) shape h2) in
      let all_new = extends ∙ ap (λ l. l ++ new) empty in
      (
        timesteps,
        h1,
        ap (map (λ (e : ℕ × Step F). e.0)) all_new ∙ times ∙ sym shape,
        subst (All (Observed predict o workload)) (sym all_new) observed,
      )
