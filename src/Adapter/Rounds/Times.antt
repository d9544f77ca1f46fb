-- ===== src/Adapter/Rounds/Times.antt =====
-- optimizer/adapter.py: the time steps of the report that `start_adaptation` builds up.
use native.Mathlib.Nat.{suc-mul}
use mathlib.Core.Path.{subst}
use mathlib.Core.List.{append-nil, append_assoc}
use ipa_arman.Prelude.{
  ℕ, suc, ◌+◌, ◌*◌, ◌≤◌, ◌≡◌, refl, sym, ◌∙◌, ap, Bool, true, false, List, [], ◌∷◌, ◌++◌, ◌==◌,
  arith, inl, inr, Bool-cases, Outcome-cases, >>=-eq-ok, ok-injective, unbound_local_error, Outcome,
  ok, raised, some, none, Option, Method, Dict, insert, All, Conversions, Runtime, or_raise,
}
use ipa_arman.Models.Pipeline.{Pipeline}
use ipa_arman.Optimizer.Rows.{State}
use ipa_arman.Adapter.Cluster.{Kube, extract_current_config}
use ipa_arman.Adapter.Monitoring.{Step, new_report, adaptation_step_report}
use ipa_arman.Adapter.Rounds.{observe, adapt_if, adapt_once, adapt, report_initial}
use ipa_arman.Adapter.Passes.{
  Options, Round, Loop, goes_on, stops, abort, monitored, advance, save_config,
}
use ipa_arman.Adapter.Rounds.Clock.{EndsAt, Settles, Same, abort_with-Same, decide-Settles}

next_clock : (n time i m : ℕ) → time ≡ n * i → m ≡ suc n → time + i ≡ m * i
next_clock n time i m h e = ap (λ x. x + i) h ∙ sym (suc-mul n i) ∙ ap (λ x. x * i) (sym e)

module _ {F : Type 0} where
  abbrev Timed : ℕ → ℕ → (ℕ × Step F) → Type 0
  Timed interval n e = (e.1.time_interval ≡ e.0 * interval) × (e.0 ≤ n)

  insert_new :
      (interval n : ℕ) (x : Step F) (steps : Dict ℕ (Step F))
      → All (Timed interval n) steps
      → insert ◌==◌ (suc n) x steps ≡ steps ++ ((suc n, x) ∷ [])
  unfolding insert
  insert_new interval n x [] h = refl
  insert_new interval n x ((j, w) ∷ steps) ((a, b), h) =
      let later = insert_new interval n x steps h in ground arith

  All-Timed-later :
      (interval n : ℕ) (steps : Dict ℕ (Step F))
      → All (Timed interval n) steps
      → All (Timed interval (suc n)) steps
  All-Timed-later interval n [] h = tt
  All-Timed-later interval n (e ∷ steps) ((a, b), h) =
      ((a, omega arith), All-Timed-later interval n steps h)

  All-Timed-add :
      (interval n : ℕ) (x : Step F) (steps : Dict ℕ (Step F))
      → x.time_interval ≡ n * interval
      → All (Timed interval n) steps
      → All (Timed interval n) (steps ++ ((n, x) ∷ []))
  All-Timed-add interval n x [] t h = ((t, omega arith), tt)
  All-Timed-add interval n x (e ∷ steps) t (b, h) = (b, All-Timed-add interval n x steps t h)

module _ {F K : Type 0} where
  -- The clock of a state, and of all steps in its report.
  pub record IsTimed (o : Options) (s : Loop F K) : Type 0 where
    pub clock : s.time_interval ≡ s.timestep * o.adaptation_interval
    pub steps :
        All
          (λ (e : ℕ × Step F).
            (e.1.time_interval ≡ e.0 * o.adaptation_interval) × (e.0 ≤ s.timestep))
          s.report.timesteps

  -- The steps of a report are added to, and none is changed.
  abbrev pub Extends : Loop F K → Loop F K → Type 0
  Extends s s' = (new : Dict ℕ (Step F)) × (s'.report.timesteps ≡ s.report.timesteps ++ new)

  -- A state of the same clock and report.
  Same-IsTimed :
      (o : Options) (s s' : Loop F K) → Same s s' → IsTimed o s → IsTimed o s' × Extends s s'
  Same-IsTimed o s s' (a, b, c) t = (
    record {
      clock = b ∙ t.clock ∙ ap (λ n. n * o.adaptation_interval) (sym a);
      steps =
          subst (λ l. All (Timed o.adaptation_interval s'.timestep) l) (sym c)
            (subst (λ n. All (Timed o.adaptation_interval n) s.report.timesteps) (sym a) t.steps);
    },
    ([], c ∙ sym (append-nil s.report.timesteps)),
  )

  -- The decision of the next time step.
  EndsAt-IsTimed :
      (o : Options) (s s' : Loop F K)
      → IsTimed o s
      → EndsAt (suc s.timestep) (s.time_interval + o.adaptation_interval) s.report.timesteps s'
      → IsTimed o s' × Extends s s'
  EndsAt-IsTimed o s s' timed e = elim e.entries [
    | inl kept ↦ (
      record { clock = clock'; steps = steps_of s.report.timesteps kept later },
      ([], kept ∙ sym (append-nil s.report.timesteps)),
    )
    | inr (x, time, added) ↦
        let grown = added ∙ insert_new i s.timestep x s.report.timesteps timed.steps in
        let here =
          time ∙ next_clock s.timestep s.time_interval i (suc s.timestep) timed.clock refl in
        (
          record {
            clock = clock';
            steps =
                steps_of (s.report.timesteps ++ ((suc s.timestep, x) ∷ [])) grown
                  (All-Timed-add i (suc s.timestep) x s.report.timesteps here later);
          },
          ((suc s.timestep, x) ∷ [], grown),
        )
  ]
    where
      i : ℕ
      i = o.adaptation_interval

      clock' : s'.time_interval ≡ s'.timestep * i
      clock' =
          e.same_time ∙ next_clock s.timestep s.time_interval i s'.timestep timed.clock e.same_step

      later : All (Timed i (suc s.timestep)) s.report.timesteps
      later = All-Timed-later i s.timestep s.report.timesteps timed.steps

      steps_of :
          (l : Dict ℕ (Step F))
          → s'.report.timesteps ≡ l
          → All (Timed i (suc s.timestep)) l
          → All (Timed i s'.timestep) s'.report.timesteps
      steps_of l same h =
          subst (λ x. All (Timed i s'.timestep) x) (sym same)
            (subst (λ n. All (Timed i n) l) (sym e.same_step) h)

  advance-Same : (o : Options) (s : Loop F K) {s' : Loop F K} → advance o s ≡ ok s' → Same s s'
  unfolding advance
  advance-Same o s {s'} h = elim (Bool-cases o.teleport_mode) [
    | inr live ↦ subst (Same s) (ok-injective (rw live at h)) (refl, refl, refl)
    | inl teleport ↦
        let (w, _, h1) =
          >>=-eq-ok (or_raise s.workload_timestep unbound_local_error) _ (rw teleport at h) in
        subst (Same s) (ok-injective h1) (refl, refl, refl)
  ]

  Extends-trans : (s t u : Loop F K) → Extends s t → Extends t u → Extends s u
  Extends-trans s t u (new, a) (more, b) =
      (new ++ more, b ∙ ap (λ l. l ++ more) a ∙ append_assoc s.report.timesteps new more)

module _ {F : Type 0} ⦃r : Runtime F⦄ (texts : Conversions F) {K : Type 0} (kube : Kube K)
    (predict : List ℕ → Outcome ℕ) (optimize : ℕ → Method (Pipeline F) (List (State F))) where
  abbrev Keeps : Options → Loop F K → Loop F K → Type 0
  Keeps o s s' = IsTimed o s' × Extends s s'

  observe-EndsAt :
      (o : Options) (now : Round K) (loads : Outcome (Option (List ℕ))) (s : Loop F K)
      → Settles s (observe texts kube predict optimize o now loads s).1
  unfolding observe
  observe-EndsAt o now (raised e) s = record {
    same_step = refl;
    same_time = refl;
    entries = inl refl;
  }
  observe-EndsAt o now (ok none) s = record {
    same_step = refl;
    same_time = refl;
    entries = inl refl;
  }
  observe-EndsAt o now (ok (some loads)) s =
      decide-Settles texts kube predict optimize o now loads
        (record s { rps_series = some (some loads) })

  adapt_if-Keeps :
      (up : Bool) (o : Options) (now : Round K) (s : Loop F K)
      → IsTimed o s
      → Keeps o s (adapt_if texts kube predict optimize up o now s).1
  unfolding adapt_if abort
  adapt_if-Keeps false o now s timed =
      Same-IsTimed o s (abort o now s).1 (abort_with-Same o.teleport_mode s.rps_series now s) timed
  adapt_if-Keeps true o now s timed =
      let t = record s {
        time_interval = s.time_interval + o.adaptation_interval;
        timestep = suc s.timestep;
      } in
      EndsAt-IsTimed o s (observe texts kube predict optimize o now (monitored o now t) t).1 timed
        (observe-EndsAt o now (monitored o now t) t)

  adapt_once-Keeps :
      (o : Options) (now : Round K) (s : Loop F K)
      → IsTimed o s
      → Keeps o s (adapt_once texts kube predict optimize o now s).1
  unfolding adapt_once
  adapt_once-Keeps o now s timed =
      elim (Outcome-cases (advance o (record s { cluster = now.drift s.cluster }))) [
        | inr (e, g) ↦ rw (g, adapt_once) (Same-IsTimed o s s (refl, refl, refl) timed)
        | inl (t, g) ↦
            let (kept, ext) =
              Same-IsTimed o s t (advance-Same o (record s { cluster = now.drift s.cluster }) g)
                timed in
            let (kept', ext') = adapt_if-Keeps now.up o now t kept in
            rw (g, adapt_once)
              (
                kept',
                Extends-trans s t (adapt_if texts kube predict optimize now.up o now t).1 ext ext',
              )
      ]

  -- From a state on the clock.
  adapt-IsTimed :
      (o : Options) (rounds : List (Round K)) (s : Loop F K)
      → IsTimed o s
      → IsTimed o (adapt texts kube predict optimize o rounds s).1
        × Extends s (adapt texts kube predict optimize o rounds s).1
  unfolding adapt
  adapt-IsTimed o [] s timed = Same-IsTimed o s s (refl, refl, refl) timed
  adapt-IsTimed o (now ∷ rounds) s timed =
      let once = adapt_once texts kube predict optimize o now s in
      let (kept, ext) = adapt_once-Keeps o now s timed in
      elim (Outcome-cases once.0) [
        | inr (e, g) ↦ rw (g, adapt) (kept, ext)
        | inl (stops, g) ↦ rw (g, adapt) (kept, ext)
        | inl (goes_on, g) ↦
            let (kept', ext') = adapt-IsTimed o rounds once.1 kept in
            rw (g, adapt)
              (
                kept',
                Extends-trans s once.1 (adapt texts kube predict optimize o rounds once.1).1 ext
                    ext',
              )
      ]

  report_initial-IsTimed :
      (o : Options) (p : Pipeline F) (sla : F) (k : K) {s : Loop F K}
      → report_initial texts kube predict optimize o p (new_report sla) k ≡ ok s
      → IsTimed o s
  unfolding report_initial new_report adaptation_step_report insert
  report_initial-IsTimed o p sla k h =
      let (current, h1, k1) = >>=-eq-ok (extract_current_config texts kube o.nodes k) _ h in
      let (saved, h2, k2) = >>=-eq-ok (save_config o current p) _ k1 in
      subst (IsTimed o) (ok-injective k2)
        (record { clock = omega arith; steps = ((omega arith, omega arith), tt) })

  -- From the report of the time step 0, which `start_adaptation` starts from with a new report, each step
  -- in the report of the loop has a time interval of its number times the adaptation interval, and the
  -- loop adds to the report without changing a step that is there, also where it ends by an exception.
  pub adapt-report_initial-IsTimed :
      (o : Options) (rounds : List (Round K)) (p : Pipeline F) (sla : F) (k : K) {s : Loop F K}
      → report_initial texts kube predict optimize o p (new_report sla) k ≡ ok s
      → IsTimed o (adapt texts kube predict optimize o rounds s).1
        × Extends s (adapt texts kube predict optimize o rounds s).1
  adapt-report_initial-IsTimed o rounds p sla k {s} h =
      adapt-IsTimed o rounds s (report_initial-IsTimed o p sla k h)
