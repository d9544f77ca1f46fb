-- ===== src/Optimizer/Objective/Constraints.antt =====
-- optimizer/optimizer.py: what the constraints guarantee, and what an unprofiled batch size does to
-- the latency of a pipeline.
use mathlib.Core.Path.{subst}
use ipa_arman.Prelude.{
  ℕ, ◌+◌, ◌≤◌, ◌≡◌, refl, sym, ◌∙◌, ap, true, false, List, ◌∷◌, [], ◌++◌, arith, Bool-cases, inl,
  inr, stop_iteration, Outcome, ok, raised, >>=-eq-ok, ok-injective, ok-false≢true, traverse,
  list_map, All, Runtime, IsOrdered, sum,
}
use ipa_arman.Models.Task.{
  Task, latency, model_latency, queue_latency, throughput, throughput_all_replicas, re_scale,
  active_profile, active_model,
}
use ipa_arman.Models.Pipeline.{Pipeline, stage_wise_latencies, pipeline_latency, pipeline_sla}
use ipa_arman.Optimizer.Objective.{can_sustain_load, sla_is_met, constraints}
use ipa_arman.Optimizer.Objective.Load.{Carries, can_sustain_load_iff}

-- Where no item raises, `list(map(f, xs))` has one entry for each.
list_map-eq-traverse {ℓ κ} :
    {A : Type ℓ} {B : Type κ} (f : A → Outcome B) (xs : List A)
    → All (λ x. (y : B) × (f x ≡ ok y)) xs
    → (ys : List B) × (list_map f xs ≡ ok ys) × (traverse f xs ≡ ok ys)
unfolding list_map traverse
list_map-eq-traverse f [] h = ([], refl, refl)
list_map-eq-traverse f (x ∷ xs) ((y, e), rest) =
    let (ys, el, et) = list_map-eq-traverse f xs rest in
    (y ∷ ys, rw (e, list_map, el), rw (e, traverse, et))

-- An item that raises StopIteration hides itself and all that follow.
list_map_cut {ℓ κ} :
    {A : Type ℓ} {B : Type κ} (f : A → Outcome B) (xs : List A) (x : A) (ys : List A)
    → All (λ a. (b : B) × (f a ≡ ok b)) xs
    → f x ≡ raised stop_iteration
    → list_map f (xs ++ x ∷ ys) ≡ list_map f xs
unfolding list_map
list_map_cut f [] x ys h e = rw (e, list_map)
list_map_cut f (a ∷ xs) x ys ((b, ea), h) e = rw (ea, list_map, list_map_cut f xs x ys h e)

module _ {F : Type 0} ⦃r : Runtime F⦄ where
  open r use {of_ℕ, mul, lt, le}

  Carries-latency : (rate : ℕ) (t : Task F) → Carries rate t → (l : F) × (latency t ≡ ok l)
  unfolding throughput_all_replicas throughput latency model_latency
  Carries-latency rate t (x, e, high) =
      let (y, e1, h1) = >>=-eq-ok (throughput t) _ e in
      let (p, e2, h2) = >>=-eq-ok (active_profile t) _ e1 in
      (r.add p.latency (queue_latency t), rw (latency, model_latency, e2))

  All-Carries-latency :
      (rate : ℕ) (ts : List (Task F))
      → All (Carries rate) ts
      → All (λ t. (l : F) × (latency t ≡ ok l)) ts
  All-Carries-latency rate [] h = tt
  All-Carries-latency rate (t ∷ ts) (c, cs) =
      (Carries-latency rate t c, All-Carries-latency rate ts cs)

  -- When `constraints` answers True, every task of the graph has a latency for its batch size and
  -- carries the arrival rate, and the sum of the latencies of all tasks is below the SLA of the
  -- pipeline.
  pub constraints_sound :
      (rate : ℕ) (p : Pipeline F)
      → constraints rate p ≡ ok true
      → All (Carries rate) p.inference_graph
        × ((ls : List F) × (limit : F) × (traverse latency p.inference_graph ≡ ok ls)
            × (pipeline_sla p ≡ ok limit)
            × (lt (sum ls) limit ≡ true))
  unfolding constraints sla_is_met pipeline_latency stage_wise_latencies
  constraints_sound rate p h =
      let (met, e, h1) = >>=-eq-ok (sla_is_met p) _ h in
      elim (Bool-cases met) [
        | inr late ↦ absurd (ok-false≢true (rw late at h1))
        | inl early ↦
            let all = (can_sustain_load_iff rate p.inference_graph).0 (rw early at h1) in
            let (ls, el, et) =
              list_map-eq-traverse latency p.inference_graph
                (All-Carries-latency rate p.inference_graph all) in
            let (l, e1, g1) = >>=-eq-ok (pipeline_latency p) _ e in
            let (limit, e2, g2) = >>=-eq-ok (pipeline_sla p) _ g1 in
            let (ks, e3, g3) = >>=-eq-ok (stage_wise_latencies p) _ e1 in
            let same : ks ≡ ls = ok-injective (sym e3 ∙ el) in
            let total : sum ls ≡ l = ap sum (sym same) ∙ ok-injective g3 in
            (all, (ls, limit, et, e2, rw (total, ok-injective g2) early))
      ]

  -- A task without a profile for its batch size cuts the list of latencies short: the latency of the
  -- pipeline is then that of the tasks before it, and no exception is raised.
  pub pipeline_latency_cut :
      (p : Pipeline F) (before : List (Task F)) (t : Task F) (after : List (Task F))
      → p.inference_graph ≡ before ++ t ∷ after
      → All (λ u. (l : F) × (latency u ≡ ok l)) before
      → active_profile t ≡ raised stop_iteration
      → (ls : List F) × (traverse latency before ≡ ok ls) × (pipeline_latency p ≡ ok (sum ls))
  unfolding pipeline_latency stage_wise_latencies latency model_latency
  pipeline_latency_cut p before t after graph known missing =
      let (ls, el, et) = list_map-eq-traverse latency before known in
      let gone : latency t ≡ raised stop_iteration = rw (latency, model_latency, missing) in
      (
        ls,
        et,
        rw (
          pipeline_latency,
          stage_wise_latencies,
          graph,
          list_map_cut latency before t after known gone,
          el,
        ),
      )

  -- A throughput is not negative.
  abbrev pub IsPositive : Task F → Type 0
  IsPositive t = (x : F) → throughput t ≡ ok x → le (of_ℕ 0) x ≡ true

  -- Some replicas more for each task: `ks` in order, and none where the list ends.
  abbrev pub more_replicas : List ℕ → List (Task F) → List (Task F)
  more_replicas ks [] = []
  more_replicas [] (t ∷ ts) = t ∷ ts
  more_replicas (k ∷ ks) (t ∷ ts) = re_scale (t.replicas + k) t ∷ more_replicas ks ts

  more_replicas-nil : (ts : List (Task F)) → more_replicas [] ts ≡ ts
  more_replicas-nil [] = refl
  more_replicas-nil (t ∷ ts) = refl

  module _ (laws : IsOrdered F) where
    open laws use {le_trans, lt-eq-not-le, of_ℕ_mono, mul_mono}

    Carries-le :
        (low high : ℕ) (x y : F)
        → low ≤ high
        → le x y ≡ true
        → lt x (of_ℕ high) ≡ false
        → lt y (of_ℕ low) ≡ false
    Carries-le low high x y h xy c = ground (
      arith,
      lt-eq-not-le x (of_ℕ high),
      lt-eq-not-le y (of_ℕ low),
      of_ℕ_mono low high h,
      le_trans (of_ℕ low) (of_ℕ high) x,
      le_trans (of_ℕ low) x y,
    )

    throughput-re_scale : (k : ℕ) (t : Task F) → throughput (re_scale k t) ≡ throughput t
    unfolding throughput re_scale active_profile active_model
    throughput-re_scale k t = refl

    Carries-re_scale :
        (low high k : ℕ) (t : Task F)
        → low ≤ high
        → IsPositive t
        → Carries high t
        → Carries low (re_scale (t.replicas + k) t)
    unfolding throughput_all_replicas re_scale
    Carries-re_scale low high k t h pos (x, e, high_enough) =
        let (y, e1, h1) = >>=-eq-ok (throughput t) _ e in
        let more : ℕ = t.replicas + k in
        let total : F = mul y (of_ℕ more) in
        let grows =
          mul_mono y (of_ℕ t.replicas) (of_ℕ more) (pos y e1) (of_ℕ_mono _ _ (omega arith)) in
        (
          total,
          rw (throughput_all_replicas, throughput-re_scale more t, e1),
          Carries-le low high (mul y (of_ℕ t.replicas)) total h grows
              (rw (ok-injective h1) high_enough),
        )

    Carries-lower : (low high : ℕ) (t : Task F) → low ≤ high → Carries high t → Carries low t
    Carries-lower low high t h (x, e, c) = (x, e, Carries-le low high x x h (laws.le_refl x) c)

    All-Carries-more :
        (low high : ℕ) (ks : List ℕ) (ts : List (Task F))
        → low ≤ high
        → All IsPositive ts
        → All (Carries high) ts
        → All (Carries low) (more_replicas ks ts)
    All-Carries-more low high ks [] h pos c = tt
    All-Carries-more low high [] (t ∷ ts) h (p, ps) (c, cs) = (
      Carries-lower low high t h c,
      subst (All (Carries low)) (more_replicas-nil ts) (All-Carries-more low high [] ts h ps cs),
    )
    All-Carries-more low high (k ∷ ks) (t ∷ ts) h (p, ps) (c, cs) =
        (Carries-re_scale low high k t h p c, All-Carries-more low high ks ts h ps cs)

    -- A configuration that sustains a load also sustains every lower load, and every higher number of
    -- replicas keeps it so, where the throughputs are not negative.
    pub can_sustain_load_mono :
        (low high : ℕ) (ks : List ℕ) (ts : List (Task F))
        → low ≤ high
        → All IsPositive ts
        → can_sustain_load high ts ≡ ok true
        → can_sustain_load low (more_replicas ks ts) ≡ ok true
    can_sustain_load_mono low high ks ts h pos c =
        (can_sustain_load_iff low (more_replicas ks ts)).1
          (All-Carries-more low high ks ts h pos ((can_sustain_load_iff high ts).0 c))
