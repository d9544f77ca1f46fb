-- ===== src/Optimizer/Program/Refined.antt =====
-- optimizer/optimizer.py: what the constraints of `gurobi_optmizer` say of a choice for each stage.
use mathlib.Core.Path.{subst}
use ipa_arman.Prelude.{
  ℕ, String, ◌≡◌, refl, sym, ap, ◌∙◌, ◌↔◌, true, none, List, [], ◌∷◌, ◌++◌, map, eq_iff, arith, All,
  All-append, All-map, All-for_each, All-found, for_each, count_of, ok, >>=-eq-ok, ok-injective,
  traverse, All-every, All-three, Runtime, IsExact,
}
use ipa_arman.Models.Task.{Task}
use ipa_arman.Optimizer.Parameters.{Table}
use ipa_arman.Optimizer.Program.{var_i, var_b, Constraint, satisfies, satisfies_all}
use ipa_arman.Optimizer.Program.Build.{
  Stage, Coefficients, stage_variant_batches, throughput_constraints, latency_constraint,
  single_batch, one_model, baseline_constraints, pairs, constraints_of,
}
use ipa_arman.Optimizer.Program.Encoding.{
  Choice, takes_variant, takes_batch, encoded, satisfies_all_iff, sum_one_iff,
}
use ipa_arman.Optimizer.Program.Turns.{Kept, Carries, Turn, turns_iff}

module _ {F : Type 0} ⦃r : Runtime F⦄ (exact : IsExact F) (choose : String → Choice) where
  -- A choice for a stage: one of its variants and one of the batch sizes, which carry the load.
  abbrev pub Admissible : Table F → ℕ → List ℕ → Stage → Type 0
  Admissible table arrival_rate bs (stage, vs) =
      (count_of (takes_variant choose stage) vs ≡ 1)
      × (count_of (takes_batch choose stage) bs ≡ 1)
      × (Carries exact choose) table arrival_rate stage (choose stage).variant (choose stage).batch

  -- The turns of a stage.
  abbrev Turns : Table F → ℕ → List ℕ → Stage → Type 0
  Turns table arrival_rate bs (stage, vs) =
      All (Turn exact choose table arrival_rate)
        (for_each (λ variant. map (λ batch. (stage, variant, batch)) bs) vs)

  Carries-same :
      (table : Table F) (arrival_rate : ℕ) (stage variant : String) (batch : ℕ)
      → takes_variant choose stage variant ≡ true
      → takes_batch choose stage batch ≡ true
      → (Carries exact choose) table arrival_rate stage variant batch
        ↔ (Carries exact choose) table arrival_rate stage
            (choose stage).variant
            (choose stage).batch
  Carries-same table arrival_rate stage variant batch p q =
      let v : (choose stage).variant ≡ variant = (eq_iff (choose stage).variant variant).0 p in
      let b : (choose stage).batch ≡ batch = ground arith in
      let t : (Carries exact choose) table arrival_rate stage (choose stage).variant
            (choose stage).batch
          ≡ (Carries exact choose) table arrival_rate stage variant batch =
        ap (λ w. (Carries exact choose) table arrival_rate stage w (choose stage).batch) v
        ∙ ap (λ c. (Carries exact choose) table arrival_rate stage variant c) b in
      ((λ h. subst (λ T. T) (sym t) h), λ h. subst (λ T. T) t h)

  Turns-to :
      (table : Table F) (arrival_rate : ℕ) (bs : List ℕ) (stage : String) (vs : List String)
      → count_of (takes_variant choose stage) vs ≡ 1
      → count_of (takes_batch choose stage) bs ≡ 1
      → Turns table arrival_rate bs (stage, vs)
      → (Carries exact choose) table arrival_rate stage (choose stage).variant (choose stage).batch
  Turns-to table arrival_rate bs stage vs cv cb turns =
      let each =
        (All-for_each (Turn exact choose table arrival_rate)
            (λ variant. map (λ batch. (stage, variant, batch)) bs) vs).0
          turns in
      let (v, p, row) = All-found _ (takes_variant choose stage) vs each (λ z. ground arith) in
      let cells =
        (All-map (Turn exact choose table arrival_rate) (λ batch. (stage, v, batch)) bs).0 row in
      let (b, q, turn) = All-found _ (takes_batch choose stage) bs cells (λ z. ground arith) in
      (Carries-same table arrival_rate stage v b p q).0 (turn p q)

  Turns-from :
      (table : Table F) (arrival_rate : ℕ) (bs : List ℕ) (stage : String) (vs : List String)
      → (Carries exact choose) table arrival_rate stage (choose stage).variant (choose stage).batch
      → Turns table arrival_rate bs (stage, vs)
  Turns-from table arrival_rate bs stage vs carries =
      (All-for_each (Turn exact choose table arrival_rate)
          (λ variant. map (λ batch. (stage, variant, batch)) bs) vs).1
        (All-every
          (λ v.
            (All-map (Turn exact choose table arrival_rate) (λ batch. (stage, v, batch)) bs).1
              (All-every (λ b p q. (Carries-same table arrival_rate stage v b p q).1 carries) bs))
          vs)

  stage_iff :
      (table : Table F) (arrival_rate : ℕ) (bs : List ℕ) (s : Stage)
      → (Turns table arrival_rate bs s
          × (Kept exact choose) (single_batch bs s)
          × (Kept exact choose) (one_model s))
        ↔ Admissible table arrival_rate bs s
  unfolding single_batch one_model
  stage_iff table arrival_rate bs (stage, vs) =
      let (b_to, b_from) =
        sum_one_iff exact (encoded choose) (var_b stage) (takes_batch choose stage) bs
          (λ b. refl) in
      let (v_to, v_from) =
        sum_one_iff exact (encoded choose) (var_i stage) (takes_variant choose stage) vs
          (λ v. refl) in
      (
        (λ (turns, b, v).
            (v_to v, b_to b, Turns-to table arrival_rate bs stage vs (v_to v) (b_to b) turns)),
        λ (v, b, carries). (Turns-from table arrival_rate bs stage vs carries, b_from b, v_from v),
      )

  stages_iff :
      (table : Table F) (arrival_rate : ℕ) (bs : List ℕ) (stages : List Stage)
      → (All (Turn exact choose table arrival_rate) (stage_variant_batches bs stages)
          × All (Kept exact choose) (map (single_batch bs) stages)
          × All (Kept exact choose) (map one_model stages))
        ↔ All (Admissible table arrival_rate bs) stages
  unfolding stage_variant_batches
  stages_iff table arrival_rate bs stages =
      let (t_to, t_from) = All-for_each (Turn exact choose table arrival_rate) _ stages in
      let (b_to, b_from) = All-map (Kept exact choose) (single_batch bs) stages in
      let (v_to, v_from) = All-map (Kept exact choose) one_model stages in
      let (to, from) =
        All-three (Turns table arrival_rate bs) _ _ (Admissible table arrival_rate bs)
          (stage_iff table arrival_rate bs) stages in
      (
        (λ (t, b, v). to (t_to t, b_to b, v_to v)),
        λ h. let (t, b, v) = from h in (t_from t, b_from b, v_from v),
      )

  parts_iff :
      (turns : List (Constraint F)) (in_time : Constraint F) (singles ones : List (Constraint F))
      → (satisfies_all (encoded choose) (turns ++ (in_time ∷ singles) ++ [] ++ ones) ≡ true) ↔ (
          All (Kept exact choose) turns
          × ((Kept exact choose) in_time × All (Kept exact choose) singles)
          × All (Kept exact choose) ones)
  parts_iff turns in_time singles ones =
      let (to, from) =
        satisfies_all_iff (encoded choose) (turns ++ (in_time ∷ singles) ++ [] ++ ones) in
      let (a_to, a_from) =
        All-append (Kept exact choose) (turns ++ (in_time ∷ singles) ++ []) ones in
      let (b_to, b_from) = All-append (Kept exact choose) (turns ++ (in_time ∷ singles)) [] in
      let (c_to, c_from) = All-append (Kept exact choose) turns (in_time ∷ singles) in
      (
        (λ h. let (most, o) = a_to (to h) in let (t, m) = c_to (b_to most).0 in (t, m, o)),
        λ (t, m, o). from (a_from (b_from (c_from (t, m), tt), o)),
      )

  -- Without a baseline, the values that stand for a choice for each stage satisfy the constraints of
  -- the program just if they satisfy the one on latencies and each stage is given one of its variants
  -- and one of the batch sizes, with replicas that carry the arrival rate at the throughput of the two.
  pub constraints_of_iff :
      (k : Coefficients F) (arrival_rate : ℕ) (sla : F) (stages : List Stage)
      (graph : List (Task F)) {cs : List (Constraint F)}
      → constraints_of k arrival_rate sla none stages graph ≡ ok cs
      → (in_time : Constraint F) × (latency_constraint k.latencies arrival_rate sla
            (stage_variant_batches k.distinct_batches stages)
          ≡ ok in_time)
        × ((satisfies_all (encoded choose) cs ≡ true) ↔ (
            (satisfies (encoded choose) in_time ≡ true)
            × All (Admissible k.throughputs arrival_rate k.distinct_batches) stages))
  unfolding constraints_of baseline_constraints
  constraints_of_iff k arrival_rate sla stages graph {cs} h =
      let keys = stage_variant_batches k.distinct_batches stages in
      let (turns, e, h1) =
        >>=-eq-ok (traverse (throughput_constraints k.throughputs arrival_rate) keys) _ h in
      let (in_time, g, h2) =
        >>=-eq-ok (latency_constraint k.latencies arrival_rate sla keys) _ h1 in
      let (t_to, t_from) = turns_iff exact choose k.throughputs arrival_rate keys e in
      let (s_to, s_from) = stages_iff k.throughputs arrival_rate k.distinct_batches stages in
      let singles = map (single_batch k.distinct_batches) stages in
      let (to, from) = parts_iff (pairs turns) in_time singles (map one_model stages) in
      (
        in_time,
        g,
        subst
            (λ l. (satisfies_all (encoded choose) l ≡ true) ↔ (
              (satisfies (encoded choose) in_time ≡ true)
              × All (Admissible k.throughputs arrival_rate k.distinct_batches) stages))
            (ok-injective h2)
            (
              (λ holds. let (t, (l, b), v) = to holds in (l, s_to (t_to t, b, v))),
              λ (l, each). let (t, b, v) = s_from each in from (t_from t, (l, b), v),
            ),
      )
