-- ===== src/Optimizer/Program/Build.antt =====
-- optimizer/optimizer.py: `gurobi_optmizer`, the coefficients, the variables and the constraints of the
-- measured case, the only one that is reached since the method sets `only_measured_profiles`.
use ipa_arman.Prelude.{
  ℕ, String, false, Option, none, some, List, [], ◌∷◌, ◌++◌, map, leb, ◌==◌, str_eq, if◌then◌else◌,
  type_error, key_error, Outcome, ok, raised, ◌>>=◌, or_raise, traverse, for_each, keep, Dict,
  lookup, Runtime,
}
use ipa_arman.Models.Task.{Task}
use ipa_arman.Models.Pipeline.{Pipeline, stage_wise_task_names, stage_wise_available_variants}
use ipa_arman.Optimizer.Parameters.{
  Table, latency_parameters, throughput_parameters, accuracy_parameters, base_parameters,
}
use ipa_arman.Optimizer.Program.{
  Variable, var_i, var_b, var_aux, var_n, Kind, binary, integer, Term, num, val, plus, minus, times,
  over, Constraint, at_least, at_most, equal, all_of, when_one, quicksum,
}

-- A stage with its variants.
abbrev pub Stage : Type 0
Stage = String × List String

-- The coefficients, read before the program is built.
pub record Coefficients (F : Type 0) : Type 0 where
  pub bases : Dict String (Dict String F)
  pub accuracies : Dict String (Dict String F)
  pub throughputs : Table F
  pub latencies : Table F
  pub distinct_batches : List ℕ

-- The loops over the stages and their variants, and over the batch sizes inside.
unfoldable pub stage_variants : List Stage → List (String × String)
stage_variants stages = for_each (λ (s : Stage). map (λ variant. (s.0, variant)) s.1) stages

unfoldable pub stage_variant_batches : List ℕ → List Stage → List (String × String × ℕ)
stage_variant_batches bs stages =
    for_each (λ (s : Stage). for_each (λ variant. map (λ batch. (s.0, variant, batch)) bs) s.1)
      stages

-- `table[stage][variant]`
unfoldable pub entry : {F : Type 0} → Dict String (Dict String F) → String → String → Outcome F
entry table stage variant = do
  d ← or_raise (lookup str_eq stage table) key_error
  or_raise (lookup str_eq variant d) key_error

-- `table[stage][variant][batch]`
unfoldable pub coefficient : {F : Type 0} → Table F → String → String → ℕ → Outcome F
coefficient table stage variant batch = do
  d ← or_raise (lookup str_eq stage table) key_error
  row ← or_raise (lookup str_eq variant d) key_error
  or_raise (lookup ◌==◌ batch row) key_error

-- The batch sizes up to the cap; a cap that is None does not compare.
unfoldable pub capped : Option ℕ → List ℕ → Outcome (List ℕ)
capped cap [] = ok []
capped none (b ∷ bs) = raised type_error
capped (some cap) (b ∷ bs) = ok (keep (λ batch. leb batch cap) (b ∷ bs))

-- `stages` with `stages_variants[stage]`.
unfoldable pub stages_of : {F : Type 0} ⦃r : Runtime F⦄ → Pipeline F → Outcome (List Stage)
stages_of p =
    traverse
      (λ stage. or_raise (lookup str_eq stage (stage_wise_available_variants p)) key_error >>= λ vs.
        ok (stage, vs))
      (stage_wise_task_names p)

unfoldable pub variables_of : ℕ → List ℕ → List Stage → List (Variable × Kind)
variables_of scaling_cap bs stages =
    map (λ (e : String × String). (var_i e.0 e.1, binary)) (stage_variants stages)
    ++ for_each (λ (s : Stage). map (λ batch. (var_b s.0 batch, binary)) bs) stages
    ++ map (λ (stage, variant, batch). (var_aux stage variant batch, binary))
        (stage_variant_batches bs stages)
    ++ map (λ (s : Stage). (var_n s.0, integer 1 scaling_cap)) stages

module _ {F : Type 0} ⦃r : Runtime F⦄ where
  open r use {of_ℕ, mul, div}

  unfoldable pub coefficients : Option ℕ → Pipeline F → Outcome (Coefficients F)
  coefficients batching_cap p = do
    bases ← base_parameters p.gpu_mode p.inference_graph
    accuracies ← accuracy_parameters p.inference_graph
    (bs, throughputs) ← throughput_parameters p.inference_graph
    latencies ← latency_parameters p.inference_graph
    distinct ← capped batching_cap bs
    ok (record {
      bases = bases;
      accuracies = accuracies;
      throughputs = throughputs;
      latencies = latencies;
      distinct_batches = distinct;
    })

  -- `func_q`
  unfoldable pub func_q : Term F → ℕ → Term F
  func_q batch arrival_rate =
      if arrival_rate == 0
      then num (of_ℕ 0)
      else over (minus batch (num (of_ℕ 1))) (of_ℕ arrival_rate)

  -- The two constraints of one turn of the loop on throughputs.
  unfoldable pub throughput_constraints :
      Table F → ℕ → String × String × ℕ → Outcome (Constraint F × Constraint F)
  throughput_constraints table arrival_rate (stage, variant, batch) = do
    x ← coefficient table stage variant batch
    ok (
      all_of (var_aux stage variant batch) (var_i stage variant) (var_b stage batch),
      when_one (var_aux stage variant batch)
          (at_least (times (val (var_n stage)) (num x)) (num (of_ℕ arrival_rate))),
    )

  unfoldable pub latency_term : Table F → ℕ → String × String × ℕ → Outcome (Term F)
  latency_term table arrival_rate (stage, variant, batch) = do
    l ← coefficient table stage variant batch
    ok (
        plus (times (times (num l) (val (var_i stage variant))) (val (var_b stage batch)))
          (func_q (val (var_b stage batch)) arrival_rate))

  unfoldable pub latency_constraint :
      Table F → ℕ → F → List (String × String × ℕ) → Outcome (Constraint F)
  latency_constraint table arrival_rate sla keys = do
    ts ← traverse (latency_term table arrival_rate) keys
    ok (at_most (quicksum (num (of_ℕ 0)) ts) (num sla))

  -- The constraints "single-batch" and "one_model" of a stage.
  unfoldable pub single_batch : List ℕ → Stage → Constraint F
  single_batch bs (stage, _) =
      equal (quicksum (num (of_ℕ 0)) (map (λ batch. val (var_b stage batch)) bs)) (num (of_ℕ 1))

  unfoldable pub one_model : Stage → Constraint F
  one_model (stage, vs) =
      equal (quicksum (num (of_ℕ 0)) (map (λ variant. val (var_i stage variant)) vs)) (num (of_ℕ 1))

  -- `i[task.name, task.active_variant] == 1`, where the variable has to exist.
  unfoldable pub only_scale : List (String × String) → Task F → Outcome (Constraint F)
  only_scale declared t =
      elim (keep
        (λ (e : String × String). if str_eq e.0 t.name then str_eq e.1 t.active_variant else false)
        declared) [
          | [] ↦ raised key_error
          | _ ∷ _ ↦ ok (equal (val (var_i t.name t.active_variant)) (num (of_ℕ 1)))
        ]

  unfoldable pub only_switch : Task F → Constraint F
  only_switch t = equal (val (var_n t.name)) (num (of_ℕ t.replicas))

  unfoldable pub baseline_constraints :
      Option String → List (String × String) → List (Task F) → Outcome (List (Constraint F))
  baseline_constraints none declared graph = ok []
  baseline_constraints (some mode) declared graph =
      if str_eq mode "scale"
      then traverse (only_scale declared) graph
      else (if str_eq mode "switch" then ok (map only_switch graph) else ok [])

  -- Those of the loop on throughputs, the two of each turn one behind the other.
  unfoldable pub pairs : List (Constraint F × Constraint F) → List (Constraint F)
  pairs [] = []
  pairs ((c, d) ∷ rest) = c ∷ d ∷ pairs rest

  -- All that are added before the objective.
  unfoldable pub constraints_of :
      Coefficients F
      → ℕ
      → F
      → Option String
      → List Stage
      → List (Task F)
      → Outcome (List (Constraint F))
  constraints_of k arrival_rate sla mode stages graph = do
    let keys = stage_variant_batches k.distinct_batches stages
    carried ← traverse (throughput_constraints k.throughputs arrival_rate) keys
    in_time ← latency_constraint k.latencies arrival_rate sla keys
    baseline ← baseline_constraints mode (stage_variants stages) graph
    ok (
        pairs carried
        ++ (in_time ∷ map (single_batch k.distinct_batches) stages)
        ++ baseline
        ++ map one_model stages)
