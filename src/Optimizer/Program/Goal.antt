-- ===== src/Optimizer/Program/Goal.antt =====
-- optimizer/optimizer.py: `gurobi_optmizer`, the objective of the integer program, and the program.
use ipa_arman.Prelude.{
  ℕ, String, Option, List, [], ◌∷◌, ◌++◌, map, leb, str_eq, if◌then◌else◌, value_error, Outcome, ok,
  raised, ◌>>=◌, traverse, for_each, length, Dict, Runtime,
}
use ipa_arman.Models.Pipeline.{Pipeline}
use ipa_arman.Optimizer.Objective.{Weights}
use ipa_arman.Optimizer.States.{product}
use ipa_arman.Optimizer.Program.{
  Variable, var_i, var_b, var_n, var_comb, var_accuracy, Kind, integer, continuous, Term, num, val,
  plus, minus, times, Constraint, equal, when_one, Program, quicksum,
}
use ipa_arman.Optimizer.Program.Build.{
  Stage, Coefficients, stage_variants, entry, variables_of, pairs, constraints_of,
}

-- The accuracy objective, with the variables and the constraints that it adds.
pub record Accuracy (F : Type 0) : Type 0 where
  pub variables : List (Variable × Kind)
  pub constraints : List (Constraint F)
  pub term : Term F

-- An objective that adds nothing to the program.
abbrev pub alone : {F : Type 0} → Term F → Accuracy F
alone t = record { variables = []; constraints = []; term = t }

module _ {F : Type 0} ⦃r : Runtime F⦄ where
  open r use {of_ℕ, mul, div}

  -- `accuracy_parameters[stage][variant] * i[stage, variant]`
  unfoldable pub accuracy_term : Dict String (Dict String F) → String × String → Outcome (Term F)
  accuracy_term table (stage, variant) = do
    a ← entry table stage variant
    ok (times (num a) (val (var_i stage variant)))

  unfoldable pub stage_accuracy : Dict String (Dict String F) → Stage → Outcome (Term F)
  stage_accuracy table (stage, vs) = do
    ts ← traverse (λ variant. accuracy_term table (stage, variant)) vs
    ok (quicksum (num (of_ℕ 0)) ts)

  unfoldable pub product_of : Term F → List (Term F) → Term F
  product_of t [] = t
  product_of t (u ∷ us) = product_of (times t u) us

  -- `zip(stages, combination)`
  unfoldable pub combination_accuracy :
      Dict String (Dict String F) → F → List Stage → List String → Outcome F
  combination_accuracy table acc ((stage, _) ∷ stages) (v ∷ vs) = do
    a ← entry table stage v
    combination_accuracy table (mul acc a) stages vs
  combination_accuracy table acc _ _ = ok acc

  -- The sum of the three variables of the stages that a combination chooses for.
  unfoldable pub chosen_three : List Stage → List String → Term F
  chosen_three (s ∷ t ∷ u ∷ stages) (v ∷ w ∷ x ∷ _) =
      plus (plus (val (var_i s.0 v)) (val (var_i t.0 w))) (val (var_i u.0 x))
  chosen_three _ _ = num (of_ℕ 0)

  unfoldable pub combination_constraints :
      Dict String (Dict String F) → List Stage → List String → Outcome (Constraint F × Constraint F)
  combination_constraints table stages vs = do
    a ← combination_accuracy table (of_ℕ 1) stages vs
    ok (
      when_one (var_comb vs) (equal (chosen_three stages vs) (num (of_ℕ 3))),
      when_one (var_comb vs) (equal (val var_accuracy) (num a)),
    )

  -- One stage or two: the product of the sums.
  unfoldable pub multiplied : Dict String (Dict String F) → List Stage → Outcome (Accuracy F)
  multiplied table stages = do
    ts ← traverse (stage_accuracy table) stages
    ok (alone (product_of (num (of_ℕ 1)) ts))

  -- Three stages or more: a variable for each combination of the variants of the first three.
  unfoldable pub combined : Dict String (Dict String F) → List Stage → Outcome (Accuracy F)
  combined table (s ∷ t ∷ u ∷ stages) = do
    let combinations = product (s.1 ∷ t.1 ∷ u.1 ∷ [])
    cs ← traverse (combination_constraints table (s ∷ t ∷ u ∷ stages)) combinations
    ok (record {
      variables =
          map (λ vs. (var_comb vs, integer 0 1)) combinations
          ++ ((var_accuracy, continuous 0 1) ∷ []);
      constraints =
          equal (quicksum (num (of_ℕ 0)) (map (λ vs. val (var_comb vs)) combinations))
            (num (of_ℕ 1))
          ∷ pairs cs;
      term = val var_accuracy;
    })
  combined table stages = multiplied table stages

  unfoldable pub accuracy_objective :
      String → Dict String (Dict String F) → List Stage → Outcome (Accuracy F)
  accuracy_objective method table stages =
      if str_eq method "multiply"
      then (if leb (length stages) 2 then multiplied table stages else combined table stages)
      else (if str_eq method "sum"
          then (traverse (accuracy_term table) (stage_variants stages) >>= λ ts.
              ok (alone (quicksum (num (of_ℕ 0)) ts)))
          else (if str_eq method "average"
              then (traverse (accuracy_term table) (stage_variants stages) >>= λ ts. ok (
                  alone (
                    quicksum (num (of_ℕ 0))
                      (map (λ t. times t (num (div (of_ℕ 1) (of_ℕ (length stages))))) ts))))
              else raised value_error))

  -- `base_allocations[stage][variant] * n[stage] * i[stage, variant]`
  unfoldable pub resource_term : Dict String (Dict String F) → String × String → Outcome (Term F)
  resource_term table (stage, variant) = do
    base ← entry table stage variant
    ok (times (times (num base) (val (var_n stage))) (val (var_i stage variant)))

  unfoldable pub resource_objective : Dict String (Dict String F) → List Stage → Outcome (Term F)
  resource_objective table stages = do
    ts ← traverse (resource_term table) (stage_variants stages)
    ok (quicksum (num (of_ℕ 0)) ts)

  unfoldable pub batch_term : List ℕ → List Stage → Term F
  batch_term bs stages = quicksum (num (of_ℕ 0)) (
      for_each
        (λ batch. map (λ (s : Stage). times (num (of_ℕ batch)) (val (var_b s.0 batch))) stages) bs)

  unfoldable pub goal : Weights F → Term F → Term F → Term F → Term F
  goal w accuracy resource batch =
      minus (minus (times (num w.alpha) accuracy) (times (num w.beta) resource))
        (times (num w.gamma) batch)

  -- The program, from the coefficients on.
  unfoldable pub program_of :
      Coefficients F
      → Weights F
      → ℕ
      → ℕ
      → F
      → Option String
      → List Stage
      → Pipeline F
      → Outcome (Program F)
  program_of k w scaling_cap arrival_rate sla mode stages p = do
    cs ← constraints_of k arrival_rate sla mode stages p.inference_graph
    accuracy ← accuracy_objective p.accuracy_method k.accuracies stages
    resource ← resource_objective k.bases stages
    ok (record {
      variables = variables_of scaling_cap k.distinct_batches stages ++ accuracy.variables;
      constraints = cs ++ accuracy.constraints;
      objective = goal w accuracy.term resource (batch_term k.distinct_batches stages);
    })
