-- ===== src/Optimizer/Program/Gurobi.antt =====
-- optimizer/optimizer.py: `gurobi_optmizer` and `optimize`, over the solver.
use ipa_arman.Prelude.{
  ℕ, String, Bool, Option, List, [], ◌∷◌, str_eq, if◌then◌else◌, value_error, assertion_error,
  Outcome, ok, raised, ◌>>=◌, ◌>>◌, traverse, Dict, Conversions, Method, Runtime,
}
use ipa_arman.Models.Task.{batches}
use ipa_arman.Models.Pipeline.{Pipeline, pipeline_sla}
use ipa_arman.Optimizer.Objective.{Optimizer, Weights, Objectives}
use ipa_arman.Optimizer.States.{Combination}
use ipa_arman.Optimizer.Rows.{State, state_of}
use ipa_arman.Optimizer.BruteForce.{brute_force}
use ipa_arman.Optimizer.Program.{Program}
use ipa_arman.Optimizer.Program.Build.{Stage, coefficients, stages_of}
use ipa_arman.Optimizer.Program.Goal.{program_of}
use ipa_arman.Optimizer.Program.Decode.{decode, set_tasks}

-- The arguments of `optimize`, without the folder for the program's text.
pub record Request (F : Type 0) : Type 0 where
  pub scaling_cap : ℕ
  pub batching_cap : Option ℕ
  pub weights : Weights F
  pub arrival_rate : ℕ
  pub num_state_limit : Option ℕ

-- A program, with what the decoding needs.
pub record Prepared (F : Type 0) : Type 0 where
  pub stages : List Stage
  pub distinct_batches : List ℕ
  pub program : Program F

-- The assertion on the mode.
unfoldable pub is_base : Optimizer → Outcome (Unit {0})
is_base o = if str_eq o.allocation_mode "base" then ok tt else raised assertion_error

module _ {F : Type 0} ⦃r : Runtime F⦄ where
  -- What `gurobi_optmizer` does before it calls the solver.
  unfoldable pub prepare : Optimizer → Request F → Pipeline F → Outcome (Prepared F)
  prepare o q p = do
    sla ← pipeline_sla p
    _ ← is_base o
    _ ← traverse batches p.inference_graph
    stages ← stages_of p
    k ← coefficients q.batching_cap p
    program ← program_of k q.weights q.scaling_cap q.arrival_rate sla o.baseline_mode stages p
    ok (record { stages = stages; distinct_batches = k.distinct_batches; program = program })

  module _ (texts : Conversions F) where
    -- The body of the loop over the solutions.
    unfoldable pub take_solution :
        Bool → Weights F → Prepared F → Dict String F → Method (Pipeline F) (State F)
    take_solution complete w ready solution p =
        elim (decode texts ready.distinct_batches ready.stages solution) [
          | raised e ↦ (raised e, p)
          | ok ds ↦
              let (done, graph) = set_tasks ds p.inference_graph in
              let p' = record p { inference_graph = graph } in
              ((done >> state_of complete w p'), p')
        ]

    unfoldable pub take_solutions :
        Bool → Weights F → Prepared F → List (Dict String F) → Method (Pipeline F) (List (State F))
    take_solutions complete w ready [] p = (ok [], p)
    take_solutions complete w ready (s ∷ solutions) p =
        let (found, p') = take_solution complete w ready s p in
        let (others, p'') = take_solutions complete w ready solutions p' in
        elim found [
          | raised e ↦ (raised e, p')
          | ok row ↦ ((others >>= λ rows. ok (row ∷ rows)), p'')
        ]

    -- `solve` gives the pool of solutions, at most as many as the limit says.
    module _ (solve : Program F → Option ℕ → Outcome (List (Dict String F))) where
      unfoldable pub gurobi_optmizer : Optimizer → Request F → Method (Pipeline F) (List (State F))
      gurobi_optmizer o q p = elim (prepare o q p) [
        | raised e ↦ (raised e, p)
        | ok ready ↦ elim (solve ready.program q.num_state_limit) [
          | raised e ↦ (raised e, p)
          | ok solutions ↦ take_solutions o.complete_profile q.weights ready solutions p
        ]
      ]

      module _ (sample : List (Combination F) → Option ℕ → Outcome (List (Combination F)))
          (series_max : List (Objectives F) → Outcome (Objectives F)) where
        unfoldable pub optimize :
            Optimizer → String → Request F → Method (Pipeline F) (List (State F))
        optimize o method q p =
            if str_eq method "brute-force"
            then brute_force sample series_max o q.weights q.arrival_rate q.num_state_limit
                q.scaling_cap p
            else (if str_eq method "gurobi" then gurobi_optmizer o q p else (raised value_error, p))
