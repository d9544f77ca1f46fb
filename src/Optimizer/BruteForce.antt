-- ===== src/Optimizer/BruteForce.antt =====
-- optimizer/optimizer.py: `brute_force`.
pub mod Single
pub mod Tests
use ipa_arman.Prelude.{
  ℕ, Bool, true, ◌&&◌, Option, List, [], ◌∷◌, map, key_error, Outcome, ok, raised, ◌>>=◌, keep,
  Method, Runtime,
}
use ipa_arman.Models.Pipeline.{Pipeline}
use ipa_arman.Optimizer.Objective.{Optimizer, Weights, Objectives}
use ipa_arman.Optimizer.States.{Combination, all_states}
use ipa_arman.Optimizer.Rows.{State}

module _ {F : Type 0} ⦃r : Runtime F⦄ where
  open r use {eq}

  -- `==` on the dictionaries of objectives.
  unfoldable pub same_objectives : Objectives F → Objectives F → Bool
  same_objectives a b =
      eq a.accuracy_objective b.accuracy_objective
      && eq a.resource_objective b.resource_objective
      && eq a.batch_objective b.batch_objective
      && eq a.objective b.objective

  unfoldable pub objective_column : List (State F) → List (Objectives F)
  objective_column rows = map (λ (s : State F). s.objective) rows

  -- `series_max` is the `max` of pandas over a column of dictionaries. A frame with no row has no
  -- column "objective".
  module _ (sample : List (Combination F) → Option ℕ → Outcome (List (Combination F)))
      (series_max : List (Objectives F) → Outcome (Objectives F)) where
    unfoldable pub optimal_rows : List (State F) → Outcome (List (State F))
    optimal_rows [] = raised key_error
    optimal_rows (s ∷ rows) = do
      best ← series_max (objective_column (s ∷ rows))
      ok (keep (λ (row : State F). same_objectives row.objective best) (s ∷ rows))

    unfoldable pub brute_force :
        Optimizer → Weights F → ℕ → Option ℕ → ℕ → Method (Pipeline F) (List (State F))
    brute_force o w arrival_rate limit scaling_cap p =
        let (found, p') =
          all_states sample o
            (record {
              weights = w;
              check_constraints = true;
              arrival_rate = arrival_rate;
              num_state_limit = limit;
            })
            scaling_cap p in
        (found >>= optimal_rows, p')
