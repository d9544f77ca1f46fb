-- ===== src/Optimizer/BruteForce/Tests.antt =====
-- The exhaustive search on a sample pipeline.
use ipa_arman.Prelude.{
  ℕ, ◌≡◌, refl, true, some, none, List, [], ◌∷◌, Outcome, ok, raised, value_error, type_error,
}
use ipa_arman.Optimizer.Objective.{Objectives}
use ipa_arman.Optimizer.States.{all_states}
use ipa_arman.Optimizer.Rows.{State}
use ipa_arman.Optimizer.States.Tests.{states_program, take_all, optimizer, search, classifier}
use ipa_arman.Optimizer.BruteForce.{same_objectives, objective_column, optimal_rows, brute_force}
use ipa_arman.Optimizer.BruteForce.Single.{Unordered, brute_force_single}
use ipa_arman.Samples.{milli}

-- The maximum of dictionaries.
abbrev series_max : List (Objectives ℕ) → Outcome (Objectives ℕ)
series_max [] = raised value_error
series_max (o ∷ []) = ok o
series_max (a ∷ b ∷ rest) = raised type_error

series_max-Unordered : Unordered take_all series_max
series_max-Unordered a b rest = refl

-- The single state that a limit of one leaves.
abbrev single : List (State ℕ)
single =
    record {
      profile = none;
      configs = record { variant = "resnet18"; cpu = 1000; gpu = 0; batch = 1; replicas = 1 } ∷ [];
      objective = record {
        accuracy_objective = 700;
        resource_objective = 1000;
        batch_objective = 1;
        objective = 0;
      };
    }
    ∷ []

brute_force-limited :
    (brute_force take_all series_max optimizer search.weights 15 (some 1) 1 classifier).0
    ≡ ok single
unfolding states_program same_objectives objective_column optimal_rows brute_force
brute_force-limited = refl

-- Without a limit there are three states.
brute_force_raises :
    (brute_force take_all series_max optimizer search.weights 15 none 1 classifier).0
    ≡ raised type_error
unfolding states_program same_objectives objective_column optimal_rows brute_force
brute_force_raises = refl

brute_force_single_example :
    (row : State ℕ) × ((all_states take_all optimizer
        (record {
          weights = search.weights;
          check_constraints = true;
          arrival_rate = 15;
          num_state_limit = some 1;
        })
        1
        classifier).0
      ≡ ok (row ∷ []))
brute_force_single_example =
    brute_force_single take_all series_max optimizer search.weights 15 (some 1) 1 classifier single
      series_max-Unordered brute_force-limited
