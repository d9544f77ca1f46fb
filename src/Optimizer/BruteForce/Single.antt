-- ===== src/Optimizer/BruteForce/Single.antt =====
-- optimizer/optimizer.py: when `brute_force` can return.
use ipa_arman.Prelude.{
  ℕ, true, ◌≡◌, refl, ap, ◌∙◌, List, [], ◌∷◌, Option, type_error, Outcome, ok, raised, >>=-eq-ok,
  raised_ne_ok, Runtime,
}
use ipa_arman.Models.Pipeline.{Pipeline}
use ipa_arman.Optimizer.Objective.{Optimizer, Weights, Objectives}
use ipa_arman.Optimizer.States.{Combination, Search, all_states}
use ipa_arman.Optimizer.Rows.{State}
use ipa_arman.Optimizer.BruteForce.{objective_column, optimal_rows, brute_force}

module _ {F : Type 0} ⦃r : Runtime F⦄
    (sample : List (Combination F) → Option ℕ → Outcome (List (Combination F)))
    (series_max : List (Objectives F) → Outcome (Objectives F)) where
  -- Documented behaviour: dictionaries have no order, so the maximum of several raises.
  abbrev pub Unordered : Type 0
  Unordered =
      (a b : Objectives F) (rest : List (Objectives F))
      → series_max (a ∷ b ∷ rest) ≡ raised type_error

  optimal_rows-single :
      (rows : List (State F)) {found : List (State F)}
      → Unordered
      → optimal_rows sample series_max rows ≡ ok found
      → (row : State F) × (rows ≡ row ∷ [])
  unfolding optimal_rows objective_column
  optimal_rows-single [] none_larger h = cc
  optimal_rows-single (row ∷ []) none_larger h = (row, refl)
  optimal_rows-single (row ∷ other ∷ rows) none_larger h =
      absurd
        (raised_ne_ok (rw (none_larger row.objective other.objective (objective_column rows)) at h))

  -- The objectives of a state are a dictionary, so that the maximum of two or more of them raises:
  -- `brute_force` returns only where the search finds exactly one state.
  pub brute_force_single :
      (o : Optimizer) (w : Weights F) (rate : ℕ) (limit : Option ℕ) (scaling_cap : ℕ)
      (p : Pipeline F)
      → (found : List (State F)) → Unordered
      → (brute_force sample series_max o w rate limit scaling_cap p).0 ≡ ok found
      → (row : State F) × ((all_states sample o
            (record {
              weights = w;
              check_constraints = true;
              arrival_rate = rate;
              num_state_limit = limit;
            })
            scaling_cap
            p).0
          ≡ ok (row ∷ []))
  unfolding brute_force
  brute_force_single o w rate limit scaling_cap p found none_larger h =
      let s : Search F = record {
        weights = w;
        check_constraints = true;
        arrival_rate = rate;
        num_state_limit = limit;
      } in
      let (rows, e, h1) = >>=-eq-ok (all_states sample o s scaling_cap p).0 _ h in
      let (row, single) = optimal_rows-single rows none_larger h1 in (row, e ∙ ap ok single)
