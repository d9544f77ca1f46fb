-- ===== src/Optimizer/Program/Pool.antt =====
-- optimizer/optimizer.py: what `gurobi_optmizer` and `optimize` return, for any solver.
use mathlib.Core.Path.{subst}
use ipa_arman.Prelude.{
  ℕ, suc, ◌≤◌, String, ◌≡◌, refl, sym, ap, Bool, false, Option, some, List, [], ◌∷◌, str_eq,
  value_error, assertion_error, Exception, Outcome, ok, raised, >>=-eq-ok, ok-injective,
  Outcome-cases, Bool-cases, inl, inr, Dict, Conversions, Runtime, length,
}
use ipa_arman.Models.Pipeline.{Pipeline, pipeline_sla}
use ipa_arman.Optimizer.Objective.{Optimizer, Weights, Objectives}
use ipa_arman.Optimizer.States.{Combination}
use ipa_arman.Optimizer.Rows.{State}
use ipa_arman.Optimizer.Program.{Program}
use ipa_arman.Optimizer.Program.Gurobi.{
  Request, Prepared, is_base, prepare, take_solution, take_solutions, gurobi_optmizer, optimize,
}

module _ {F : Type 0} ⦃r : Runtime F⦄ (texts : Conversions F) where
  take_solutions-length :
      (complete : Bool) (w : Weights F) (ready : Prepared F) (solutions : List (Dict String F))
      (p : Pipeline F) {rows : List (State F)}
      → (take_solutions texts complete w ready solutions p).0 ≡ ok rows
      → length rows ≡ length solutions
  unfolding take_solutions
  take_solutions-length complete w ready [] p h = subst (λ l. length l ≡ 0) (ok-injective h) refl
  take_solutions-length complete w ready (s ∷ solutions) p h =
      elim (Outcome-cases (take_solution texts complete w ready s p).0) [
        | inr (e, g) ↦ let h1 = rw (g, take_solutions) at h in cc
        | inl (row, g) ↦
            let h1 = rw (g, take_solutions) at h in
            let p' = (take_solution texts complete w ready s p).1 in
            let (rest, e, h2) =
              >>=-eq-ok (take_solutions texts complete w ready solutions p').0 _ h1 in
            subst (λ l. length l ≡ suc (length solutions)) (ok-injective h2)
              (ap suc (take_solutions-length complete w ready solutions p' e))
      ]

  module _ (solve : Program F → Option ℕ → Outcome (List (Dict String F))) (o : Optimizer)
      (q : Request F) (p : Pipeline F) where
    -- Where the solver keeps at most as many solutions as it is told to, `gurobi_optmizer` returns at
    -- most as many states as the limit says.
    pub gurobi_optmizer_bounded :
        (limit : ℕ) {rows : List (State F)}
        → ((program : Program F) (solutions : List (Dict String F))
            → solve program (some limit) ≡ ok solutions
            → length solutions ≤ limit)
        → q.num_state_limit ≡ some limit
        → (gurobi_optmizer texts solve o q p).0 ≡ ok rows
        → length rows ≤ limit
    unfolding gurobi_optmizer
    gurobi_optmizer_bounded limit keeps limited h = elim (Outcome-cases (prepare o q p)) [
      | inr (e, g) ↦ let h1 = rw (g, gurobi_optmizer) at h in cc
      | inl (ready, g) ↦
          let h1 = rw (g, gurobi_optmizer) at h in
          elim (Outcome-cases (solve ready.program q.num_state_limit)) [
            | inr (e, f) ↦ let h2 = rw f at h1 in cc
            | inl (solutions, f) ↦
                let h2 = rw f at h1 in
                let same =
                  take_solutions-length o.complete_profile q.weights ready solutions p h2 in
                let few = keeps ready.program solutions (rw limited at f) in
                subst (λ n. n ≤ limit) (sym same) few
          ]
    ]

    prepare_refused :
        str_eq o.allocation_mode "base" ≡ false → (e : Exception) × (prepare o q p ≡ raised e)
    unfolding prepare is_base
    prepare_refused mode = elim (Outcome-cases (pipeline_sla p)) [
      | inr (e, g) ↦ (e, rw g refl)
      | inl (sla, g) ↦ (assertion_error, rw (g, mode) refl)
    ]

    -- In another allocation mode than "base", every method but "brute-force" ends in an exception, and
    -- the pipeline stays as it was.
    pub optimize_refused :
        (sample : List (Combination F) → Option ℕ → Outcome (List (Combination F)))
        → (series_max : List (Objectives F) → Outcome (Objectives F)) (method : String)
        → str_eq o.allocation_mode "base" ≡ false
        → str_eq method "brute-force" ≡ false
        → (e : Exception) × (optimize texts solve sample series_max o method q p ≡ (raised e, p))
    unfolding optimize gurobi_optmizer
    optimize_refused sample series_max method mode other =
        elim (Bool-cases (str_eq method "gurobi")) [
          | inr unknown ↦ (value_error, rw (other, unknown) refl)
          | inl gurobi ↦
              let (e, g) = prepare_refused mode in (e, rw (other, gurobi, g, gurobi_optmizer) refl)
        ]
