-- ===== src/Results/Summary.antt =====
-- experiments/utils/parser.py: the summary of a column of latencies.
use ipa_arman.Prelude.{
  ℕ, Option, none, some, List, [], ◌∷◌, ◌++◌, type_error, Outcome, ok, raised, ◌>>=◌, traverse,
  Dict,
}
use ipa_arman.Results.{Column}
use ipa_arman.Results.Latencies.{Latencies}

-- What the summary takes from numpy.
pub record Statistics (F : Type 0) : Type 0 where
  pub average : List F → Outcome F
  pub percentile : List F → ℕ → F
  pub variance : List F → F
  pub largest : List F → F
  pub smallest : List F → F

-- The last part of a key of the summary.
pub data Figure : Type 0 where
  avg p99 p95 p50 var max min : Figure

module _ {F : Type 0} where
  -- The values that are not None.
  unfoldable pub present : List (Option F) → List F
  present [] = []
  present (none ∷ xs) = present xs
  present (some x ∷ xs) = x ∷ present xs

  -- Without values every figure is None.
  unfoldable pub no_figures : Dict Figure (Option F)
  no_figures =
      (avg, none)
      ∷ (p99, none)
      ∷ (p95, none)
      ∷ (p50, none)
      ∷ (var, none)
      ∷ (max, none)
      ∷ (min, none)
      ∷ []

  module _ (np : Statistics F) where
    -- A TypeError of the average leaves that figure out.
    unfoldable pub average_figure : List F → Outcome (Dict Figure (Option F))
    average_figure xs = elim (np.average xs) [
      | ok a ↦ ok ((avg, some a) ∷ [])
      | raised type_error ↦ ok []
      | raised e ↦ raised e
    ]

    unfoldable pub metric_summary : List (Option F) → Outcome (Dict Figure (Option F))
    metric_summary values_ = elim (present values_) [
      | [] ↦ ok no_figures
      | x ∷ xs ↦ average_figure (x ∷ xs) >>= λ first. ok (
          first
          ++ ((p99, some (np.percentile (x ∷ xs) 99))
              ∷ (p95, some (np.percentile (x ∷ xs) 95))
              ∷ (p50, some (np.percentile (x ∷ xs) 50))
              ∷ (var, some (np.variance (x ∷ xs)))
              ∷ (max, some (np.largest (x ∷ xs)))
              ∷ (min, some (np.smallest (x ∷ xs)))
              ∷ []))
    ]

    unfoldable pub latency_summary : Latencies F → Outcome (Dict Column (Dict Figure (Option F)))
    latency_summary d =
        traverse
          (λ (e : Column × List (Option F)). metric_summary e.1 >>= λ figures. ok (e.0, figures)) d
