-- ===== src/Results/Tests.antt =====
-- Responses of a pipeline with two tasks, and a log of a node.
use ipa_arman.Prelude.{
  ◌+◌, ℕ, zero, suc, String, ◌≡◌, refl, true, false, Option, none, some, List, [], ◌∷◌, map,
  type_error, Outcome, ok, raised, Dict, lookup, traverse, count_of, for_each, str_eq,
}
use ipa_arman.Results.{
  pipeline, Response, task_key, next_key, own_key, clocks, of_request, of_model, difference,
  pipeline_rest, pipeline_appends, appends, queue_named,
}
use ipa_arman.Results.Latencies.{
  is_key_error, pipeline_columns, queue_columns, last_key, columns, empty_columns, append_to,
  measure, append_lost, measure_response, measure_all, latency_calculator, Latencies,
}
use ipa_arman.Results.Summary.{
  Statistics, Figure, present, no_figures, average_figure, metric_summary, latency_summary,
}
use ipa_arman.Results.Seconds.{
  take, drop, flatten_results, count_none, take_columns, drop_columns, split_seconds, client_column,
  second_timeouts, per_second_result_processing,
}
use ipa_arman.Results.Lost.{is_lost, entries, measure_all-lookup}
use ipa_arman.Results.Timeouts.{LeavesOne, per_second_result_processing-timeouts}
use ipa_arman.Results.Changes.{differs, changes_from, changes_from_lem, Tells}
use ipa_arman.Samples.{milli}

-- All that a run unfolds.
unfoldable pub results_program : Unit {0}
unfolding lookup traverse for_each task_key next_key own_key clocks of_request of_model difference
    pipeline_rest pipeline_appends appends queue_named is_key_error pipeline_columns queue_columns
    last_key columns empty_columns append_to measure append_lost measure_response measure_all
    latency_calculator present no_figures average_figure metric_summary latency_summary take drop
    flatten_results count_none take_columns drop_columns split_seconds client_column second_timeouts
    per_second_result_processing differs changes_from
results_program = tt

-- One stroke for each.
abbrev digits : ℕ → String
digits zero = String.[]
digits (suc n) = String.◌∷◌ "|" (digits n)

abbrev nodes : List String
nodes = "detect" ∷ "classify" ∷ []

abbrev clock : ℕ → ℕ → Dict String ℕ
clock arrival serving = ("arrival", arrival) ∷ ("serving", serving) ∷ []

abbrev asked : Dict String ℕ
asked = ("sending", 10) ∷ ("arrival", 90) ∷ []

abbrev served : Response ℕ
served = record {
  times = some (record {
    request = some asked;
    models = some (("detect", clock 20 40) ∷ ("classify", clock 50 80) ∷ []);
  });
}

-- A request that timed out has no clocks of the models.
abbrev timed_out : Response ℕ
timed_out = record { times = some (record { request = some asked; models = none }) }

-- The second task did not answer.
abbrev half_served : Response ℕ
half_served = record {
  times = some (record { request = some asked; models = some (("detect", clock 20 40) ∷ []) });
}

abbrev figures : Statistics ℕ
figures = record {
  average = λ xs. raised type_error;
  percentile = λ xs p. 0;
  variance = λ xs. 0;
  largest = λ xs. 0;
  smallest = λ xs. 0;
}

abbrev seconds : List (List (Response ℕ))
seconds = (served ∷ timed_out ∷ []) ∷ (timed_out ∷ served ∷ timed_out ∷ []) ∷ []

abbrev from_ok {ℓ} : {A : Type ℓ} → A → Outcome A → A
from_ok a (ok x) = x
from_ok a (raised e) = a

unfoldable processed : List ℕ × List (Dict String (Dict Figure (Option ℕ)))
unfolding results_program
processed = from_ok ([], []) (per_second_result_processing digits figures pipeline "" nodes seconds)

processed-ok :
    per_second_result_processing digits figures pipeline "" nodes seconds
    ≡ ok (processed.0, processed.1)
unfolding results_program processed
processed-ok = refl

processed-timeouts : processed.0 ≡ 1 ∷ 2 ∷ []
unfolding results_program processed
processed-timeouts = refl

client-pipeline : client_column pipeline ≡ ok "client_to_pipeline"
unfolding results_program
client-pipeline = refl

served-LeavesOne : LeavesOne digits pipeline nodes "client_to_pipeline" served
unfolding results_program
served-LeavesOne = refl

timed_out-LeavesOne : LeavesOne digits pipeline nodes "client_to_pipeline" timed_out
unfolding results_program
timed_out-LeavesOne = refl

per_second_result_processing-timeouts_example :
    processed.0 ≡ map (count_of (is_lost digits pipeline nodes)) seconds
per_second_result_processing-timeouts_example =
    per_second_result_processing-timeouts digits pipeline nodes "client_to_pipeline" figures ""
      seconds {timeouts = processed.0} {stats = processed.1} client-pipeline
      (
        (served-LeavesOne, (timed_out-LeavesOne, tt)),
        ((timed_out-LeavesOne, (served-LeavesOne, (timed_out-LeavesOne, tt))), tt),
      )
      processed-ok

-- A response that breaks off behind the first append leaves two entries, and the seconds shift.
abbrev broken_seconds : List (List (Response ℕ))
broken_seconds = (half_served ∷ []) ∷ (served ∷ []) ∷ []

unfoldable shifted : List ℕ × List (Dict String (Dict Figure (Option ℕ)))
unfolding results_program
shifted =
    from_ok ([], []) (per_second_result_processing digits figures pipeline "" nodes broken_seconds)

shifted-timeouts : shifted.0 ≡ 0 ∷ 1 ∷ []
unfolding results_program shifted
shifted-timeouts = refl

abbrev start : Latencies ℕ
start = empty_columns ("client_to_pipeline" ∷ [])

abbrev mixed : List (Response ℕ)
mixed = served ∷ half_served ∷ []

start-lookup : lookup str_eq "client_to_pipeline" start ≡ some []
unfolding results_program
start-lookup = refl

abbrev filled : Latencies ℕ
filled = ("client_to_pipeline", some 10 ∷ some 10 ∷ none ∷ []) ∷ []

filled-ok : measure_all digits pipeline nodes true mixed (start, 0) ≡ ok (filled, 1)
unfolding results_program
filled-ok = refl

measure_all-lookup_example :
    (lookup str_eq "client_to_pipeline" filled
      ≡ some (for_each (entries digits pipeline nodes "client_to_pipeline") mixed))
    × (1 ≡ 0 + count_of (is_lost digits pipeline nodes) mixed)
measure_all-lookup_example =
    measure_all-lookup digits pipeline nodes "client_to_pipeline" mixed start 0 {xs = []}
      {d' = filled} {lost' = 1} start-lookup filled-ok

-- The log of a node.
abbrev config : String → String → Dict String String
config variant batch = ("variant", variant) ∷ ("batch", batch) ∷ []

abbrev log : List (Dict String String)
log = config "small" "1" ∷ config "small" "1" ∷ config "large" "1" ∷ []

log-changes : changes_from str_eq [] log ≡ ok (false ∷ true ∷ [])
unfolding results_program
log-changes = refl

changes_from_lem_example : Tells str_eq log (false ∷ true ∷ [])
changes_from_lem_example =
    changes_from_lem str_eq log {flags = false ∷ true ∷ []}
      ((λ h. cc), ((λ h. cc), ((λ h. cc), tt))) log-changes
