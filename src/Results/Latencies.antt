-- ===== src/Results/Latencies.antt =====
-- experiments/utils/parser.py: the loops of the latency calculators over the responses.
use ipa_arman.Prelude.{
  Exception, true, false, key_error, join, ℕ, suc, String, Bool, Option, none, some, List, [], ◌∷◌,
  ◌++◌, map, if◌then◌else◌, str_eq, key_error, Outcome, ok, raised, ◌>>=◌, Dict, Method, Runtime,
  length,
}
use ipa_arman.Results.{
  Kind, node, pipeline, router_pipeline, router_queue_pipeline, Response, Column, task_key,
  next_key, own_key, Measurement, clocks, of_request, of_model, difference, appends,
}

-- What `except KeyError` catches.
unfoldable pub is_key_error : Exception → Bool
is_key_error key_error = true
is_key_error _ = false

-- `latencies`: None stands for a lost response.
abbrev pub Latencies : Type 0 → Type 0
Latencies F = Dict Column (List (Option F))

-- The keys that the loops over `node_orders` set up, from a node on. The last argument ends the key
-- between two tasks.
unfoldable pub pipeline_columns : (ℕ → String) → String → ℕ → List String → List Column
pipeline_columns digits rest i [] = []
pipeline_columns digits rest i (m ∷ []) = task_key digits i "_model" ∷ []
pipeline_columns digits rest i (m ∷ n ∷ nodes) =
    task_key digits i "_model"
    ∷ next_key digits i "_to_" rest
    ∷ pipeline_columns digits rest (suc i) (n ∷ nodes)

unfoldable pub queue_columns : (ℕ → String) → ℕ → List String → List Column
queue_columns digits i [] = []
queue_columns digits i (m ∷ []) =
    own_key digits i "_queue_to_" ""
    ∷ task_key digits i "_model"
    ∷ own_key digits i "_to_" "_queue"
    ∷ []
queue_columns digits i (m ∷ n ∷ nodes) =
    own_key digits i "_queue_to_" ""
    ∷ task_key digits i "_model"
    ∷ own_key digits i "_to_" "_queue"
    ∷ next_key digits i "_queue_to_" "_queue"
    ∷ queue_columns digits (suc i) (n ∷ nodes)

-- f"task_{len(self.node_orders) - 1}…"
unfoldable pub last_key : (ℕ → String) → List String → String → Column
last_key digits [] rest = join "task_-1" rest
last_key digits (m ∷ nodes) rest = task_key digits (length nodes) rest

-- The keys of `latencies` at the start.
unfoldable pub columns : (ℕ → String) → Kind → List String → List Column
columns digits node nodes =
    "client_to_model" ∷ "model_latencies" ∷ "model_to_client" ∷ "e2e_latencies" ∷ []
columns digits pipeline nodes =
    "client_to_pipeline" ∷ "pipeline_to_client" ∷ pipeline_columns digits "_latencies" 0 nodes
columns digits router_pipeline nodes =
    ("client_to_router" ∷ "router_to_task_0" ∷ pipeline_columns digits "" 0 nodes)
    ++ (last_key digits nodes "_to_router" ∷ "router_to_client" ∷ "e2e" ∷ [])
columns digits router_queue_pipeline nodes =
    ("client_to_router"
      ∷ "router_to_task_0_queue"
      ∷ "former_router_to_task_0"
      ∷ queue_columns digits 0 nodes)
    ++ (last_key digits nodes "_queue_to_router" ∷ "router_to_client" ∷ "e2e" ∷ [])

module _ {F : Type 0} where
  unfoldable pub empty_columns : List Column → Latencies F
  empty_columns cs = map (λ c. (c, [])) cs

  -- `latencies[column].append(value)`
  unfoldable pub append_to : Column → Option F → Latencies F → Latencies F
  append_to c x [] = []
  append_to c x ((d, xs) ∷ rest) =
      if str_eq d c then (d, xs ++ (x ∷ [])) ∷ rest else (d, xs) ∷ append_to c x rest

  -- The appends of a response, one after the other: what came before an exception stays.
  unfoldable pub measure : List (Measurement F) → Method (Latencies F) (Unit {0})
  measure [] d = (ok tt, d)
  measure ((c, raised e) ∷ ms) d = (raised e, d)
  measure ((c, ok x) ∷ ms) d = measure ms (append_to c (some x) d)

  -- `keep_lost`: None in every column.
  unfoldable pub append_lost : Latencies F → Latencies F
  append_lost d = map (λ (e : Column × List (Option F)). (e.0, e.1 ++ (none ∷ []))) d

module _ {F : Type 0} ⦃r : Runtime F⦄ where
  -- The body of the `try` for a response.
  unfoldable pub measure_response :
      (ℕ → String) → Kind → List String → Response F → Method (Latencies F) (Unit {0})
  measure_response digits kind nodes response d = elim (clocks response) [
    | raised e ↦ (raised e, d)
    | ok c ↦ measure (appends digits kind nodes c) d
  ]

  -- The loop over the responses, with the count of those that ended in KeyError.
  unfoldable pub measure_all :
      (ℕ → String)
      → Kind
      → List String
      → Bool
      → List (Response F)
      → Latencies F × ℕ
      → Outcome (Latencies F × ℕ)
  measure_all digits kind nodes keep_lost [] s = ok s
  measure_all digits kind nodes keep_lost (response ∷ responses) (d, lost) =
      let (done, d') = measure_response digits kind nodes response d in
      elim done [
        | ok _ ↦ measure_all digits kind nodes keep_lost responses (d', lost)
        | raised e ↦
            if is_key_error e
            then measure_all digits kind nodes keep_lost responses
                (if keep_lost then append_lost d' else d', suc lost)
            else raised e
      ]

  -- `_node_latency_calculator`: all lookups of a response come before its appends.
  unfoldable pub node_times : String → Response F → Outcome (F × F × F × F)
  node_times model_name response = do
    c ← clocks response
    to_model ← difference (of_model c model_name "arrival") (of_request c "sending")
    in_model ← difference (of_model c model_name "serving") (of_model c model_name "arrival")
    to_client ← difference (of_request c "arrival") (of_model c model_name "serving")
    whole ← difference (of_request c "arrival") (of_request c "sending")
    ok (to_model, in_model, to_client, whole)

  unfoldable pub append_node : F × F × F × F → Latencies F → Latencies F
  append_node (to_model, in_model, to_client, whole) d = append_to "e2e_latencies" (some whole) (
      append_to "model_to_client" (some to_client) (
        append_to "model_latencies" (some in_model)
          (append_to "client_to_model" (some to_model) d)))

  unfoldable pub measure_node :
      String → List (Response F) → Latencies F × ℕ → Outcome (Latencies F × ℕ)
  measure_node model_name [] s = ok s
  measure_node model_name (response ∷ responses) (d, lost) = elim (node_times model_name response) [
    | ok ts ↦ measure_node model_name responses (append_node ts d, lost)
    | raised key_error ↦ measure_node model_name responses (d, suc lost)
    | raised e ↦ raised e
  ]

  unfoldable pub latency_calculator :
      (ℕ → String)
      → Kind
      → String
      → List String
      → Bool
      → List (Response F)
      → Outcome (Latencies F × ℕ)
  latency_calculator digits node model_name nodes keep_lost responses =
      measure_node model_name responses (empty_columns (columns digits node nodes), 0)
  latency_calculator digits kind model_name nodes keep_lost responses =
      measure_all digits kind nodes keep_lost responses
        (empty_columns (columns digits kind nodes), 0)
