-- ===== src/Results.antt =====
-- experiments/utils/parser.py: the responses that an experiment recorded, and the latencies that the
-- parser takes from each of them.
pub mod Latencies
pub mod Summary
pub mod Seconds
pub mod Changes
pub mod Lost
pub mod Timeouts
pub mod Tests
use ipa_arman.Prelude.{
  join, ℕ, suc, String, Bool, true, false, Option, List, [], ◌∷◌, ◌++◌, map, ◌==◌, str_eq,
  key_error, Outcome, ok, ◌>>=◌, or_raise, Dict, lookup, Runtime,
}

-- `type_of`
pub data Kind : Type 0 where
  node pipeline router_pipeline router_queue_pipeline : Kind

-- `times`: the clocks of the client, and those of each model.
pub record Times (F : Type 0) : Type 0 where
  pub request : Option (Dict String F)
  pub models : Option (Dict String (Dict String F))

-- The part of a recorded response that the latencies are taken from: the keys may be missing.
pub record Response (F : Type 0) : Type 0 where
  pub times : Option (Times F)

-- The keys of `latencies`, with the decimal digits that Python prints.
abbrev pub Column : Type 0
Column = String

-- f"task_{i}…"
unfoldable pub task_key : (ℕ → String) → ℕ → String → Column
task_key digits i rest = join "task_" (join (digits i) rest)

-- f"task_{i}…task_{i + 1}…"
unfoldable pub next_key : (ℕ → String) → ℕ → String → String → Column
next_key digits i between_ rest = task_key digits i (join between_ (task_key digits (suc i) rest))

-- f"task_{i}…task_{i}…"
unfoldable pub own_key : (ℕ → String) → ℕ → String → String → Column
own_key digits i between_ rest = task_key digits i (join between_ (task_key digits i rest))

-- One `latencies[…].append(…)`: the key, and the value, whose lookups may raise.
abbrev pub Measurement : Type 0 → Type 0
Measurement F = Column × Outcome F

-- The clocks of a response, where the keys above them are there.
abbrev pub Clocks : Type 0 → Type 0
Clocks F = Dict String F × Dict String (Dict String F)

unfoldable pub queue_named : String → String
queue_named name = join "queue-" name

module _ {F : Type 0} ⦃r : Runtime F⦄ where
  open r use {sub}

  unfoldable pub clocks : Response F → Outcome (Clocks F)
  clocks response = do
    times ← or_raise response.times key_error
    request ← or_raise times.request key_error
    models ← or_raise times.models key_error
    ok (request, models)

  -- `request_times[…]`, and `model_times[…][…]`.
  unfoldable pub of_request : Clocks F → String → Outcome F
  of_request c key = or_raise (lookup str_eq key c.0) key_error

  unfoldable pub of_model : Clocks F → String → String → Outcome F
  of_model c name key =
      or_raise (lookup str_eq name c.1) key_error >>= λ d. or_raise (lookup str_eq key d) key_error

  unfoldable pub difference : Outcome F → Outcome F → Outcome F
  difference a b = do x ← a; y ← b; ok (sub x y)

module _ {F : Type 0} ⦃r : Runtime F⦄ (digits : ℕ → String) where
  -- `_pipeline_latency_calculator`: the appends of one response, from a node on.
  unfoldable pub pipeline_rest : Clocks F → ℕ → List String → List (Measurement F)
  pipeline_rest c i [] = []
  pipeline_rest c i (m ∷ []) =
      ("pipeline_to_client", difference (of_request c "arrival") (of_model c m "serving"))
      ∷ (task_key digits i "_model", difference (of_model c m "serving") (of_model c m "arrival"))
      ∷ []
  pipeline_rest c i (m ∷ n ∷ nodes) =
      (task_key digits i "_model", difference (of_model c m "serving") (of_model c m "arrival"))
      ∷ (
        next_key digits i "_to_" "_latencies",
        difference (of_model c n "arrival") (of_model c m "serving"),
      )
      ∷ pipeline_rest c (suc i) (n ∷ nodes)

  unfoldable pub pipeline_appends : Clocks F → List String → List (Measurement F)
  pipeline_appends c [] = []
  pipeline_appends c (m ∷ nodes) =
      ("client_to_pipeline", difference (of_model c m "arrival") (of_request c "sending"))
      ∷ pipeline_rest c 0 (m ∷ nodes)

  -- `_router_pipeline_latency_calculator`
  unfoldable pub router_rest : Clocks F → ℕ → List String → List (Measurement F)
  router_rest c i [] = []
  router_rest c i (m ∷ []) =
      (task_key digits i "_model", difference (of_model c m "serving") (of_model c m "arrival"))
      ∷ (
        task_key digits i "_to_router",
        difference (of_model c "router" "serving") (of_model c m "serving"),
      )
      ∷ []
  router_rest c i (m ∷ n ∷ nodes) =
      (task_key digits i "_model", difference (of_model c m "serving") (of_model c m "arrival"))
      ∷ (next_key digits i "_to_" "", difference (of_model c n "arrival") (of_model c m "serving"))
      ∷ router_rest c (suc i) (n ∷ nodes)

  unfoldable pub router_first : Clocks F → List String → List (Measurement F)
  router_first c [] = []
  router_first c (m ∷ nodes) =
      ("router_to_task_0", difference (of_model c m "arrival") (of_model c "router" "arrival")) ∷ []

  -- The three appends before the loop over the nodes.
  unfoldable pub router_ends : Clocks F → List (Measurement F)
  router_ends c =
      ("client_to_router", difference (of_model c "router" "arrival") (of_request c "sending"))
      ∷ ("router_to_client", difference (of_request c "arrival") (of_model c "router" "serving"))
      ∷ ("e2e", difference (of_request c "arrival") (of_request c "sending"))
      ∷ []

  -- `_router_queue_pipeline_latency_calculator`: the appends of every node, then those of the last or
  -- of one with a next.
  unfoldable pub queue_node : Clocks F → ℕ → String → List (Measurement F)
  queue_node c i m =
      (task_key digits i "_model", difference (of_model c m "serving") (of_model c m "arrival"))
      ∷ (
        own_key digits i "_queue_to_" "",
        difference (of_model c m "arrival") (of_model c (queue_named m) "arrival"),
      )
      ∷ (
        own_key digits i "_to_" "_queue",
        difference (of_model c (queue_named m) "serving") (of_model c m "serving"),
      )
      ∷ []

  unfoldable pub queue_rest : Clocks F → ℕ → List String → List (Measurement F)
  queue_rest c i [] = []
  queue_rest c i (m ∷ []) =
      queue_node c i m
      ++ ((
        task_key digits i "_queue_to_router",
        difference (of_model c "router" "serving") (of_model c (queue_named m) "serving"),
      )
          ∷ [])
  queue_rest c i (m ∷ n ∷ nodes) =
      queue_node c i m
      ++ ((
        next_key digits i "_queue_to_" "_queue",
        difference (of_model c (queue_named n) "arrival") (of_model c (queue_named m) "serving"),
      )
          ∷ queue_rest c (suc i) (n ∷ nodes))

  unfoldable pub queue_first : Clocks F → List String → List (Measurement F)
  queue_first c [] = []
  queue_first c (m ∷ nodes) =
      (
        "router_to_task_0_queue",
        difference (of_model c (queue_named m) "arrival") (of_model c "router" "arrival"),
      )
      ∷ (
        "former_router_to_task_0",
        difference (of_model c m "arrival") (of_model c "router" "arrival"),
      )
      ∷ []

  -- What a pipeline calculator appends for a response; a node has its own calculator.
  unfoldable pub appends : Kind → List String → Clocks F → List (Measurement F)
  appends node nodes c = []
  appends pipeline nodes c = pipeline_appends c nodes
  appends router_pipeline nodes c = router_ends c ++ router_first c nodes ++ router_rest c 0 nodes
  appends router_queue_pipeline nodes c =
      router_ends c ++ queue_first c nodes ++ queue_rest c 0 nodes
