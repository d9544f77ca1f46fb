-- ===== src/Results/Seconds.antt =====
-- experiments/utils/parser.py: the latencies second by second.
use ipa_arman.Prelude.{
  ℕ, zero, suc, String, true, Option, none, some, List, [], ◌∷◌, ◌++◌, map, key_error,
  unbound_local_error, Outcome, ok, raised, ◌>>=◌, or_raise, traverse, Dict, lookup, length, str_eq,
  Runtime,
}
use ipa_arman.Results.{
  Kind, node, pipeline, router_pipeline, router_queue_pipeline, Response, Column,
}
use ipa_arman.Results.Latencies.{Latencies, latency_calculator}
use ipa_arman.Results.Summary.{Statistics, Figure, latency_summary}

-- `xs[:n]` and `xs[n:]`
unfoldable pub take {ℓ} : {A : Type ℓ} → ℕ → List A → List A
take zero xs = []
take (suc n) [] = []
take (suc n) (x ∷ xs) = x ∷ take n xs

unfoldable pub drop {ℓ} : {A : Type ℓ} → ℕ → List A → List A
drop zero xs = xs
drop (suc n) [] = []
drop (suc n) (x ∷ xs) = drop n xs

-- The numbers of requests of each second, and all requests in one list.
unfoldable pub flatten_results {ℓ} : {A : Type ℓ} → List (List A) → List ℕ × List A
flatten_results [] = ([], [])
flatten_results (second ∷ seconds) =
    let (ns, flat) = flatten_results seconds in (length second ∷ ns, second ++ flat)

-- How many entries are None.
unfoldable pub count_none {ℓ} : {A : Type ℓ} → List (Option A) → ℕ
count_none [] = 0
count_none (none ∷ xs) = suc (count_none xs)
count_none (some x ∷ xs) = count_none xs

-- The column in which the lost responses are counted. For a node no branch sets the number.
unfoldable pub client_column : Kind → Outcome Column
client_column node = raised unbound_local_error
client_column pipeline = ok "client_to_pipeline"
client_column router_pipeline = ok "client_to_router"
client_column router_queue_pipeline = ok "client_to_router"

module _ {F : Type 0} where
  unfoldable pub take_columns : ℕ → Latencies F → Latencies F
  take_columns n d = map (λ (e : Column × List (Option F)). (e.0, take n e.1)) d

  unfoldable pub drop_columns : ℕ → Latencies F → Latencies F
  drop_columns n d = map (λ (e : Column × List (Option F)). (e.0, drop n e.1)) d

  -- `per_second_stats`
  unfoldable pub split_seconds : List ℕ → Latencies F → List (Latencies F)
  split_seconds [] d = []
  split_seconds (n ∷ ns) d = take_columns n d ∷ split_seconds ns (drop_columns n d)

  unfoldable pub second_timeouts : Kind → Latencies F → Outcome ℕ
  second_timeouts kind item = do
    c ← client_column kind
    xs ← or_raise (lookup str_eq c item) key_error
    ok (count_none xs)

module _ {F : Type 0} ⦃r : Runtime F⦄ (digits : ℕ → String) (np : Statistics F) where
  unfoldable pub per_second_result_processing :
      Kind
      → String
      → List String
      → List (List (Response F))
      → Outcome (List ℕ × List (Dict Column (Dict Figure (Option F))))
  per_second_result_processing kind model_name nodes seconds = do
    let (ns, flat) = flatten_results seconds
    (d, _) ← latency_calculator digits kind model_name nodes true flat
    let items = split_seconds ns d
    stats ← traverse (latency_summary np) items
    timeouts ← traverse (second_timeouts kind) items
    ok (timeouts, stats)
