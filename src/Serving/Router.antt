-- ===== src/Serving/Router.antt =====
-- pipelines/router/models.py: `Router.predict`, which sends a request through the models of a pipeline.
use text.Mathlib.Text.{starts_with}
use ipa_arman.Prelude.{
  zero, ℕ, suc, String, Bool, false, none, some, List, [], ◌∷◌, str_eq, if◌then◌else◌,
  attribute_error, Outcome, ok, ◌>>=◌, or_raise, Method, Runtime, join,
}
use ipa_arman.Serving.{Tensor, Literals, add_times}

-- The environment of the container.
pub record Settings (F : Type 0) : Type 0 where
  pub unit_id : String
  pub drop_limit : F
  pub model_lists : List String

-- `name.replace("queue-", "")`, with the number of characters that are still to be left out.
unfoldable pub without_queue : ℕ → String → String
without_queue skip String.[] = String.[]
without_queue (suc skip) (String.◌∷◌ c s) = without_queue skip s
without_queue zero (String.◌∷◌ c s) =
    let rest = String.◌∷◌ c (without_queue 0 s) in
    if starts_with (String.◌∷◌ c s) "queue-" then without_queue 5 s else rest

unfoldable pub violation : String
violation = "drop-limit-violation"

unfoldable pub with_arrival : String → Tensor → Tensor
with_arrival arrival t = record t {
  parameters = record t.parameters { pipeline_arrival = some arrival };
}

-- `drop_limit_exceed_payload` with its message.
unfoldable pub drop_reply : String → Tensor
drop_reply message = record {
  name = violation;
  batch = 1;
  data_ = message ∷ [];
  parameters = record { pipeline_arrival = none; times = none };
}

-- `infer` is the call of a model; `elapsed k` is the clock when `k` models of the list are still to come,
-- and `serving` the clock at the end.
module _ {F : Type 0} ⦃r : Runtime F⦄ (lits : Literals F) (settings : Settings F)
    (infer : String → Tensor → Outcome Tensor) (elapsed : List String → F) (serving : F) where
  open r use {sub, le}

  -- `time_so_far >= DROP_LIMIT and node_index + 1 != len(MODEL_LISTS)`
  unfoldable pub is_late : F → List String → Bool
  is_late arrival [] = false
  is_late arrival (m ∷ models) = le settings.drop_limit (sub (elapsed (m ∷ models)) arrival)

  -- What stops the loop: the reply that is returned from inside, or the output behind the last model.
  pub data Progress : Type 0 where
    early finished : Tensor → Progress

  -- The loop over the models that are still to come.
  unfoldable pub route : F → List String → Tensor → Outcome Progress
  route arrival [] output = ok (finished output)
  route arrival (m ∷ models) output = do
    reply ← infer m output
    let rest = route arrival models (with_arrival (lits.str_clock arrival) reply)
    if str_eq reply.name violation
        then ok (early reply)
        else (if is_late arrival models
            then ok (
                early
                  (drop_reply (join "early exit, drop limit exceeded after " (without_queue 0 m))))
            else rest)

  -- The times of the router, added to those of the models.
  unfoldable pub stamp : F → Tensor → Outcome Tensor
  stamp arrival output = do
    text ← or_raise output.parameters.times attribute_error
    times ← lits.eval_times text
    ok (record output {
      parameters = record output.parameters {
        times = some (lits.print_times (add_times settings.unit_id arrival serving times));
      };
    })

  unfoldable pub finish_route : F → Progress → Outcome Tensor
  finish_route arrival (early reply) = ok reply
  finish_route arrival (finished output) = stamp arrival output

  -- `predict`, with the counter of requests.
  unfoldable pub predict : F → Tensor → Method ℕ Tensor
  predict arrival payload counter = (
    (route arrival settings.model_lists (with_arrival (lits.str_clock arrival) payload) >>= λ p.
        finish_route arrival p),
    suc counter,
  )
