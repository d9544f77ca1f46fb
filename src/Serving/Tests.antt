-- ===== src/Serving/Tests.antt =====
-- A router over two queues.
use mathlib.Core.Path.{subst}
use ipa_arman.Prelude.{
  ok-injective, ℕ, String, ◌≡◌, ◌≢◌, ◌↔◌, refl, false, none, some, List, [], ◌∷◌, Outcome, ok,
  str_eq, lookup, insert, if◌then◌else◌,
}
use ipa_arman.Serving.{Tensor, Literals, ModelTimes, add_times}
use ipa_arman.Serving.Router.{
  Settings, without_queue, violation, with_arrival, drop_reply, is_late, early, finished, route,
  stamp, finish_route, predict,
}
use ipa_arman.Serving.Passes.{routed, late, Ends, Through, route_iff, route-finishes}
use ipa_arman.Serving.Stamped.{stamp-reads}
use ipa_arman.Samples.{milli}

-- All that a run unfolds.
unfoldable pub serving_program : Unit {0}
unfolding lookup insert add_times without_queue violation with_arrival drop_reply is_late route
    stamp finish_route predict
serving_program = tt

-- The times behind the last model, and with those of the router.
abbrev one_time : ModelTimes ℕ
one_time = ("detect", ("arrival", 20) ∷ ("serving", 40) ∷ []) ∷ []

abbrev both_times : ModelTimes ℕ
both_times =
    ("detect", ("arrival", 20) ∷ ("serving", 40) ∷ [])
    ∷ ("router", ("arrival", 10) ∷ ("serving", 90) ∷ [])
    ∷ []

abbrev lits : Literals ℕ
lits = record {
  str_clock = λ x. "now";
  parse_clock = λ s. ok 0;
  print_times = λ times. "both";
  eval_times = λ s. if str_eq s "both" then ok both_times else ok one_time;
}

abbrev settings : Settings ℕ
settings = record {
  unit_id = "router";
  drop_limit = 50;
  model_lists = "queue-detect" ∷ "queue-classify" ∷ [];
}

abbrev request : Tensor
request = record {
  name = "image";
  batch = 1;
  data_ = [];
  parameters = record { pipeline_arrival = none; times = some "times" };
}

-- Every model gives back what it gets.
abbrev echo : String → Tensor → Outcome Tensor
echo m t = ok (record t { name = "image" })

-- The clock stands at 10 behind the last model and at 80 before.
abbrev slow_clock : List String → ℕ
slow_clock [] = 10
slow_clock (m ∷ models) = 80

abbrev quick_clock : List String → ℕ
quick_clock models = 30

abbrev dropped_reply : Tensor
dropped_reply = record {
  name = "drop-limit-violation";
  batch = 1;
  data_ = "early exit, drop limit exceeded after detect" ∷ [];
  parameters = record { pipeline_arrival = none; times = none };
}

-- The limit is exceeded behind the first model.
request-dropped : (predict lits settings echo slow_clock 90 10 request 0).0 ≡ ok dropped_reply
unfolding serving_program
request-dropped = refl

route_iff_example :
    (routed lits settings echo slow_clock 90 10 settings.model_lists request
      ≡ ok (early dropped_reply))
    ↔ Ends lits settings echo slow_clock 90 10 settings.model_lists request (early dropped_reply)
route_iff_example =
    route_iff lits settings echo slow_clock 90 10 settings.model_lists request (early dropped_reply)

echo-answers :
    (m : String) (t : Tensor)
    → (reply : Tensor) × (echo m t ≡ ok reply) × (reply.name ≢ "drop-limit-violation")
echo-answers m t = (record t { name = "image" }, refl, λ h. cc)

quick-late : (models : List String) → late lits settings echo quick_clock 90 10 models ≡ false
unfolding is_late
quick-late [] = refl
quick-late (m ∷ models) = refl

route-finishes_example :
    (output : Tensor) × (routed lits settings echo quick_clock 90 10 settings.model_lists request
      ≡ ok (finished output))
    × Through lits settings echo quick_clock 90 10 settings.model_lists [] request output
route-finishes_example =
    route-finishes lits settings echo quick_clock 90 10 echo-answers quick-late settings.model_lists
      request

abbrev stamped : Tensor
stamped = record request { parameters = record { pipeline_arrival = none; times = some "both" } }

request-stamped : stamp lits settings echo quick_clock 90 10 request ≡ ok stamped
unfolding serving_program
request-stamped = refl

both-read :
    (before : ModelTimes ℕ)
    → lits.eval_times "times" ≡ ok before
    → lits.eval_times (lits.print_times (add_times "router" 10 90 before))
      ≡ ok (add_times "router" 10 90 before)
unfolding serving_program
both-read before h =
    subst
      (λ d. ok both_times ≡ ok (insert str_eq "router" (("arrival", 10) ∷ ("serving", 90) ∷ []) d))
      (ok-injective h) refl

stamp-reads_example :
    (new : String) × (before after : ModelTimes ℕ) × (lits.eval_times "times" ≡ ok before)
    × (stamped.parameters.times ≡ some new)
    × (lits.eval_times new ≡ ok after)
    × (lookup str_eq "router" after ≡ some (("arrival", 10) ∷ ("serving", 90) ∷ []))
    × ((model : String)
        → str_eq "router" model ≡ false
        → lookup str_eq model after ≡ lookup str_eq model before)
stamp-reads_example =
    stamp-reads lits settings echo quick_clock 90 10 request "times" {reply = stamped} refl
      both-read request-stamped
