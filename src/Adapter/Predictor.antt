-- ===== src/Adapter/Predictor.antt =====
-- optimizer/adapter.py: `Predictor`, which turns the monitored load into a load to plan for.
pub mod Windows
use ipa_arman.Prelude.{
  ℕ, ◌+◌, ◌*◌, ◌/◌, ◌-◌, ◌==◌, String, List, [], ◌∷◌, leb, if◌then◌else◌, str_eq, value_error,
  index_error, key_error, type_error, Outcome, ok, raised, ◌>>=◌, or_raise, traverse, length, last?,
  slice, range_from, Conversions, Runtime,
}

-- The keys of `predictors`.
pub data Kind : Type 0 where
  lstm reactive maximum avg arima : Kind

pub record Predictor : Type 0 where
  pub predictor_type : Kind
  pub backup_predictor : Kind
  pub backup_predictor_duration : ℕ
  pub predictor_margin : ℕ

unfoldable pub kind_of : String → Outcome Kind
kind_of name =
    if str_eq name "lstm"
    then ok lstm
    else (if str_eq name "reactive"
        then ok reactive
        else (if str_eq name "max"
            then ok maximum
            else (if str_eq name "avg"
                then ok avg
                else (if str_eq name "arima" then ok arima else raised key_error))))

-- `Predictor.__init__`
unfoldable pub new_predictor : String → String → ℕ → ℕ → Outcome Predictor
new_predictor kind backup duration margin = do
  main ← kind_of kind
  other ← kind_of backup
  ok (record {
    predictor_type = main;
    backup_predictor = other;
    backup_predictor_duration = duration;
    predictor_margin = margin;
  })

unfoldable pub largest : ℕ → List ℕ → ℕ
largest m [] = m
largest m (x ∷ xs) = largest (if leb x m then m else x) xs

-- `max` of a list
unfoldable pub max_of : List ℕ → Outcome ℕ
max_of [] = raised value_error
max_of (x ∷ xs) = ok (largest x xs)

-- The maximum of each ten seconds. The starts are those of `range(0, len(series), 10)`.
unfoldable pub aggregate : List ℕ → Outcome (List ℕ)
aggregate series =
    traverse (λ k. max_of (slice (k * 10) (k * 10 + 10) series))
      (range_from 0 ((length series + 9) / 10))

module _ {F : Type 0} ⦃r : Runtime F⦄ (texts : Conversions F) where
  open r use {of_ℕ, add, mul, div, le}

  -- `lstm_predict` is the network on the window of the last values, `lstm_call` the network called
  -- on a list, and `forecast` the two steps that a fitted ARIMA model gives.
  module _ (lstm_predict lstm_call : List ℕ → Outcome F) (forecast : List ℕ → Outcome (F × F)) where
    -- `model(series)`. The entry of "arima" is None, which cannot be called.
    unfoldable pub call_model : Kind → List ℕ → Outcome F
    call_model lstm xs = lstm_call xs
    call_model reactive xs = or_raise (last? xs) index_error >>= λ x. ok (of_ℕ x)
    call_model maximum xs = max_of xs >>= λ x. ok (of_ℕ x)
    call_model avg xs = max_of xs >>= λ x. ok (div (of_ℕ x) (of_ℕ (length xs)))
    call_model arima xs = raised type_error

    -- The network reads the last 12 values, `LSTM_INPUT_SIZE`; fewer cannot be shaped.
    unfoldable pub main_model : Kind → List ℕ → Outcome F
    main_model lstm xs =
        let window = slice (length xs - 12) (length xs) xs in
        if length window == 12 then lstm_predict window else raised value_error
    main_model arima xs = do
      (a, b) ← forecast xs
      n ← texts.truncate (if le b a then a else b)
      ok (of_ℕ n)
    main_model kind xs = call_model kind xs

    -- The main model where the series is long enough, else its backup.
    unfoldable pub model_output : Predictor → List ℕ → Outcome F
    model_output p series = do
      xs ← aggregate series
      if leb (p.backup_predictor_duration * 60 / 10) (length xs)
          then main_model p.predictor_type xs
          else call_model p.backup_predictor xs

    -- `predict` of adapter.py: with the safety margin.
    unfoldable pub predict : Predictor → List ℕ → Outcome ℕ
    predict p series = do
      x ← model_output p series
      texts.round (mul x (add (of_ℕ 1) (div (of_ℕ p.predictor_margin) (of_ℕ 100))))

    -- The load that sim_adapter.py plans for: without a margin.
    unfoldable pub simulated_load : Predictor → List ℕ → Outcome ℕ
    simulated_load p series = model_output p series >>= λ x. texts.round x
