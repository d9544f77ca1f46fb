-- ===== src/LoadTester/Schedule.antt =====
-- load_tester/barazmoon/main.py: the requests that `BarAzmoonAsyncGrpc` creates for each second.
use ipa_arman.Prelude.{
  ℕ, zero, suc, ◌%◌, String, Bool, List, [], ◌∷◌, map, ◌==◌, str_eq, if◌then◌else◌,
  zero_division_error, index_error, plain_exception, Outcome, ok, raised, ◌>>=◌, range_from, Method,
  Runtime,
}

-- What a tester is built with: the number of payloads, the mode, the duration of a second of the
-- benchmark, and whether it was told to stop.
pub record Tester (F : Type 0) : Type 0 where
  pub payloads : ℕ
  pub mode : String
  pub duration : ℕ
  pub stop_flag : Bool

-- A request that is created: how long it waits, and the payload that it sends.
pub record Planned (F : Type 0) : Type 0 where
  pub wait : F
  pub payload : ℕ

module _ {F : Type 0} ⦃r : Runtime F⦄ where
  open r use {of_ℕ, mul, div}

  -- The loop over `range(req_count)`, on `request_index`.
  unfoldable pub create_requests : Tester F → ℕ → List F → Method ℕ (List (Planned F))
  create_requests t zero arrival index = (ok [], index)
  create_requests t (suc n) [] index =
      if t.payloads == 0
      then (raised zero_division_error, index)
      else (if t.stop_flag then (ok [], index) else (raised index_error, index))
  create_requests t (suc n) (w ∷ arrival) index =
      let (rest, index') = create_requests t n arrival (suc index) in
      if t.payloads == 0
      then (raised zero_division_error, index)
      else (if t.stop_flag then (ok [], index) else (
        (rest >>= λ planned. ok (record { wait = w; payload = index % t.payloads } ∷ planned)),
        index',
      ))

  -- `exponential beta n` draws from the generator of numpy.
  module _ (exponential : F → ℕ → List F) where
    -- The times of the requests within the second. No request at all divides by zero.
    unfoldable pub arrivals : Tester F → ℕ → Outcome (List F)
    arrivals t req_count =
        if req_count == 0
        then raised zero_division_error
        else (let beta = div (of_ℕ t.duration) (of_ℕ req_count) in
            if str_eq t.mode "step"
            then ok (map (λ i. of_ℕ 0) (range_from 0 req_count))
            else (if str_eq t.mode "equal"
                then ok (map (λ i. mul (of_ℕ i) beta) (range_from 0 req_count))
                else (if str_eq t.mode "exponential"
                    then ok (exponential beta req_count)
                    else raised plain_exception)))

    -- `submit_requests_after`, up to the requests that it waits for.
    unfoldable pub submit_requests : Tester F → ℕ → Method ℕ (List (Planned F))
    submit_requests t req_count index = elim (arrivals t req_count) [
      | raised e ↦ (raised e, index)
      | ok arrival ↦ create_requests t req_count arrival index
    ]

    -- `benchmark`: a second starts when the sleep before it ends, so in order, and creates its requests
    -- without a pause. The first exception is that of the benchmark.
    unfoldable pub benchmark : Tester F → List ℕ → Method ℕ (List (List (Planned F)))
    benchmark t [] index = (ok [], index)
    benchmark t (req_count ∷ counts) index =
        let (planned, index') = submit_requests t req_count index in
        let (rest, index'') = benchmark t counts index' in
        elim planned [
          | raised e ↦ (raised e, index')
          | ok rs ↦ ((rest >>= λ others. ok (rs ∷ others)), index'')
        ]
