-- ===== src/LoadTester/Tests.antt =====
-- A load test of five requests over two payloads, requests that failed, and two windows of a workload.
use Prim.Native.Char.{code}
use ipa_arman.Prelude.{
  ◌>>=◌, ℕ, zero, suc, ◌+◌, ◌*◌, ◌-◌, String, ◌≡◌, ◌≢◌, refl, true, false, none, some, List, [],
  ◌∷◌, map, leb, ◌&&◌, value_error, zero_division_error, Outcome, ok, raised, Conversions,
  range_from, for_each, traverse, slice, length, arith, if◌then◌else◌, ◌/◌,
}
use ipa_arman.Results.{Kind, clocks}
use ipa_arman.Results.Lost.{is_lost}
use ipa_arman.LoadTester.{
  Ending, RequestRecord, is_decoded, decoded_outputs, request_times, record_reply,
  request_after_grpc, as_response,
}
use ipa_arman.LoadTester.Failures.{request_after_grpc-is_lost}
use ipa_arman.LoadTester.Schedule.{
  Tester, Planned, create_requests, arrivals, submit_requests, benchmark,
}
use ipa_arman.LoadTester.Rotation.{sent, turn, total, benchmark-sent}
use ipa_arman.LoadTester.Workload.{
  Window, WorkloadConfig, prepend, split, two_parts, seconds_of, date_of, repeated, numbers_in,
  get_workload, damped, damp, parse_date_str, twitter_workload_generator, teleported, window_load,
  windows_load, make_workload,
}
use ipa_arman.LoadTester.Windows.{concat, IsLoad, make_workload_lem}
use ipa_arman.Samples.{milli}

-- All that a run unfolds.
unfoldable pub load_program : Unit {0}
unfolding clocks is_decoded decoded_outputs request_times record_reply request_after_grpc
    create_requests arrivals submit_requests benchmark range_from for_each prepend split two_parts
    seconds_of date_of repeated numbers_in get_workload damped damp parse_date_str
    twitter_workload_generator teleported window_load windows_load make_workload concat traverse
    slice
load_program = tt

abbrev digits : ℕ → String
digits zero = String.[]
digits (suc n) = String.◌∷◌ "|" (digits n)

abbrev nodes : List String
nodes = "detect" ∷ []

-- The channel broke: the parser takes the request for lost.
abbrev broken : Ending ℕ ℕ
broken = Ending.rpc_error "unavailable"

abbrev unanswered : RequestRecord ℕ ℕ
unanswered = record {
  times = some (record { request = some (("sending", 10) ∷ []); models = none });
  model_name = none;
  outputs = none;
  failed = some "unavailable";
}

broken-unanswered : request_after_grpc 10 broken ≡ ok unanswered
unfolding load_program
broken-unanswered = refl

request_after_grpc-is_lost_example :
    is_lost digits Kind.router_pipeline nodes (as_response unanswered) ≡ true
request_after_grpc-is_lost_example =
    request_after_grpc-is_lost digits Kind.router_pipeline nodes {O = ℕ} 10 broken
      {resp = unanswered} {text = "unavailable"} broken-unanswered refl

abbrev tester : Tester ℕ
tester = record { payloads = 2; mode = "equal"; duration = 1; stop_flag = false }

abbrev draw : ℕ → ℕ → List ℕ
draw beta zero = []
draw beta (suc n) = beta ∷ draw beta n

abbrev request_at : ℕ → ℕ → Planned ℕ
request_at wait payload = record { wait = wait; payload = payload }

abbrev slow : Tester ℕ
slow = record tester { mode = "step" }

abbrev together : List (List (Planned ℕ))
together =
    (request_at 0 0 ∷ request_at 0 1 ∷ request_at 0 0 ∷ [])
    ∷ (request_at 0 1 ∷ request_at 0 0 ∷ [])
    ∷ []

together-ok : (benchmark draw slow (3 ∷ 2 ∷ []) 0).0 ≡ ok together
unfolding load_program
together-ok = refl

slow-payloads : slow.payloads ≢ 0
slow-payloads h = ground arith

benchmark-sent_example :
    (for_each (sent slow refl slow-payloads) together
      ≡ map (turn slow refl slow-payloads) (range_from 0 (total (3 ∷ 2 ∷ []))))
    × ((benchmark draw slow (3 ∷ 2 ∷ []) 0).1 ≡ 0 + total (3 ∷ 2 ∷ []))
benchmark-sent_example =
    benchmark-sent slow refl slow-payloads draw (3 ∷ 2 ∷ []) 0 {seconds = together} together-ok

-- A second without requests ends the benchmark.
idle_second : (benchmark draw slow (3 ∷ 0 ∷ []) 0).0 ≡ raised zero_division_error
unfolding load_program
idle_second = refl

-- Decimal numbers.
abbrev digit : ℕ → Outcome ℕ
digit c = if leb 48 c && leb c 57 then ok (c - 48) else raised value_error

abbrev number_from : ℕ → String → Outcome ℕ
number_from n String.[] = ok n
number_from n (String.◌∷◌ c s) = digit (code c) >>= λ d. number_from (n * 10 + d) s

abbrev decimals : Conversions ℕ
decimals = record {
  str_int = digits;
  str_double = digits;
  parse_int = number_from 0;
  truncate = λ x. ok (x / 1000);
  round = λ x. ok (x / 1000);
}

abbrev file : String
file = "5 6 x 8 9 10"

abbrev window : String → String → Window ℕ
window start end = record { damping_factor = none; start = start; end = end }

abbrev windows : WorkloadConfig ℕ
windows = WorkloadConfig.twitter (window "1" "3" ∷ window "0" "1" ∷ [])

abbrev loads : List ℕ
loads = 6 ∷ 8 ∷ 5 ∷ []

windows-loads : make_workload decimals file none windows ≡ ok (3, loads)
unfolding load_program
windows-loads = refl

make_workload_lem_example : (3 ≡ length loads) × IsLoad decimals file none windows loads
make_workload_lem_example =
    make_workload_lem decimals file none windows {duration = 3} {workload = loads} windows-loads

-- The bounds are compared as strings: the window from 9 to 10 is refused.
string_order : window_load decimals file none (window "9" "10") ≡ raised value_error
unfolding load_program
string_order = refl
