-- ===== src/LoadTester.antt =====
-- load_tester/barazmoon/main.py: one request over gRPC, and what is recorded of it.
pub mod Failures
pub mod Schedule
pub mod Rotation
pub mod Workload
pub mod Windows
pub mod Tests
use ipa_arman.Prelude.{
  String, Bool, true, false, Option, none, some, List, [], ◌∷◌, str_eq, if◌then◌else◌,
  unbound_local_error, Outcome, ok, raised, ◌>>=◌, Dict,
}
use ipa_arman.Results.{Times, Response}

-- What the library makes of a reply: the type of its outputs, the decoded outputs (an exception of the
-- decoding included), the times that the models left, if any, and the first entry of the outputs
-- decoded as numbers, which is the message of a drop.
pub record Reply (F O : Type 0) : Type 0 where
  pub model_name : String
  pub type_of : String
  pub outputs : Outcome O
  pub models : Option (Dict String (Dict String F))
  pub drop_message : Outcome String

-- How the awaited call ends: a reply with the time of its arrival, a timeout, or an error with its text.
pub data Ending (F O : Type 0) : Type 0 where
  replied : Reply F O → F → Ending F O
  timed_out : Ending F O
  rpc_error : String → Ending F O

-- The dictionary `resp`.
pub record RequestRecord (F O : Type 0) : Type 0 where
  pub times : Option (Times F)
  pub model_name : Option String
  pub outputs : Option O
  pub failed : Option String

-- The three types of outputs that are decoded. Of any other the variable `outputs` is not set.
unfoldable pub is_decoded : String → Bool
is_decoded type_of =
    if str_eq type_of "image"
    then true
    else (if str_eq type_of "text" then true else str_eq type_of "int")

-- `times["request"]`
unfoldable pub request_times : {F : Type 0} → F → F → Dict String F
request_times sending arrival = ("sending", sending) ∷ ("arrival", arrival) ∷ []

module _ {F O : Type 0} where
  unfoldable pub decoded_outputs : Reply F O → Outcome (Option O)
  decoded_outputs reply =
      if is_decoded reply.type_of then (reply.outputs >>= λ o. ok (some o)) else ok none

  -- The end of the `try`: the times of the models, or the message of a drop in place of all.
  unfoldable pub record_reply : F → F → Reply F O → Option O → Outcome (RequestRecord F O)
  record_reply sending arrival reply outputs = elim reply.models [
    | none ↦ reply.drop_message >>= λ message.
        ok (record { times = none; model_name = none; outputs = none; failed = some message })
    | some models ↦ elim outputs [
      | none ↦ raised unbound_local_error
      | some o ↦ ok (record {
        times =
            some (record { request = some (request_times sending arrival); models = some models });
        model_name = some reply.model_name;
        outputs = some o;
        failed = none;
      })
    ]
  ]

  -- `request_after_grpc`, from the time of sending on. After a timeout the handler reads the time of
  -- arrival, which is not set.
  unfoldable pub request_after_grpc : F → Ending F O → Outcome (RequestRecord F O)
  request_after_grpc sending (replied reply arrival) =
      decoded_outputs reply >>= λ outputs. record_reply sending arrival reply outputs
  request_after_grpc sending timed_out = raised unbound_local_error
  request_after_grpc sending (rpc_error text) = ok (record {
    times = some (record { request = some (("sending", sending) ∷ []); models = none });
    model_name = none;
    outputs = none;
    failed = some text;
  })

  -- The part of the dictionary that the parser of the results reads.
  abbrev pub as_response : RequestRecord F O → Response F
  as_response resp = record { times = resp.times }
