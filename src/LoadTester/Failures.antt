-- ===== src/LoadTester/Failures.antt =====
-- load_tester/barazmoon/main.py and experiments/utils/parser.py: what the parser makes of a request
-- that failed.
use ipa_arman.Prelude.{
  ℕ, String, ◌≡◌, refl, ap, ◌∙◌, true, none, some, List, [], ◌∷◌, ok, raised, >>=-eq-ok,
  ok-injective, inl, inr, Option-cases, key_error, Runtime,
}
use mathlib.Core.Path.{subst}
use ipa_arman.Results.{Kind, Response, clocks}
use ipa_arman.Results.Lost.{is_lost}
use ipa_arman.LoadTester.{
  Ending, replied, timed_out, rpc_error, RequestRecord, decoded_outputs, record_reply,
  request_after_grpc, as_response,
}

module _ {F : Type 0} ⦃r : Runtime F⦄ (digits : ℕ → String) (kind : Kind)
    (nodes : List String) where
  -- Without the times of the models the clocks of a response are not there.
  no_clocks :
      (response : Response F)
      → clocks response ≡ raised key_error
      → is_lost digits kind nodes response ≡ true
  no_clocks response h = rw (h, is_lost) refl

  -- The parser counts every recorded request that failed as lost, whatever the pipeline.
  pub request_after_grpc-is_lost :
      {O : Type 0} (sending : F) (ending : Ending F O) {resp : RequestRecord F O} {text : String}
      → request_after_grpc sending ending ≡ ok resp
      → resp.failed ≡ some text
      → is_lost digits kind nodes (as_response resp) ≡ true
  unfolding request_after_grpc record_reply clocks
  request_after_grpc-is_lost sending timed_out h failed = cc
  request_after_grpc-is_lost sending (rpc_error e) {resp} h failed =
      subst (λ x. is_lost digits kind nodes (as_response x) ≡ true) (ok-injective h)
        (no_clocks
          (record {
            times = some (record { request = some (("sending", sending) ∷ []); models = none });
          })
          refl)
  request_after_grpc-is_lost sending (replied reply arrival) {resp} {text} h failed =
      let (outputs, e, h1) = >>=-eq-ok (decoded_outputs reply) _ h in
      elim (Option-cases reply.models) [
        | inl gone ↦
            let (message, f, h2) = >>=-eq-ok reply.drop_message _ (rw (gone, record_reply) at h1) in
            subst (λ x. is_lost digits kind nodes (as_response x) ≡ true) (ok-injective h2)
              (no_clocks (record { times = none }) refl)
        | inr (models, there) ↦ elim (Option-cases outputs) [
          | inl unset ↦ let h2 = rw (there, unset, record_reply) at h1 in cc
          | inr (o, set) ↦
              let h2 = rw (there, set, record_reply) at h1 in
              let q : none ≡ some text = ap (λ x. x.failed) (ok-injective h2) ∙ failed in cc
        ]
      ]
