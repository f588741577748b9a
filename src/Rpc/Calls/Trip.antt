-- ===== src/Rpc/Calls/Trip.antt =====
-- examples/rpc/RpcChannel.cpp: a call from the client to the server and back.
use ecron.Prelude.{
  List, Option, String, [], ap, arith, lookup, lookup-assign, none, refl, some, true, ℕ, ◌++◌, ◌==◌,
  ◌∙◌, ◌∷◌, ◌≡◌,
}
use ecron.Rpc.Calls.{
  Memory, RpcChannel, RpcController, RpcMeta, call_method, code_error, failed, process_message,
  refused, send_resp, try_request,
}
use ecron.Rpc.Calls.Client.{process_message-answers}
use ecron.Rpc.Calls.Server.{answer, process_message-refused}

-- The meta of a call.
abbrev pub question : ℕ → String → String → RpcMeta
question id service method = record {
  request = some (record { service_name = service; method_name = method });
  response = none;
  correlation_id = id;
}

module _ {Message : Type 0} (ch sv : RpcChannel Message) (service method : String)
    (ctrl : RpcController) (request : Message) (d : ℕ) (mem mem' : Memory)
    (parse parse' : List ℕ → Option Message) (bytes bytes' : List ℕ) where
  abbrev pub asked : RpcChannel Message
  asked = call_method ch service method ctrl request true (some d)

  abbrev pub stored : RpcController
  stored = record ctrl { response = true; done = some d }

  asked-lookup : lookup ◌==◌ ch.id asked.reqs ≡ some stored
  unfolding call_method
  asked-lookup = lookup-assign ch.id ch.id stored ch.reqs ∙ ground (arith)

  -- The client asks, the server answers `code` with the message that the bytes `bytes'` hold.
  pub back :
      (code : ℕ) (text : String) (x : Message)
      → parse bytes' ≡ some x
      → (process_message asked mem parse (answer ch.id code text) bytes').finished
        ≡ ch.finished ++ (d, stored, some x) ∷ []
  unfolding call_method
  back code text x e =
      (process_message-answers asked mem parse (answer ch.id code text) bytes'
          (record { error_code = code; error_text = text }) stored d 0 refl asked-lookup refl
          refl).1
        x e

  -- A call that the server refuses, with any error, ends at the client like one that succeeds, if
  -- no byte is a message: the closure runs with a controller whose error the channel did not set.
  pub refusal-unnoticed :
      (error : ℕ) (x : Message)
      → try_request sv.services mem' (record { service_name = service; method_name = method }) bytes
        ≡ refused error
      → parse bytes' ≡ some x
      → (text : String) × ((process_message sv mem' parse'
            (question ch.id service method)
            bytes).sent
          ≡ sv.sent ++ (answer ch.id error text, none) ∷ [])
        × ((process_message asked mem parse (answer ch.id error text) bytes').finished
            ≡ ch.finished ++ (d, stored, some x) ∷ [])
        × (failed stored ≡ failed ctrl)
  unfolding call_method send_resp failed
  refusal-unnoticed error x taken parsed =
      let text : String = elim (lookup ◌==◌ error code_error) as (λ o. String) [
        | none ↦ ""
        | some t ↦ t
      ] in
      (
        text,
        ap (λ (c : RpcChannel Message). c.sent)
            (process_message-refused sv mem' parse' (question ch.id service method) bytes
              (record { service_name = service; method_name = method }) error refl refl taken),
        back error text x parsed,
        refl,
      )
