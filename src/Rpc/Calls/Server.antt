-- ===== src/Rpc/Calls/Server.antt =====
-- examples/rpc/RpcChannel.cpp: what a server does with a request.
use ecron.Prelude.{
  List, Option, String, [], arith, if◌then◌else◌, inl, inr, lookup, none, refl, some, subst, sym, ℕ,
  ◌++◌, ◌==◌, ◌∷◌, ◌≡◌, ◌⊎◌,
}
use ecron.Rpc.Calls.{
  Attempt, Memory, RpcChannel, RpcController, RpcMeta, RpcRequestMeta, Service, accepted,
  call_service, code_error, failed, internal_error, no_error, on_done, process_message, refused,
  send_resp, server_controller, try_request,
}

-- The meta of an answer.
abbrev pub answer : ℕ → ℕ → String → RpcMeta
answer id code text = record {
  request = none;
  response = some (record { error_code = code; error_text = text });
  correlation_id = id;
}

module _ {Message : Type 0} where
  -- One answer with the request's id was sent, or its method keeps it; all else is as it was.
  pub data Handled (ch : RpcChannel Message) (id : ℕ) (ch' : RpcChannel Message) : Type 0 where
    replied :
        (code : ℕ) (text : String) (x : Option Message)
        → ch' ≡ record ch { sent = ch.sent ++ (answer id code text, x) ∷ [] }
        → Handled ch id ch'
    kept : ch' ≡ record ch { waiting = ch.waiting ++ id ∷ [] } → Handled ch id ch'

  pub send_resp-Handled :
      (ch : RpcChannel Message) (id code : ℕ) (x : Option Message)
      → Handled ch id (send_resp ch id code x)
  unfolding send_resp
  send_resp-Handled ch id code x =
      replied code (elim (lookup ◌==◌ code code_error) as (λ o. String) [ none ↦ "" | some t ↦ t ])
        x refl

  call_service-Handled :
      (ch : RpcChannel Message) (id : ℕ) (r : Option (RpcController × Message))
      → Handled ch id (call_service ch id r)
  unfolding call_service on_done
  call_service-Handled ch id none = kept refl
  call_service-Handled ch id (some r) =
      send_resp-Handled ch id (if failed r.0 then internal_error else no_error) (some r.1)

  pub process_message-refused :
      (ch : RpcChannel Message) (mem : Memory) (parse : List ℕ → Option Message) (meta : RpcMeta)
      (msg : List ℕ) (r : RpcRequestMeta) (error : ℕ)
      → meta.response ≡ none
      → meta.request ≡ some r
      → try_request ch.services mem r msg ≡ refused error
      → process_message ch mem parse meta msg ≡ send_resp ch meta.correlation_id error none
  unfolding process_message
  process_message-refused ch mem parse meta msg r error e f g = ground (arith, e, f, g)

  pub process_message-accepted :
      (ch : RpcChannel Message) (mem : Memory) (parse : List ℕ → Option Message) (meta : RpcMeta)
      (msg : List ℕ) (r : RpcRequestMeta) (service : Service Message) (method : String)
      (x : Message)
      → meta.response ≡ none
      → meta.request ≡ some r
      → try_request ch.services mem r msg ≡ accepted service method x
      → process_message ch mem parse meta msg
        ≡ call_service ch meta.correlation_id
            (service.call method x (server_controller meta.correlation_id))
  unfolding process_message
  process_message-accepted ch mem parse meta msg r service method x e f g = rw (e, f, g) refl

  Attempt-cases :
      (a : Attempt Message)
      → ((error : ℕ) × (a ≡ refused error))
        ⊎ ((service : Service Message) × (method : String) × (x : Message) × (a
              ≡ accepted service method x))
  Attempt-cases (refused error) = inl (error, refl)
  Attempt-cases (accepted service method x) = inr (service, method, x, refl)

  -- Every request, known or not, is answered by exactly one message with its id, or is kept by the
  -- user's method for later; the open requests and finished calls of the channel stay as they are.
  pub process_message-Handled :
      (ch : RpcChannel Message) (mem : Memory) (parse : List ℕ → Option Message) (meta : RpcMeta)
      (msg : List ℕ) (r : RpcRequestMeta)
      → meta.response ≡ none
      → meta.request ≡ some r
      → Handled ch meta.correlation_id (process_message ch mem parse meta msg)
  process_message-Handled ch mem parse meta msg r e f =
      elim (Attempt-cases (try_request ch.services mem r msg)) [
        | inl a ↦
            subst (Handled ch meta.correlation_id)
              (sym (process_message-refused ch mem parse meta msg r a.0 e f a.1))
              (send_resp-Handled ch meta.correlation_id a.0 none)
        | inr a ↦
            subst (Handled ch meta.correlation_id)
              (sym (process_message-accepted ch mem parse meta msg r a.0 a.1 a.2 e f a.3))
              (call_service-Handled ch meta.correlation_id
                (a.0.call a.1 a.2 (server_controller meta.correlation_id)))
      ]
