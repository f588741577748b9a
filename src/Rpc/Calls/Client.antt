-- ===== src/Rpc/Calls/Client.antt =====
-- examples/rpc/RpcChannel.cpp: the open requests of a client.
use ecron.Prelude.{
  Bool, List, Option, Option-cases, String, [], ap, arith, erase_key, if◌then◌else◌, inl, inr,
  lookup, lookup-assign, lookup-erase_key, none, refl, some, true, ℕ, ◌++◌, ◌+◌, ◌<◌, ◌==◌, ◌^◌,
  ◌∙◌, ◌∷◌, ◌≡◌, ◌≤◌,
}
use ecron.Rpc.Calls.{
  Memory, RpcChannel, RpcController, RpcMeta, RpcResponseMeta, call_method, code_error, finish,
  process_message, set_error, set_failed,
}

module _ {Message : Type 0} where
  pub process_message-finish :
      (ch : RpcChannel Message) (mem : Memory) (parse : List ℕ → Option Message) (meta : RpcMeta)
      (msg : List ℕ) (r : RpcResponseMeta) (ctrl : RpcController)
      → meta.response ≡ some r
      → lookup ◌==◌ meta.correlation_id ch.reqs ≡ some ctrl
      → process_message ch mem parse meta msg
        ≡ finish (record ch { reqs = erase_key ◌==◌ meta.correlation_id ch.reqs }) ctrl (parse msg)
  unfolding process_message
  process_message-finish ch mem parse meta msg r ctrl e at = ground (arith, e, at)

  pub finish-parsed :
      (ch : RpcChannel Message) (ctrl : RpcController) (d : ℕ) (x : Message)
      → ctrl.response ≡ true
      → ctrl.done ≡ some d
      → finish ch ctrl (some x) ≡ record ch { finished = ch.finished ++ (d, ctrl, some x) ∷ [] }
  unfolding finish set_error lookup code_error
  finish-parsed ch ctrl d x has done = rw (done, has) refl

  finish-failed :
      (ch : RpcChannel Message) (ctrl : RpcController) (d : ℕ)
      → ctrl.response ≡ true
      → ctrl.done ≡ some d
      → finish ch ctrl none
        ≡ record ch { finished = ch.finished ++ (d, set_failed ctrl "invalid response", none) ∷ [] }
  unfolding finish set_error lookup code_error
  finish-failed ch ctrl d has done = rw (done, has) refl

  finish-frame :
      (ch : RpcChannel Message) (ctrl : RpcController) (parsed : Option Message)
      → ((finish ch ctrl parsed).reqs ≡ ch.reqs)
        × ((finish ch ctrl parsed).sent ≡ ch.sent)
        × ((finish ch ctrl parsed).id ≡ ch.id)
  unfolding finish
  finish-frame ch ctrl parsed = elim (Option-cases ctrl.done) [
    | inl e ↦ rw e (refl, refl, refl)
    | inr s ↦ rw s.1 (refl, refl, refl)
  ]

  -- The answer to an open request, whatever error code it carries, closes that request and no other,
  -- and runs its closure once: with the controller as the client left it and the message where the
  -- bytes parse, else with a failed controller and no message. Nothing is sent.
  pub process_message-answers :
      (ch : RpcChannel Message) (mem : Memory) (parse : List ℕ → Option Message) (meta : RpcMeta)
      (msg : List ℕ) (r : RpcResponseMeta) (ctrl : RpcController) (d j : ℕ)
      → meta.response ≡ some r
      → lookup ◌==◌ meta.correlation_id ch.reqs ≡ some ctrl
      → ctrl.response ≡ true
      → ctrl.done ≡ some d
      → (lookup ◌==◌ j (process_message ch mem parse meta msg).reqs
          ≡ (if meta.correlation_id == j then none else lookup ◌==◌ j ch.reqs))
        × ((x : Message)
            → parse msg ≡ some x
            → (process_message ch mem parse meta msg).finished
              ≡ ch.finished ++ (d, ctrl, some x) ∷ [])
        × (parse msg ≡ none
            → (process_message ch mem parse meta msg).finished
              ≡ ch.finished ++ (d, set_failed ctrl "invalid response", none) ∷ [])
        × ((process_message ch mem parse meta msg).sent ≡ ch.sent)
  process_message-answers ch mem parse meta msg r ctrl d j e at has done =
      let ch' = record ch { reqs = erase_key ◌==◌ meta.correlation_id ch.reqs } in
      let to_finish = process_message-finish ch mem parse meta msg r ctrl e at in
      let (reqs, sent, id) = finish-frame ch' ctrl (parse msg) in
      (
        ap (λ (c : RpcChannel Message). lookup ◌==◌ j c.reqs) to_finish
            ∙ ap (lookup ◌==◌ j) reqs
            ∙ lookup-erase_key meta.correlation_id j ch.reqs,
        (λ x parsed.
            ap (λ (c : RpcChannel Message). c.finished)
              (to_finish ∙ ap (finish ch' ctrl) parsed ∙ finish-parsed ch' ctrl d x has done)),
        (λ bad.
            ap (λ (c : RpcChannel Message). c.finished)
              (to_finish ∙ ap (finish ch' ctrl) bad ∙ finish-failed ch' ctrl d has done)),
        ap (λ (c : RpcChannel Message). c.sent) to_finish ∙ sent,
      )

  -- No open request has an id that is still to be given.
  abbrev pub IsFresh : RpcChannel Message → Type 0
  IsFresh ch = (j : ℕ) → ch.id ≤ j → lookup ◌==◌ j ch.reqs ≡ none

  pub call_method-IsFresh :
      (ch : RpcChannel Message) (service method : String) (ctrl : RpcController) (request : Message)
      (response : Bool) (done : Option ℕ)
      → ch.id + 1 < 2 ^ 64
      → IsFresh ch
      → IsFresh (call_method ch service method ctrl request response done)
  unfolding call_method
  call_method-IsFresh ch service method ctrl request response done small fresh j h =
      lookup-assign ch.id j (record ctrl { response = response; done = done }) ch.reqs
      ∙ ground (arith, fresh j)
