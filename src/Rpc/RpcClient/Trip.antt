-- ===== src/Rpc/RpcClient/Trip.antt =====
-- examples/rpc/RpcClient.cpp and examples/rpc/RpcServer.cpp: a call through both ends, as bytes.
use ecron.Prelude.{
  List, Option, String, [], ap, append-nil, arith, assign, if◌then◌else◌, lookup, none, ok, refl,
  some, subst, sym, true, ℕ, ◌++◌, ◌<◌, ◌==◌, ◌^◌, ◌∙◌, ◌∷◌, ◌≡◌,
}
use Prim.{tt}
use ecron.Buffer.{Buffer}
use ecron.Buffer.Fifo.{Holds}
use ecron.Rpc.{Codec, IsLawful}
use ecron.Rpc.Process.{body_length}
use ecron.Rpc.Stream.{messages, short, wire}
use ecron.Rpc.Calls.{
  Memory, RpcChannel, RpcController, RpcMeta, Service, accepted, call_method, call_service,
  code_error, failed, internal_error, no_error, on_done, process_message, send_resp,
  server_controller, try_request,
}
use ecron.Rpc.Calls.Server.{answer, process_message-accepted}
use ecron.Rpc.Calls.Trip.{back, question}
use ecron.Rpc.Ends.{process_buffer, process_messages}
use ecron.Rpc.Ends.Served.{one, process_buffer-Delivered}
use ecron.Rpc.RpcServer
use ecron.Rpc.RpcServer.{RpcServer, with_services}
use ecron.Rpc.RpcServer.Answers.{on_recv-after}
use ecron.Rpc.RpcClient
use ecron.Rpc.RpcClient.{RpcClient}

-- What the answer to a call says of how the method left its controller.
abbrev pub code_of : RpcController → ℕ
code_of sctrl = if failed sctrl then internal_error else no_error

abbrev pub text_of : ℕ → String
text_of code = elim (lookup ◌==◌ code code_error) as (λ o. String) [ none ↦ "" | some t ↦ t ]

abbrev pub reply : RpcController → ℕ → RpcMeta
reply sctrl id = answer id (code_of sctrl) (text_of (code_of sctrl))

module _ {Message : Type 0} (k : Codec RpcMeta Message) (mem : Memory)
    (parse : List ℕ → Option Message) where
  process_messages-one :
      (ch : RpcChannel Message) (meta : RpcMeta) (x : Message)
      → process_messages k mem parse ch (messages k (one meta x))
        ≡ process_message ch mem parse meta (k.message_bytes x)
  unfolding process_messages messages
  process_messages-one ch meta x = refl

  on_recv-of :
      (fuel n : ℕ) (c : RpcClient Message) (ch : RpcChannel Message) (b b' : Buffer)
      → process_buffer k mem parse fuel c.channel b ≡ ok (some (ch, b', n))
      → RpcClient.on_recv k mem parse fuel c b ≡ ok (some (record c { channel = ch }, b', n))
  unfolding RpcClient.on_recv
  on_recv-of fuel n c ch b b' run = rw run refl

whole : {b : Buffer} {xs : List ℕ} → Holds b xs → Holds b (xs ++ [])
whole {b} {xs} h = subst (Holds b) (sym (append-nil xs)) h

accepted-sent :
    {Message : Type 0} (sv : RpcChannel Message) (mem : Memory) (parse : List ℕ → Option Message)
    (id : ℕ) (service method : String) (bytes : List ℕ) (s : Service Message) (x response : Message)
    (sctrl : RpcController)
    → try_request sv.services mem (record { service_name = service; method_name = method }) bytes
      ≡ accepted s method x
    → s.call method x (server_controller id) ≡ some (sctrl, response)
    → (process_message sv mem parse (question id service method) bytes).sent
      ≡ sv.sent ++ (reply sctrl id, some response) ∷ []
unfolding send_resp call_service on_done
accepted-sent sv mem parse id service method bytes s x response sctrl taken ran =
    ap (λ (c : RpcChannel _). c.sent)
      (process_message-accepted sv mem parse (question id service method) bytes
          (record { service_name = service; method_name = method }) s method x refl refl taken
        ∙ ap (call_service sv id) ran)

module _ {Message : Type 0} (k : Codec RpcMeta Message) (law : IsLawful k) (mem mem' : Memory)
    (parse parse' : List ℕ → Option Message) (fuel : ℕ) (c : RpcClient Message)
    (s : RpcServer Message) (a : ℕ) (sv : RpcChannel Message) (service method : String)
    (ctrl : RpcController) (request : Message) (d : ℕ) (b r : Buffer) (t : Service Message)
    (x response : Message) (sctrl : RpcController) where
  -- The client behind the call.
  abbrev pub calling : RpcClient Message
  calling = record c { channel = call_method c.channel service method ctrl request true (some d) }

  abbrev pub asks : RpcMeta
  asks = question c.channel.id service method

  abbrev pub says : RpcMeta
  says = reply sctrl c.channel.id

  -- A call runs through both ends. The client sends one request. A server without workers, whose
  -- connection's buffer holds the bytes of that request, sends one answer, with what the user's
  -- method made of the request. The client, whose buffer holds the bytes of that answer, runs
  -- the closure of the call once, with that response. Both buffers are empty then. The server must
  -- accept the request, the method run its closure at once, the response parse, each message
  -- have a body of 32 bits, and the fuel be 2 at least.
  pub call-comes_back :
      s.num_workers ≡ 0
      → lookup ◌==◌ a s.contexts ≡ some sv
      → try_request
          (some s.services)
          mem'
          (record { service_name = service; method_name = method })
          (k.message_bytes request)
        ≡ accepted t method x
      → t.call method x (server_controller c.channel.id) ≡ some (sctrl, response)
      → parse (k.message_bytes response) ≡ some response
      → Holds b (wire k (one asks request))
      → Holds r (wire k (one says response))
      → body_length k asks (some request) < 2 ^ 32
      → body_length k says (some response) < 2 ^ 32
      → 1 < fuel
      → (calling.channel.sent ≡ c.channel.sent ++ one asks request)
        × ((sv' : RpcChannel Message) × (b' : Buffer) × (RpcServer.on_recv k mem' parse' fuel s a b
              ≡ ok (some (record s { contexts = assign ◌==◌ a sv' s.contexts }, b', 0)))
            × Holds b' []
            × (sv'.sent ≡ sv.sent ++ one says response))
        × ((c' : RpcClient Message) × (r' : Buffer) × (RpcClient.on_recv k mem parse fuel calling r
              ≡ ok (some (c', r', 0)))
            × Holds r' []
            × (c'.channel.finished
                ≡ c.channel.finished
                  ++ (d, record ctrl { response = true; done = some d }, some response) ∷ []))
  unfolding call_method
  call-comes_back alone found taken ran parsed held held' small small' enough =
      let (b', run, left) =
        on_recv-after k law mem' parse' fuel s a sv b (one asks request) [] alone found (whole held)
          (small, tt) (short (omega arith)) enough in
      let (r', run', left') =
        process_buffer-Delivered k mem parse law fuel (one says response) calling.channel r []
          (whole held') (small', tt) (short (omega arith)) enough in
      (
        refl,
        (
          _,
          b',
          run,
          left,
          ap (λ (h : RpcChannel Message). h.sent)
                (process_messages-one k mem' parse' (with_services s sv) asks request)
              ∙ accepted-sent (with_services s sv) mem' parse' c.channel.id service method
                  (k.message_bytes request) t x response sctrl taken ran,
        ),
        (
          _,
          r',
          on_recv-of k mem parse fuel 0 calling _ r r' run',
          left',
          ap (λ (h : RpcChannel Message). h.finished)
                (process_messages-one k mem parse calling.channel says response)
              ∙ back c.channel sv service method ctrl request d mem mem' parse parse' []
                  (k.message_bytes response) (code_of sctrl) (text_of (code_of sctrl)) response
                  parsed,
        ),
      )
