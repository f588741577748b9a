-- ===== src/Rpc/Ends/Served.antt =====
-- examples/rpc/RpcChannel.cpp: a buffer of requests, and what the channel makes of it.
use ecron.Prelude.{List, Option, [], length, none, ok, refl, some, true, ℕ, ◌++◌, ◌<◌, ◌∷◌, ◌≡◌}
use ecron.Buffer.{Buffer}
use ecron.Buffer.Fifo.{Holds}
use ecron.Rpc.{Codec, IsLawful, bytes_of}
use ecron.Rpc.Stream.{Fits, IsPart, messages, process-Delivered, wire}
use ecron.Rpc.Calls.{Memory, RpcChannel, RpcMeta, RpcRequestMeta, process_message}
use ecron.Rpc.Calls.Server.{Handled, process_message-Handled}
use ecron.Rpc.Ends.{process_buffer, process_messages}

-- One message.
abbrev pub one : {Message : Type 0} → RpcMeta → Message → List (RpcMeta × Option Message)
one meta x = (meta, some x) ∷ []

-- Metas of requests.
abbrev pub AreRequests : {Message : Type 0} → List (RpcMeta × Option Message) → Type 0
AreRequests [] = Unit
AreRequests (p ∷ ps) =
    (p.0.response ≡ none) × ((r : RpcRequestMeta) × (p.0.request ≡ some r)) × AreRequests ps

-- Each of the requests was handled, one behind the other.
pub data Served {Message : Type 0}
    : RpcChannel Message → List (RpcMeta × Option Message) → RpcChannel Message → Type 0 where
  all_served : (ch : RpcChannel Message) → Served ch [] ch
  then_served :
      (p : RpcMeta × Option Message) (ps : List (RpcMeta × Option Message))
      (ch ch' ch'' : RpcChannel Message)
      → Handled ch p.0.correlation_id ch'
      → Served ch' ps ch''
      → Served ch (p ∷ ps) ch''

module _ {Message : Type 0} (k : Codec RpcMeta Message) (mem : Memory)
    (parse : List ℕ → Option Message) where
  pub process_messages-Served :
      (ch : RpcChannel Message) (ps : List (RpcMeta × Option Message))
      → AreRequests ps
      → Served ch ps (process_messages k mem parse ch (messages k ps))
  unfolding process_messages messages
  process_messages-Served ch [] rs = all_served ch
  process_messages-Served ch (p ∷ ps) rs =
      let ch' = process_message ch mem parse p.0 (bytes_of k p.1) in
      then_served p ps ch ch' (process_messages k mem parse ch' (messages k ps))
        (process_message-Handled ch mem parse p.0 (bytes_of k p.1) rs.1.0 rs.0 rs.1.1)
        (process_messages-Served ch' ps rs.2)

  pub process_buffer-Delivered :
      IsLawful k
      → (fuel : ℕ) (ps : List (RpcMeta × Option Message)) (ch : RpcChannel Message) (b : Buffer)
        (rest : List ℕ)
      → Holds b (wire k ps ++ rest)
      → Fits k ps
      → IsPart k rest
      → length ps < fuel
      → (b' : Buffer) × (process_buffer k mem parse fuel ch b
          ≡ ok (some (process_messages k mem parse ch (messages k ps), b', 0)))
        × Holds b' rest
  unfolding process_buffer
  process_buffer-Delivered law fuel ps ch b rest holds fits part enough =
      let (b', run, held, lower) =
        process-Delivered k law fuel ps
          (record { buffer = b; connected = true; handled = []; closes = 0 }) rest holds.valid
          holds.bytes fits part enough in
      (b', rw run refl, held)
