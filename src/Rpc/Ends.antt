-- ===== src/Rpc/Ends.antt =====
-- examples/rpc/RpcChannel.cpp, for its users: process on the buffer of a connection that is there,
-- which hands every message to process_message.
pub mod Served
use ecron.Prelude.{List, Option, Outcome, String, [], none, ok, some, true, ℕ, ◌>>=◌, ◌∷◌}
use ecron.Buffer.{Buffer}
use ecron.Rpc.{Codec, Channel, process}
use ecron.Rpc.Calls.{Memory, RpcChannel, RpcMeta, Service, process_message}

-- A new channel. Its constructor sets no member, so that `id_` is what the memory held.
unfoldable pub new_channel :
    {Message : Type 0} → ℕ → Option (List (String × Service Message)) → RpcChannel Message
new_channel id services = record {
  reqs = [];
  services = services;
  id = id;
  sent = [];
  finished = [];
  waiting = [];
}

module _ {Message : Type 0} (k : Codec RpcMeta Message) (mem : Memory)
    (parse : List ℕ → Option Message) where
  unfoldable pub process_messages :
      RpcChannel Message → List (RpcMeta × List ℕ) → RpcChannel Message
  process_messages ch [] = ch
  process_messages ch (m ∷ ms) = process_messages (process_message ch mem parse m.0 m.1) ms

  -- The channel, the buffer and the number of calls of close; process_message does not look at the
  -- buffer, so that its runs are put behind the loop.
  unfoldable pub process_buffer :
      ℕ → RpcChannel Message → Buffer → Outcome (Option (RpcChannel Message × Buffer × ℕ))
  process_buffer fuel ch buffer = do
    next ← process k fuel (record { buffer = buffer; connected = true; handled = []; closes = 0 })
    elim next [
      | none ↦ ok none
      | some c ↦ ok (some (process_messages ch c.handled, c.buffer, c.closes))
    ]
