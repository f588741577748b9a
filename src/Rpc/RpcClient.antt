-- ===== src/Rpc/RpcClient.antt =====
-- examples/rpc/RpcClient.h and examples/rpc/RpcClient.cpp: a client with one channel, which its
-- connection is given as context each time that it is there.
pub mod Trip
mod Tests
use ecron.Prelude.{
  Bool, List, Option, Outcome, String, [], false, if◌then◌else◌, none, ok, some, ℕ, ◌++◌, ◌>>=◌,
  ◌∷◌,
}
use ecron.Buffer.{Buffer}
use ecron.TcpClient
use ecron.TcpClient.{TcpClient, Request}
use ecron.Rpc.{Codec}
use ecron.Rpc.Calls.{Memory, RpcChannel, RpcMeta, Service}
use ecron.Rpc.Ends.{new_channel, process_buffer}

-- `connection_f` tells whether a callback is set, `told` what is_connected was when it was called.
pub record RpcClient (Message : Type 0) : Type 0 where
  pub client : TcpClient
  pub channel : RpcChannel Message
  pub connection_f : Bool
  pub is_connected : Bool
  pub told : List Bool

module _ {Message : Type 0} where
  -- `id` and `services` are what the memory of the channel held.
  unfoldable pub create : ℕ → Option (List (String × Service Message)) → RpcClient Message
  create id services = record {
    client = TcpClient.create;
    channel = new_channel id services;
    connection_f = false;
    is_connected = false;
    told = [];
  }

  -- With the default interval between its attempts.
  unfoldable pub connect :
      (make_address : String → Option ℕ)
      → RpcClient Message
      → Option String
      → ℕ
      → RpcClient Message × List Request
  connect make_address c strip port =
      let r = TcpClient.connect make_address c.client strip port 10 in
      (record c { client = r.1 }, r.2)

  unfoldable pub disconnect : RpcClient Message → List Request
  disconnect c = TcpClient.disconnect c.client

  unfoldable pub on_connection : RpcClient Message → Bool → RpcClient Message
  on_connection c connected =
      if c.connection_f
      then record c { is_connected = connected; told = c.told ++ connected ∷ [] }
      else record c { is_connected = connected }

  module _ (k : Codec RpcMeta Message) (mem : Memory) (parse : List ℕ → Option Message) where
    unfoldable pub on_recv :
        ℕ → RpcClient Message → Buffer → Outcome (Option (RpcClient Message × Buffer × ℕ))
    on_recv fuel c buffer = do
      next ← process_buffer k mem parse fuel c.channel buffer
      elim next [ none ↦ ok none | some r ↦ ok (some (record c { channel = r.0 }, r.1, r.2)) ]
