-- ===== src/Rpc/RpcServer.antt =====
-- examples/rpc/RpcServer.h and examples/rpc/RpcServer.cpp: a server whose connections each have a
-- channel, under the connection's address. A task of its workers is such an address.
pub mod Start
pub mod Answers
mod Tests
use ecron.Prelude.{
  Bool, List, Option, Outcome, String, [], assign, false, fault, if◌then◌else◌, is_zero, lookup,
  ltb, none, ok, some, str_eq, true, ℕ, ◌==◌, ◌>>=◌,
}
use ecron.Buffer.{Buffer}
use ecron.TcpServer
use ecron.TcpServer.{TcpServer, Acceptor, Request, set_io_threads}
use ecron.ThreadPool
use ecron.ThreadPool.{ThreadPool}
use ecron.Rpc.{Codec}
use ecron.Rpc.Calls.{Memory, RpcChannel, RpcMeta, Service}
use ecron.Rpc.Ends.{new_channel, process_buffer}

pub record RpcServer (Message : Type 0) : Type 0 where
  pub server : TcpServer
  pub workers : ThreadPool
  pub num_workers : ℕ
  pub services : List (String × Service Message)
  pub contexts : List (ℕ × RpcChannel Message)

-- Whether the start goes on, and the workers.
unfoldable pub start_workers : ThreadPool → ℕ → Bool × ThreadPool
start_workers workers n_worker =
    if ltb 0 n_worker
    then (let r = ThreadPool.start workers n_worker 100000 in (is_zero r.0, r.1))
    else (true, workers)

module _ {Message : Type 0} where
  unfoldable pub start :
      (make_address : String → Option ℕ) (made : ℕ → ℕ)
      → Acceptor
      → RpcServer Message
      → Option String
      → ℕ
      → ℕ
      → ℕ
      → Bool × RpcServer Message × List Request
  start make_address made x s strip port n_io n_worker =
      let w = start_workers s.workers n_worker in
      let r = TcpServer.start make_address made x (set_io_threads s.server n_io) strip port in
      if w.0
      then (r.0, record s { server = r.1; workers = w.1; num_workers = n_worker }, r.2)
      else (false, record s { workers = w.1; num_workers = n_worker }, [])

  -- Under the service's full name.
  unfoldable pub register_service : RpcServer Message → String → Service Message → RpcServer Message
  register_service s full_name service = record s {
    services = assign str_eq full_name service s.services;
  }

  -- The connection at `a`; `id` is what the memory of the new channel held.
  unfoldable pub on_connection : RpcServer Message → ℕ → Bool → ℕ → RpcServer Message
  on_connection s a connected id =
      if connected
      then record s { contexts = assign ◌==◌ a (new_channel id (some s.services)) s.contexts }
      else s

  -- The channel reads the services of the server through a pointer.
  abbrev pub with_services : RpcServer Message → RpcChannel Message → RpcChannel Message
  with_services s ch = record ch { services = some s.services }

  module _ (k : Codec RpcMeta Message) (mem : Memory) (parse : List ℕ → Option Message) where
    -- The server, the connection's buffer and the number of its calls of close, and no result where
    -- the fuel is used up. A connection without a channel is a bad cast.
    unfoldable pub on_recv :
        ℕ → RpcServer Message → ℕ → Buffer → Outcome (Option (RpcServer Message × Buffer × ℕ))
    on_recv fuel s a buffer = elim (lookup ◌==◌ a s.contexts) [
      | none ↦ fault
      | some ch ↦
          if ltb 0 s.num_workers
          then ok
              (some (record s { workers = (ThreadPool.append s.workers (some a)).1 }, buffer, 0))
          else (do
            next ← process_buffer k mem parse fuel (with_services s ch) buffer
            elim next [
              | none ↦ ok none
              | some r ↦ ok (some (record s { contexts = assign ◌==◌ a r.0 s.contexts }, r.1, r.2))
            ])
    ]
