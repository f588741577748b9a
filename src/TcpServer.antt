-- ===== src/TcpServer.antt =====
-- code/TcpServer.h and code/TcpServer.cpp: a server that accepts connections. A connection is what
-- the server knows of it: its address, the number in its name, and the loop that it was given. What
-- asio reports is an argument, as is the address of a new connection.
pub mod Run
pub mod Count
mod Tests
use ecron.Prelude.{
  Bool, List, Option, Outcome, String, [], false, if◌then◌else◌, none, not, ok, some, true, ℕ, ◌%◌,
  ◌++◌, ◌+◌, ◌-◌, ◌==◌, ◌>>=◌, ◌^◌, ◌||◌, ◌∷◌,
}
use ecron.EventLoopPool
use ecron.EventLoopPool.{EventLoopPool, get_nextloop, set_threads}
use ecron.TimingWheel.{erase, insert}

pub record Conn : Type 0 where
  pub address : ℕ
  pub number : ℕ
  pub loop : ℕ

-- `acceptor_` is open or not; `connections_` holds addresses.
pub record TcpServer : Type 0 where
  pub loop : ℕ
  pub is_open : Bool
  pub ipport : Option (String × ℕ)
  pub connections : List ℕ
  pub pool : EventLoopPool
  pub count : ℕ

-- What the server asks of a loop, of asio and of a connection.
pub data Request : Type 0 where
  post_accept_loop : Request
  async_accept : Conn → Request
  establish : Conn → Request  -- handle_establish, in the connection's loop
  close : ℕ → Request

unfoldable pub create : ℕ → TcpServer
create loop = record {
  loop = loop;
  is_open = false;
  ipport = none;
  connections = [];
  pool = EventLoopPool.create loop;
  count = 0;
}

unfoldable pub set_io_threads : TcpServer → ℕ → TcpServer
set_io_threads s n = record s { pool = set_threads s.pool n }

-- Which of the acceptor's calls succeed, each under the name of its method.
pub record Acceptor : Type 0 where
  pub opens : Bool
  pub reuse_address : Bool
  pub enable_connection_aborted : Bool
  pub binds : Bool
  pub listens : Bool

-- The calls on the acceptor, up to the first that fails: whether none does, and whether it is open.
unfoldable pub listen : Acceptor → Bool × Bool
listen x =
    if not x.opens
    then (false, false)
    else if not x.reuse_address
    then (false, true)
    else if not x.enable_connection_aborted
    then (false, true)
    else if not x.binds
    then (false, true)
    else if not x.listens
    then (false, true)
    else (true, true)

-- `made` gives the address of each new EventLoop.
abbrev pub listening : (made : ℕ → ℕ) → TcpServer → String → ℕ → TcpServer
listening made s ip port = record s {
  is_open = true;
  pool = EventLoopPool.start made s.pool;
  ipport = some (ip, port);
}

unfoldable pub start :
    (make_address : String → Option ℕ) (made : ℕ → ℕ)
    → Acceptor
    → TcpServer
    → Option String
    → ℕ
    → Bool × TcpServer × List Request
start make_address made x s none port = (false, s, [])
start make_address made x s (some ip) port =
    if port == 0 then (false, s, []) else elim (make_address ip) [
      | none ↦ (false, s, [])
      | some a ↦
          if (listen x).0
          then (true, listening made s ip port, post_accept_loop ∷ [])
          else (false, record s { is_open = s.is_open || (listen x).1 }, [])
    ]

abbrev pub close_all : List ℕ → List Request
close_all [] = []
close_all (a ∷ rest) = close a ∷ close_all rest

unfoldable pub stop : TcpServer → TcpServer × List Request
stop s = (record s { pool = EventLoopPool.stop s.pool; is_open = false }, close_all s.connections)

-- `uint32_t count_`
abbrev pub incremented : ℕ → ℕ
incremented n = (n + 1) % 2 ^ 32

abbrev pub decremented : ℕ → ℕ
decremented n = if n == 0 then 2 ^ 32 - 1 else n - 1

-- The connection `a` waits for a peer.
unfoldable pub accept_loop : TcpServer → ℕ → Outcome (TcpServer × Conn)
accept_loop s a = do
  r ← get_nextloop s.pool
  ok (
    record s { count = incremented s.count; pool = r.1 },
    record { address = a; number = incremented s.count; loop = r.0 },
  )

pub data Accepted : Type 0 where
  peer : Accepted
  operation_aborted : Accepted
  failure : Accepted

-- accept_loop at the end of handle_accept, behind the requests made so far.
unfoldable pub accept_again : TcpServer → ℕ → List Request → Outcome (TcpServer × List Request)
accept_again s a asked = do r ← accept_loop s a; ok (r.0, asked ++ async_accept r.1 ∷ [])

unfoldable pub handle_accept : TcpServer → Conn → Accepted → ℕ → Outcome (TcpServer × List Request)
handle_accept s conn peer a =
    accept_again (record s { connections = insert s.connections conn.address }) a
      (establish conn ∷ [])
handle_accept s conn operation_aborted a = ok (record s { count = decremented s.count }, [])
handle_accept s conn failure a = accept_again (record s { count = decremented s.count }) a []

-- remove_conn dispatches it to the server's loop.
unfoldable pub remove_conn_loop : TcpServer → ℕ → TcpServer
remove_conn_loop s a = record s { connections = erase s.connections a }
