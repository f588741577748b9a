-- ===== src/TcpClient.antt =====
-- code/TcpClient.h and code/TcpClient.cpp: one connection to a server, tried again after a while.
-- What a method asks of the loop and of asio is the list of its requests, in order; asio's answer to
-- `async_connect` is the argument of handle_connect. The timers are those of TimingWheel.antt: in
-- the loop's thread a job of the wheel runs at once. The options that init sets are left out.
pub mod Run
pub mod Timers
pub mod Effects
pub mod Single
pub mod Retry
mod Tests
use ecron.Prelude.{
  Bool, List, Option, Outcome, String, [], false, fault, if◌then◌else◌, none, ok, some, true, ℕ,
  ◌%◌, ◌+◌, ◌==◌, ◌>>=◌, ◌^◌, ◌||◌, ◌∷◌,
}
use ecron.TcpConnection
use ecron.TcpConnection.{TcpConnection, Callbacks, close_loop, handle_establish}
use ecron.TimingWheel.{Job, TimerId, TimingWheel, add_timer, del_timer, no_timer, run_job}

pub data Request : Type 0 where
  post_connect_loop : Request
  dispatch_disconnect_loop : Request
  async_connect : ℕ → ℕ → Request
  close_socket : Request

pub record TcpClient : Type 0 where
  pub conn : Option TcpConnection
  pub address : ℕ  -- of `ep_`
  pub port : ℕ
  pub interval : ℕ
  pub timer : TimerId
  pub connecting : Bool
  pub count : ℕ

-- What asio reports: `operation_aborted` once the socket was closed, or another error.
pub data Attempt : Type 0 where
  success : Attempt
  operation_aborted : Attempt
  failure : Attempt

unfoldable pub create : TcpClient
create = record {
  conn = none;
  address = 0;
  port = 0;
  interval = 0;
  timer = no_timer;
  connecting = false;
  count = 1;
}

-- `connecting_.test_and_set()` was false; `make_address` is asio's make_address_v4.
unfoldable pub begin_connect :
    (make_address : String → Option ℕ)
    → TcpClient
    → String
    → ℕ
    → ℕ
    → Bool × TcpClient × List Request
begin_connect make_address c ip port interval = elim (make_address ip) [
  | none ↦ (false, record c { connecting = true }, [])
  | some a ↦ (
    true,
    record c { connecting = true; address = a; port = port; interval = interval },
    post_connect_loop ∷ [],
  )
]

-- `none` is a null pointer.
unfoldable pub connect :
    (make_address : String → Option ℕ)
    → TcpClient
    → Option String
    → ℕ
    → ℕ
    → Bool × TcpClient × List Request
connect make_address c none port interval = (false, c, [])
connect make_address c (some ip) port interval =
    if (port == 0) || ((interval == 0) || c.connecting)
    then (false, c, [])
    else begin_connect make_address c ip port interval

unfoldable pub disconnect : TcpClient → List Request
disconnect c = if c.connecting then dispatch_disconnect_loop ∷ [] else []

unfoldable pub connect_loop : TcpClient → Outcome (TcpClient × List Request)
connect_loop c = do
  k ← TcpConnection.create
  ok (record c { conn = some k }, async_connect c.address c.port ∷ [])

-- `loop_->del_timer(timer_)`
unfoldable pub cancel_timer : TimingWheel → TimerId → Outcome TimingWheel
cancel_timer w tid = elim (del_timer tid) [ none ↦ ok w | some job ↦ run_job w job ]

unfoldable pub drop_conn : TcpClient → TcpClient × List Request
drop_conn c = elim c.conn [
  | none ↦ (record c { connecting = false }, [])
  | some k ↦
      if k.connected then (record c { conn = some (close_loop k) }, []) else (c, close_socket ∷ [])
]

unfoldable pub disconnect_loop :
    TcpClient → TimingWheel → Outcome ((TcpClient × List Request) × TimingWheel)
disconnect_loop c w = do w' ← cancel_timer w c.timer; ok (drop_conn c, w')

-- What `loop_->add_timer` returned; its job runs at once.
unfoldable pub arm :
    TcpClient → TimingWheel × Option Job × TimerId → Outcome (TcpClient × TimingWheel)
arm c (w, none, tid) = ok (record c { conn = none; timer = tid }, w)
arm c (w, some job, tid) = do w' ← run_job w job; ok (record c { conn = none; timer = tid }, w')

-- `operator new` returns `a` for the timer.
unfoldable pub await_retry : TcpClient → TimingWheel → ℕ → Outcome (TcpClient × TimingWheel)
await_retry c w a = arm c (add_timer w a c.interval true false)

-- `uint32_t count_`
unfoldable pub establish : Callbacks → TcpClient → Outcome TcpClient
establish cb c = elim c.conn [
  | none ↦ fault
  | some k ↦ do
    k' ← handle_establish cb k
    ok (record c { conn = some k'; count = (c.count + 1) % 2 ^ 32 })
]

unfoldable pub handle_connect :
    Callbacks → TcpClient → TimingWheel → ℕ → Attempt → Outcome (TcpClient × TimingWheel)
handle_connect cb c w a success = do c' ← establish cb c; ok (c', w)
handle_connect cb c w a operation_aborted = ok (record c { conn = none; connecting = false }, w)
handle_connect cb c w a failure = await_retry c w a

unfoldable pub handle_timeout : TcpClient → Outcome (TcpClient × List Request)
handle_timeout c = connect_loop c

unfoldable pub remove_conn : TcpClient → TcpClient
remove_conn c = record c { conn = none; connecting = false }
