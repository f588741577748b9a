-- ===== src/TcpClient/Effects.antt =====
-- code/TcpClient.cpp: what each operation does to the connection, the flag and the timer.
use ecron.Prelude.{
  Bool, Ends, Ends-bind, Ends-ok, List, Option, String, arith, false, length, none, refl, some,
  true, ℕ, ◌+◌, ◌<◌, ◌≡◌, ◌≤◌,
}
use ecron.TcpConnection
use ecron.TcpConnection.{TcpConnection, Callbacks, handle_establish, close_loop}
use ecron.TimingWheel.{Job, TimerId, TimingWheel, add_timer, run_job}
use ecron.TcpClient.{
  Attempt, Request, TcpClient, arm, await_retry, begin_connect, cancel_timer, connect, connect_loop,
  disconnect_loop, drop_conn, establish, failure, handle_connect, operation_aborted, success,
}
use ecron.TcpClient.Run.{armed, is_waiting, waiting_of}
use ecron.TcpClient.Timers.{AreAt, await_retry-Ends, cancel_timer-Ends}
use Prim.{tt}

abbrev pub flag : Bool → ℕ
flag true = 1
flag false = 0

abbrev pub present : {A : Type 0} → Option A → ℕ
present none = 0
present (some k) = 1

-- A connect_loop that returns made a connection and asked for one operation.
pub connect_loop-Ends :
    (c : TcpClient)
    → Ends
        (λ r.
          (present r.0.conn ≡ 1)
          × (r.0.connecting ≡ c.connecting)
          × (length r.1 ≡ 1)
          × (r.0.timer ≡ c.timer))
        (connect_loop c)
unfolding connect_loop
connect_loop-Ends c = Ends-bind _ TcpConnection.create _ (λ k e. (refl, refl, refl, refl))

pub connect-flag :
    (make_address : String → Option ℕ) (c : TcpClient) (ip : Option String) (port interval : ℕ)
    → ((connect make_address c ip port interval).1.conn ≡ c.conn)
      × ((connect make_address c ip port interval).1.timer ≡ c.timer)
      × (length (connect make_address c ip port interval).2 + flag c.connecting
          ≤ flag (connect make_address c ip port interval).1.connecting)
unfolding connect begin_connect
connect-flag make_address c none port interval = (refl, refl, omega arith)
connect-flag make_address c (some ip) port interval = (ground arith, ground arith, ground arith)

-- Of what an attempt that ended left.
abbrev pub Finished : TcpClient → Attempt → TcpClient → Type 0
Finished c success d = (present d.conn ≡ 1) × (d.connecting ≡ c.connecting)
Finished c operation_aborted d = (present d.conn ≡ 0) × (d.connecting ≡ false)
Finished c failure d = (present d.conn ≡ 0) × (d.connecting ≡ c.connecting)

establish-Ends :
    (cb : Callbacks) (c : TcpClient) (m : Option TcpConnection)
    → c.conn ≡ m
    → Ends (Finished c success) (establish cb c)
unfolding establish
establish-Ends cb c none e = rw e tt
establish-Ends cb c (some k) e =
    rw e (Ends-bind _ (handle_establish cb k) _ (λ k' e'. (refl, refl)))

arm-Ends :
    (c : TcpClient) (x : TimingWheel × Option Job × TimerId)
    → Ends (λ r. Finished c failure r.0) (arm c x)
unfolding arm
arm-Ends c (w, none, tid) = (refl, refl)
arm-Ends c (w, some job, tid) = Ends-bind _ (run_job w job) _ (λ w' e. (refl, refl))

pub handle_connect-Ends :
    (cb : Callbacks) (c : TcpClient) (w : TimingWheel) (a : ℕ) (outcome : Attempt)
    → Ends (λ r. Finished c outcome r.0) (handle_connect cb c w a outcome)
unfolding handle_connect await_retry
handle_connect-Ends cb c w a success =
    Ends-bind _ (establish cb c) _
      (λ d e. Ends-ok _ (establish cb c) d e (establish-Ends cb c c.conn refl))
handle_connect-Ends cb c w a operation_aborted = (refl, refl)
handle_connect-Ends cb c w a failure = arm-Ends c (add_timer w a c.interval true false)

pub flag-bound : (b : Bool) → flag b ≤ 1
flag-bound true = omega arith
flag-bound false = omega arith

pub handle_connect-Remembers :
    (cb : Callbacks) (c : TcpClient) (w : TimingWheel) (a : ℕ) (outcome : Attempt)
    → 0 < a
    → w.heap a ≡ none
    → Ends
        (λ r. AreAt r.0.timer.timer (waiting_of r.1 (armed outcome a)))
        (handle_connect cb c w a outcome)
unfolding handle_connect
handle_connect-Remembers cb c w a success h fresh = Ends-bind _ (establish cb c) _ (λ d e. tt)
handle_connect-Remembers cb c w a operation_aborted h fresh = tt
handle_connect-Remembers cb c w a failure h fresh = await_retry-Ends c w a h fresh

pub drop_conn-flag :
    (c : TcpClient) (m : Option TcpConnection)
    → c.conn ≡ m
    → (present (drop_conn c).0.conn ≡ present m)
      × ((drop_conn c).0.timer ≡ c.timer)
      × (present m ≤ 1)
      × (present m + flag c.connecting ≤ 1 + flag (drop_conn c).0.connecting)
unfolding drop_conn
drop_conn-flag c none e = rw e (refl, refl, omega arith, omega (arith, flag-bound c.connecting))
drop_conn-flag c (some k) e = ground (arith, e)

-- What the jobs of a disconnect leave.
abbrev pub Dropped : TcpClient → (TcpClient × List Request) × TimingWheel → Type 0
Dropped c r = (r.0 ≡ drop_conn c) × (0 < c.timer.timer → is_waiting r.1 c.timer.timer ≡ false)

pub disconnect_loop-Ends :
    (c : TcpClient) (w : TimingWheel) → Ends (Dropped c) (disconnect_loop c w)
unfolding disconnect_loop
disconnect_loop-Ends c w =
    Ends-bind (Dropped c) (cancel_timer w c.timer) _
      (λ w' e. (refl, Ends-ok _ (cancel_timer w c.timer) w' e (cancel_timer-Ends w c.timer)))
