-- ===== src/TcpClient/Tests.antt =====
-- code/TcpClient.cpp: a client that fails once, and the theorems at it.
use ecron.Prelude.{fault, Option, String, [], arith, none, refl, some, true, false, ℕ, ◌∷◌, ◌≡◌}
use ecron.Buffer
use ecron.Buffer.Inv.{fresh}
use ecron.TcpConnection
use ecron.TcpConnection.{Callbacks, TcpConnection}
use ecron.TimingWheel
use ecron.TimingWheel.{
  Timer, TimingWheel, place, stepped, add_timer, add_timer_loop, contains, enter, erase, insert,
  new_timer, run_job, start, visit, visit_one,
}
use ecron.TimingWheel.Inv.{create-IsSound}
use ecron.TimingWheel.Run.{done, tick}
use ecron.TimingWheel.Fires.{Silent}
use ecron.TcpClient
use ecron.TcpClient.{
  TcpClient, arm, async_connect, await_retry, begin_connect, connect, connect_loop, disconnect_loop,
  failure, handle_connect, post_connect_loop,
}
use ecron.TcpClient.Single.{IsSingle, Reach-IsSingle}
use ecron.TcpClient.Run.{Session, connecting, finishing, here, next, starting}
use ecron.TcpClient.Retry.{disconnect-after_retry}

-- Any text is the address 1.
abbrev make_address : String → Option ℕ
make_address s = some 1

abbrev unheard : Callbacks
unheard = record { on_connection = none; on_recv = none; on_send_complete = none; on_close = true }

abbrev wanting : TcpClient
wanting = record {
  conn = none;
  address = 1;
  port = 80;
  interval = 2;
  timer = record { timer = 0; seq = 0 };
  connecting = true;
  count = 1;
}

connect_example :
    connect make_address TcpClient.create (some "a") 80 2 ≡ (true, wanting, post_connect_loop ∷ [])
unfolding connect begin_connect TcpClient.create
connect_example = refl

-- Connected, tried, failed, and waiting for the retry.
abbrev waiting : TcpClient
waiting = record wanting { timer = record { timer = 7; seq = 0 } }

-- The timer of the retry, and the wheel that it was entered into.
abbrev retry_timer : Timer
retry_timer = record { interval = 2; task = true; repeat = false; rotation = 0; slot = 0; seq = 0 }

abbrev armed_wheel : TimingWheel
armed_wheel = enter (new_timer (TimingWheel.create 0) 7 2 false) 7 retry_timer

abbrev attempt_failed : Session
attempt_failed = record {
  client = waiting;
  wheel = armed_wheel;
  timers = 7 ∷ [];
  posted = 0;
  attempts = 0;
  established = 0;
}

Reach-IsSingle_example : IsSingle attempt_failed
unfolding connect begin_connect TcpClient.create connect_loop TcpConnection.create Buffer.create
    handle_connect await_retry arm add_timer new_timer run_job add_timer_loop enter insert
    TimingWheel.create
Reach-IsSingle_example =
    Reach-IsSingle {make_address = make_address} {cb = unheard} (TimingWheel.create 0) (
      next (next (next here (connecting (some "a") 80 2)) (starting _ (omega arith) refl))
        (finishing 7 failure _ (omega arith) (omega arith) refl refl))

-- What the tick leaves that calls the timer.
abbrev fired_wheel : TimingWheel
fired_wheel =
    (visit_one (stepped (stepped armed_wheel)) 7 (place (TimingWheel.create 0) retry_timer)).0

abbrev again : TcpClient
again = record waiting {
  conn = some (record {
    connected = false;
    recv_buffer = fresh;
    send_buffer = [];
    shut = false;
    reads = 0;
    writes = [];
    accepted = [];
    wire = [];
    events = [];
  });
}

disconnect-after_retry_example :
    Silent 7 ([] ∷ []) × (contains (7 ∷ []) 7 ≡ true) × (disconnect_loop again fired_wheel ≡ fault)
unfolding connect_loop TcpConnection.create Buffer.create handle_connect await_retry arm add_timer
    new_timer run_job add_timer_loop enter insert TimingWheel.create TimingWheel.handle_timeout
    start visit visit_one erase TcpClient.handle_timeout
disconnect-after_retry_example =
    disconnect-after_retry unheard wanting waiting again (TimingWheel.create 0) armed_wheel _
      fired_wheel 7 ([] ∷ []) (7 ∷ []) _ (create-IsSound 0) refl (omega arith) (omega arith)
      (omega arith) refl (tick [] refl done) refl refl refl
