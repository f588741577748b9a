-- ===== src/TcpClient/Run.antt =====
-- code/TcpClient.cpp: runs of a client, by what its user, asio and its connection do.
use ecron.Prelude.{
  Bool, List, Option, String, [], false, if◌then◌else◌, length, none, ok, some, true, ℕ, ◌++◌, ◌+◌,
  ◌-◌, ◌<◌, ◌∷◌, ◌≡◌, ◌≢◌,
}
use ecron.TcpConnection.{TcpConnection, Callbacks}
use ecron.TimingWheel
use ecron.TimingWheel.{TimingWheel, contains, erase}
use ecron.TcpClient.{
  Attempt, Request, TcpClient, connect, connect_loop, create, disconnect, disconnect_loop, failure,
  handle_connect, handle_timeout, operation_aborted, remove_conn, success,
}

-- A tick can come to the timer at `a`: it stands in the bucket of its slot.
abbrev pub is_waiting : TimingWheel → ℕ → Bool
is_waiting w a = elim (w.heap a) as (λ t. Bool) [
  | none ↦ false
  | some t ↦ contains (w.wheel t.slot) a
]

abbrev pub waiting_of : TimingWheel → List ℕ → List ℕ
waiting_of w [] = []
waiting_of w (a ∷ rest) = if is_waiting w a then a ∷ waiting_of w rest else waiting_of w rest

-- The client and its loop's wheel; the addresses of the timers which it started for a retry and that
-- still wait; and how many of each are outstanding: connect_loop jobs in the loop's queue,
-- `async_connect` operations, and established connections whose end was not reported.
pub record Session : Type 0 where
  pub client : TcpClient
  pub wheel : TimingWheel
  pub timers : List ℕ
  pub posted : ℕ
  pub attempts : ℕ
  pub established : ℕ

-- The timer that an attempt started, if it did, where `operator new` returned `a`.
abbrev pub armed : Attempt → ℕ → List ℕ
armed success a = []
armed operation_aborted a = []
armed failure a = a ∷ []

abbrev pub won : Attempt → ℕ
won success = 1
won operation_aborted = 0
won failure = 0

module _ (make_address : String → Option ℕ) (cb : Callbacks) where
  -- `disconnect` is called in the loop's thread, and while no connect_loop is in the queue. An
  -- established connection reports its end once. Other users of the wheel leave the timers of the
  -- client alone, and `operator new` returns no null pointer and no address of a timer that is
  -- there.
  pub data Step (s : Session) : Session → Type 0 where
    connecting :
        (ip : Option String) (port interval : ℕ)
        → Step s (record s {
          client = (connect make_address s.client ip port interval).1;
          posted = s.posted + length (connect make_address s.client ip port interval).2;
        })
    starting :
        (r : TcpClient × List Request)
        → 0 < s.posted
        → connect_loop s.client ≡ ok r
        → Step s
            (record s { client = r.0; posted = s.posted - 1; attempts = s.attempts + length r.1 })
    finishing :
        (a : ℕ) (outcome : Attempt) (r : TcpClient × TimingWheel)
        → 0 < s.attempts
        → 0 < a
        → s.wheel.heap a ≡ none
        → handle_connect cb s.client s.wheel a outcome ≡ ok r
        → Step s (record s {
          client = r.0;
          wheel = r.1;
          timers = waiting_of r.1 (armed outcome a ++ s.timers);
          attempts = s.attempts - 1;
          established = s.established + won outcome;
        })
    -- A tick calls the task of the client's timer at `a`, which does not change the wheel, or of
    -- none of them.
    retrying :
        (a : ℕ) (t : TimingWheel × List ℕ) (r : TcpClient × List Request)
        → TimingWheel.handle_timeout s.wheel false ≡ ok t
        → contains s.timers a ≡ true
        → contains t.1 a ≡ true
        → handle_timeout s.client ≡ ok r
        → Step s (record s {
          client = r.0;
          wheel = t.0;
          timers = erase s.timers a;
          attempts = s.attempts + length r.1;
        })
    ticking :
        (t : TimingWheel × List ℕ)
        → TimingWheel.handle_timeout s.wheel false ≡ ok t
        → ((a : ℕ) → contains s.timers a ≡ true → contains t.1 a ≡ false)
        → Step s (record s { wheel = t.0 })
    sharing :
        (w : TimingWheel)
        → ((a : ℕ) → contains s.timers a ≡ true → is_waiting w a ≡ is_waiting s.wheel a)
        → Step s (record s { wheel = w })
    leaving :
        (r : (TcpClient × List Request) × TimingWheel)
        → s.posted ≡ 0
        → disconnect s.client ≢ []
        → disconnect_loop s.client s.wheel ≡ ok r
        → Step s (record s { client = r.0.0; wheel = r.1; timers = waiting_of r.1 s.timers })
    -- A handler of the connection ran.
    working :
        (k : TcpConnection)
        → 0 < s.established
        → Step s (record s { client = record s.client { conn = some k } })
    ending :
        0 < s.established
        → Step s (record s { client = remove_conn s.client; established = s.established - 1 })

  pub data Reach (s : Session) : Session → Type 0 where
    here : Reach s s
    next : {t u : Session} → Reach s t → Step t u → Reach s u

abbrev pub start : TimingWheel → Session
start w = record {
  client = create;
  wheel = w;
  timers = [];
  posted = 0;
  attempts = 0;
  established = 0;
}
