-- ===== src/TcpConnection.antt =====
-- code/TcpConnection.h and code/TcpConnection.cpp: one TCP connection, as its loop's thread runs it.
-- The socket is what the connection has asked of it: the receive and write operations that are
-- pending. A callback of the user is a function that is shown the connection and answers with the
-- calls that it makes on it; in the loop's thread `dispatch` runs such a call at once. A shared Buffer
-- that was handed to `send` is not changed by its other owners any more.
pub mod Queue
pub mod Handlers
pub mod Flow
pub mod Recv
pub mod Close
pub mod Resend
mod Tests
use ecron.Prelude.{
  Bool, List, Option, Outcome, [], drop, false, fault, if◌then◌else◌, length, none, ok, some, take,
  true, ℕ, ◌++◌, ◌+◌, ◌-◌, ◌==◌, ◌>>=◌, ◌∷◌,
}
use ecron.Buffer
use ecron.Buffer.{Buffer, ensure_writable, fill, has_written, initial_size, readable_bytes, write}

-- `unread b` is what async_send hands to the socket: the bytes from `begin_read()` on.
unfoldable pub unread : Buffer → List ℕ
unread b = take (readable_bytes b) (drop b.read_index b.buff)

-- The public calls; `none` is a null pointer.
pub data Call : Type 0 where
  send_data : Option (List ℕ) → ℕ → Call
  send : Option Buffer → Call
  close : Call

-- The callbacks of the user, as they are called.
pub data Event : Type 0 where
  connection : Bool → Event  -- with `connected()` at that time
  recv : ℕ → Event
  send_complete : Event
  closed : Event

-- The last three fields are no members of the class: `accepted` are the bytes that send_loop took,
-- `wire` those of the writes that ended without an error, `events` the callbacks made so far.
pub record TcpConnection : Type 0 where
  pub connected : Bool
  pub recv_buffer : Buffer
  pub send_buffer : List Buffer
  pub shut : Bool  -- `socket_.shutdown` was called
  pub reads : ℕ  -- pending async_receive operations
  pub writes : List (List ℕ)  -- pending async_write operations, oldest first
  pub accepted : List ℕ
  pub wire : List ℕ
  pub events : List Event

-- The callbacks that a server or a client sets; `none` is an empty std::function.
pub record Callbacks : Type 0 where
  pub on_connection : Option (TcpConnection → List Call)
  pub on_recv : Option (TcpConnection → ℕ → Buffer × List Call)
  pub on_send_complete : Option (TcpConnection → List Call)
  pub on_close : Bool  -- set by the server or client that owns the connection

unfoldable pub create : Outcome TcpConnection
create = do
  b ← Buffer.create initial_size
  ok (record {
    connected = false;
    recv_buffer = b;
    send_buffer = [];
    shut = false;
    reads = 0;
    writes = [];
    accepted = [];
    wire = [];
    events = [];
  })

-- `front()` of an empty deque is no access to an element.
unfoldable pub async_send : TcpConnection → Outcome TcpConnection
async_send c = elim c.send_buffer [
  | [] ↦ fault
  | b ∷ rest ↦ ok (record c { writes = c.writes ++ unread b ∷ [] })
]

unfoldable pub async_recv : TcpConnection → Outcome TcpConnection
async_recv c = do
  b ← ensure_writable c.recv_buffer initial_size
  ok (record c { recv_buffer = b; reads = c.reads + 1 })

abbrev pub is_empty : List Buffer → Bool
is_empty [] = true
is_empty (b ∷ bs) = false

abbrev pub push_back : TcpConnection → Buffer → TcpConnection
push_back c b = record c {
  send_buffer = c.send_buffer ++ b ∷ [];
  accepted = c.accepted ++ unread b;
}

unfoldable pub send_loop : TcpConnection → Buffer → Outcome TcpConnection
send_loop c b =
    if c.connected
    then (if is_empty c.send_buffer then async_send (push_back c b) else ok (push_back c b))
    else ok c

unfoldable pub close_loop : TcpConnection → TcpConnection
close_loop c = if c.connected then record c { shut = true; connected = false } else c

unfoldable pub send_ptr : TcpConnection → Option Buffer → Outcome TcpConnection
send_ptr c none = ok c
send_ptr c (some b) = if readable_bytes b == 0 then ok c else send_loop c b

-- `send(data, n)` copies the bytes into a buffer of its own.
unfoldable pub copy_send : TcpConnection → List ℕ → ℕ → Outcome TcpConnection
copy_send c src n = do b ← Buffer.create n; b' ← write b (some src) n; send_ptr c (some b')

-- A call that runs in the loop's thread, with the dispatch that it ends in.
unfoldable pub run_call : TcpConnection → Call → Outcome TcpConnection
run_call c (send_data none n) = ok c
run_call c (send_data (some src) n) = if n == 0 then ok c else copy_send c src n
run_call c (send p) = send_ptr c p
run_call c close = ok (close_loop c)

unfoldable pub run_calls : TcpConnection → List Call → Outcome TcpConnection
run_calls c [] = ok c
run_calls c (x ∷ xs) = do c' ← run_call c x; run_calls c' xs

abbrev pub note : TcpConnection → Event → TcpConnection
note c e = record c { events = c.events ++ e ∷ [] }

unfoldable pub notify :
    TcpConnection → Option (TcpConnection → List Call) → Event → Outcome TcpConnection
notify c none e = ok c
notify c (some f) e = run_calls (note c e) (f c)

-- The calls of the receive callback, which also takes bytes out of the buffer.
unfoldable pub notify_recv :
    TcpConnection → Option (TcpConnection → ℕ → Buffer × List Call) → ℕ → Outcome TcpConnection
notify_recv c none n = ok c
notify_recv c (some f) n =
    run_calls (record (note c (recv n)) { recv_buffer = (f c n).0 }) (f c n).1

abbrev pub peer_shutdown : TcpConnection → TcpConnection
peer_shutdown c = if c.connected then record c { shut = true; connected = false } else c

module _ (cb : Callbacks) where
  unfoldable pub handle_close : TcpConnection → Outcome TcpConnection
  handle_close c = do
    c' ← notify (peer_shutdown c) cb.on_connection (connection false)
    ok (if cb.on_close then note c' closed else c')

  unfoldable pub handle_establish : TcpConnection → Outcome TcpConnection
  handle_establish c = do
    c' ← async_recv (record c { connected = true })
    notify c' cb.on_connection (connection true)

  -- The receive operation ends: with an error, or with bytes that it stored behind `begin_write()`.
  unfoldable pub handle_recv : TcpConnection → Option (List ℕ) → Outcome TcpConnection
  handle_recv c none = handle_close (record c { reads = c.reads - 1 })
  handle_recv c (some bytes) = do
    b ← fill c.recv_buffer bytes
    c' ←
        notify_recv (record c { recv_buffer = has_written b (length bytes); reads = c.reads - 1 })
          cb.on_recv (length bytes)
    async_recv c'

  -- What stands behind `pop_front` in handle_send.
  unfoldable pub send_next : TcpConnection → Outcome TcpConnection
  send_next c = do
    c' ← notify c cb.on_send_complete send_complete
    if is_empty c'.send_buffer then ok c' else async_send c'

  abbrev pop_front : List Buffer → List Buffer
  pop_front [] = []
  pop_front (b ∷ bs) = bs

  -- The oldest write operation ends: with an error, or with all its bytes sent.
  unfoldable pub handle_send : TcpConnection → Bool → Outcome TcpConnection
  handle_send c failed = elim c.writes [
    | [] ↦ fault
    | bytes ∷ pending ↦
        if failed
        then handle_close (record c { writes = pending })
        else send_next (record c {
          writes = pending;
          wire = c.wire ++ bytes;
          send_buffer = pop_front c.send_buffer;
        })
  ]
