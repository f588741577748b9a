-- ===== src/TcpConnection/Tests.antt =====
-- code/TcpConnection.cpp: runs of small connections, and the theorems at them.
use ecron.Prelude.{
  List, Safe, [], arith, false, inl, none, ok, refl, replicate, some, true, ℕ, ◌++◌, ◌∷◌, ◌≡◌,
}
use ecron.TcpConnection.{
  Call, Callbacks, TcpConnection, async_recv, async_send, close, closed, create, handle_close,
  handle_establish, handle_recv, handle_send, notify, notify_recv, recv, run_call, run_calls, send,
  send_data, send_loop, send_next, send_ptr, unread,
}
use ecron.Buffer
use ecron.Buffer.{
  Buffer, ensure_writable, fill, grow, has_written, make_space, overwrite, readable_bytes, resize,
  writable_bytes,
}
use ecron.Buffer.Inv.{writable_bytes-eq}
use ecron.TcpConnection.Queue.{IsSound, front_writes, queued, run_calls-Safe}
use ecron.TcpConnection.Handlers.{IsLawful, handle_recv-Safe, handle_send-Safe}
use ecron.TcpConnection.Flow.{Reach-in_order, called, here, next, sent}
use ecron.TcpConnection.Close.{handle_close-twice, told}
use ecron.TcpConnection.Resend.{handle_send-resends}
use ecron.TcpConnection.Recv.{Delivered, handle_recv-Delivered}

abbrev room_for_4 : Buffer
room_for_4 = record { buff = 0 ∷ 0 ∷ 0 ∷ 0 ∷ []; read_index = 0; write_index = 0 }

abbrev two_bytes : Buffer
two_bytes = record { buff = 5 ∷ 6 ∷ []; read_index = 0; write_index = 2 }

-- A connection that reads, and writes the bytes 5 and 6.
abbrev busy : TcpConnection
busy = record {
  connected = true;
  recv_buffer = room_for_4;
  send_buffer = two_bytes ∷ [];
  shut = false;
  reads = 1;
  writes = (5 ∷ 6 ∷ []) ∷ [];
  accepted = 5 ∷ 6 ∷ [];
  wire = [];
  events = [];
}

-- The owner alone listens.
abbrev owned : Callbacks
owned = record { on_connection = none; on_recv = none; on_send_complete = none; on_close = true }

owned-IsLawful : IsLawful owned
owned-IsLawful = record {
  connecting = λ f e c. cc;
  receiving = λ f e c n v. cc;
  sending = λ f e c. cc;
}

busy-IsSound : IsSound busy
unfolding unread readable_bytes
busy-IsSound = record {
  ordered = inl (record { one_write = refl; in_order = refl });
  receiving = omega arith;
}

handle_send-Safe_example : Safe IsSound (handle_send owned busy false)
unfolding handle_send
handle_send-Safe_example = handle_send-Safe owned owned-IsLawful busy false busy-IsSound (λ e. cc)

handle_recv-Safe_example : Safe IsSound (handle_recv owned busy (some (1 ∷ [])))
handle_recv-Safe_example =
    handle_recv-Safe owned owned-IsLawful busy (some (1 ∷ [])) busy-IsSound
      (λ l e. ground (arith, writable_bytes-eq room_for_4 (omega arith)))

run_calls-Safe_example : Safe IsSound (run_calls busy (send_data (some (7 ∷ [])) 1 ∷ close ∷ []))
run_calls-Safe_example =
    run_calls-Safe busy (send_data (some (7 ∷ [])) 1 ∷ close ∷ []) (omega arith, (tt, tt))
      busy-IsSound

abbrev fresh : TcpConnection
fresh = record {
  connected = false;
  recv_buffer = record { buff = replicate 1024 0; read_index = 0; write_index = 0 };
  send_buffer = [];
  shut = false;
  reads = 0;
  writes = [];
  accepted = [];
  wire = [];
  events = [];
}

abbrev established : TcpConnection
established = record fresh { connected = true; reads = 1 }

abbrev sending : TcpConnection
sending = record established {
  send_buffer = two_bytes ∷ [];
  accepted = 5 ∷ 6 ∷ [];
  writes = (5 ∷ 6 ∷ []) ∷ [];
}

abbrev all_sent : TcpConnection
all_sent = record established { accepted = 5 ∷ 6 ∷ []; wire = 5 ∷ 6 ∷ [] }

-- Two bytes are sent, and their write ends.
Reach-in_order_example :
    (all_sent.wire ++ queued all_sent.send_buffer ≡ all_sent.accepted)
    × ((all_sent.connected ≡ true) → all_sent.writes ≡ front_writes all_sent.send_buffer)
unfolding create Buffer.create handle_establish async_recv ensure_writable writable_bytes notify
    run_call send_ptr send_loop async_send unread readable_bytes handle_send send_next
Reach-in_order_example = Reach-in_order owned fresh established all_sent owned-IsLawful refl refl (
    next {c' = sending} (next here (called (send (some two_bytes)) tt refl))
      (sent false (λ e. cc) refl))

abbrev lost_peer : TcpConnection
lost_peer = record busy { connected = false; shut = true; reads = 0; events = closed ∷ [] }

abbrev lost_twice : TcpConnection
lost_twice = record lost_peer { writes = []; events = closed ∷ closed ∷ [] }

-- The owner is told twice.
handle_close-twice_example : lost_twice.events ≡ [] ++ (told owned ++ told owned)
unfolding handle_recv handle_send handle_close notify
handle_close-twice_example = handle_close-twice owned busy lost_peer lost_twice refl refl

-- An application that sends the next two bytes whenever a write has ended.
abbrev next_chunk : TcpConnection → List Call
next_chunk c = send (some two_bytes) ∷ []

abbrev chunked : Callbacks
chunked = record owned { on_send_complete = some next_chunk }

handle_send-resends_example :
    (c' : TcpConnection) × (handle_send chunked busy false ≡ ok c')
    × (c'.writes ≡ unread two_bytes ∷ unread two_bytes ∷ [])
    × (c'.send_buffer ≡ two_bytes ∷ [])
    × (c'.accepted ≡ 5 ∷ 6 ∷ unread two_bytes)
handle_send-resends_example =
    handle_send-resends chunked next_chunk busy two_bytes two_bytes (5 ∷ 6 ∷ []) refl (λ d. refl)
      refl refl refl (unfold readable_bytes in λ e. cc)

-- A callback that takes all bytes, as the default one of the server does.
abbrev take_all : TcpConnection → ℕ → Buffer × List Call
take_all c n = (record c.recv_buffer { read_index = 0; write_index = 0 }, [])

abbrev discarding : Callbacks
discarding = record owned { on_recv = some take_all }

abbrev received_one : TcpConnection
received_one = record busy {
  recv_buffer = record { buff = 9 ∷ 0 ∷ 0 ∷ 0 ∷ replicate 1020 0; read_index = 0; write_index = 0 };
  events = recv 1 ∷ [];
}

handle_recv-Delivered_example : Delivered take_all busy (9 ∷ []) received_one
unfolding handle_recv fill overwrite has_written writable_bytes notify_recv run_calls async_recv
    ensure_writable make_space grow resize
handle_recv-Delivered_example =
    handle_recv-Delivered discarding take_all busy received_one (9 ∷ []) refl
      (λ d n v. omega (arith, v.small)) (omega arith)
      (omega (arith, writable_bytes-eq room_for_4 (omega arith))) (omega arith) refl
