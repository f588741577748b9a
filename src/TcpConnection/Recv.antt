-- ===== src/TcpConnection/Recv.antt =====
-- code/TcpConnection.cpp: bytes that arrive reach the callback in order.
use ecron.Prelude.{
  Ends, Ends-bind, Ends-map, Ends-ok, List, Safe-ok, [], ap, arith, length, ok, refl, set, some, ℕ,
  ◌++◌, ◌+◌, ◌-◌, ◌<◌, ◌∙◌, ◌∷◌, ◌≡◌, ◌≤◌,
}
use ecron.TcpConnection.{
  Call, Callbacks, TcpConnection, async_recv, handle_recv, note, notify_recv, recv, run_calls,
}
use ecron.Buffer.{Buffer, ensure_writable, has_written, initial_size, writable_bytes}
use ecron.Buffer.Inv.{IsValid, contents}
use ecron.Buffer.Space.{Ready, ensure_writable-Safe}
use ecron.Buffer.Fifo.{Holds, has_written-fill}
use ecron.TcpConnection.Close.{Quiet, run_calls-Quiet}

-- What the receive callback is shown, and what it leaves.
pub record Delivered (f : TcpConnection → ℕ → Buffer × List Call) (c : TcpConnection) (l : List ℕ)
    (c' : TcpConnection) : Type 0 where
  pub shown : TcpConnection
  pub bytes : Holds shown.recv_buffer (contents c.recv_buffer ++ l)
  pub kept : contents c'.recv_buffer ≡ contents (f shown (length l)).0
  pub room : initial_size ≤ writable_bytes c'.recv_buffer
  pub told : c'.events ≡ c.events ++ recv (length l) ∷ []
  pub reading : c'.reads ≡ c.reads

async_recv-Ends :
    (c : TcpConnection)
    → IsValid c.recv_buffer
    → Ends
        (λ d.
          Ready c.recv_buffer initial_size d.recv_buffer
          × (d.events ≡ c.events)
          × (d.reads ≡ c.reads + 1))
        (async_recv c)
unfolding async_recv
async_recv-Ends c v = Ends-bind _ (ensure_writable c.recv_buffer initial_size) _ λ b e. (
  Safe-ok (Ready c.recv_buffer initial_size) _ b e
      (ensure_writable-Safe c.recv_buffer initial_size v (omega arith)),
  refl,
  refl,
)

-- Bytes that arrive are appended to those that the callback left before, the callback is made once
-- with the buffer that holds them all, what it leaves there stays, and the next receive is started,
-- with room for 1024 bytes at least.
pub handle_recv-Delivered :
    (cb : Callbacks) (f : TcpConnection → ℕ → Buffer × List Call) (c c' : TcpConnection)
    (l : List ℕ)
    → cb.on_recv ≡ some f
    → ((d : TcpConnection) (n : ℕ) → IsValid d.recv_buffer → IsValid (f d n).0)
    → IsValid c.recv_buffer
    → length l ≤ writable_bytes c.recv_buffer
    → 0 < c.reads
    → handle_recv cb c (some l) ≡ ok c'
    → Delivered f c l c'
unfolding handle_recv notify_recv
handle_recv-Delivered cb f c c' l set keeps v fits pending e =
    let (b, filled, holds, index, size) = has_written-fill c.recv_buffer l v fits in
    let n : ℕ = length l in
    let shown : TcpConnection = record c { recv_buffer = has_written b n; reads = c.reads - 1 } in
    let valid : IsValid (f shown n).0 = keeps shown n holds.valid in
    let called : TcpConnection = record (note shown (recv n)) { recv_buffer = (f shown n).0 } in
    Ends-ok (Delivered f c l) (handle_recv cb c (some l)) c' e (
      rw (filled, set)
        (Ends-bind (Delivered f c l) (run_calls called (f shown n).1) async_recv λ d m.
          let (events, buffer, reads) =
            Ends-ok (Quiet called) _ d m (run_calls-Quiet called (f shown n).1) in
          Ends-map _ (Delivered f c l) (async_recv d)
            (λ g r. record {
              shown = shown;
              bytes = holds;
              kept = r.0.kept ∙ ap contents buffer;
              room = r.0.room;
              told = r.1 ∙ events;
              reading = omega (arith, r.2, reads);
            })
            (async_recv-Ends d (rw buffer valid))))
