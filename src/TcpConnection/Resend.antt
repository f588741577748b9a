-- ===== src/TcpConnection/Resend.antt =====
-- code/TcpConnection.cpp: a callback for completed sends that sends from within the loop's thread.
use ecron.Prelude.{List, [], arith, false, ok, refl, set, some, true, ℕ, ◌++◌, ◌∷◌, ◌≡◌, ◌≢◌}
use ecron.TcpConnection.{
  Call, Callbacks, TcpConnection, async_send, handle_send, notify, run_call, run_calls, send,
  send_complete, send_loop, send_next, send_ptr, unread,
}
use ecron.Buffer.{Buffer, readable_bytes}

-- Where the last queued write ends and the callback sends a buffer at once, the write of that buffer
-- is started twice: by the call itself, which finds the queue empty, and by handle_send after it.
pub handle_send-resends :
    (cb : Callbacks) (f : TcpConnection → List Call) (c : TcpConnection) (x b : Buffer)
    (bytes : List ℕ)
    → cb.on_send_complete ≡ some f
    → ((d : TcpConnection) → f d ≡ send (some b) ∷ [])
    → c.connected ≡ true
    → c.send_buffer ≡ x ∷ []
    → c.writes ≡ bytes ∷ []
    → readable_bytes b ≢ 0
    → (c' : TcpConnection) × (handle_send cb c false ≡ ok c')
      × (c'.writes ≡ unread b ∷ unread b ∷ [])
      × (c'.send_buffer ≡ b ∷ [])
      × (c'.accepted ≡ c.accepted ++ unread b)
unfolding handle_send send_next notify run_calls run_call send_ptr send_loop async_send
handle_send-resends cb f c x b bytes set sends up queue pending some_bytes = (
  after,
  ground (arith, sends (record c { wire = c.wire ++ bytes; writes = []; send_buffer = [] })),
  refl,
  refl,
  refl,
)
  where
    after : TcpConnection
    after = record c {
      wire = c.wire ++ bytes;
      send_buffer = b ∷ [];
      writes = unread b ∷ unread b ∷ [];
      accepted = c.accepted ++ unread b;
      events = c.events ++ send_complete ∷ [];
    }
