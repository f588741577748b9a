-- ===== src/TcpConnection/Handlers.antt =====
-- code/TcpConnection.cpp: each handler keeps the order of the bytes in the send queue.
use ecron.Prelude.{
  Bool, List, Option, Safe, Safe-bind, [], ap, append_assoc, arith, false, if◌then◌else◌, inl, inr,
  length, none, ok, refl, some, sym, true, ℕ, ◌++◌, ◌-◌, ◌∙◌, ◌∷◌, ◌≡◌, ◌≢◌, ◌≤◌,
}
use ecron.TcpConnection.{
  Call, Callbacks, Event, TcpConnection, async_recv, async_send, close, close_loop, closed,
  connection, handle_close, handle_establish, handle_recv, handle_send, is_empty, note, notify,
  notify_recv, peer_shutdown, run_call, run_calls, send_complete, send_next, unread,
}
use ecron.Buffer.{Buffer, ensure_writable, has_written, initial_size, writable_bytes}
use ecron.Buffer.Inv.{IsValid}
use ecron.Buffer.Space.{Ready, ensure_writable-Safe}
use ecron.Buffer.Fifo.{has_written-fill}
use ecron.TcpConnection.Queue.{
  AllCallable, IsFlowing, IsOrdered, IsSound, front_writes, queued, run_calls-Safe,
}

-- Calls that send nothing.
abbrev pub OnlyClose : List Call → Type 0
OnlyClose [] = Unit {0}
OnlyClose (x ∷ xs) = (x ≡ close) × OnlyClose xs

-- What the callbacks must keep to. The one for completed sends makes no call of `send` from within
-- the loop's thread.
pub record IsLawful (cb : Callbacks) : Type 0 where
  pub connecting :
      (f : TcpConnection → List Call)
      → cb.on_connection ≡ some f
      → (c : TcpConnection) → AllCallable (f c)
  pub receiving :
      (f : TcpConnection → ℕ → Buffer × List Call)
      → cb.on_recv ≡ some f
      → (c : TcpConnection) (n : ℕ) → IsValid c.recv_buffer
      → IsValid (f c n).0 × AllCallable (f c n).1
  pub sending :
      (f : TcpConnection → List Call)
      → cb.on_send_complete ≡ some f
      → (c : TcpConnection) → OnlyClose (f c)

note-IsSound : (c : TcpConnection) (e : Event) → IsSound c → IsSound (note c e)
note-IsSound c e i = ground arith

notify-Safe :
    (c : TcpConnection) (g : Option (TcpConnection → List Call)) (e : Event)
    → ((f : TcpConnection → List Call) → g ≡ some f → AllCallable (f c))
    → IsSound c
    → Safe IsSound (notify c g e)
unfolding notify
notify-Safe c none e k i = i
notify-Safe c (some f) e k i = run_calls-Safe (note c e) (f c) (k f refl) (note-IsSound c e i)

-- The queue while the callback for a completed send runs.
record IsDrained (c : TcpConnection) : Type 0 where
  no_write : c.writes ≡ []
  in_order : c.wire ++ queued c.send_buffer ≡ c.accepted
  receiving : IsValid c.recv_buffer

run_close-IsDrained :
    (c : TcpConnection) (xs : List Call)
    → OnlyClose xs
    → IsDrained c
    → Safe IsDrained (run_calls c xs)
unfolding run_calls run_call close_loop
run_close-IsDrained c [] k i = i
run_close-IsDrained c (x ∷ xs) k i =
    rw k.0 (run_close-IsDrained (close_loop c) xs k.1 (ground arith))

notify_sent-Safe :
    (c : TcpConnection) (g : Option (TcpConnection → List Call))
    → ((f : TcpConnection → List Call) → g ≡ some f → OnlyClose (f c))
    → IsDrained c
    → Safe IsDrained (notify c g send_complete)
unfolding notify
notify_sent-Safe c none k i = i
notify_sent-Safe c (some f) k i =
    run_close-IsDrained (note c send_complete) (f c) (k f refl) (ground arith)

again :
    (c : TcpConnection) (bs : List Buffer)
    → c.send_buffer ≡ bs
    → IsDrained c
    → c.wire ++ queued bs ≡ c.accepted
again c bs e i = sym (ap (λ q. c.wire ++ queued q) e) ∙ i.in_order

-- The next write starts if something is queued.
restart-Safe :
    (c : TcpConnection) (bs : List Buffer)
    → c.send_buffer ≡ bs
    → IsDrained c
    → Safe IsSound (if is_empty c.send_buffer then ok c else async_send c)
unfolding async_send
restart-Safe c [] e i = rw e (record {
  ordered = inl (record { one_write = i.no_write; in_order = again c [] e i });
  receiving = i.receiving;
})
restart-Safe c (b ∷ bs) e i = rw e (record {
  ordered = inl (record { one_write = rw i.no_write; in_order = again c (b ∷ bs) e i });
  receiving = i.receiving;
})

module _ (cb : Callbacks) (lawful : IsLawful cb) where
  send_next-Safe : (c : TcpConnection) → IsDrained c → Safe IsSound (send_next cb c)
  unfolding send_next
  send_next-Safe c i =
      Safe-bind IsDrained IsSound (notify c cb.on_send_complete send_complete) _
        (notify_sent-Safe c cb.on_send_complete (λ f e. lawful.sending f e c) i)
        λ c' i'. restart-Safe c' c'.send_buffer refl i'

  close-IsSound :
      (c : TcpConnection) (t : Bool) → IsSound c → IsSound (if t then note c closed else c)
  close-IsSound c true i = note-IsSound c closed i
  close-IsSound c false i = i

  handle_close-Safe :
      (c : TcpConnection) → IsSound (peer_shutdown c) → Safe IsSound (handle_close cb c)
  unfolding handle_close
  handle_close-Safe c i =
      Safe-bind IsSound IsSound (notify (peer_shutdown c) cb.on_connection (connection false)) _
        (notify-Safe (peer_shutdown c) cb.on_connection (connection false)
          (λ f e. lawful.connecting f e (peer_shutdown c)) i)
        λ c' i'. close-IsSound c' cb.on_close i'

  sent-eq :
      (c : TcpConnection) (b : Buffer) (bs : List Buffer)
      → c.writes ≡ unread b ∷ []
      → c.send_buffer ≡ b ∷ bs
      → handle_send cb c false
        ≡ send_next cb (record c { writes = []; wire = c.wire ++ unread b; send_buffer = bs })
  unfolding handle_send
  sent-eq c b bs w e = ground arith

  failed-eq :
      (c : TcpConnection) (bytes : List ℕ)
      → c.writes ≡ bytes ∷ []
      → handle_send cb c true ≡ handle_close cb (record c { writes = [] })
  unfolding handle_send
  failed-eq c bytes w = ground arith

  -- The end of the pending write, well or not: the bytes sent stay those accepted, in order, and
  -- the next buffer's write is started once.
  pub handle_send-Safe :
      (c : TcpConnection) (failed : Bool)
      → IsSound c
      → c.writes ≢ []
      → Safe IsSound (handle_send cb c failed)
  handle_send-Safe c failed i some_write = go failed c.send_buffer refl i.ordered
    where
      go :
          (t : Bool) (bs : List Buffer)
          → c.send_buffer ≡ bs
          → IsOrdered c
          → Safe IsSound (handle_send cb c t)
      go t bs e (inr broken) = absurd (some_write broken.no_write)
      go t [] e (inl flowing) = absurd (some_write (flowing.one_write ∙ ap front_writes e))
      go false (b ∷ bs) e (inl flowing) =
          rw (sent-eq c b bs (flowing.one_write ∙ ap front_writes e) e) (
            send_next-Safe _ (record {
              no_write = refl;
              in_order =
                  append_assoc c.wire (unread b) (queued bs)
                  ∙ sym (ap (λ q. c.wire ++ queued q) e)
                  ∙ flowing.in_order;
              receiving = i.receiving;
            }))
      go true (b ∷ bs) e (inl flowing) =
          rw (failed-eq c (unread b) (flowing.one_write ∙ ap front_writes e)) (
            handle_close-Safe (record c { writes = [] })
              (record {
                ordered = inr (record {
                  no_write = ground arith;
                  left = ground arith;
                  in_order = ground (arith, flowing.in_order);
                });
                receiving = ground (arith, i.receiving);
              }))

  recv-Safe : (c : TcpConnection) (n : ℕ) → IsSound c → Safe IsSound (notify_recv c cb.on_recv n)
  unfolding notify_recv
  recv-Safe c n i = go cb.on_recv refl
    where
      go :
          (g : Option (TcpConnection → ℕ → Buffer × List Call))
          → cb.on_recv ≡ g
          → Safe IsSound (notify_recv c g n)
      go none e = i
      go (some f) e =
          let (valid, callable) = lawful.receiving f e c n i.receiving in
          run_calls-Safe _ (f c n).1 callable
            (record { ordered = ground (arith, i.ordered); receiving = valid })

  async_recv-Safe : (c : TcpConnection) → IsSound c → Safe IsSound (async_recv c)
  unfolding async_recv
  async_recv-Safe c i =
      Safe-bind (Ready c.recv_buffer initial_size) IsSound
        (ensure_writable c.recv_buffer initial_size) _
        (ensure_writable-Safe c.recv_buffer initial_size i.receiving (omega arith))
        λ b v. record { ordered = ground (arith, i.ordered); receiving = v.valid }

  -- The end of a receive operation, well or not.
  pub handle_recv-Safe :
      (c : TcpConnection) (bytes : Option (List ℕ))
      → IsSound c
      → ((l : List ℕ) → bytes ≡ some l → length l ≤ writable_bytes c.recv_buffer)
      → Safe IsSound (handle_recv cb c bytes)
  unfolding handle_recv
  handle_recv-Safe c none i h =
      handle_close-Safe _
        (record { ordered = ground (arith, i.ordered); receiving = ground (arith, i.receiving) })
  handle_recv-Safe c (some l) i h =
      let (b, filled, holds, index, size) =
        has_written-fill c.recv_buffer l i.receiving (h l refl) in
      rw filled (
        Safe-bind IsSound IsSound
          (notify_recv (record c { recv_buffer = has_written b (length l); reads = c.reads - 1 })
            cb.on_recv (length l))
          _
          (recv-Safe _ (length l)
            (record { ordered = ground (arith, i.ordered); receiving = holds.valid }))
          async_recv-Safe)

  pub handle_establish-Safe :
      (c : TcpConnection)
      → IsFlowing c
      → IsValid c.recv_buffer
      → Safe IsSound (handle_establish cb c)
  unfolding handle_establish
  handle_establish-Safe c i v =
      Safe-bind IsSound IsSound (async_recv (record c { connected = true })) _
        (async_recv-Safe _ (record { ordered = inl (ground (arith, i)); receiving = v }))
        λ c' i'.
          notify-Safe c' cb.on_connection (connection true) (λ f e. lawful.connecting f e c') i'
