-- ===== src/TcpConnection/Close.antt =====
-- code/TcpConnection.cpp: what the owner and the user are told of the end of a connection.
use ecron.Prelude.{
  Bool, Bool-cases, Ends, Ends-bind, Ends-map, Ends-ok, List, Option, [], ap, append-nil,
  append_assoc, arith, false, if◌then◌else◌, inl, inr, none, ok, refl, some, sym, true, ℕ, ◌++◌,
  ◌-◌, ◌==◌, ◌∙◌, ◌∷◌, ◌≡◌,
}
use ecron.TcpConnection.{
  Call, Callbacks, Event, TcpConnection, close, close_loop, closed, connection, copy_send,
  handle_close, handle_recv, handle_send, note, notify, peer_shutdown, run_call, run_calls, send,
  send_data, send_loop, send_ptr,
}
use ecron.Buffer
use ecron.Buffer.{Buffer, readable_bytes, write}
use ecron.TcpConnection.Queue.{appended, send_loop-eq}

-- No callback was made, and the pending operations are the same but for a write that starts.
abbrev pub Quiet : TcpConnection → TcpConnection → Type 0
Quiet c c' = (c'.events ≡ c.events) × (c'.recv_buffer ≡ c.recv_buffer) × (c'.reads ≡ c.reads)

Quiet-trans : (c d e : TcpConnection) → Quiet c d → Quiet d e → Quiet c e
Quiet-trans c d e h k = (k.0 ∙ h.0, k.1 ∙ h.1, k.2 ∙ h.2)

send_loop-Quiet : (c : TcpConnection) (b : Buffer) → Ends (Quiet c) (send_loop c b)
send_loop-Quiet c b = rw (send_loop-eq c b c.send_buffer refl) (go c.connected)
  where
    go : (t : Bool) → Quiet c (if t then appended c b else c)
    go true = (refl, refl, refl)
    go false = (refl, refl, refl)

send_ptr-Quiet : (c : TcpConnection) (p : Option Buffer) → Ends (Quiet c) (send_ptr c p)
unfolding send_ptr
send_ptr-Quiet c none = (refl, refl, refl)
send_ptr-Quiet c (some b) = elim (Bool-cases (readable_bytes b == 0)) [
  | inl h ↦ rw h (refl, refl, refl)
  | inr h ↦ rw h (send_loop-Quiet c b)
]

run_call-Quiet : (c : TcpConnection) (x : Call) → Ends (Quiet c) (run_call c x)
unfolding run_call copy_send close_loop
run_call-Quiet c (send_data none n) = (refl, refl, refl)
run_call-Quiet c (send_data (some src) n) = elim (Bool-cases (n == 0)) [
  | inl h ↦ rw h (refl, refl, refl)
  | inr h ↦ rw h (
      Ends-bind (Quiet c) (Buffer.create n) _
        λ b e. Ends-bind (Quiet c) (write b (some src) n) _ λ b' e'. send_ptr-Quiet c (some b'))
]
run_call-Quiet c (send p) = send_ptr-Quiet c p
run_call-Quiet c close = ground arith

pub run_calls-Quiet : (c : TcpConnection) (xs : List Call) → Ends (Quiet c) (run_calls c xs)
unfolding run_calls
run_calls-Quiet c [] = (refl, refl, refl)
run_calls-Quiet c (x ∷ xs) = Ends-bind (Quiet c) (run_call c x) _ λ c' e.
    Ends-map (Quiet c') (Quiet c) (run_calls c' xs)
      (λ d q. Quiet-trans c c' d (Ends-ok (Quiet c) (run_call c x) c' e (run_call-Quiet c x)) q)
      (run_calls-Quiet c' xs)

-- The event of a callback that is set.
abbrev pub made : Option (TcpConnection → List Call) → Event → List Event
made none e = []
made (some f) e = e ∷ []

-- The callbacks that one `handle_close` makes.
abbrev pub told : Callbacks → List Event
told cb = made cb.on_connection (connection false) ++ (if cb.on_close then closed ∷ [] else [])

notify-made :
    (c : TcpConnection) (g : Option (TcpConnection → List Call)) (e : Event)
    → Ends (λ c'. c'.events ≡ c.events ++ made g e) (notify c g e)
unfolding notify
notify-made c none e = sym (append-nil c.events)
notify-made c (some f) e =
    Ends-map (Quiet (note c e)) (λ c'. c'.events ≡ c.events ++ e ∷ []) (run_calls (note c e) (f c))
      (λ c' q. q.0) (run_calls-Quiet (note c e) (f c))

events-peer_shutdown : (c : TcpConnection) → (peer_shutdown c).events ≡ c.events
events-peer_shutdown c = ground arith

closing-told :
    (c d : TcpConnection) (l : List Event) (t : Bool)
    → d.events ≡ c.events ++ l
    → (if t then note d closed else d).events ≡ c.events ++ (l ++ (if t then closed ∷ [] else []))
closing-told c d l true h = ap (λ k. k ++ closed ∷ []) h ∙ append_assoc c.events l (closed ∷ [])
closing-told c d l false h = h ∙ ap (λ k. c.events ++ k) (sym (append-nil l))

module _ (cb : Callbacks) where
  -- When `handle_close` returns, the connection callback and then the close callback were made, each
  -- once if it is set, and nothing else.
  pub handle_close-told :
      (c c' : TcpConnection) → handle_close cb c ≡ ok c' → c'.events ≡ c.events ++ told cb
  unfolding handle_close
  handle_close-told c c' e =
      Ends-ok (λ d. d.events ≡ c.events ++ told cb) (handle_close cb c) c' e
        (Ends-bind (λ d. d.events ≡ c.events ++ told cb)
          (notify (peer_shutdown c) cb.on_connection (connection false)) _
          λ d m. closing-told c d (made cb.on_connection (connection false)) cb.on_close (
            Ends-ok
              (λ k. k.events ≡ (peer_shutdown c).events ++ made cb.on_connection (connection false))
              _ d m (notify-made (peer_shutdown c) cb.on_connection (connection false))
            ∙ ap (λ k. k ++ made cb.on_connection (connection false)) (events-peer_shutdown c)))

  handle_send-failed :
      (c c' : TcpConnection)
      → handle_send cb c true ≡ ok c'
      → (w : List (List ℕ)) × (handle_close cb (record c { writes = w }) ≡ ok c')
  unfolding handle_send
  handle_send-failed c c' e = go c.writes refl
    where
      go :
          (w : List (List ℕ))
          → c.writes ≡ w
          → (p : List (List ℕ)) × (handle_close cb (record c { writes = p }) ≡ ok c')
      go [] q = absurd (ground arith)
      go (x ∷ p) q = (p, ground arith)

  -- Each operation that fails tells the user and the owner of the end of the connection: where a
  -- receive and a write are pending and both fail, they are told twice.
  pub handle_close-twice :
      (c c₁ c₂ : TcpConnection)
      → handle_recv cb c none ≡ ok c₁
      → handle_send cb c₁ true ≡ ok c₂
      → c₂.events ≡ c.events ++ (told cb ++ told cb)
  unfolding handle_recv
  handle_close-twice c c₁ c₂ e₁ e₂ =
      let (w, closing) = handle_send-failed c₁ c₂ e₂ in
      let once = handle_close-told (record c { reads = c.reads - 1 }) c₁ e₁ in
      let again = handle_close-told (record c₁ { writes = w }) c₂ closing in
      again ∙ ap (λ l. l ++ told cb) once ∙ append_assoc c.events (told cb) (told cb)
