-- ===== src/TcpConnection/Queue.antt =====
-- code/TcpConnection.cpp: the send queue, through the calls of a user.
use ecron.Prelude.{
  Bool, Bool-cases, List, Option, Safe, Safe-bind, [], ap, append-nil, append_assoc, arith, false,
  if◌then◌else◌, inl, inr, length, length-replicate, length_error, ltb, none, ok, refl, replicate,
  some, sym, true, ℕ, ◌++◌, ◌==◌, ◌∙◌, ◌∷◌, ◌≡◌, ◌≤◌, ◌⊎◌,
}
use ecron.Buffer
use ecron.Buffer.{Buffer, create, max_size, readable_bytes}
use ecron.Buffer.Inv.{IsValid}
use ecron.Buffer.Fifo.{write-Holds}
use ecron.TcpConnection.{
  Call, TcpConnection, async_send, close, close_loop, copy_send, is_empty, push_back, run_call,
  run_calls, send, send_data, send_loop, send_ptr, unread,
}

-- The unread bytes of the queued buffers, one after the other.
abbrev pub queued : List Buffer → List ℕ
queued [] = []
queued (b ∷ bs) = unread b ++ queued bs

-- One write is pending for the front buffer, and none if the queue is empty.
abbrev pub front_writes : List Buffer → List (List ℕ)
front_writes [] = []
front_writes (b ∷ bs) = unread b ∷ []

-- While no write has failed.
pub record IsFlowing (c : TcpConnection) : Type 0 where
  pub one_write : c.writes ≡ front_writes c.send_buffer
  pub in_order : c.wire ++ queued c.send_buffer ≡ c.accepted

-- After a failed write: nothing is pending, and nothing more is accepted.
pub record IsBroken (c : TcpConnection) : Type 0 where
  pub no_write : c.writes ≡ []
  pub left : c.connected ≡ false
  pub in_order : c.wire ++ queued c.send_buffer ≡ c.accepted

abbrev pub IsOrdered : TcpConnection → Type 0
IsOrdered c = IsFlowing c ⊎ IsBroken c

-- Both buffers of a connection, and that what left stays left.
pub record IsSound (c : TcpConnection) : Type 0 where
  pub ordered : IsOrdered c
  pub receiving : IsValid c.recv_buffer

queued-push : (bs : List Buffer) (b : Buffer) → queued (bs ++ b ∷ []) ≡ queued bs ++ unread b
queued-push [] b = append-nil (unread b)
queued-push (x ∷ bs) b =
    rw (queued-push bs b) (sym (append_assoc (unread x) (queued bs) (unread b)))

-- What send_loop makes of a connected connection.
abbrev pub appended : TcpConnection → Buffer → TcpConnection
appended c b = record (push_back c b) {
  writes = if is_empty c.send_buffer then c.writes ++ unread b ∷ [] else c.writes;
}

pub send_loop-eq :
    (c : TcpConnection) (b : Buffer) (bs : List Buffer)
    → c.send_buffer ≡ bs
    → send_loop c b ≡ ok (if c.connected then appended c b else c)
unfolding send_loop async_send
send_loop-eq c b [] e = ground arith
send_loop-eq c b (x ∷ bs) e = ground arith

appended-IsFlowing :
    (c : TcpConnection) (b : Buffer) (bs : List Buffer)
    → c.send_buffer ≡ bs
    → IsFlowing c
    → IsFlowing (appended c b)
appended-IsFlowing c b bs e i = record {
  one_write = one bs e;
  in_order = rw (queued-push c.send_buffer b) (
      sym (append_assoc c.wire (queued c.send_buffer) (unread b))
      ∙ ap (λ l. l ++ unread b) i.in_order);
}
  where
    one :
        (q : List Buffer)
        → c.send_buffer ≡ q
        → (appended c b).writes ≡ front_writes (c.send_buffer ++ b ∷ [])
    one [] h = ground (arith, i.one_write)
    one (x ∷ q) h = ground (arith, i.one_write)

pub send_loop-Safe : (c : TcpConnection) (b : Buffer) → IsSound c → Safe IsSound (send_loop c b)
send_loop-Safe c b i = rw (send_loop-eq c b c.send_buffer refl) (go c.connected refl i.ordered)
  where
    go : (t : Bool) → c.connected ≡ t → IsOrdered c → IsSound (if t then appended c b else c)
    go true h (inl flowing) = record {
      ordered = inl (appended-IsFlowing c b c.send_buffer refl flowing);
      receiving = i.receiving;
    }
    go true h (inr broken) = absurd (ground (arith, broken.left))
    go false h o = i

pub send_ptr-Safe :
    (c : TcpConnection) (p : Option Buffer) → IsSound c → Safe IsSound (send_ptr c p)
unfolding send_ptr
send_ptr-Safe c none i = i
send_ptr-Safe c (some b) i = elim (Bool-cases (readable_bytes b == 0)) [
  | inl h ↦ rw h i
  | inr h ↦ rw h (send_loop-Safe c b i)
]

pub create-cases :
    (n : ℕ)
    → (Buffer.create n ≡ length_error)
      ⊎ ((b : Buffer) × (Buffer.create n ≡ ok b) × IsValid b × (b.write_index ≡ 0) × (n ≤ max_size))
unfolding Buffer.create
create-cases n = elim (Bool-cases (ltb max_size n)) [
  | inl h ↦ inl (rw h)
  | inr h ↦ inr (
    record { buff = replicate n 0; read_index = 0; write_index = 0 },
    rw h,
    omega (arith, length-replicate {A = ℕ} n 0, small h),
    refl,
    small h,
  )
]
  where
    small : ltb max_size n ≡ false → n ≤ max_size
    small h = ground arith

copy_send-Safe :
    (c : TcpConnection) (src : List ℕ) (n : ℕ)
    → n ≤ length src
    → IsSound c
    → Safe IsSound (copy_send c src n)
unfolding copy_send
copy_send-Safe c src n len i = elim (create-cases n) [
  | inl e ↦ rw e tt
  | inr (b, e, v, at_0, small) ↦
      let (b', e', holds, index, wide) = write-Holds b src n v len (omega arith) in
      rw (e, e') (send_ptr-Safe c (some b') i)
]

-- What the caller of `send(data, n)` owes: `n` bytes behind `data`.
abbrev pub IsCallable : Call → Type 0
IsCallable (send_data none n) = Unit {0}
IsCallable (send_data (some src) n) = n ≤ length src
IsCallable (send p) = Unit {0}
IsCallable close = Unit {0}

abbrev pub AllCallable : List Call → Type 0
AllCallable [] = Unit {0}
AllCallable (x ∷ xs) = IsCallable x × AllCallable xs

close_loop-IsSound : (c : TcpConnection) → IsSound c → IsSound (close_loop c)
unfolding close_loop
close_loop-IsSound c i = ground arith

pub run_call-Safe :
    (c : TcpConnection) (x : Call) → IsCallable x → IsSound c → Safe IsSound (run_call c x)
unfolding run_call
run_call-Safe c (send_data none n) k i = i
run_call-Safe c (send_data (some src) n) k i = elim (Bool-cases (n == 0)) [
  | inl h ↦ rw h i
  | inr h ↦ rw h (copy_send-Safe c src n k i)
]
run_call-Safe c (send p) k i = send_ptr-Safe c p i
run_call-Safe c close k i = close_loop-IsSound c i

pub run_calls-Safe :
    (c : TcpConnection) (xs : List Call)
    → AllCallable xs
    → IsSound c
    → Safe IsSound (run_calls c xs)
unfolding run_calls
run_calls-Safe c [] k i = i
run_calls-Safe c (x ∷ xs) k i =
    Safe-bind IsSound IsSound (run_call c x) (λ c'. run_calls c' xs) (run_call-Safe c x k.0 i)
      λ c' i'. run_calls-Safe c' xs k.1 i'
