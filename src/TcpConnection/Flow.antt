-- ===== src/TcpConnection/Flow.antt =====
-- code/TcpConnection.cpp: the order of the bytes in every run of a connection.
use ecron.Prelude.{
  Bool, List, Safe-ok, [], arith, inl, inr, length, none, ok, some, true, ℕ, ◌++◌, ◌<◌, ◌≡◌, ◌≢◌,
  ◌≤◌,
}
use ecron.TcpConnection.{
  Call, Callbacks, TcpConnection, create, handle_establish, handle_recv, handle_send, run_call,
}
use ecron.Buffer.{initial_size, writable_bytes}
use ecron.Buffer.Inv.{IsValid}
use ecron.TcpConnection.Queue.{
  IsCallable, IsFlowing, IsSound, create-cases, front_writes, queued, run_call-Safe,
}
use ecron.TcpConnection.Handlers.{
  IsLawful, handle_establish-Safe, handle_recv-Safe, handle_send-Safe,
}

-- What can happen to an established connection: a call runs in the loop, or a pending operation ends.
pub data Step (cb : Callbacks) (c c' : TcpConnection) : Type 0 where
  called : (x : Call) → IsCallable x → run_call c x ≡ ok c' → Step cb c c'
  received :
      (bytes : List ℕ)
      → 0 < c.reads
      → length bytes ≤ writable_bytes c.recv_buffer
      → handle_recv cb c (some bytes) ≡ ok c'
      → Step cb c c'
  recv_failed : 0 < c.reads → handle_recv cb c none ≡ ok c' → Step cb c c'
  sent : (failed : Bool) → c.writes ≢ [] → handle_send cb c failed ≡ ok c' → Step cb c c'

pub data Reach (cb : Callbacks) (c : TcpConnection) : TcpConnection → Type 0 where
  here : Reach cb c c
  next : {c' c'' : TcpConnection} → Reach cb c c' → Step cb c' c'' → Reach cb c c''

Step-IsSound :
    {cb : Callbacks} {c c' : TcpConnection} → IsLawful cb → Step cb c c' → IsSound c → IsSound c'
Step-IsSound {cb} {c} {c'} l (called x k e) i = Safe-ok IsSound _ c' e (run_call-Safe c x k i)
Step-IsSound {cb} {c} {c'} l (received bytes r h e) i =
    Safe-ok IsSound _ c' e (handle_recv-Safe cb l c (some bytes) i (λ b q. ground arith))
Step-IsSound {cb} {c} {c'} l (recv_failed r e) i =
    Safe-ok IsSound _ c' e (handle_recv-Safe cb l c none i (λ b q. cc))
Step-IsSound {cb} {c} {c'} l (sent failed w e) i =
    Safe-ok IsSound _ c' e (handle_send-Safe cb l c failed i w)

pub Reach-IsSound :
    {cb : Callbacks} {c c' : TcpConnection} → IsLawful cb → IsSound c → Reach cb c c' → IsSound c'
Reach-IsSound l i here = i
Reach-IsSound l i (next r s) = Step-IsSound l s (Reach-IsSound l i r)

create-IsFlowing : (c : TcpConnection) → create ≡ ok c → IsFlowing c × IsValid c.recv_buffer
unfolding create
create-IsFlowing c e = elim (create-cases initial_size) [
  | inl h ↦ absurd (ground arith)
  | inr (b, h, v, at_0, small) ↦ ground (arith, v)
]

-- From its establishment on, in every run, what the socket has sent, followed by what is queued, is
-- what was accepted for sending: nothing is lost, sent twice or out of order. While connected,
-- exactly one write is pending if something is queued, that of the front buffer, and else none.
-- The callbacks must keep to IsLawful.
pub Reach-in_order :
    (cb : Callbacks) (c₀ c₁ c : TcpConnection)
    → IsLawful cb
    → create ≡ ok c₀
    → handle_establish cb c₀ ≡ ok c₁
    → Reach cb c₁ c
    → (c.wire ++ queued c.send_buffer ≡ c.accepted)
      × ((c.connected ≡ true) → c.writes ≡ front_writes c.send_buffer)
Reach-in_order cb c₀ c₁ c l e₀ e₁ r =
    let (flowing, valid) = create-IsFlowing c₀ e₀ in
    let start = Safe-ok IsSound _ c₁ e₁ (handle_establish-Safe cb l c₀ flowing valid) in
    let i = Reach-IsSound l start r in
    elim i.ordered [
      | inl flowing ↦ (flowing.in_order, λ up. flowing.one_write)
      | inr broken ↦ (broken.in_order, λ up. absurd (ground (arith, broken.left)))
    ]
