-- ===== src/TcpServer/Count.antt =====
-- code/TcpServer.cpp: which connections a server numbers, and which it holds.
use ecron.Prelude.{
  Ends, Ends-bind, Ends-ok, List, Option, [], ap, append-nil, arith, false, length, length-append,
  none, ok, ok-injective, refl, some, subst, suc, sym, true, zero, ℕ, ℕ_discrete, ◌%◌, ◌++◌, ◌+◌,
  ◌^◌, ◌∙◌, ◌∷◌, ◌≡◌, ◌≢◌,
}
use ecron.Prelude.{ℕ_discrete}
use ecron.EventLoopPool.{get_nextloop}
use ecron.TimingWheel.{contains, erase, insert}
use ecron.TimingWheel.Members.{
  Distinct, contains-insert, contains-erase, insert-Distinct, erase-Distinct,
}
use ecron.TcpServer.{
  Conn, Request, TcpServer, accept_again, accept_loop, async_accept, decremented, establish,
  failure, handle_accept, incremented, operation_aborted, peer, remove_conn_loop,
}
use ecron.TcpServer.Run.{
  Reach, Session, Step, awaited, begun, ending, established, finishing, here, next,
}

-- 1, 2, … as 32-bit numbers.
abbrev pub upto : ℕ → List ℕ
upto zero = []
upto (suc n) = upto n ++ suc n % 2 ^ 32 ∷ []

abbrev pub present : {A : Type 0} → Option A → ℕ
present none = 0
present (some x) = 1

-- The connection that waits has the next number, and is not among those that the server holds.
abbrev pub IsNext : ℕ → List ℕ → Option Conn → Type 0
IsNext k held none = Unit {0}
IsNext k held (some c) = (c.number ≡ suc k % 2 ^ 32) × (contains held c.address ≡ false)

pub record IsCounted (s : Session) : Type 0 where
  pub in_turn : s.numbers ≡ upto (length s.numbers)
  pub counted : s.server.count ≡ (length s.numbers + present s.pending) % 2 ^ 32
  pub following : IsNext (length s.numbers) s.server.connections s.pending
  pub distinct : Distinct s.server.connections
  pub held : length s.server.connections + s.ended ≡ length s.numbers

-- What accept_loop leaves.
record Looped (s : TcpServer) (a : ℕ) (t : TcpServer) (c : Conn) : Type 0 where
  kept : t.connections ≡ s.connections
  counted : t.count ≡ incremented s.count
  numbered : c.number ≡ incremented s.count
  lies : c.address ≡ a

accept_loop-Ends : (s : TcpServer) (a : ℕ) → Ends (λ r. Looped s a r.0 r.1) (accept_loop s a)
unfolding accept_loop
accept_loop-Ends s a =
    Ends-bind _ (get_nextloop s.pool) _
      (λ r e. record { kept = refl; counted = refl; numbered = refl; lies = refl })

accept_again-Ends :
    (s : TcpServer) (a : ℕ) (asked : List Request)
    → Ends
        (λ r. (c : Conn) × (r.1 ≡ asked ++ async_accept c ∷ []) × Looped s a r.0 c)
        (accept_again s a asked)
unfolding accept_again
accept_again-Ends s a asked =
    Ends-bind _ (accept_loop s a) _ (λ r e. (r.1, refl, Ends-ok _ _ r e (accept_loop-Ends s a)))

length-insert :
    (xs : List ℕ) (a : ℕ) → contains xs a ≡ false → length (insert xs a) ≡ suc (length xs)
unfolding insert
length-insert xs a h = rw h refl

erase-absent : (xs : List ℕ) (a : ℕ) → contains xs a ≡ false → erase xs a ≡ xs
unfolding erase
erase-absent [] a h = refl
erase-absent (x ∷ xs) a h = ground (arith, erase-absent xs a)

length-erase :
    (xs : List ℕ) (a : ℕ)
    → Distinct xs
    → contains xs a ≡ true
    → suc (length (erase xs a)) ≡ length xs
unfolding erase
length-erase [] a d h = cc
length-erase (x ∷ xs) a d h = elim (ℕ_discrete x a) [
  | yes e ↦ ground (arith, ap (contains xs) e, d.0, erase-absent xs a)
  | no ne ↦ ground (arith, length-erase xs a d.1)
]

pending_count :
    {s : Session} (c : Conn)
    → IsCounted s
    → s.pending ≡ some c
    → s.server.count ≡ (length s.numbers + 1) % 2 ^ 32
pending_count {s} c i p = i.counted ∙ ap (λ q. (length s.numbers + present q) % 2 ^ 32) p

waiting :
    {s : Session} (c : Conn)
    → IsCounted s
    → s.pending ≡ some c
    → IsNext (length s.numbers) s.server.connections (some c)
waiting {s} c i p = subst (IsNext (length s.numbers) s.server.connections) p i.following

decremented-next : (n k : ℕ) → n ≡ (k + 1) % 2 ^ 32 → decremented n ≡ k % 2 ^ 32
decremented-next n k h = ground arith

IsNext-erase :
    (k : ℕ) (held : List ℕ) (a : ℕ) (q : Option Conn) → IsNext k held q → IsNext k (erase held a) q
IsNext-erase k held a none h = tt
IsNext-erase k held a (some c) (number, new) =
    (number, rw (contains-erase held a c.address, new) (ground arith))

-- A connection took its place: the next one waits.
arrived :
    {s : Session} (c : Conn) (a : ℕ) (r : TcpServer × List Request)
    → IsCounted s
    → s.pending ≡ some c
    → contains s.server.connections a ≡ false
    → a ≢ c.address
    → handle_accept s.server c peer a ≡ ok r
    → IsCounted
        (record s { server = r.0; pending = awaited r.1; numbers = s.numbers ++ established r.1 })
unfolding handle_accept
arrived {s} c a r i p fresh apart e =
    let t : TcpServer = record s.server { connections = insert s.server.connections c.address } in
    let (d, asked, l) = Ends-ok _ _ r e (accept_again-Ends t a (establish c ∷ [])) in
    let (number, new) = waiting c i p in
    let count = pending_count c i p in
    let longer : length (s.numbers ++ c.number ∷ []) ≡ suc (length s.numbers) =
      length-append s.numbers (c.number ∷ []) ∙ omega arith in
    rw asked (record {
      in_turn = rw longer (
          ap (λ n. s.numbers ++ n ∷ []) number
          ∙ ap (λ xs. xs ++ suc (length s.numbers) % 2 ^ 32 ∷ []) i.in_turn);
      counted = rw longer (omega (arith, l.counted, count));
      following = rw longer (
        omega (arith, l.numbered, count),
        rw (l.kept, l.lies) (ground (arith, contains-insert s.server.connections c.address a)),
      );
      distinct = rw l.kept (insert-Distinct s.server.connections c.address i.distinct);
      held =
          rw (l.kept, longer)
            (omega (arith, length-insert s.server.connections c.address new, i.held));
    })

accept_failed :
    {s : Session} (c : Conn) (a : ℕ) (r : TcpServer × List Request)
    → IsCounted s
    → s.pending ≡ some c
    → contains s.server.connections a ≡ false
    → handle_accept s.server c failure a ≡ ok r
    → IsCounted
        (record s { server = r.0; pending = awaited r.1; numbers = s.numbers ++ established r.1 })
unfolding handle_accept
accept_failed {s} c a r i p fresh e =
    let t : TcpServer = record s.server { count = decremented s.server.count } in
    let (d, asked, l) = Ends-ok _ _ r e (accept_again-Ends t a []) in
    let count = decremented-next s.server.count (length s.numbers) (pending_count c i p) in
    rw asked (
      rw (append-nil s.numbers) (record {
        in_turn = i.in_turn;
        counted = omega (arith, l.counted, count);
        following = (omega (arith, l.numbered, count), rw (l.kept, l.lies) fresh);
        distinct = rw l.kept i.distinct;
        held = rw l.kept i.held;
      }))

aborted :
    {s : Session} (c : Conn) (a : ℕ) (r : TcpServer × List Request)
    → IsCounted s
    → s.pending ≡ some c
    → handle_accept s.server c operation_aborted a ≡ ok r
    → IsCounted
        (record s { server = r.0; pending = awaited r.1; numbers = s.numbers ++ established r.1 })
unfolding handle_accept
aborted {s} c a r i p e =
    let count = decremented-next s.server.count (length s.numbers) (pending_count c i p) in
    rw (sym (ok-injective _ r e)) (
      rw (append-nil s.numbers) (record {
        in_turn = i.in_turn;
        counted = omega (arith, count);
        following = tt;
        distinct = i.distinct;
        held = i.held;
      }))

Step-IsCounted : {s t : Session} → IsCounted s → Step s t → IsCounted t
unfolding handle_accept remove_conn_loop
Step-IsCounted i (finishing c peer a r p fresh apart e) = arrived c a r i p fresh apart e
Step-IsCounted i (finishing c operation_aborted a r p fresh apart e) = aborted c a r i p e
Step-IsCounted i (finishing c failure a r p fresh apart e) = accept_failed c a r i p fresh e
Step-IsCounted {s} i (ending a h) = record {
  in_turn = i.in_turn;
  counted = i.counted;
  following = IsNext-erase (length s.numbers) s.server.connections a s.pending i.following;
  distinct = erase-Distinct s.server.connections a i.distinct;
  held = omega (arith, length-erase s.server.connections a i.distinct h, i.held);
}

begun-IsCounted :
    (s : TcpServer) (a : ℕ) (r : TcpServer × Conn)
    → s.count ≡ 0
    → s.connections ≡ []
    → accept_loop s a ≡ ok r
    → IsCounted (begun r)
begun-IsCounted s a r first idle e =
    let l = Ends-ok _ _ r e (accept_loop-Ends s a) in
    record {
      in_turn = refl;
      counted = omega (arith, l.counted, first);
      following = (omega (arith, l.numbered, first), rw (l.kept, idle) refl);
      distinct = rw (l.kept, idle) tt;
      held = rw (l.kept, idle) refl;
    }

-- From the first accept_loop of a server without connections on, in every run in which a new
-- connection gets an address that is free and each end is reported once: the connections that were
-- established are numbered 1, 2, … (as 32-bit numbers) in the order in which they came, whatever
-- accepts failed between; the one that waits has the next number; and the server holds, each once, as
-- many as were established and have not ended.
pub Reach-IsCounted :
    (s : TcpServer) (a : ℕ) (r : TcpServer × Conn) {t : Session}
    → s.count ≡ 0
    → s.connections ≡ []
    → accept_loop s a ≡ ok r
    → Reach (begun r) t
    → IsCounted t
Reach-IsCounted s a r first idle e here = begun-IsCounted s a r first idle e
Reach-IsCounted s a r first idle e (next run x) =
    Step-IsCounted (Reach-IsCounted s a r first idle e run) x
