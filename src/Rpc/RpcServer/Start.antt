-- ===== src/Rpc/RpcServer/Start.antt =====
-- examples/rpc/RpcServer.cpp: a start that fails.
use ecron.Prelude.{
  Bool, Bool-cases, List, Option, String, [], ap, arith, false, inl, inr, ok, refl, some, suc, true,
  zero, ℕ, ◌++◌, ◌∙◌, ◌∷◌, ◌≡◌,
}
use ecron.TcpServer.{TcpServer, Acceptor}
use ecron.ThreadPool
use ecron.ThreadPool.{
  Task, Turn, popping, returning, ThreadPool, no_threads, add_thread, idle, Worker,
}
use ecron.Buffer.{Buffer}
use ecron.Rpc.{Codec}
use ecron.Rpc.Calls.{Memory, RpcMeta, Service}
use ecron.Rpc.RpcServer.{RpcServer, on_connection, on_recv, register_service, start, start_workers}

no_threads-nil : (ws : List Worker) → no_threads ws ≡ true → ws ≡ []
no_threads-nil [] e = refl
no_threads-nil (w ∷ ws) e = cc

-- The workers' start, from no threads and from some.
started :
    (p : ThreadPool) (n : ℕ)
    → no_threads p.threads ≡ true
    → no_threads (start_workers p (suc n)).1.threads ≡ false
unfolding start_workers ThreadPool.start add_thread
started p n e = rw (no_threads-nil p.threads e) (ground arith)

refused :
    (p : ThreadPool) (n : ℕ) → no_threads p.threads ≡ false → start_workers p (suc n) ≡ (false, p)
unfolding start_workers ThreadPool.start
refused p n e = ground arith

module _ {Message : Type 0} (make_address : String → Option ℕ) (made : ℕ → ℕ) (x : Acceptor)
    (s : RpcServer Message) (strip : Option String) (port n_io n : ℕ) where
  start-workers :
      (start make_address made x s strip port n_io n).1.workers ≡ (start_workers s.workers n).1
  unfolding start
  start-workers = ground arith

  start-refused :
      start_workers s.workers n ≡ (false, s.workers)
      → start make_address made x s strip port n_io n ≡ (false, record s { num_workers = n }, [])
  unfolding start
  start-refused e = rw e refl

-- What can happen to a server in its life: starts with any number of workers, services, connections
-- and their bytes, whatever the acceptor and the connections do to the listening part, and the
-- turns of the workers' threads.
pub data Later {Message : Type 0} (s : RpcServer Message) : RpcServer Message → Type 0 where
  here : Later s s
  starting :
      {t : RpcServer Message} (make_address : String → Option ℕ) (made : ℕ → ℕ) (x : Acceptor)
      (strip : Option String) (port n_io n : ℕ)
      → Later s t
      → Later s (start make_address made x t strip port n_io n).1
  registering :
      {t : RpcServer Message} (full_name : String) (service : Service Message)
      → Later s t
      → Later s (register_service t full_name service)
  connecting :
      {t : RpcServer Message} (a : ℕ) (connected : Bool) (id : ℕ)
      → Later s t
      → Later s (on_connection t a connected id)
  receiving :
      {t : RpcServer Message} (k : Codec RpcMeta Message) (mem : Memory)
      (parse : List ℕ → Option Message) (fuel a : ℕ) (b : Buffer)
      (r : RpcServer Message × Buffer × ℕ)
      → Later s t
      → on_recv k mem parse fuel t a b ≡ ok (some r)
      → Later s r.0
  serving :
      {t : RpcServer Message} (server : TcpServer)
      → Later s t
      → Later s (record t { server = server })
  working :
      {t : RpcServer Message} (p : ThreadPool)
      → Later s t
      → Turn t.workers p
      → Later s (record t { workers = p })

kept : (p : ThreadPool) (n : ℕ) → no_threads p.threads ≡ false → (start_workers p n).1 ≡ p
unfolding start_workers
kept p zero e = refl
kept p (suc n) e = ap (λ r. r.1) (refused p n e)

threads-append : (p : ThreadPool) (task : Task) → (ThreadPool.append p task).1.threads ≡ p.threads
unfolding ThreadPool.append
threads-append p task = refl

no_threads-append :
    (before after : List Worker) (w : Worker) → no_threads (before ++ w ∷ after) ≡ false
no_threads-append [] after w = refl
no_threads-append (x ∷ before) after w = refl

Turn-threads : {p q : ThreadPool} → Turn p q → no_threads q.threads ≡ false
Turn-threads (popping before after r at ready ran) = no_threads-append before after r.0
Turn-threads (returning before after task at) = no_threads-append before after idle

receive-threads :
    {Message : Type 0} (k : Codec RpcMeta Message) (mem : Memory) (parse : List ℕ → Option Message)
    (fuel : ℕ) (s : RpcServer Message) (a : ℕ) (b : Buffer) (r : RpcServer Message × Buffer × ℕ)
    → on_recv k mem parse fuel s a b ≡ ok (some r)
    → r.0.workers.threads ≡ s.workers.threads
unfolding on_recv ThreadPool.append
receive-threads k mem parse fuel s a b r e = ground (arith, e)

Later-threads :
    {Message : Type 0} {s t : RpcServer Message}
    → no_threads s.workers.threads ≡ false
    → Later s t
    → no_threads t.workers.threads ≡ false
unfolding register_service on_connection
Later-threads e here = e
Later-threads e (starting {t} make_address made x strip port n_io n l) =
    let rest = Later-threads e l in
    ap (λ (p : ThreadPool). no_threads p.threads)
      (start-workers make_address made x t strip port n_io n ∙ kept t.workers n rest)
    ∙ rest
Later-threads e (registering full_name service l) = Later-threads e l
Later-threads e (connecting a connected id l) = elim (Bool-cases connected) [
  | inl e' ↦ rw e' (Later-threads e l)
  | inr e' ↦ rw e' (Later-threads e l)
]
Later-threads e (receiving {t} k mem parse fuel a b r l ran) =
    ap no_threads (receive-threads k mem parse fuel t a b r ran) ∙ Later-threads e l
Later-threads e (serving server l) = Later-threads e l
Later-threads e (working p l turn) = Turn-threads turn

-- Once a server without threads was started with some workers, whether it could listen or not, and
-- whatever other starts, services, connections, bytes, changes of its listening part and turns of
-- its workers came since, each start with workers fails, asks for nothing, and changes only the
-- number of workers.
pub start-again :
    {Message : Type 0} (make_address : String → Option ℕ) (made : ℕ → ℕ) (x x' : Acceptor)
    (s t : RpcServer Message) (strip strip' : Option String) (port port' n_io n_io' n n' : ℕ)
    → no_threads s.workers.threads ≡ true
    → Later (start make_address made x s strip port n_io (suc n)).1 t
    → start make_address made x' t strip' port' n_io' (suc n')
      ≡ (false, record t { num_workers = suc n' }, [])
start-again make_address made x x' s t strip strip' port port' n_io n_io' n n' e l =
    start-refused make_address made x' t strip' port' n_io' (suc n') (
      refused t.workers n' (
        Later-threads
          (ap (λ (p : ThreadPool). no_threads p.threads)
              (start-workers make_address made x s strip port n_io (suc n))
            ∙ started s.workers n e)
          l))
