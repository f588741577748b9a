-- ===== src/Http/Host/Failure.antt =====
-- examples/http/HttpServer.cpp: a start that cannot listen, and the start behind it.
use ecron.Prelude.{
  List, Option, String, [], ap, arith, false, length-replicate, refl, replicate, some, subst, suc,
  true, zero, ℕ, ◌*◌, ◌<◌, ◌∙◌, ◌∷◌, ◌≡◌, ◌≤◌, ◌⊎◌,
}
use ecron.TcpServer
use ecron.TcpServer.{TcpServer, Acceptor, Request, set_io_threads}
use ecron.ThreadPool
use ecron.ThreadPool.{ThreadPool, Turn, Worker, no_threads, add_thread, join_all, idle}
use ecron.BlockingQueue
use ecron.BlockingQueue.{notify_exit}
use ecron.ThreadPool.Stop.{Turns, stop-ends}
use ecron.Http.Host.{Host, begin_workers, end_workers, start}

no_threads-nil : (ws : List Worker) → no_threads ws ≡ true → ws ≡ []
no_threads-nil [] e = refl
no_threads-nil (w ∷ ws) e = cc

-- What the workers' start makes of a pool without threads.
begun :
    (p : ThreadPool) (n : ℕ)
    → no_threads p.threads ≡ true
    → begin_workers p (suc n)
      ≡ (true, record { threads = replicate (suc n) idle; tasks = BlockingQueue.init 100000 })
unfolding begin_workers ThreadPool.start add_thread
begun p n e = rw (no_threads-nil p.threads e) (ground arith)

end_workers-stop : (p p' : ThreadPool) → ThreadPool.stop p ≡ some p' → end_workers p ≡ p'
unfolding end_workers
end_workers-stop p p' e = ground (arith, e)

-- The pool with `n` new threads, and what `stop` makes of it.
abbrev fresh : ℕ → ThreadPool
fresh n = record { threads = replicate n idle; tasks = BlockingQueue.init 100000 }

abbrev ending : ℕ → ThreadPool
ending n = record { threads = replicate n idle; tasks = notify_exit (BlockingQueue.init 100000) }

stop-fresh : (n : ℕ) → ThreadPool.stop (fresh (suc n)) ≡ some (ending (suc n))
unfolding ThreadPool.stop
stop-fresh n = refl

no_task : (n : ℕ) → (fresh n).tasks.queue ≡ []
unfolding BlockingQueue.init
no_task n = refl

start-of :
    {P : Type 0} (make_address : String → Option ℕ) (made : ℕ → ℕ) (x : Acceptor) (s : Host P)
    (strip : Option String) (port n_io n : ℕ)
    → (begin_workers s.workers n).0 ≡ true
    → (TcpServer.start make_address made x (set_io_threads s.server n_io) strip port).0 ≡ false
    → ((start make_address made x s strip port n_io n).0 ≡ false)
      × ((start make_address made x s strip port n_io n).1.workers
          ≡ end_workers (begin_workers s.workers n).1)
unfolding start
start-of make_address made x s strip port n_io n e f = rw e (f, rw f refl)

-- A start with workers that cannot listen, of a server without threads, fails and ends the threads
-- that it started: provided that no task runs forever, after at most two turns for each thread none
-- goes on, and the joins then return, and as long as they do not some thread can go on. No task
-- is left in the queue.
pub start-ends_workers :
    {P : Type 0} (make_address : String → Option ℕ) (made : ℕ → ℕ) (x : Acceptor) (s : Host P)
    (strip : Option String) (port n_io n m : ℕ) (q : ThreadPool)
    → no_threads s.workers.threads ≡ true
    → 0 < n
    → (TcpServer.start make_address made x (set_io_threads s.server n_io) strip port).0 ≡ false
    → Turns (start make_address made x s strip port n_io n).1.workers m q
    → ((start make_address made x s strip port n_io n).0 ≡ false)
      × (m ≤ 2 * n)
      × (q.tasks.queue ≡ [])
      × ((join_all q ≡ some (record q { threads = [] })) ⊎ ((r : ThreadPool) × Turn q r))
start-ends_workers make_address made x s strip port n_io zero m q alone some_worker bad run =
    absurd (omega arith)
start-ends_workers make_address made x s strip port n_io (suc n) m q alone some_worker bad run =
    let eq = begun s.workers n alone in
    let (failed, kept) =
      start-of make_address made x s strip port n_io (suc n) (ap (λ r. r.0) eq) bad in
    let stopped = kept ∙ ap (λ r. end_workers r.1) eq ∙ end_workers-stop _ _ (stop-fresh n) in
    let (short, same, ends) =
      stop-ends (fresh (suc n)) (ending (suc n)) q m (stop-fresh n)
        (subst (λ t. Turns t m q) stopped run) in
    (failed, omega (arith, short, length-replicate (suc n) idle), same ∙ no_task (suc n), ends)
