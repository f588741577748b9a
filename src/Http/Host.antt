-- ===== src/Http/Host.antt =====
-- examples/http/HttpServer.h and examples/http/HttpServer.cpp: a server's start, and the tasks that
-- it gives to its connections, under their addresses. A task of a worker is a number.
pub mod Failure
mod Tests
use ecron.Prelude.{
  Bool, List, Option, String, [], assign, false, if◌then◌else◌, is_zero, ltb, none, some, true, ℕ,
  ◌==◌,
}
use ecron.TcpServer
use ecron.TcpServer.{TcpServer, Acceptor, Request, set_io_threads}
use ecron.ThreadPool
use ecron.ThreadPool.{ThreadPool}
use ecron.Http.Task.{HttpParser, HttpTask, init}

pub record Host (P : Type 0) : Type 0 where
  pub server : TcpServer
  pub workers : ThreadPool
  pub num_workers : ℕ
  pub contexts : List (ℕ × HttpTask P)

-- Whether the start goes on, and the workers.
unfoldable pub begin_workers : ThreadPool → ℕ → Bool × ThreadPool
begin_workers workers n_worker =
    if ltb 0 n_worker
    then (let r = ThreadPool.start workers n_worker 100000 in (is_zero r.0, r.1))
    else (true, workers)

-- `workers_.stop()` up to the joins.
unfoldable pub end_workers : ThreadPool → ThreadPool
end_workers p = elim (ThreadPool.stop p) as (λ x. ThreadPool) [ none ↦ p | some q ↦ q ]

module _ {P : Type 0} where
  -- A start that fails to listen returns once the workers' threads are joined.
  unfoldable pub start :
      (make_address : String → Option ℕ) (made : ℕ → ℕ)
      → Acceptor
      → Host P
      → Option String
      → ℕ
      → ℕ
      → ℕ
      → Bool × Host P × List Request
  start make_address made x s strip port n_io n_worker =
      let w = begin_workers s.workers n_worker in
      let r = TcpServer.start make_address made x (set_io_threads s.server n_io) strip port in
      let kept = if r.0 then w.1 else end_workers w.1 in
      if w.0
      then (r.0, record s { server = r.1; workers = kept; num_workers = n_worker }, r.2)
      else (false, record s { workers = w.1; num_workers = n_worker }, [])

  -- The connection at `a`, with what `make_shared` made for it.
  unfoldable pub on_connection : HttpParser P → Host P → ℕ → Bool → HttpTask P → Host P
  on_connection parser s a connected task =
      if connected then record s { contexts = assign ◌==◌ a (init parser task) s.contexts } else s
