-- ===== src/Http/Host/Tests.antt =====
-- examples/http/HttpServer.cpp: a server whose address is in use, and the theorem at it.
use ecron.Prelude.{[], arith, false, refl, some, true, ℕ, ◌∷◌, ◌≡◌, ◌≤◌, ◌⊎◌}
use ecron.TcpServer
use ecron.TcpServer.{Acceptor, listen}
use ecron.ThreadPool
use ecron.ThreadPool.{ThreadPool, Turn, join_all, idle, finished, add_thread, popping, run_turn}
use ecron.ThreadPool.Stop.{here, next}
use ecron.BlockingQueue
use ecron.BlockingQueue.{notify_exit, take_front, ready}
use ecron.Http.Host.{Host, begin_workers, end_workers, start}
use ecron.Http.Host.Failure.{start-ends_workers}

abbrev in_use : Acceptor
in_use = record {
  opens = true;
  reuse_address = true;
  enable_connection_aborted = true;
  binds = false;
  listens = true;
}

abbrev new_host : Host ℕ
new_host = record {
  server = TcpServer.create 1;
  workers = ThreadPool.create;
  num_workers = 0;
  contexts = [];
}

-- Two threads, of which one has left its loop.
abbrev half_ended : ThreadPool
half_ended = record {
  threads = finished ∷ idle ∷ [];
  tasks = record { queue = []; max_count = 100000; exit = true };
}

start-ends_workers_example :
    ((start (λ ip. some 1) (λ n. n) in_use new_host (some "127.0.0.1") 80 0 2).0 ≡ false)
    × (1 ≤ 4)
    × (half_ended.tasks.queue ≡ [])
    × ((join_all half_ended ≡ some (record half_ended { threads = [] }))
        ⊎ ((r : ThreadPool) × Turn half_ended r))
unfolding start begin_workers end_workers ThreadPool.start ThreadPool.stop ThreadPool.create
    add_thread notify_exit BlockingQueue.init TcpServer.start TcpServer.create listen run_turn
    take_front ready
start-ends_workers_example =
    start-ends_workers (λ ip. some 1) (λ n. n) in_use new_host (some "127.0.0.1") 80 0 2 1
      half_ended refl (omega arith) refl
      (next here (popping [] (idle ∷ []) (finished, _) refl refl refl))
