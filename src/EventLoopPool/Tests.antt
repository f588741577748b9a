-- ===== src/EventLoopPool/Tests.antt =====
-- code/EventLoopPool.cpp: a pool of three loops.
use ecron.Prelude.{arith, ok, refl, ℕ, ◌+◌, ◌≡◌}
use ecron.EventLoopPool.{
  EventLoopPool, add_loops, create, get_nextloop, get_nextloop_after, set_threads, start,
}
use ecron.EventLoopPool.Turns.{start-round_robin}

abbrev address : ℕ → ℕ
address i = 100 + i

start-round_robin_example :
    (p : EventLoopPool) × (get_nextloop_after 4 (start address (set_threads (create 7) 3))
      ≡ ok (101, p))
start-round_robin_example = start-round_robin address 7 3 4 (omega arith) (omega arith)

base_without_threads : get_nextloop (start address (create 7)) ≡ ok (7, create 7)
unfolding get_nextloop start create add_loops
base_without_threads = refl
