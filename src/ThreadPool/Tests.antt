-- ===== src/ThreadPool/Tests.antt =====
-- code/ThreadPool.cpp: a small pool, and the theorem at it.
use ecron.Prelude.{[], false, refl, some, true, ◌∷◌, ◌≡◌, ◌⊎◌, ◌≤◌, negsuc}
use ecron.BlockingQueue.{init, notify_exit, push, ready, take_front}
use ecron.ThreadPool.{
  ThreadPool, Turn, add_thread, append, create, finished, idle, join_all, popping, returning,
  run_turn, running, start, stop,
}
use ecron.ThreadPool.Stop.{here, next, stop-ends}

start_example : (start create 2 10).1.threads ≡ idle ∷ idle ∷ []
unfolding start create add_thread
start_example = refl

start-none_example : (start create 0 10).0 ≡ negsuc 0
unfolding start
start-none_example = refl

append_example : (append (start create 2 1).1 (some 7)).0 ≡ true
unfolding start create add_thread append init push
append_example = refl

-- One thread is in a task, the other waits, and a task is queued.
abbrev busy : ThreadPool
busy = record {
  threads = running 3 ∷ idle ∷ [];
  tasks = record { queue = some 7 ∷ []; max_count = 10; exit = false };
}

abbrev over : ThreadPool
over = record {
  threads = finished ∷ finished ∷ [];
  tasks = record { queue = some 7 ∷ []; max_count = 10; exit = true };
}

stop-ends_example :
    (3 ≤ 4)
    × (over.tasks.queue ≡ busy.tasks.queue)
    × ((join_all over ≡ some (record over { threads = [] })) ⊎ ((r : ThreadPool) × Turn over r))
unfolding stop notify_exit run_turn take_front ready
stop-ends_example = stop-ends busy _ over 3 refl (
    next
      (next (next here (returning [] (idle ∷ []) 3 refl))
        (popping [] (idle ∷ []) (finished, _) refl refl refl))
      (popping (finished ∷ []) [] (finished, _) refl refl refl))
