-- ===== src/ThreadPool.antt =====
-- code/ThreadPool.h and code/ThreadPool.cpp: threads that run the tasks of one queue. A task is a
-- number, and an empty std::function is `none`; what a task does is left out.
pub mod Stop
mod Tests
use ecron.Prelude.{
  Bool, List, Option, Outcome, [], false, if◌then◌else◌, ltb, negsuc, none, not, ok, pos, replicate,
  some, true, ℕ, ℤ, ◌++◌, ◌>>=◌, ◌||◌, ◌∷◌, ◌≡◌,
}
use ecron.BlockingQueue
use ecron.BlockingQueue.{BlockingQueue, init, notify_exit, push, ready, take_front}

abbrev pub Task : Type 0
Task = Option ℕ

-- Where a thread is in `run`: at the head of its loop, in a task, or behind the loop.
pub data Worker : Type 0 where
  idle : Worker
  running : ℕ → Worker
  finished : Worker

pub record ThreadPool : Type 0 where
  pub threads : List Worker
  pub tasks : BlockingQueue Task

unfoldable pub create : ThreadPool
create = record { threads = []; tasks = BlockingQueue.create }

unfoldable pub add_thread : ThreadPool → ℕ → ThreadPool
add_thread p n = record p { threads = p.threads ++ replicate n idle }

abbrev pub no_threads : List Worker → Bool
no_threads [] = true
no_threads (w ∷ ws) = false

unfoldable pub start : ThreadPool → ℕ → ℕ → ℤ × ThreadPool
start p thread_num max_task =
    if ltb thread_num 1 || not (no_threads p.threads)
    then (negsuc 0, p)
    else (pos 0, add_thread (record p { tasks = init max_task }) thread_num)

unfoldable pub append : ThreadPool → Task → Bool × ThreadPool
append p task = let (done, q) = push p.tasks task in (done, record p { tasks = q })

-- What a thread does with what `pop` gave it.
abbrev pub run_popped : Option Task → Worker
run_popped none = finished
run_popped (some none) = idle
run_popped (some (some task)) = running task

-- One turn of the loop in `run`, behind the wait in `pop`.
unfoldable pub run_turn : BlockingQueue Task → Outcome (Worker × BlockingQueue Task)
run_turn q = do r ← take_front q; ok (run_popped r.0, r.1)

-- A thread that does not wait goes on: it takes a task, or its task returns.
pub data Turn (p : ThreadPool) : ThreadPool → Type 0 where
  popping :
      (before after : List Worker) (r : Worker × BlockingQueue Task)
      → p.threads ≡ before ++ idle ∷ after
      → ready p.tasks ≡ true
      → run_turn p.tasks ≡ ok r
      → Turn p (record p { threads = before ++ r.0 ∷ after; tasks = r.1 })
  returning :
      (before after : List Worker) (task : ℕ)
      → p.threads ≡ before ++ running task ∷ after
      → Turn p (record p { threads = before ++ idle ∷ after })

-- `stop` up to the joins; `none` where it returns -1.
unfoldable pub stop : ThreadPool → Option ThreadPool
stop p = if no_threads p.threads then none else some (record p { tasks = notify_exit p.tasks })

abbrev pub all_finished : List Worker → Bool
all_finished [] = true
all_finished (finished ∷ ws) = all_finished ws
all_finished (idle ∷ ws) = false
all_finished (running task ∷ ws) = false

-- The joins return once every thread is behind its loop.
unfoldable pub join_all : ThreadPool → Option ThreadPool
join_all p = if all_finished p.threads then some (record p { threads = [] }) else none
