-- ===== src/ThreadGroup.antt =====
-- code/ThreadGroup.h and code/ThreadGroup.cpp: workers, each a thread with a queue of its own, given
-- out in turn. A `ThreadWorker*` is an address, `none` the null pointer.
pub mod Turns
mod Tests
use ecron.Prelude.{
  Bool, List, Option, Outcome, [], add_size, false, fault, get_elem?, if◌then◌else◌, length, ltb,
  negsuc, none, not, ok, pos, some, suc, true, zero, ℕ, ℤ, ◌%◌, ◌++◌, ◌>>=◌, ◌||◌, ◌∷◌,
}
use ecron.BlockingQueue.{BlockingQueue, init, notify_exit}
use ecron.BlockingQueue
use ecron.TimingWheel.{update}
use ecron.ThreadPool.{Task, Worker, finished, idle}

pub record ThreadWorker : Type 0 where
  pub tasks : BlockingQueue Task
  pub thread : Worker

unfoldable pub new_worker : ℕ → ThreadWorker
new_worker max_task = record { tasks = init max_task; thread = idle }

unfoldable pub push : ThreadWorker → Task → Bool × ThreadWorker
push w task = let (done, q) = BlockingQueue.push w.tasks task in (done, record w { tasks = q })

-- The worker once `join` returned: its thread is behind its loop.
unfoldable pub stop_worker : ThreadWorker → ThreadWorker
stop_worker w = record w { tasks = notify_exit w.tasks; thread = finished }

pub record ThreadGroup : Type 0 where
  pub workers : List ℕ
  pub heap : ℕ → Option ThreadWorker
  pub next : ℕ

unfoldable pub create : ThreadGroup
create = record { workers = []; heap = λ a. none; next = 0 }

-- `n` turns of the loop in `start`, where `made` gives the address of each new worker.
unfoldable pub add_workers : (made : ℕ → ℕ) → ℕ → ThreadGroup → ThreadGroup
add_workers made zero g = g
add_workers made (suc n) g =
    let h = add_workers made n g in
    record h {
      workers = h.workers ++ made n ∷ [];
      heap = update h.heap (made n) (some (new_worker 100000));
    }

abbrev pub no_workers : List ℕ → Bool
no_workers [] = true
no_workers (a ∷ rest) = false

unfoldable pub start : (made : ℕ → ℕ) → ThreadGroup → ℕ → ℕ → ℤ × ThreadGroup
start made g thread_num max_task =
    if ltb thread_num 1 || (ltb max_task 1 || not (no_workers g.workers))
    then (negsuc 0, g)
    else (pos 0, record (add_workers made thread_num g) { next = 0 })

-- Each worker is stopped and deleted.
unfoldable pub delete_workers :
    List ℕ → (ℕ → Option ThreadWorker) → Outcome (ℕ → Option ThreadWorker)
delete_workers [] heap = ok heap
delete_workers (a ∷ rest) heap = elim (heap a) [
  | none ↦ fault
  | some w ↦ delete_workers rest (update heap a none)
]

unfoldable pub stop : ThreadGroup → Outcome (ℤ × ThreadGroup)
stop g =
    let deleted = delete_workers g.workers g.heap in
    if no_workers g.workers
    then ok (negsuc 0, g)
    else (do heap ← deleted; ok (pos 0, record { workers = []; heap = heap; next = 0 }))

unfoldable pub get_worker : ThreadGroup → Outcome (Option ℕ × ThreadGroup)
get_worker g = if no_workers g.workers then ok (none, g) else elim (get_elem? g.workers g.next) [
  | none ↦ fault
  | some a ↦ ok (some a, record g { next = add_size g.next 1 % length g.workers })
]

-- What the call gives that comes after `i` others.
unfoldable pub get_worker_after : ℕ → ThreadGroup → Outcome (Option ℕ × ThreadGroup)
get_worker_after zero g = get_worker g
get_worker_after (suc i) g = do r ← get_worker g; get_worker_after i r.1
