-- ===== src/BlockingQueue/Threads.antt =====
-- code/BlockingQueue.hpp: any number of threads that push and pop, as steps that hold the mutex.
use ecron.Prelude.{
  List, Option, [], false, if◌then◌else◌, none, ok, some, true, ℕ, ◌++◌, ◌+◌, ◌-◌, ◌<◌, ◌==◌, ◌∷◌,
  ◌≡◌,
}
use ecron.BlockingQueue.{BlockingQueue, init, notify_exit, push, ready, take_front}

-- The queue, the threads that sleep in `cond_.wait`, those that were woken there and have not got the
-- mutex back, and what was pushed and popped so far.
pub record State (A : Type 0) : Type 0 where
  pub shared : BlockingQueue A
  pub sleeping : ℕ
  pub woken : ℕ
  pub pushed : List A
  pub popped : List A

-- `notify_one`: the wait of one sleeping thread, if any, ends. `notify_all` ends all.
abbrev pub notify_one : {A : Type 0} → State A → State A
notify_one s =
    if s.sleeping == 0 then s else record s { sleeping = s.sleeping - 1; woken = s.woken + 1 }

abbrev pub notify_all : {A : Type 0} → State A → State A
notify_all s = record s { sleeping = 0; woken = s.woken + s.sleeping }

abbrev pub given : {A : Type 0} → Option A → List A
given none = []
given (some x) = x ∷ []

-- A thread leaves `pop` with what it got.
abbrev pub leave : {A : Type 0} → State A → Option A × BlockingQueue A → State A
leave s r = record s { shared = r.1; popped = s.popped ++ given r.0 }

pub data Step {A : Type 0} (s : State A) : State A → Type 0 where
  push_ok :
      (x : A) (q : BlockingQueue A)
      → push s.shared x ≡ (true, q)
      → Step s (notify_one (record s { shared = q; pushed = s.pushed ++ x ∷ [] }))
  push_full :
      (x : A) (q : BlockingQueue A)
      → push s.shared x ≡ (false, q)
      → Step s (record s { shared = q })
  -- A thread enters `pop`.
  pop_now :
      (r : Option A × BlockingQueue A)
      → ready s.shared ≡ true
      → take_front s.shared ≡ ok r
      → Step s (leave s r)
  pop_wait : ready s.shared ≡ false → Step s (record s { sleeping = s.sleeping + 1 })
  -- A wait may also end with no notification.
  wake_up : 0 < s.sleeping → Step s (record s { sleeping = s.sleeping - 1; woken = s.woken + 1 })
  -- A thread whose wait ended has the mutex again and tests the predicate.
  resume :
      (r : Option A × BlockingQueue A)
      → 0 < s.woken
      → ready s.shared ≡ true
      → take_front s.shared ≡ ok r
      → Step s (leave (record s { woken = s.woken - 1 }) r)
  sleep_again :
      0 < s.woken
      → ready s.shared ≡ false
      → Step s (record s { sleeping = s.sleeping + 1; woken = s.woken - 1 })
  exiting : Step s (notify_all (record s { shared = notify_exit s.shared }))

pub data Reach {A : Type 0} (s : State A) : State A → Type 0 where
  here : Reach s s
  next : {t u : State A} → Reach s t → Step t u → Reach s u

abbrev pub start : {A : Type 0} → ℕ → State A
start max_count = record {
  shared = init max_count;
  sleeping = 0;
  woken = 0;
  pushed = [];
  popped = [];
}
