-- ===== src/BlockingQueue/Tests.antt =====
-- code/BlockingQueue.hpp: a short run of threads, and the theorems at it.
use ecron.Prelude.{[], arith, false, refl, some, true, ℕ, ◌∷◌, ◌≡◌}
use ecron.BlockingQueue.{BlockingQueue, back, front, full, init, push, ready, take_front}
use ecron.BlockingQueue.Threads.{Reach, State, here, next, pop_wait, push_ok, resume, start}
use ecron.BlockingQueue.Wakeup.{IsAwake, Reach-IsAwake}
use ecron.BlockingQueue.Order.{IsInOrder, Reach-IsInOrder}

abbrev holding_7 : BlockingQueue ℕ
holding_7 = record { queue = 7 ∷ []; max_count = 2; exit = false }

abbrev emptied : BlockingQueue ℕ
emptied = record { queue = []; max_count = 2; exit = false }

abbrev last_state : State ℕ
last_state = record { shared = emptied; sleeping = 0; woken = 0; pushed = 7 ∷ []; popped = 7 ∷ [] }

-- One thread sleeps in `pop`, another pushes 7, and the first takes it.
handed_over : Reach (start 2) last_state
unfolding init push ready take_front
handed_over =
    next (next (next here (pop_wait refl)) (push_ok 7 holding_7 refl))
      (resume (some 7, emptied) (omega arith) refl refl)

Reach-IsAwake_example : IsAwake last_state
Reach-IsAwake_example = Reach-IsAwake 2 handed_over

Reach-IsInOrder_example : IsInOrder 2 last_state
Reach-IsInOrder_example = Reach-IsInOrder 2 handed_over

full_at_bound : full {A = ℕ} (push (push (init 1) 7).1 8).1 ≡ true
unfolding full push init
full_at_bound = refl

ends :
    (front {A = ℕ} (push (push (init 0) 7).1 8).1 ≡ some 7)
    × (back {A = ℕ} (push (push (init 0) 7).1 8).1 ≡ some 8)
unfolding push init front back
ends = (refl, refl)
