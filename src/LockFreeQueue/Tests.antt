-- ===== src/LockFreeQueue/Tests.antt =====
-- code/LockFreeQueue.hpp: small queues, and the theorems at them.
use ecron.Prelude.{Bool, List, Option, [], fault, none, ok, refl, some, ℕ, ◌++◌, ◌∷◌, ◌≡◌, ◌>>=◌}
use ecron.LockFreeQueue.{
  pop_next, pop_free, pop_count, LockFreeQueue, Node, back, begin_push, clear, clear_from, create,
  front, full, link, step, swing, tested_push, delete_node, with_sentry, write,
}
use ecron.LockFreeQueue.Run.{
  came_to, Reach, System, alone, alone-Reach, go, here, next, pushing, start,
}
use ecron.LockFreeQueue.Order.{Reach-IsQueue, Spells}
use ecron.LockFreeQueue.Deleted.{step-deleted}

-- The memory once 7 was pushed.
abbrev holding_7 : ℕ → Option (Node ℕ)
holding_7 =
    write
      (write (write (λ p. none) 1 (some (record { value = 9; next = 0 }))) 2
        (some (record { value = 7; next = 0 })))
      1 (some (record { value = 9; next = 2 }))

abbrev after_push : LockFreeQueue ℕ
after_push = record {
  heap = holding_7;
  head = 1;
  tail = 2;
  count = 1;
  max_count = 2;
  fresh = 3;
  linked = 7 ∷ [];
  taken = [];
}

abbrev beginning : System ℕ
beginning = go (start 9 2) 0 (begin_push (start 9 2).shared 7)

abbrev pushed_7 : System ℕ
pushed_7 = came_to (start 9 2) (alone 6 0 beginning)

Reach-IsQueue_example :
    (rest : List ℕ) × (◌≡◌ {A = List ℕ} (7 ∷ []) ([] ++ rest)) × Spells holding_7 1 rest
unfolding alone begin_push full with_sentry create step tested_push link swing
Reach-IsQueue_example =
    Reach-IsQueue 9 2 {s = pushed_7}
      (alone-Reach 6 0 beginning pushed_7 (next here (pushing 0 7 refl)) refl)

step-deleted_example :
    (s : System ℕ) × (h : ℕ) × (t : ℕ) × (y : ℕ) × (q : LockFreeQueue ℕ) × Reach (start 9 0) s
    × (s.threads 1 ≡ pop_next h t)
    × (s.threads 2 ≡ pop_free h y)
    × (delete_node s.shared h ≡ ok q)
    × (q.heap h ≡ none)
    × Reach (start 9 0) (go s 2 (q, pop_count y))
    × ((go s 2 (q, pop_count y)).threads 1 ≡ pop_next h t)
    × ((weak : Bool) → step weak q (pop_next h t) ≡ fault)
step-deleted_example = step-deleted 9 7

front_of_7 : front after_push ≡ ok (some 7)
unfolding front
front_of_7 = refl

-- The sentry is no item.
back_of_empty : back {A = ℕ} (with_sentry create 9 0) ≡ ok (some 9)
unfolding back with_sentry create
back_of_empty = refl

-- `clear` leaves `head_` at the deleted sentry.
clear_twice : (do q ← clear after_push; clear q) ≡ fault
unfolding clear clear_from
clear_twice = refl
