-- ===== src/BlockingQueue.antt =====
-- code/BlockingQueue.hpp: a bounded queue between threads, with a mutex and a condition variable.
-- A method body holds the mutex from its first line, so it is one step; `pop` is two, since the wait
-- gives the mutex back.
pub mod Threads
pub mod Wakeup
pub mod Order
mod Tests
use ecron.Prelude.{
  Bool, List, Option, Outcome, [], false, fault, if◌then◌else◌, leb, length, ltb, none, not, ok,
  some, true, ℕ, ◌&&◌, ◌++◌, ◌||◌, ◌∷◌,
}

pub record BlockingQueue {ℓ} (A : Type ℓ) : Type ℓ where
  pub queue : List A
  pub max_count : ℕ
  pub exit : Bool

module _ {ℓ} {A : Type ℓ} where
  unfoldable pub create : BlockingQueue A
  create = record { queue = []; max_count = 0; exit = false }

  unfoldable pub init : ℕ → BlockingQueue A
  init max_count = record { queue = []; max_count = max_count; exit = false }

  unfoldable pub full : BlockingQueue A → Bool
  full q = ltb 0 q.max_count && leb q.max_count (length q.queue)

  -- Both overloads: a copy and a move put the same item into the queue. Where it returns true it has
  -- also woken one waiting thread.
  unfoldable pub push : BlockingQueue A → A → Bool × BlockingQueue A
  push q item =
      if ltb 0 q.max_count && leb q.max_count (length q.queue)
      then (false, q)
      else (true, record q { queue = q.queue ++ item ∷ [] })

  abbrev pub is_empty : List A → Bool
  is_empty [] = true
  is_empty (x ∷ xs) = false

  -- The predicate of the wait.
  unfoldable pub ready : BlockingQueue A → Bool
  ready q = not (is_empty q.queue) || q.exit

  -- `pop` behind the wait: false, or true with the item.
  unfoldable pub take_front : BlockingQueue A → Outcome (Option A × BlockingQueue A)
  take_front q =
      if q.exit
      then ok (none, q)
      else elim q.queue [ [] ↦ fault | x ∷ xs ↦ ok (some x, record q { queue = xs }) ]

  unfoldable pub front : BlockingQueue A → Option A
  front q = elim q.queue [ [] ↦ none | x ∷ xs ↦ some x ]

  abbrev pub last : A → List A → A
  last x [] = x
  last x (y ∷ ys) = last y ys

  unfoldable pub back : BlockingQueue A → Option A
  back q = elim q.queue [ [] ↦ none | x ∷ xs ↦ some (last x xs) ]

  unfoldable pub empty : BlockingQueue A → Bool
  empty q = is_empty q.queue

  unfoldable pub size : BlockingQueue A → ℕ
  size q = length q.queue

  unfoldable pub notify_exit : BlockingQueue A → BlockingQueue A
  notify_exit q = record q { exit = true }
