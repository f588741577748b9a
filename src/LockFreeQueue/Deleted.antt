-- ===== src/LockFreeQueue/Deleted.antt =====
-- code/LockFreeQueue.hpp: a node is deleted while another thread is still to read it.
use ecron.Prelude.{Bool, arith, false, fault, none, ok, refl, ℕ, ◌≡◌}
use ecron.LockFreeQueue.{
  LockFreeQueue, begin_pop, begin_push, create, delete_node, empty, full, link, pop_count, pop_free,
  pop_next, step, swing, take_head, tested_pop, tested_push, with_sentry, write,
}
use ecron.LockFreeQueue.Run.{
  Reach, System, alone, alone-Reach, came_to, go, here, moving, next, popping, pushing, start,
}

module _ {A : Type 0} (v x : A) where
  -- Thread 0 pushes `x`.
  abbrev pushing_x : System A
  pushing_x = go (start v 0) 0 (begin_push (start v 0).shared x)

  abbrev pushed_x : System A
  pushed_x = came_to (start v 0) (alone 6 0 pushing_x)

  -- Thread 1 calls `pop` and loads `head_` and `tail_`.
  abbrev popping_x : System A
  popping_x = go pushed_x 1 (pushed_x.shared, begin_pop pushed_x.shared)

  abbrev loaded_head : System A
  loaded_head = came_to (start v 0) (alone 2 1 popping_x)

  -- Thread 2 calls `pop` and goes on until it is to delete the node of the old head.
  abbrev popping_too : System A
  popping_too = go loaded_head 2 (loaded_head.shared, begin_pop loaded_head.shared)

  abbrev before_delete : System A
  before_delete = came_to (start v 0) (alone 6 2 popping_too)

  pushed_x-eq : alone 6 0 pushing_x ≡ ok pushed_x
  unfolding alone begin_push full with_sentry create step tested_push link swing
  pushed_x-eq = refl

  loaded_head-eq : alone 2 1 popping_x ≡ ok loaded_head
  unfolding alone begin_push full with_sentry create step tested_push link swing begin_pop empty
  loaded_head-eq = refl

  before_delete-eq : alone 6 2 popping_too ≡ ok before_delete
  unfolding alone begin_push full with_sentry create step tested_push link swing begin_pop empty
      tested_pop take_head
  before_delete-eq = refl

  pushed_x-Reach : Reach (start v 0) pushed_x
  unfolding alone begin_push full with_sentry create step tested_push link swing begin_pop empty
  pushed_x-Reach = alone-Reach 6 0 pushing_x pushed_x (next here (pushing 0 x refl)) pushed_x-eq

  before_delete-Reach : Reach (start v 0) before_delete
  unfolding alone begin_push full with_sentry create step tested_push link swing begin_pop empty
      tested_pop take_head
  before_delete-Reach =
      alone-Reach 6 2 popping_too before_delete
        (next
          (alone-Reach 2 1 popping_x loaded_head (next pushed_x-Reach (popping 1 refl))
            loaded_head-eq)
          (popping 2 refl))
        before_delete-eq

-- Every load of `old_head->next_` behind the deletion of the old head reads a deleted node.
load-deleted :
    {A : Type 0} (q : LockFreeQueue A) (h t : ℕ) (weak : Bool)
    → q.heap h ≡ none
    → step weak q (pop_next h t) ≡ fault
unfolding step
load-deleted q h t weak e = ground (arith, e)

module _ {A : Type 0} (v x : A) where
  -- The queue without the node of the old head.
  abbrev without_head : LockFreeQueue A
  without_head = let q = (before_delete v x).shared in record q { heap = write q.heap 1 none }

  -- Whatever the item, a run of three threads over a queue without a bound comes to a state in which
  -- thread 1 is to load `old_head->next_` in `pop`, and thread 2 to delete the same node; thread 2
  -- deletes it, and in the state that this step leads to the load of thread 1 faults.
  pub step-deleted :
      (s : System A) × (h : ℕ) × (t : ℕ) × (y : A) × (q : LockFreeQueue A) × Reach (start v 0) s
      × (s.threads 1 ≡ pop_next h t)
      × (s.threads 2 ≡ pop_free h y)
      × (delete_node s.shared h ≡ ok q)
      × (q.heap h ≡ none)
      × Reach (start v 0) (go s 2 (q, pop_count y))
      × ((go s 2 (q, pop_count y)).threads 1 ≡ pop_next h t)
      × ((weak : Bool) → step weak q (pop_next h t) ≡ fault)
  unfolding alone begin_push full with_sentry create step tested_push link swing begin_pop empty
      tested_pop take_head delete_node
  step-deleted = (
    before_delete v x,
    1,
    _,
    x,
    without_head,
    before_delete-Reach v x,
    refl,
    refl,
    refl,
    refl,
    next (before_delete-Reach v x) (moving 2 false (without_head, pop_count x) refl),
    refl,
    λ weak. load-deleted without_head 1 2 weak refl,
  )
