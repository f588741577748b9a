-- ===== src/LockFreeQueue.antt =====
-- code/LockFreeQueue.hpp: a queue of nodes in a heap, pushed and popped by any number of threads with
-- no lock. `step` is one access of one thread to what the threads share, from one access to the next;
-- the accesses of all threads take their turns in one order. A `node*` is an address, 0 the null
-- pointer, and `operator new` returns addresses that it never returned before.
pub mod Chain
pub mod Shared
pub mod Heap
pub mod Link
pub mod Turn
pub mod Run
pub mod Order
pub mod Deleted
mod Tests
use ecron.Prelude.{
  Bool, List, Option, Outcome, [], add_size, false, fault, if◌then◌else◌, leb, ltb, none, not, ok,
  some, sub_size, suc, true, zero, ℕ, ◌&&◌, ◌++◌, ◌+◌, ◌==◌, ◌>>=◌, ◌∷◌,
}

pub record Node {ℓ} (A : Type ℓ) : Type ℓ where
  pub value : A
  pub next : ℕ

-- The last three fields are no members of the class: `fresh` is the next address of `operator new`,
-- `linked` are the items whose node was put behind another one, `taken` those that `pop` took, both
-- in their order.
pub record LockFreeQueue {ℓ} (A : Type ℓ) : Type ℓ where
  pub heap : ℕ → Option (Node A)
  pub head : ℕ
  pub tail : ℕ
  pub count : ℕ
  pub max_count : ℕ
  pub fresh : ℕ
  pub linked : List A
  pub taken : List A

-- Where a thread is, before its next access, with its local variables: in `push` the new node with its
-- item, `old_tail` and `next_node`, in `pop` `old_head`, `old_tail`, `next_node` and `item`.
pub data Place {ℓ} (A : Type ℓ) : Type ℓ where
  outside : Place A
  push_tail : ℕ → A → Place A
  push_next : ℕ → A → ℕ → Place A
  push_test : ℕ → A → ℕ → ℕ → Place A
  push_help : ℕ → A → ℕ → ℕ → Place A
  push_link : ℕ → A → ℕ → Place A
  push_move : ℕ → ℕ → Place A
  push_count : Place A
  pushed : Bool → Place A
  pop_head : Place A
  pop_tail : ℕ → Place A
  pop_next : ℕ → ℕ → Place A
  pop_test : ℕ → ℕ → ℕ → Place A
  pop_help : ℕ → ℕ → Place A
  pop_read : ℕ → ℕ → Place A
  pop_move : ℕ → ℕ → A → Place A
  pop_free : ℕ → A → Place A
  pop_count : A → Place A
  popped : Option A → Place A

module _ {ℓ} {A : Type ℓ} where
  abbrev pub write : (ℕ → Option (Node A)) → ℕ → Option (Node A) → ℕ → Option (Node A)
  write h a v b = if a == b then v else h b

  -- `*p`, a fault where `p` is null or leads to a deleted node.
  abbrev pub load : LockFreeQueue A → ℕ → Outcome (Node A)
  load q p = elim (q.heap p) [ none ↦ fault | some n ↦ ok n ]

  unfoldable pub full : LockFreeQueue A → Bool
  full q = ltb 0 q.max_count && leb q.max_count q.count

  unfoldable pub empty : LockFreeQueue A → Bool
  empty q = 0 == q.count

  -- `new node(item)`
  abbrev pub new_node : LockFreeQueue A → A → LockFreeQueue A
  new_node q v = record q {
    heap = write q.heap q.fresh (some (record { value = v; next = 0 }));
    fresh = q.fresh + 1;
  }

  -- `push(item)` and `pop(item)` up to their loops.
  unfoldable pub begin_push : LockFreeQueue A → A → LockFreeQueue A × Place A
  begin_push q v = if full q then (q, pushed false) else (new_node q v, push_tail q.fresh v)

  unfoldable pub begin_pop : LockFreeQueue A → Place A
  begin_pop q = if empty q then popped none else pop_head

  -- The tests in the loop of `push`, `tail` being what the second load of `tail_` gave.
  unfoldable pub tested_push : ℕ → A → ℕ → ℕ → ℕ → Place A
  tested_push n v tail t x =
      if t == tail then if x == 0 then push_link n v t else push_help n v t x else push_tail n v

  -- The tests in the loop of `pop`.
  unfoldable pub tested_pop : ℕ → ℕ → ℕ → ℕ → Place A
  tested_pop head h t x =
      if h == head
      then if h == t then if x == 0 then popped none else pop_help t x else pop_read h x
      else pop_head

  -- `tail_.compare_exchange_weak(old, new)`: `weak` tells whether it fails though `tail_` is `old`.
  unfoldable pub swing : Bool → LockFreeQueue A → ℕ → ℕ → LockFreeQueue A
  swing weak q old new = if not weak && q.tail == old then record q { tail = new } else q

  -- `old_tail->next_.compare_exchange_weak(nullptr, new_node)`
  unfoldable pub link : Bool → LockFreeQueue A → ℕ → A → ℕ → Outcome (LockFreeQueue A × Place A)
  link weak q n v t = do
    node ← load q t
    ok (
        if not weak && node.next == 0
        then (
          record q {
            heap = write q.heap t (some (record node { next = n }));
            linked = q.linked ++ v ∷ [];
          },
          push_move n t,
        )
        else (q, push_tail n v))

  -- `head_.compare_exchange_weak(old_head, next_node)`
  unfoldable pub take_head : Bool → LockFreeQueue A → ℕ → ℕ → A → LockFreeQueue A × Place A
  take_head weak q h x v =
      if not weak && q.head == h
      then (record q { head = x; taken = q.taken ++ v ∷ [] }, pop_free h v)
      else (q, pop_head)

  -- `delete old_head`
  unfoldable pub delete_node : LockFreeQueue A → ℕ → Outcome (LockFreeQueue A)
  delete_node q h = do node ← load q h; ok (record q { heap = write q.heap h none })

  -- The next access of a thread, where a weak compare-exchange may fail as `weak` says.
  unfoldable pub step : Bool → LockFreeQueue A → Place A → Outcome (LockFreeQueue A × Place A)
  step weak q outside = ok (q, outside)
  step weak q (push_tail n v) = ok (q, push_next n v q.tail)
  step weak q (push_next n v t) = do node ← load q t; ok (q, push_test n v t node.next)
  step weak q (push_test n v t x) = ok (q, tested_push n v q.tail t x)
  step weak q (push_help n v t x) = ok (swing weak q t x, push_tail n v)
  step weak q (push_link n v t) = link weak q n v t
  step weak q (push_move n t) = ok (swing weak q t n, push_count)
  step weak q push_count = ok (record q { count = add_size q.count 1 }, pushed true)
  step weak q (pushed done) = ok (q, pushed done)
  step weak q pop_head = ok (q, pop_tail q.head)
  step weak q (pop_tail h) = ok (q, pop_next h q.tail)
  step weak q (pop_next h t) = do node ← load q h; ok (q, pop_test h t node.next)
  step weak q (pop_test h t x) = ok (q, tested_pop q.head h t x)
  step weak q (pop_help t x) = ok (swing weak q t x, pop_head)
  step weak q (pop_read h x) = do node ← load q x; ok (q, pop_move h x node.value)
  step weak q (pop_move h x v) = ok (take_head weak q h x v)
  step weak q (pop_free h v) = do q' ← delete_node q h; ok (q', pop_count v)
  step weak q (pop_count v) = ok (record q { count = sub_size q.count 1 }, popped (some v))
  step weak q (popped got) = ok (q, popped got)

  unfoldable pub front : LockFreeQueue A → Outcome (Option A)
  front q = do
    node ← load q q.head
    if node.next == 0 then ok none else (do next ← load q node.next; ok (some next.value))

  unfoldable pub back : LockFreeQueue A → Outcome (Option A)
  back q = if q.tail == 0 then ok none else (do node ← load q q.tail; ok (some node.value))

  unfoldable pub size : LockFreeQueue A → ℕ
  size q = q.count

  -- The loop of `clear`, for at most `fuel` nodes, each of which is deleted.
  unfoldable pub clear_from : ℕ → LockFreeQueue A → ℕ → Outcome (LockFreeQueue A)
  clear_from zero q cur = ok q
  clear_from (suc fuel) q cur =
      let rest = load q cur >>= λ node.
      clear_from fuel (record q { heap = write q.heap cur none }) node.next in
      if cur == 0 then ok q else rest

  -- The addresses of nodes are below `fresh`.
  unfoldable pub clear : LockFreeQueue A → Outcome (LockFreeQueue A)
  clear q = clear_from (suc q.fresh) q q.head

  unfoldable pub create : LockFreeQueue A
  create = record {
    heap = λ p. none;
    head = 0;
    tail = 0;
    count = 0;
    max_count = 0;
    fresh = 1;
    linked = [];
    taken = [];
  }

  -- The sentry holds `T()`, here `v`.
  unfoldable pub with_sentry : LockFreeQueue A → A → ℕ → LockFreeQueue A
  with_sentry q v max_count = record (new_node q v) {
    head = q.fresh;
    tail = q.fresh;
    count = 0;
    max_count = max_count;
    linked = [];
    taken = [];
  }

  unfoldable pub init : LockFreeQueue A → A → ℕ → Outcome (LockFreeQueue A)
  init q v max_count = do q' ← clear q; ok (with_sentry q' v max_count)
