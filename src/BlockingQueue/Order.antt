-- ===== src/BlockingQueue/Order.antt =====
-- code/BlockingQueue.hpp: what goes in comes out, once and in its order.
use ecron.Prelude.{
  Bool, List, Option, [], ap, append_assoc, arith, false, length, length-append, none, ok, refl,
  some, sym, true, ℕ, ◌++◌, ◌+◌, ◌-◌, ◌<◌, ◌∙◌, ◌∷◌, ◌≡◌, ◌≤◌,
}
use ecron.BlockingQueue.{BlockingQueue, init, notify_exit, push, ready, take_front}
use ecron.BlockingQueue.Threads.{
  Reach, State, Step, exiting, given, here, leave, next, notify_one, pop_now, pop_wait, push_full,
  push_ok, resume, sleep_again, start, wake_up,
}

-- The items pushed are those popped and then those of the queue, whose bound holds.
pub record IsInOrder {A : Type 0} (max_count : ℕ) (s : State A) : Type 0 where
  pub in_order : s.pushed ≡ s.popped ++ s.shared.queue
  pub bounded : 0 < max_count → length s.shared.queue ≤ max_count
  pub same_bound : s.shared.max_count ≡ max_count

push-cases :
    {A : Type 0} (q q' : BlockingQueue A) (x : A)
    → push q x ≡ (true, q')
    → (q'.queue ≡ q.queue ++ x ∷ [])
      × (q'.max_count ≡ q.max_count)
      × (0 < q.max_count → length q.queue + 1 ≤ q.max_count)
unfolding push
push-cases q q' x e = ground arith

push-refused : {A : Type 0} (q q' : BlockingQueue A) (x : A) → push q x ≡ (false, q') → q' ≡ q
unfolding push
push-refused q q' x e = ground arith

take_front-given :
    {A : Type 0} (q : BlockingQueue A) (r : Option A × BlockingQueue A)
    → take_front q ≡ ok r
    → (q.queue ≡ given r.0 ++ r.1.queue) × (r.1.max_count ≡ q.max_count)
unfolding take_front
take_front-given q r e = ground arith

notified :
    {A : Type 0} (max_count : ℕ) (s : State A)
    → IsInOrder max_count s
    → IsInOrder max_count (notify_one s)
notified max_count s i = record {
  in_order = ground (arith, i.in_order);
  bounded = ground (arith, i.bounded);
  same_bound = ground (arith, i.same_bound);
}

left :
    {A : Type 0} (max_count : ℕ) (s : State A) (r : Option A × BlockingQueue A)
    → take_front s.shared ≡ ok r
    → IsInOrder max_count s
    → IsInOrder max_count (leave s r)
left max_count s r e i =
    let (items, bound) = take_front-given s.shared r e in
    let fewer = length-append (given r.0) r.1.queue in
    record {
      in_order =
          i.in_order
          ∙ ap (λ q. s.popped ++ q) items
          ∙ sym (append_assoc s.popped (given r.0) r.1.queue);
      bounded = λ h. omega (arith, i.bounded h, fewer, ap length items);
      same_bound = bound ∙ i.same_bound;
    }

pushed :
    {A : Type 0} (max_count : ℕ) (s : State A) (x : A) (q : BlockingQueue A)
    → push s.shared x ≡ (true, q)
    → IsInOrder max_count s
    → IsInOrder max_count (notify_one (record s { shared = q; pushed = s.pushed ++ x ∷ [] }))
pushed max_count s x q e i =
    let (items, bound, room) = push-cases s.shared q x e in
    let more = length-append s.shared.queue (x ∷ []) in
    notified max_count (record s { shared = q; pushed = s.pushed ++ x ∷ [] })
      (record {
        in_order =
            ap (λ p. p ++ x ∷ []) i.in_order
            ∙ append_assoc s.popped s.shared.queue (x ∷ [])
            ∙ ap (λ p. s.popped ++ p) (sym items);
        bounded = λ h. omega (arith, i.same_bound, room, more, ap length items);
        same_bound = bound ∙ i.same_bound;
      })

Step-IsInOrder :
    {A : Type 0} (max_count : ℕ) {s t : State A}
    → Step s t
    → IsInOrder max_count s
    → IsInOrder max_count t
unfolding notify_exit
Step-IsInOrder max_count {s} (push_ok x q e) i = pushed max_count s x q e i
Step-IsInOrder max_count {s} (push_full x q e) i = record {
  in_order = ground (arith, push-refused s.shared q x e, i.in_order);
  bounded = ground (arith, push-refused s.shared q x e, i.bounded);
  same_bound = ground (arith, push-refused s.shared q x e, i.same_bound);
}
Step-IsInOrder max_count {s} (pop_now r h e) i = left max_count s r e i
Step-IsInOrder max_count {s} (resume r w h e) i =
    left max_count (record s { woken = s.woken - 1 }) r e
      (record { in_order = i.in_order; bounded = i.bounded; same_bound = i.same_bound })
Step-IsInOrder max_count (pop_wait h) i = record {
  in_order = i.in_order;
  bounded = i.bounded;
  same_bound = i.same_bound;
}
Step-IsInOrder max_count (wake_up h) i = record {
  in_order = i.in_order;
  bounded = i.bounded;
  same_bound = i.same_bound;
}
Step-IsInOrder max_count (sleep_again w h) i = record {
  in_order = i.in_order;
  bounded = i.bounded;
  same_bound = i.same_bound;
}
Step-IsInOrder max_count exiting i = record {
  in_order = i.in_order;
  bounded = i.bounded;
  same_bound = i.same_bound;
}

-- In every run of any number of threads over a queue made by init(max_count), the items pushed with
-- success are, in their order, those popped followed by those still in the queue, whose number is at
-- most max_count where that is not 0.
pub Reach-IsInOrder :
    {A : Type 0} (max_count : ℕ) {s : State A} → Reach (start max_count) s → IsInOrder max_count s
unfolding init
Reach-IsInOrder max_count here = record {
  in_order = refl;
  bounded = λ h. omega arith;
  same_bound = refl;
}
Reach-IsInOrder max_count (next r e) = Step-IsInOrder max_count e (Reach-IsInOrder max_count r)

-- What `pop` does behind its wait, at the contents of the queue.
Taken : {A : Type 0} → BlockingQueue A → Type 0
Taken {A} q =
    (r : Option A × BlockingQueue A) × (take_front q ≡ ok r)
    × (q.exit ≡ true → r ≡ (none, q))
    × (q.exit ≡ false → q.queue ≡ given r.0 ++ r.1.queue)
    × (q.exit ≡ false → length r.1.queue < length q.queue)

taken :
    {A : Type 0} (xs : List A) (n : ℕ) (exit : Bool)
    → ready (record { queue = xs; max_count = n; exit = exit }) ≡ true
    → Taken (record { queue = xs; max_count = n; exit = exit })
unfolding Taken take_front ready
taken [] n false h = ground arith
taken (x ∷ xs) n false h = (
  (some x, record { queue = xs; max_count = n; exit = false }),
  refl,
  (λ e. ground arith),
  (λ e. refl),
  λ e. omega arith,
)
taken xs n true h = (
  (none, record { queue = xs; max_count = n; exit = true }),
  refl,
  (λ e. refl),
  (λ e. ground arith),
  λ e. ground arith,
)

-- Behind its wait, `pop` returns and never reads an empty queue: it gives false and leaves the queue
-- where exit is set, and else takes the first item.
pub take_front-ready :
    {A : Type 0} (q : BlockingQueue A)
    → ready q ≡ true
    → (r : Option A × BlockingQueue A) × (take_front q ≡ ok r)
      × (q.exit ≡ true → r ≡ (none, q))
      × (q.exit ≡ false → q.queue ≡ given r.0 ++ r.1.queue)
      × (q.exit ≡ false → length r.1.queue < length q.queue)
unfolding Taken
take_front-ready q h = taken q.queue q.max_count q.exit h
