-- ===== src/LockFreeQueue/Turn.antt =====
-- code/LockFreeQueue.hpp: each access of a thread keeps the chain, and leaves the thread knowing
-- what its next access relies on.
use ecron.Prelude.{
  ==_iff, Bool, Bool-cases, Ends, Ends-bind, Ends-ok, [], ap, arith, get_elem?, inl, inr, length,
  length-append, none, not, ok, refl, some, sym, true, ℕ, ◌&&◌, ◌==◌, ◌>>=◌, ◌∙◌, ◌∷◌, ◌≡◌, ◌≢◌,
  ◌≤◌, ◌⊎◌,
}
use ecron.LockFreeQueue.{
  LockFreeQueue, Node, Place, delete_node, link, load, outside, pop_count, pop_free, pop_head,
  pop_help, pop_move, pop_next, pop_read, pop_tail, pop_test, popped, push_count, push_help,
  push_link, push_move, push_next, push_tail, push_test, pushed, step, take_head, tested_pop,
  tested_push,
}
use ecron.LockFreeQueue.Chain.{IsChain, Knows, Nodes, WasHead, own, ◌at◌is◌}
use ecron.LockFreeQueue.Shared.{
  Changed, Stepped, count-Changed, head-Changed, next-at, next_of-at, next_of-below, stays,
  swing-Changed,
}
use ecron.LockFreeQueue.Heap.{delete-Changed}
use ecron.LockFreeQueue.Link.{link-Stepped}

pub changes :
    {A : Type 0} {g : Nodes} {q q' : LockFreeQueue A} (p p' : Place A) (ch : Changed g q q')
    → Knows ch.nodes q' p'
    → (own p' ≡ 0) ⊎ ((own p' ≡ own p) ⊎ (q.fresh ≤ own p'))
    → Stepped g q p q' p'
changes p p' ch k o = record {
  nodes = ch.nodes;
  chain = ch.chain;
  knows = k;
  later = ch.later;
  spares = λ m v ne i. ch.spares m v (omega (arith, i.fits)) i;
  owned = o;
}

-- A load through a pointer that is not dangling.
load-ok :
    {A : Type 0} (q : LockFreeQueue A) (a : ℕ) (n : Node A) → load q a ≡ ok n → q.heap a ≡ some n
load-ok q a n e = ground arith

abbrev pub Leaves :
    {A : Type 0} → Nodes → LockFreeQueue A → Place A → LockFreeQueue A × Place A → Type 0
Leaves g q p r = Stepped g q p r.0 r.1

module _ {A : Type 0} {g : Nodes} {q : LockFreeQueue A} (c : IsChain g q) where
  tested_push-Stepped :
      (n : ℕ) (v : A) (t x : ℕ)
      → Knows g q (push_test n v t x)
      → Stepped g q (push_test n v t x) q (tested_push n v q.tail t x)
  unfolding tested_push
  tested_push-Stepped n v t x (o, (i, at_t, at_x)) = elim (Bool-cases (t == q.tail)) [
    | inr moved ↦ rw moved (stays _ (push_tail n v) c o (inr refl))
    | inl same ↦ elim (Bool-cases (x == 0)) [
      | inl null ↦ rw (same, null) (stays _ (push_link n v t) c (o, (i, at_t)) (inr refl))
      | inr found ↦
          rw (same, found)
            (stays _ (push_help n v t x) c (o, (i, at_t, at_x (ground arith))) (inr refl))
    ]
  ]

  tested_pop-Stepped :
      (h t x : ℕ)
      → Knows g q (pop_test h t x)
      → Stepped g q (pop_test h t x) q (tested_pop q.head h t x)
  unfolding tested_pop
  tested_pop-Stepped h t x (i, at_h, was, ahead, behind, at_x) = elim (Bool-cases (h == q.head)) [
    | inr moved ↦ rw moved (stays _ pop_head c tt (inl refl))
    | inl same ↦ elim (Bool-cases (h == t)) [
      | inl one ↦ elim (Bool-cases (x == 0)) [
        | inl null ↦ rw (same, one, null) (stays _ (popped none) c tt (inl refl))
        | inr found ↦
            let at_t : g.addrs at i is t = rw (← (==_iff h t).0 one) at_h in
            rw (same, one, found)
              (stays _ (pop_help t x) c (i, at_t, at_x (ground arith)) (inl refl))
      ]
      | inr more ↦
          let ne : h ≢ t = ground arith in
          rw (same, more) (stays _ (pop_read h x) c (i, at_h, was, ahead ne, behind ne) (inl refl))
    ]
  ]

  link-Ends :
      (weak : Bool) (n : ℕ) (v : A) (t : ℕ)
      → Knows g q (push_link n v t)
      → Ends (Leaves g q (push_link n v t)) (link weak q n v t)
  unfolding link
  link-Ends weak n v t (o, (i, at_t)) = Ends-bind _ (load q t) _ (λ node e.
      let found = load-ok q t node e in
      elim (Bool-cases (not weak && node.next == 0)) [
        | inr lost ↦ rw lost (stays _ (push_tail n v) c o (inr refl))
        | inl won ↦ rw won (link-Stepped n v t i node c o at_t found (ground arith))
      ])

  take_head-Stepped :
      (weak : Bool) (h x : ℕ) (v : A)
      → Knows g q (pop_move h x v)
      → Stepped g q (pop_move h x v) (take_head weak q h x v).0 (take_head weak q h x v).1
  unfolding take_head
  take_head-Stepped weak h x v k = elim (Bool-cases (not weak && q.head == h)) [
    | inr lost ↦ rw lost (stays _ pop_head c tt (inl refl))
    | inl won ↦
        let ch = head-Changed h x v c k (ground arith) in
        rw won (
          changes _ (pop_free h v) ch
            (k.0, ch.later.addrs k.0 h k.1, omega (arith, k.2, length-append q.taken (v ∷ [])))
            (inl refl))
  ]

  -- `pop` reads the item of the node behind the old head.
  read-Ends :
      (h x : ℕ)
      → Knows g q (pop_read h x)
      → Ends (Leaves g q (pop_read h x)) (load q x >>= λ node. ok (q, pop_move h x node.value))
  read-Ends h x (i, at_h, was, ahead, at_x) = Ends-bind _ (load q x) _ (λ node e.
      let v = c.values i x node at_x (load-ok q x node e) in
      stays _ (pop_move h x node.value) c (i, at_h, was, ahead, at_x, v) (inl refl))

  next-Ends :
      (h t : ℕ)
      → Knows g q (pop_next h t)
      → Ends (Leaves g q (pop_next h t)) (load q h >>= λ node. ok (q, pop_test h t node.next))
  next-Ends h t (i, at_h, was, ahead) = Ends-bind _ (load q h) _ (λ node e.
      let same = next-at i h node c at_h (load-ok q h node e) in
      stays _ (pop_test h t node.next) c
        (
          i,
          at_h,
          was,
          ahead,
          λ ne. rw same (next_of-below g.addrs i g.last q.tail c.tail_at (ahead ne)),
          λ some_next. rw same (next_of-at g.addrs i (rw same at some_next)),
        )
        (inl refl))

  push_next-Ends :
      (n : ℕ) (v : A) (t : ℕ)
      → Knows g q (push_next n v t)
      → Ends (Leaves g q (push_next n v t)) (load q t >>= λ node. ok (q, push_test n v t node.next))
  push_next-Ends n v t (o, (i, at_t)) = Ends-bind _ (load q t) _ (λ node e.
      let same = next-at i t node c at_t (load-ok q t node e) in
      stays _ (push_test n v t node.next) c
        (o, (i, at_t, λ some_next. rw same (next_of-at g.addrs i (rw same at some_next))))
        (inr refl))

  delete-Ends :
      (h : ℕ) (v : A)
      → Knows g q (pop_free h v)
      → Ends (Leaves g q (pop_free h v)) (delete_node q h >>= λ q'. ok (q', pop_count v))
  unfolding delete_node
  delete-Ends h v k = Ends-bind _ (delete_node q h) _ (λ q' e.
      Ends-ok (λ r. Stepped g q (pop_free h v) r (pop_count v)) (delete_node q h) q' e
        (Ends-bind _ (load q h) _
          (λ node e'. changes _ (pop_count v) (delete-Changed h c k) tt (inl refl))))

  last_linked : WasHead g q q.head
  last_linked = (length q.taken, c.head_at, omega arith)

  -- The next access of a thread anywhere.
  pub step-Ends : (weak : Bool) (p : Place A) → Knows g q p → Ends (Leaves g q p) (step weak q p)
  unfolding step
  step-Ends weak outside k = stays _ outside c tt (inl refl)
  step-Ends weak (push_tail n v) k =
      stays _ (push_next n v q.tail) c (k, (g.last, c.tail_at)) (inr refl)
  step-Ends weak (push_next n v t) k = push_next-Ends n v t k
  step-Ends weak (push_test n v t x) k = tested_push-Stepped n v t x k
  step-Ends weak (push_help n v t x) (o, behind) =
      let ch = swing-Changed weak t x c behind in
      changes _ (push_tail n v) ch (ch.spares n v (omega (arith, o.fits)) o) (inr (inl refl))
  step-Ends weak (push_link n v t) k = link-Ends weak n v t k
  step-Ends weak (push_move n t) k = changes _ push_count (swing-Changed weak t n c k) tt (inl refl)
  step-Ends weak push_count k = changes _ (pushed true) (count-Changed _ c) tt (inl refl)
  step-Ends weak (pushed done) k = stays _ (pushed done) c tt (inl refl)
  step-Ends weak pop_head k = stays _ (pop_tail q.head) c last_linked (inl refl)
  step-Ends weak (pop_tail h) (i, at_h, was) =
      stays _ (pop_next h q.tail) c
        (
          i,
          at_h,
          was,
          λ ne.
              let apart : i ≢ g.last =
                λ p. ne (cc (sym at_h ∙ ap (get_elem? g.addrs) p ∙ c.tail_at)) in
              omega (arith, apart, c.ahead),
        )
        (inl refl)
  step-Ends weak (pop_next h t) k = next-Ends h t k
  step-Ends weak (pop_test h t x) k = tested_pop-Stepped h t x k
  step-Ends weak (pop_help t x) k = changes _ pop_head (swing-Changed weak t x c k) tt (inl refl)
  step-Ends weak (pop_read h x) k = read-Ends h x k
  step-Ends weak (pop_move h x v) k = take_head-Stepped weak h x v k
  step-Ends weak (pop_free h v) k = delete-Ends h v k
  step-Ends weak (pop_count v) k = changes _ (popped (some v)) (count-Changed _ c) tt (inl refl)
  step-Ends weak (popped got) k = stays _ (popped got) c tt (inl refl)
