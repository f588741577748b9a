-- ===== src/ThreadGroup/Turns.antt =====
-- code/ThreadGroup.cpp: each worker has its turn, as each loop of an EventLoopPool has.
use ecron.Prelude.{
  List, Option, [], add_size, ap, arith, fault, get_elem?, inl, inr, length, none, ok, ok-injective,
  pos, refl, some, suc, sym, zero, ℕ, ℕ_discrete, ◌%◌, ◌++◌, ◌<◌, ◌^◌, ◌∙◌, ◌∷◌, ◌≡◌, ◌⊎◌,
}
use native.Mathlib.Nat.{mod-lt}
use ecron.EventLoopPool
use ecron.EventLoopPool.{EventLoopPool, add_loops, get_nextloop, get_nextloop_after, set_threads}
use ecron.EventLoopPool.Turns.{start-round_robin}
use ecron.ThreadGroup.{
  ThreadGroup, add_workers, create, get_worker, get_worker_after, new_worker, start,
}

-- The pool of loops that has the addresses of the workers.
abbrev as_pool : ℕ → ThreadGroup → EventLoopPool
as_pool n g = record { num = n; baseloop = 0; next = g.next; loops = g.workers }

abbrev as_worker : ThreadGroup → ℕ × EventLoopPool → Option ℕ × ThreadGroup
as_worker g r = (some r.0, record g { next = r.1.next })

-- What the two calls give, at the worker that is next.
get_worker-at :
    (n : ℕ) (g : ThreadGroup) (x : ℕ) (xs : List ℕ) (found : Option ℕ)
    → g.workers ≡ x ∷ xs
    → get_elem? g.workers g.next ≡ found
    → ((get_worker g ≡ fault) × (get_nextloop (as_pool n g) ≡ fault))
      ⊎ ((a : ℕ) × (h : ThreadGroup) × (h.workers ≡ x ∷ xs)
          × (h.heap ≡ g.heap)
          × (get_worker g ≡ ok (some a, h))
          × (get_nextloop (as_pool n g) ≡ ok (a, as_pool n h)))
unfolding get_worker get_nextloop
get_worker-at n g x xs none w e = inl (ground (arith, w, e), ground (arith, w, e))
get_worker-at n g x xs (some a) w e = inr (
  a,
  record g { next = add_size g.next 1 % length g.workers },
  w,
  refl,
  ground (arith, w, e),
  ground (arith, w, e),
)

-- Where the pool of loops gives a loop, the group gives the worker at that address.
follows :
    (n i : ℕ) (g : ThreadGroup) (x : ℕ) (xs : List ℕ) (a : ℕ) (p : EventLoopPool)
    → g.workers ≡ x ∷ xs
    → get_nextloop_after i (as_pool n g) ≡ ok (a, p)
    → (h : ThreadGroup) × (get_worker_after i g ≡ ok (some a, h)) × (h.heap ≡ g.heap)
unfolding get_worker_after get_nextloop_after
follows n zero g x xs a p w e = elim (get_worker-at n g x xs _ w refl) [
  | inl (bad, bad') ↦ cc
  | inr (b, h, w', same, now, now') ↦
      let q = ok-injective _ _ (sym now' ∙ e) in
      (h, now ∙ ap (λ y. ok (some y, h)) (ap (λ r. r.0) q), same)
]
follows n (suc i) g x xs a p w e = elim (get_worker-at n g x xs _ w refl) [
  | inl (bad, bad') ↦ let broken : fault ≡ ok (a, p) = rw bad' at e in cc
  | inr (b, h, w', same, now, now') ↦
      let (later, given, same') = follows n i h x xs a p w' (rw now' at e) in
      (later, rw now given, same' ∙ same)
]

workers-add_workers :
    (made : ℕ → ℕ) (n : ℕ) (g : ThreadGroup)
    → (add_workers made n g).workers ≡ add_loops made n g.workers
unfolding add_workers add_loops
workers-add_workers made zero g = refl
workers-add_workers made (suc n) g = ap (λ xs. xs ++ made n ∷ []) (workers-add_workers made n g)

-- Whatever addresses coincide, every address made is that of a new worker.
heap-add_workers :
    (made : ℕ → ℕ) (n k : ℕ) (g : ThreadGroup)
    → k < n
    → (add_workers made n g).heap (made k) ≡ some (new_worker 100000)
unfolding add_workers
heap-add_workers made zero k g h = absurd (omega arith)
heap-add_workers made (suc n) k g h = elim (ℕ_discrete k n) [
  | yes e ↦ ground (arith, ap made e)
  | no ne ↦ ground (arith, heap-add_workers made n k g (omega arith))
]

-- A group that was started with `n` workers.
abbrev pub started : (ℕ → ℕ) → ℕ → ThreadGroup
started made n = record (add_workers made n create) { next = 0 }

start-started :
    (made : ℕ → ℕ) (n max_task : ℕ)
    → 0 < n
    → 0 < max_task
    → start made create n max_task ≡ (pos 0, started made n)
unfolding start create
start-started made n max_task some_worker some_task = ground arith

append-cons : (ws : List ℕ) (a : ℕ) → (x : ℕ) × (xs : List ℕ) × (ws ++ a ∷ [] ≡ x ∷ xs)
append-cons [] a = (a, [], refl)
append-cons (w ∷ ws) a = (w, ws ++ a ∷ [], refl)

workers-cons :
    (made : ℕ → ℕ) (n : ℕ) → 0 < n → (x : ℕ) × (xs : List ℕ) × ((started made n).workers ≡ x ∷ xs)
unfolding add_workers
workers-cons made zero h = absurd (omega arith)
workers-cons made (suc n) h = append-cons (add_workers made n create).workers (made n)

as_pool-started :
    (made : ℕ → ℕ) (n : ℕ)
    → as_pool n (started made n) ≡ EventLoopPool.start made (set_threads (EventLoopPool.create 0) n)
unfolding EventLoopPool.start set_threads EventLoopPool.create create
as_pool-started made n =
    ap (λ ws. record { num = n; baseloop = 0; next = 0; loops = ws })
      (workers-add_workers made n create)

-- After a start with `n` workers, not 0 and fewer than 2 ^ 64, and any bound that is not 0, each
-- call of get_worker returns, and the one that follows `i` others returns the worker number `i % n`, in
-- the order of their creation, as a pool of `n` loops does. The bound of its queue is 100000,
-- whatever bound was asked for.
pub start-turns :
    (made : ℕ → ℕ) (n max_task i : ℕ)
    → 0 < n
    → n < 2 ^ 64
    → 0 < max_task
    → (g : ThreadGroup) × (get_worker_after i (start made create n max_task).1
        ≡ ok (some (made (i % n)), g))
      × (g.heap (made (i % n)) ≡ some (new_worker 100000))
start-turns made n max_task i some_worker small some_task =
    let (p, given) = start-round_robin made 0 n i some_worker small in
    let (x, xs, w) = workers-cons made n some_worker in
    let (g, got, same) =
      follows n i (started made n) x xs (made (i % n)) p w
        (ap (get_nextloop_after i) (as_pool-started made n) ∙ given) in
    (
      g,
      rw (start-started made n max_task some_worker some_task) got,
      ap (λ h. h (made (i % n))) same
          ∙ heap-add_workers made n (i % n) create (mod-lt i some_worker),
    )
