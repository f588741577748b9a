-- ===== src/LockFreeQueue/Heap.antt =====
-- code/LockFreeQueue.hpp: new nodes, linked nodes and deleted ones.
use ecron.Prelude.{
  ==_refl, List, Option, [], ap, arith, get_elem?-append_lt, get_elem?-lt, inl, inr, length, none,
  refl, some, suc, sym, zero, ℕ, ℕ_discrete, ◌++◌, ◌<◌, ◌∙◌, ◌∷◌, ◌≡◌, ◌≢◌, ◌⊎◌,
}
use ecron.LockFreeQueue.{LockFreeQueue, Node, Place, new_node, push_tail, write}
use ecron.LockFreeQueue.Chain.{IsChain, IsOwn, IsPassed, IsStored, Nodes, alive, deleted, ◌at◌is◌}
use ecron.LockFreeQueue.Shared.{Changed, Stepped}

pub write_self :
    {A : Type 0} (h : ℕ → Option (Node A)) (a : ℕ) (v : Option (Node A)) → write h a v a ≡ v
write_self h a v = rw (==_refl a) refl

pub write-ne :
    {A : Type 0} (h : ℕ → Option (Node A)) (a b : ℕ) (v : Option (Node A))
    → a ≢ b
    → write h a v b ≡ h b
write-ne h a b v ne = ground arith

stored-ne :
    {A : Type 0} {heap heap' : ℕ → Option (Node A)} {k : ℕ} {addrs : List ℕ} {i a : ℕ}
    → heap' a ≡ heap a
    → IsStored heap k addrs i a
    → IsStored heap' k addrs i a
stored-ne e (alive v s) = alive v (e ∙ s)
stored-ne e (deleted gone b) = deleted (e ∙ gone) b

new_node-IsOwn :
    {A : Type 0} {g : Nodes} {q : LockFreeQueue A} (v : A)
    → 0 < q.fresh
    → IsChain g q
    → IsOwn g (new_node q v) q.fresh v
new_node-IsOwn {q = q} v some_fresh c = record {
  fits = omega arith;
  holds = write_self q.heap q.fresh _;
  apart = λ i a e same. omega (arith, same, c.used i a e);
}

-- `new node(item)`: the node is the thread's own.
pub new_node-Stepped :
    {A : Type 0} {g : Nodes} {q : LockFreeQueue A} (p : Place A) (v : A)
    → 0 < q.fresh
    → IsChain g q
    → Stepped g q p (new_node q v) (push_tail q.fresh v)
new_node-Stepped {g = g} {q} p v some_fresh c =
    let other : (i a : ℕ) → g.addrs at i is a → (new_node q v).heap a ≡ q.heap a =
      λ i a e. write-ne q.heap q.fresh a _ (λ same. omega (arith, same, c.used i a e)) in
    record {
      nodes = g;
      chain = record {
        sizes = c.sizes;
        head_at = c.head_at;
        tail_at = c.tail_at;
        ahead = c.ahead;
        distinct = c.distinct;
        used = λ i a e. omega (arith, c.used i a e);
        stored = λ i a e. stored-ne (other i a e) (c.stored i a e);
        values = λ i a n e h. c.values i a n e (sym (other (suc i) a e) ∙ h);
        in_order = c.in_order;
      };
      later = record {
        addrs = λ i a e. e;
        linked = λ i v e. e;
        taken = omega arith;
        last = omega arith;
        fresh = omega arith;
      };
      knows = new_node-IsOwn v some_fresh c;
      owned = inr (inr (omega arith));
      spares = λ m w ne o. record {
        fits = omega (arith, o.fits);
        holds = write-ne q.heap q.fresh m _ (λ same. omega (arith, same, o.fits)) ∙ o.holds;
        apart = o.apart;
      };
    }

-- `delete old_head`, behind the head.
pub delete-Changed :
    {A : Type 0} {g : Nodes} {q : LockFreeQueue A} (h : ℕ)
    → IsChain g q
    → IsPassed g q h
    → Changed g q (record q { heap = write q.heap h none })
delete-Changed {g = g} {q} h c (i, at_h, passed) =
    let self = write_self q.heap h none in
    record {
      nodes = g;
      chain = record {
        sizes = c.sizes;
        head_at = c.head_at;
        tail_at = c.tail_at;
        ahead = c.ahead;
        distinct = c.distinct;
        used = c.used;
        stored = λ j a e. elim (ℕ_discrete h a) [
          | yes same ↦
              let place : j ≡ i = c.distinct j i a e (at_h ∙ ap some same) in
              deleted (rw (← same) self) (omega (arith, place, passed))
          | no ne ↦ stored-ne (write-ne q.heap h a none ne) (c.stored j a e)
        ];
        values = λ j a n e s. elim (ℕ_discrete h a) [
          | yes same ↦
              let found : none ≡ some n = sym self ∙ ap (write q.heap h none) same ∙ s in cc
          | no ne ↦ c.values j a n e (sym (write-ne q.heap h a none ne) ∙ s)
        ];
        in_order = c.in_order;
      };
      later = record {
        addrs = λ i a e. e;
        linked = λ i v e. e;
        taken = omega arith;
        last = omega arith;
        fresh = omega arith;
      };
      spares = λ m w ne o. record {
        fits = o.fits;
        holds = write-ne q.heap h m none (o.apart i h at_h) ∙ o.holds;
        apart = o.apart;
      };
    }

-- Behind the end of a list.
pub append-at :
    {A : Type 0} (xs : List A) (x : A) (j : ℕ) (a : A)
    → (xs ++ x ∷ []) at j is a
    → (xs at j is a) ⊎ ((j ≡ length xs) × (x ≡ a))
append-at [] x zero a e = inr (refl, cc)
append-at [] x (suc j) a e = cc
append-at (y ∷ xs) x zero a e = inl e
append-at (y ∷ xs) x (suc j) a e = elim (append-at xs x j a e) [
  | inl f ↦ inl f
  | inr (at_end, same) ↦ inr (ap suc at_end, same)
]

pub at-append :
    {A : Type 0} (xs : List A) (x : A) (j : ℕ) (a : A) → xs at j is a → (xs ++ x ∷ []) at j is a
at-append xs x j a e = get_elem?-append_lt xs (x ∷ []) j (get_elem?-lt xs j e) ∙ e
