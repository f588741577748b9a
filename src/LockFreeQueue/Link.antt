-- ===== src/LockFreeQueue/Link.antt =====
-- code/LockFreeQueue.hpp: a node is put behind the last one.
use ecron.Prelude.{
  Option, Option-cases, [], ap, arith, get_elem?, get_elem?-append_end, get_elem?-append_lt,
  get_elem?-ge, get_elem?-lt, inl, inr, le_of_get_elem?, length, length-append, refl, some, suc,
  sym, take-append_le, ℕ, ℕ_discrete, ◌++◌, ◌<◌, ◌∙◌, ◌∷◌, ◌≡◌, ◌≢◌,
}
use ecron.LockFreeQueue.{LockFreeQueue, Node, push_link, push_move, write}
use ecron.LockFreeQueue.Chain.{
  IsChain, IsNext, IsOwn, IsStored, Nodes, alive, deleted, next_of, or_null, ◌at◌is◌,
}
use ecron.LockFreeQueue.Shared.{Stepped, next-at}
use ecron.LockFreeQueue.Heap.{append-at, at-append, write-ne, write_self}

module _ {A : Type 0} {g : Nodes} {q : LockFreeQueue A} (n : ℕ) (v : A) (t i : ℕ) (node : Node A)
    (c : IsChain g q) (o : IsOwn g q n v) (at_t : g.addrs at i is t) (found : q.heap t ≡ some node)
    (free : node.next ≡ 0) where
  abbrev linked_queue : LockFreeQueue A
  linked_queue = record q {
    heap = write q.heap t (some (record node { next = n }));
    linked = q.linked ++ v ∷ [];
  }

  abbrev linked_nodes : Nodes
  linked_nodes = record { addrs = g.addrs ++ n ∷ []; last = g.last }

  at_end : suc i ≡ length g.addrs
  at_end = elim (Option-cases (get_elem? g.addrs (suc i))) [
    | inl e ↦ omega (arith, le_of_get_elem? g.addrs (suc i) e, get_elem?-lt g.addrs i at_t)
    | inr (b, e) ↦
        let null : next_of g.addrs i ≡ 0 = sym (next-at i t node c at_t found) ∙ free in
        absurd (omega (arith, ap or_null e, null, c.used (suc i) b e))
  ]

  next_of-kept :
      (j : ℕ) → suc j < length g.addrs → next_of (g.addrs ++ n ∷ []) j ≡ next_of g.addrs j
  next_of-kept j h = ap or_null (get_elem?-append_lt g.addrs (n ∷ []) (suc j) h)

  next_of-linked : next_of (g.addrs ++ n ∷ []) i ≡ n
  next_of-linked = ap or_null (get_elem?-append_end g.addrs n (suc i) at_end)

  next_of-end : next_of (g.addrs ++ n ∷ []) (length g.addrs) ≡ 0
  next_of-end = ap or_null (
      get_elem?-ge (g.addrs ++ n ∷ []) (suc (length g.addrs))
        (omega (arith, length-append g.addrs (n ∷ []))))

  abbrev heap' : ℕ → Option (Node A)
  heap' = write q.heap t (some (record node { next = n }))

  n_ne_t : t ≢ n
  n_ne_t = o.apart i t at_t

  before_end : (j a : ℕ) → g.addrs at j is a → t ≢ a → suc j < length g.addrs
  before_end j a e ne =
      let apart : j ≢ i = λ p. ne (cc (sym at_t ∙ ap (get_elem? g.addrs) (sym p) ∙ e)) in
      omega (arith, apart, at_end, get_elem?-lt g.addrs j e)

  stored-old :
      (j a : ℕ) → g.addrs at j is a → IsStored heap' (length q.taken) (g.addrs ++ n ∷ []) j a
  stored-old j a e = elim (ℕ_discrete t a) [
    | yes same ↦
        let place : j ≡ i = c.distinct j i a e (at_t ∙ ap some same) in
        alive node.value (
          ap heap' (sym same)
          ∙ write_self q.heap t _
          ∙ ap (λ m. some (record { value = node.value; next = m }))
              (sym (ap (next_of (g.addrs ++ n ∷ [])) place ∙ next_of-linked)))
    | no ne ↦ of ne (c.stored j a e)
  ]
    where
      of :
          t ≢ a
          → IsStored q.heap (length q.taken) g.addrs j a
          → IsStored heap' (length q.taken) (g.addrs ++ n ∷ []) j a
      of ne (alive w s) = alive w (
          write-ne q.heap t a _ ne
          ∙ s
          ∙ ap (λ m. some (record { value = w; next = m }))
              (sym (next_of-kept j (before_end j a e ne))))
      of ne (deleted gone b) = deleted (write-ne q.heap t a _ ne ∙ gone) b

  stored-new :
      (j a : ℕ)
      → j ≡ length g.addrs
      → n ≡ a
      → IsStored heap' (length q.taken) (g.addrs ++ n ∷ []) j a
  stored-new j a end same = alive v (
      ap heap' (sym same)
      ∙ write-ne q.heap t n _ n_ne_t
      ∙ o.holds
      ∙ ap (λ m. some (record { value = v; next = m }))
          (sym (ap (next_of (g.addrs ++ n ∷ [])) end ∙ next_of-end)))

  values-old :
      (j a : ℕ) (m : Node A) → g.addrs at suc j is a → heap' a ≡ some m → q.linked at j is m.value
  values-old j a m e s = elim (ℕ_discrete t a) [
    | yes same ↦
        let now : some (record node { next = n }) ≡ some m =
          sym (write_self q.heap t _) ∙ ap heap' same ∙ s in
        let value : node.value ≡ m.value = cc in
        c.values j a node e (ap q.heap (sym same) ∙ found) ∙ ap some value
    | no ne ↦ c.values j a m e (sym (write-ne q.heap t a _ ne) ∙ s)
  ]

  values-new :
      (j a : ℕ) (m : Node A)
      → suc j ≡ length g.addrs
      → n ≡ a
      → heap' a ≡ some m
      → (q.linked ++ v ∷ []) at j is m.value
  values-new j a m end same s =
      let now : some (record { value = v; next = 0 }) ≡ some m =
        sym o.holds ∙ sym (write-ne q.heap t n _ n_ne_t) ∙ ap heap' same ∙ s in
      let value : v ≡ m.value = cc in
      get_elem?-append_end q.linked v j (omega (arith, end, c.sizes)) ∙ ap some value

  IsChain-linked : IsChain linked_nodes linked_queue
  IsChain-linked = record {
    sizes = omega (arith, length-append g.addrs (n ∷ []), length-append q.linked (v ∷ []), c.sizes);
    head_at = at-append g.addrs n (length q.taken) q.head c.head_at;
    tail_at = at-append g.addrs n g.last q.tail c.tail_at;
    ahead = c.ahead;
    distinct = λ j k a e f. elim (append-at g.addrs n j a e) [
      | inl e' ↦ elim (append-at g.addrs n k a f) [
        | inl f' ↦ c.distinct j k a e' f'
        | inr (end, same) ↦ absurd (o.apart j a e' (sym same))
      ]
      | inr (end, same) ↦ elim (append-at g.addrs n k a f) [
        | inl f' ↦ absurd (o.apart k a f' (sym same))
        | inr (end', same') ↦ end ∙ sym end'
      ]
    ];
    used = λ j a e. elim (append-at g.addrs n j a e) [
      | inl e' ↦ c.used j a e'
      | inr (end, same) ↦ omega (arith, same, o.fits)
    ];
    stored = λ j a e. elim (append-at g.addrs n j a e) [
      | inl e' ↦ stored-old j a e'
      | inr (end, same) ↦ stored-new j a end same
    ];
    values = λ j a m e s. elim (append-at g.addrs n (suc j) a e) [
      | inl e' ↦ at-append q.linked v j m.value (values-old j a m e' s)
      | inr (end, same) ↦ values-new j a m end same s
    ];
    in_order =
        c.in_order
        ∙ sym (
            take-append_le (length q.taken) q.linked (v ∷ [])
              (omega (arith, get_elem?-lt g.addrs (length q.taken) c.head_at, c.sizes)));
  }

  -- The new node is linked behind `t`; other threads' nodes stay theirs.
  pub link-IsNext : IsNext linked_nodes t n
  link-IsNext = (i, at-append g.addrs n i t at_t, get_elem?-append_end g.addrs n (suc i) at_end)

  pub link-Stepped : Stepped g q (push_link n v t) linked_queue (push_move n t)
  link-Stepped = record {
    nodes = linked_nodes;
    chain = IsChain-linked;
    knows = link-IsNext;
    later = record {
      addrs = λ j a e. at-append g.addrs n j a e;
      linked = λ j w e. at-append q.linked v j w e;
      taken = omega arith;
      last = omega arith;
      fresh = omega arith;
    };
    spares = λ m w ne p. record {
      fits = p.fits;
      holds = write-ne q.heap t m _ (p.apart i t at_t) ∙ p.holds;
      apart = λ j a e. elim (append-at g.addrs n j a e) [
        | inl e' ↦ p.apart j a e'
        | inr (end, same) ↦ λ f. ne (sym (same ∙ f))
      ];
    };
    owned = inl refl;
  }
