-- ===== src/LockFreeQueue/Shared.antt =====
-- code/LockFreeQueue.hpp: what each change of the shared state does to the chain of nodes.
use ecron.Prelude.{
  Bool, Bool-cases, List, Option, [], ap, arith, get_elem?, get_elem?-below, get_elem?-lt, inl, inr,
  length, length-append, not, some, suc, sym, take, take-suc, ℕ, ◌&&◌, ◌++◌, ◌<◌, ◌==◌, ◌∙◌, ◌∷◌,
  ◌≡◌, ◌≢◌, ◌≤◌, ◌⊎◌,
}
use ecron.LockFreeQueue.{LockFreeQueue, Node, Place, swing}
use ecron.LockFreeQueue.Chain.{
  IsChain, IsNext, IsRead, IsStored, Knows, Later, Nodes, Spares, alive, deleted, next_of, own,
  ◌at◌is◌,
}

-- What a step of a thread leaves.
pub record Stepped {A : Type 0} (g : Nodes) (q : LockFreeQueue A) (p : Place A)
    (q' : LockFreeQueue A) (p' : Place A) : Type 0 where
  pub nodes : Nodes
  pub chain : IsChain nodes q'
  pub knows : Knows nodes q' p'
  pub later : Later g q nodes q'
  pub spares : Spares g q nodes q' (own p)
  pub owned : (own p' ≡ 0) ⊎ ((own p' ≡ own p) ⊎ (q.fresh ≤ own p'))

pub Later-refl : {A : Type 0} (g : Nodes) (q : LockFreeQueue A) → Later g q g q
Later-refl g q = record {
  addrs = λ i a e. e;
  linked = λ i v e. e;
  taken = omega arith;
  last = omega arith;
  fresh = omega arith;
}

-- A step that changes nothing shared.
pub stays :
    {A : Type 0} {g : Nodes} {q : LockFreeQueue A} (p p' : Place A)
    → IsChain g q
    → Knows g q p'
    → (own p' ≡ 0) ⊎ (own p' ≡ own p)
    → Stepped g q p q p'
stays {g = g} {q} p p' c k o = record {
  nodes = g;
  chain = c;
  knows = k;
  later = Later-refl g q;
  spares = λ m v ne i. i;
  owned = elim o [ inl e ↦ inl e | inr e ↦ inr (inl e) ];
}

pub next_of-at : (xs : List ℕ) (i : ℕ) → next_of xs i ≢ 0 → xs at suc i is next_of xs i
next_of-at xs i ne = ground arith

pub next_of-below : (xs : List ℕ) (i j b : ℕ) → xs at j is b → i < j → xs at suc i is next_of xs i
next_of-below xs i j b e h =
    let (a, found) = get_elem?-below xs (suc i) (omega (arith, get_elem?-lt xs j e)) in
    ground (arith, found)

-- `next_` and `data_` of a node that is there.
pub next-at :
    {A : Type 0} {g : Nodes} {q : LockFreeQueue A} (i a : ℕ) (n : Node A)
    → IsChain g q
    → g.addrs at i is a
    → q.heap a ≡ some n
    → n.next ≡ next_of g.addrs i
next-at {g = g} {q} i a n c e h = of (c.stored i a e)
  where
    of : IsStored q.heap (length q.taken) g.addrs i a → n.next ≡ next_of g.addrs i
    of (alive v s) = cc
    of (deleted gone b) = cc

older :
    {A : Type 0} {heap : ℕ → Option (Node A)} {k k' : ℕ} {addrs : List ℕ} {i a : ℕ}
    → k ≤ k'
    → IsStored heap k addrs i a
    → IsStored heap k' addrs i a
older h (alive v e) = alive v e
older h (deleted gone b) = deleted gone (omega arith)

-- A change by a compare-exchange or an addition: every owner keeps its node.
pub record Changed {A : Type 0} (g : Nodes) (q q' : LockFreeQueue A) : Type 0 where
  pub nodes : Nodes
  pub chain : IsChain nodes q'
  pub later : Later g q nodes q'
  pub spares : Spares g q nodes q' 0

pub Changed-refl : {A : Type 0} {g : Nodes} {q : LockFreeQueue A} → IsChain g q → Changed g q q
Changed-refl {g = g} {q} c = record {
  nodes = g;
  chain = c;
  later = Later-refl g q;
  spares = λ m v ne i. i;
}

-- `tail_` goes on by one node.
pub swing-Changed :
    {A : Type 0} {g : Nodes} {q : LockFreeQueue A} (weak : Bool) (t x : ℕ)
    → IsChain g q
    → IsNext g t x
    → Changed g q (swing weak q t x)
unfolding swing
swing-Changed {g = g} {q} weak t x c (i, at_t, at_x) = elim (Bool-cases (not weak && q.tail == t)) [
  | inr lost ↦ rw lost (Changed-refl c)
  | inl won ↦
      let same : q.tail ≡ t = ground arith in
      let place : i ≡ g.last = c.distinct i g.last t at_t (c.tail_at ∙ ap some same) in
      rw won (record {
        nodes = record { addrs = g.addrs; last = suc g.last };
        chain = record {
          sizes = c.sizes;
          head_at = c.head_at;
          tail_at = ap (λ j. get_elem? g.addrs (suc j)) (sym place) ∙ at_x;
          ahead = omega (arith, c.ahead);
          distinct = c.distinct;
          used = c.used;
          stored = c.stored;
          values = c.values;
          in_order = c.in_order;
        };
        later = record {
          addrs = λ i a e. e;
          linked = λ i v e. e;
          taken = omega arith;
          last = omega arith;
          fresh = omega arith;
        };
        spares = λ m v ne o. record { fits = o.fits; holds = o.holds; apart = o.apart };
      })
]

pub count-Changed :
    {A : Type 0} {g : Nodes} {q : LockFreeQueue A} (n : ℕ)
    → IsChain g q
    → Changed g q (record q { count = n })
count-Changed {g = g} {q} n c = record {
  nodes = g;
  chain = record {
    sizes = c.sizes;
    head_at = c.head_at;
    tail_at = c.tail_at;
    ahead = c.ahead;
    distinct = c.distinct;
    used = c.used;
    stored = c.stored;
    values = c.values;
    in_order = c.in_order;
  };
  later = record {
    addrs = λ i a e. e;
    linked = λ i v e. e;
    taken = omega arith;
    last = omega arith;
    fresh = omega arith;
  };
  spares = λ m v ne o. record { fits = o.fits; holds = o.holds; apart = o.apart };
}

-- `head_` goes on by one node.
pub head-Changed :
    {A : Type 0} {g : Nodes} {q : LockFreeQueue A} (h x : ℕ) (v : A)
    → IsChain g q
    → IsRead g q h x v
    → q.head ≡ h
    → Changed g q (record q { head = x; taken = q.taken ++ v ∷ [] })
head-Changed {g = g} {q} h x v c (i, at_h, was, ahead, at_x, at_v) same =
    let place : i ≡ length q.taken =
      c.distinct i (length q.taken) h at_h (c.head_at ∙ ap some same) in
    let longer : length (q.taken ++ v ∷ []) ≡ suc (length q.taken) =
      length-append q.taken (v ∷ []) ∙ omega arith in
    record {
      nodes = g;
      chain = record {
        sizes = c.sizes;
        head_at = ap (get_elem? g.addrs) (longer ∙ ap suc (sym place)) ∙ at_x;
        tail_at = c.tail_at;
        ahead = omega (arith, longer, ahead, place);
        distinct = c.distinct;
        used = c.used;
        stored = λ j a e. older (omega (arith, longer)) (c.stored j a e);
        values = c.values;
        in_order =
            ap (λ xs. xs ++ v ∷ []) c.in_order
            ∙ sym (take-suc q.linked (length q.taken) (ap (get_elem? q.linked) (sym place) ∙ at_v))
            ∙ ap (λ k. take k q.linked) (sym longer);
      };
      later = record {
        addrs = λ i a e. e;
        linked = λ i v e. e;
        taken = omega (arith, longer);
        last = omega arith;
        fresh = omega arith;
      };
      spares = λ m v ne o. record { fits = o.fits; holds = o.holds; apart = o.apart };
    }
