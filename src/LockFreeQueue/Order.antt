-- ===== src/LockFreeQueue/Order.antt =====
-- code/LockFreeQueue.hpp: what goes in comes out, once and in its order, and stays in the memory.
use ecron.Prelude.{
  Bool-cases, Ends-ok, List, Option, [], ap, arith, drop, false, get_elem?-below, get_elem?-ge,
  get_elem?-lt, inl, inr, length, length-drop, none, refl, some, subst, suc, sym, take-drop, zero,
  ℕ, ℕ_discrete, ◌++◌, ◌<◌, ◌∙◌, ◌∷◌, ◌≡◌, ◌≢◌, ◌≤◌,
}
use ecron.LockFreeQueue.{
  LockFreeQueue, Node, Place, begin_pop, begin_push, create, empty, full, outside, pop_count,
  pop_free, pop_head, pop_help, pop_move, pop_next, pop_read, pop_tail, pop_test, popped,
  push_count, push_help, push_link, push_move, push_next, push_tail, push_test, pushed, with_sentry,
}
use ecron.LockFreeQueue.Chain.{
  IsChain, IsStored, Knows, Knows-Later, Nodes, alive, deleted, next_of, or_null, own, ◌at◌is◌,
}
use ecron.LockFreeQueue.Shared.{Stepped, stays}
use ecron.LockFreeQueue.Heap.{new_node-Stepped}
use ecron.LockFreeQueue.Turn.{Leaves, step-Ends}
use ecron.LockFreeQueue.Run.{
  Reach, Step, System, go, here, moving, next, place_at, popping, pushing, returning, start,
}

pub record IsGood {A : Type 0} (g : Nodes) (s : System A) : Type 0 where
  pub chain : IsChain g s.shared
  pub knows : (k : ℕ) → Knows g s.shared (s.threads k)
  pub apart : (j k : ℕ) → j ≢ k → own (s.threads j) ≢ 0 → own (s.threads j) ≢ own (s.threads k)

place_self : {A : Type 0} (f : ℕ → Place A) (k j : ℕ) (p : Place A) → k ≡ j → place_at f k p j ≡ p
place_self f k j p e = ground arith

place-ne : {A : Type 0} (f : ℕ → Place A) (k j : ℕ) (p : Place A) → k ≢ j → place_at f k p j ≡ f j
place-ne f k j p ne = ground arith

own-lt-fresh :
    {A : Type 0} (g : Nodes) (q : LockFreeQueue A) (p : Place A)
    → Knows g q p
    → own p ≢ 0
    → own p < q.fresh
own-lt-fresh g q outside k h = absurd (h refl)
own-lt-fresh g q (push_tail n v) k h = omega (arith, k.fits)
own-lt-fresh g q (push_next n v t) k h = omega (arith, k.0.fits)
own-lt-fresh g q (push_test n v t x) k h = omega (arith, k.0.fits)
own-lt-fresh g q (push_help n v t x) k h = omega (arith, k.0.fits)
own-lt-fresh g q (push_link n v t) k h = omega (arith, k.0.fits)
own-lt-fresh g q (push_move n t) k h = absurd (h refl)
own-lt-fresh g q push_count k h = absurd (h refl)
own-lt-fresh g q (pushed done) k h = absurd (h refl)
own-lt-fresh g q pop_head k h = absurd (h refl)
own-lt-fresh g q (pop_tail x) k h = absurd (h refl)
own-lt-fresh g q (pop_next x t) k h = absurd (h refl)
own-lt-fresh g q (pop_test x t y) k h = absurd (h refl)
own-lt-fresh g q (pop_help t x) k h = absurd (h refl)
own-lt-fresh g q (pop_read x y) k h = absurd (h refl)
own-lt-fresh g q (pop_move x y v) k h = absurd (h refl)
own-lt-fresh g q (pop_free x v) k h = absurd (h refl)
own-lt-fresh g q (pop_count v) k h = absurd (h refl)
own-lt-fresh g q (popped got) k h = absurd (h refl)

module _ {A : Type 0} {g : Nodes} {s : System A} (i : IsGood g s) (k : ℕ) {q' : LockFreeQueue A}
    (p' : Place A) (st : Stepped g s.shared (s.threads k) q' p') where
  -- The thread's own node, if it is not the one it had, is a new one.
  own-apart : (j : ℕ) → k ≢ j → own (s.threads j) ≢ 0 → own (s.threads j) ≢ own p'
  own-apart j ne some_own e =
      let low = own-lt-fresh g s.shared (s.threads j) (i.knows j) some_own in
      elim st.owned [
        | inl null ↦ some_own (e ∙ null)
        | inr (inl same) ↦ i.apart j k (λ f. ne (sym f)) some_own (e ∙ same)
        | inr (inr above) ↦ omega (arith, low, above, e)
      ]

  Knows-others : (j : ℕ) → k ≢ j → Knows st.nodes q' (s.threads j)
  Knows-others j ne =
      Knows-Later (own (s.threads k)) (s.threads j) st.later st.spares
        (i.apart j k (λ f. ne (sym f))) (i.knows j)

  Knows-all : (j : ℕ) → Knows st.nodes q' (place_at s.threads k p' j)
  Knows-all j = elim (ℕ_discrete k j) [
    | yes e ↦ subst (Knows st.nodes q') (sym (place_self s.threads k j p' e)) st.knows
    | no ne ↦ subst (Knows st.nodes q') (sym (place-ne s.threads k j p' ne)) (Knows-others j ne)
  ]

  apart-all :
      (j l : ℕ)
      → j ≢ l
      → own (place_at s.threads k p' j) ≢ 0
      → own (place_at s.threads k p' j) ≢ own (place_at s.threads k p' l)
  apart-all j l ne some_own = elim (ℕ_discrete k j) [
    | yes e ↦
        let at_j = place_self s.threads k j p' e in
        let other : k ≢ l = λ f. ne (sym e ∙ f) in
        let at_l = place-ne s.threads k l p' other in
        λ same.
          own-apart l other (λ null. some_own (same ∙ ap own at_l ∙ null))
            (sym (ap own at_l) ∙ sym same ∙ ap own at_j)
    | no f ↦
        let at_j = place-ne s.threads k j p' f in
        elim (ℕ_discrete k l) [
          | yes e ↦
              let at_l = place_self s.threads k l p' e in
              λ same.
                own-apart j f (λ null. some_own (ap own at_j ∙ null))
                  (sym (ap own at_j) ∙ same ∙ ap own at_l)
          | no e ↦
              let at_l = place-ne s.threads k l p' e in
              λ same.
                i.apart j l ne (λ null. some_own (ap own at_j ∙ null))
                  (sym (ap own at_j) ∙ same ∙ ap own at_l)
        ]
  ]

  pub gone-IsGood : IsGood st.nodes (go s k (q', p'))
  gone-IsGood = record { chain = st.chain; knows = Knows-all; apart = apart-all }

begin_push-Stepped :
    {A : Type 0} {g : Nodes} (q : LockFreeQueue A) (p : Place A) (v : A)
    → IsChain g q
    → Stepped g q p (begin_push q v).0 (begin_push q v).1
unfolding begin_push
begin_push-Stepped {g = g} q p v c = elim (Bool-cases (full q)) [
  | inl refused ↦ rw refused (stays p (pushed false) c tt (inl refl))
  | inr room ↦
      let some_fresh : 0 < q.fresh = omega (arith, c.used (length q.taken) q.head c.head_at) in
      rw room (new_node-Stepped p v some_fresh c)
]

begin_pop-Stepped :
    {A : Type 0} {g : Nodes} (q : LockFreeQueue A) (p : Place A)
    → IsChain g q
    → Stepped g q p q (begin_pop q)
unfolding begin_pop
begin_pop-Stepped q p c = elim (Bool-cases (empty q)) [
  | inl none_there ↦ rw none_there (stays p (popped none) c tt (inl refl))
  | inr some_there ↦ rw some_there (stays p pop_head c tt (inl refl))
]

Step-IsGood :
    {A : Type 0} {g : Nodes} {s t : System A} → IsGood g s → Step s t → (h : Nodes) × IsGood h t
Step-IsGood {s = s} i (pushing k v e) =
    (_, gone-IsGood i k _ (begin_push-Stepped s.shared (s.threads k) v i.chain))
Step-IsGood {s = s} i (popping k e) =
    (_, gone-IsGood i k _ (begin_pop-Stepped s.shared (s.threads k) i.chain))
Step-IsGood {g = g} {s} i (moving k weak r e) =
    let st =
      Ends-ok (Leaves g s.shared (s.threads k)) _ r e
        (step-Ends i.chain weak (s.threads k) (i.knows k)) in
    (_, gone-IsGood i k r.1 st)
Step-IsGood {s = s} i (returning k e) =
    (_, gone-IsGood i k _ (stays (s.threads k) outside i.chain tt (inl refl)))

-- The memory from the node at `a` on: `items` are the values of the nodes behind it, and the last
-- `next_` is null.
abbrev pub Spells : {A : Type 0} → (ℕ → Option (Node A)) → ℕ → List A → Type 0
Spells {A} heap a [] = (n : Node A) × (heap a ≡ some n) × (n.next ≡ 0)
Spells {A} heap a (x ∷ xs) =
    (n : Node A) × (m : Node A) × (heap a ≡ some n)
    × (heap n.next ≡ some m)
    × (m.value ≡ x)
    × Spells heap n.next xs

drop-cons :
    {A : Type 0} (i : ℕ) (xs : List A) (y : A) (ys : List A)
    → drop i xs ≡ y ∷ ys
    → (xs at i is y) × (drop (suc i) xs ≡ ys)
drop-cons zero [] y ys e = cc
drop-cons zero (x ∷ xs) y ys e = (cc, cc)
drop-cons (suc i) [] y ys e = cc
drop-cons (suc i) (x ∷ xs) y ys e = drop-cons i xs y ys e

module _ {A : Type 0} {g : Nodes} {q : LockFreeQueue A} (c : IsChain g q) where
  lies :
      (i a : ℕ)
      → length q.taken ≤ i
      → g.addrs at i is a
      → (n : Node A) × (q.heap a ≡ some n) × (n.next ≡ next_of g.addrs i)
  lies i a h e = of (c.stored i a e)
    where
      of :
          IsStored q.heap (length q.taken) g.addrs i a
          → (n : Node A) × (q.heap a ≡ some n) × (n.next ≡ next_of g.addrs i)
      of (alive v s) = (_, s, refl)
      of (deleted gone b) = absurd (omega arith)

  spelled :
      (i a : ℕ) (xs : List A)
      → length q.taken ≤ i
      → g.addrs at i is a
      → drop i q.linked ≡ xs
      → Spells q.heap a xs
  spelled i a [] h e d =
      let (n, s, same) = lies i a h e in
      let short : length g.addrs ≤ suc i =
        omega (arith, length-drop i q.linked, ap length d, c.sizes) in
      (n, s, same ∙ ap or_null (get_elem?-ge g.addrs (suc i) short))
  spelled i a (x ∷ xs) h e d =
      let (n, s, same) = lies i a h e in
      let (item, later) = drop-cons i q.linked x xs d in
      let (b, found) =
        get_elem?-below g.addrs (suc i) (omega (arith, get_elem?-lt q.linked i item, c.sizes)) in
      let (m, s', same') = lies (suc i) b (omega arith) found in
      let to : n.next ≡ b = same ∙ ap or_null found in
      let value : m.value ≡ x = cc (sym (c.values i b m found s') ∙ item) in
      (
        n,
        m,
        s,
        ap q.heap to ∙ s',
        value,
        subst (λ p. Spells q.heap p xs) (sym to) (spelled (suc i) b xs (omega arith) found later),
      )

single-at : (i a : ℕ) → (1 ∷ []) at i is a → (i ≡ 0) × (a ≡ 1)
single-at zero a e = (refl, cc)
single-at (suc i) a e = cc

start-IsGood :
    {A : Type 0} (v : A) (max_count : ℕ)
    → IsGood (record { addrs = 1 ∷ []; last = 0 }) (start v max_count)
unfolding with_sentry create
start-IsGood v max_count = record {
  chain = record {
    sizes = refl;
    head_at = refl;
    tail_at = refl;
    ahead = omega arith;
    distinct = λ i j a e f. (single-at i a e).0 ∙ sym (single-at j a f).0;
    used = λ i a e. omega (arith, single-at i a e);
    stored = λ i a e. rw ((single-at i a e).0, (single-at i a e).1) (alive v refl);
    values = λ i a n e h. cc;
    in_order = refl;
  };
  knows = λ k. tt;
  apart = λ j k ne some_own. absurd (some_own refl);
}

Reach-IsGood :
    {A : Type 0} (v : A) (max_count : ℕ) {s : System A}
    → Reach (start v max_count) s
    → (g : Nodes) × IsGood g s
Reach-IsGood v max_count here = (_, start-IsGood v max_count)
Reach-IsGood v max_count (next r x) = let (g, i) = Reach-IsGood v max_count r in Step-IsGood i x

-- In every run of any number of threads from the first `init` on, whatever compare-exchanges fail
-- spuriously, as long as no access goes through a dangling pointer and no address is given twice: the
-- items whose nodes were linked, in the order of the linking, are those that `pop` took, in the order
-- in which it took them, and then those that the memory spells from `head_` on.
pub Reach-IsQueue :
    {A : Type 0} (v : A) (max_count : ℕ) {s : System A}
    → Reach (start v max_count) s
    → (rest : List A) × (s.shared.linked ≡ s.shared.taken ++ rest)
      × Spells s.shared.heap s.shared.head rest
Reach-IsQueue v max_count {s} r =
    let (g, i) = Reach-IsGood v max_count r in
    let k = length s.shared.taken in
    (
      drop k s.shared.linked,
      take-drop k s.shared.linked ∙ ap (λ xs. xs ++ drop k s.shared.linked) (sym i.chain.in_order),
      spelled i.chain k s.shared.head (drop k s.shared.linked) (omega arith) i.chain.head_at refl,
    )
