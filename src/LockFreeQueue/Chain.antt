-- ===== src/LockFreeQueue/Chain.antt =====
-- code/LockFreeQueue.hpp: the nodes that were ever linked, in their order, and what a thread knows of
-- them. A node is told by its place in this order, which only grows.
use ecron.Prelude.{
  List, Option, arith, get_elem?, length, none, some, suc, take, ℕ, ◌<◌, ◌≡◌, ◌≢◌, ◌≤◌,
}
use ecron.LockFreeQueue.{
  LockFreeQueue, Node, Place, outside, pop_count, pop_free, pop_head, pop_help, pop_move, pop_next,
  pop_read, pop_tail, pop_test, popped, push_count, push_help, push_link, push_move, push_next,
  push_tail, push_test, pushed,
}

-- The addresses of the nodes that were linked, the first sentry in front, and the place of `tail_`.
pub record Nodes : Type 0 where
  pub addrs : List ℕ
  pub last : ℕ

infix 40 ◌at◌is◌
abbrev pub ◌at◌is◌ : {A : Type 0} → List A → ℕ → A → Type 0
xs at i is a = get_elem? xs i ≡ some a

abbrev pub or_null : Option ℕ → ℕ
or_null none = 0
or_null (some a) = a

-- What `next_` of the node at place `i` is.
abbrev pub next_of : List ℕ → ℕ → ℕ
next_of addrs i = or_null (get_elem? addrs (suc i))

-- Of the node at place `i`, the head being at `k`: it lies there, or it is behind the head and was
-- deleted.
pub data IsStored {A : Type 0} (heap : ℕ → Option (Node A)) (k : ℕ) (addrs : List ℕ) (i a : ℕ)
    : Type 0 where
  alive :
      (v : A)
      → heap a ≡ some (record { value = v; next = next_of addrs i })
      → IsStored heap k addrs i a
  deleted : heap a ≡ none → i < k → IsStored heap k addrs i a

pub record IsChain {A : Type 0} (g : Nodes) (q : LockFreeQueue A) : Type 0 where
  pub sizes : length g.addrs ≡ suc (length q.linked)
  pub head_at : g.addrs at length q.taken is q.head
  pub tail_at : g.addrs at g.last is q.tail
  pub ahead : length q.taken ≤ g.last
  pub distinct : (i j a : ℕ) → g.addrs at i is a → g.addrs at j is a → i ≡ j
  pub used : (i a : ℕ) → g.addrs at i is a → (0 < a) × (a < q.fresh)
  pub stored : (i a : ℕ) → g.addrs at i is a → IsStored q.heap (length q.taken) g.addrs i a
  pub values :
      (i a : ℕ) (n : Node A) → g.addrs at suc i is a → q.heap a ≡ some n → q.linked at i is n.value
  pub in_order : q.taken ≡ take (length q.taken) q.linked

-- A node of a thread that is not linked yet.
pub record IsOwn {A : Type 0} (g : Nodes) (q : LockFreeQueue A) (n : ℕ) (v : A) : Type 0 where
  pub fits : (0 < n) × (n < q.fresh)
  pub holds : q.heap n ≡ some (record { value = v; next = 0 })
  pub apart : (i a : ℕ) → g.addrs at i is a → a ≢ n

abbrev pub IsLinked : Nodes → ℕ → Type 0
IsLinked g t = (i : ℕ) × (g.addrs at i is t)

abbrev pub IsNext : Nodes → ℕ → ℕ → Type 0
IsNext g t x = (i : ℕ) × (g.addrs at i is t) × (g.addrs at suc i is x)

-- `x` was read from `next_` of `t`.
abbrev pub WasNext : Nodes → ℕ → ℕ → Type 0
WasNext g t x = (i : ℕ) × (g.addrs at i is t) × (x ≢ 0 → g.addrs at suc i is x)

-- `h` was the head.
abbrev pub WasHead : {A : Type 0} → Nodes → LockFreeQueue A → ℕ → Type 0
WasHead g q h = (i : ℕ) × (g.addrs at i is h) × (i ≤ length q.taken)

-- So it was when `t` was read from `tail_`: if it was not `h`, it was in front of it.
abbrev pub WasTail : {A : Type 0} → Nodes → LockFreeQueue A → ℕ → ℕ → Type 0
WasTail g q h t = (i : ℕ) × (g.addrs at i is h) × (i ≤ length q.taken) × (h ≢ t → i < g.last)

abbrev pub WasBehind : {A : Type 0} → Nodes → LockFreeQueue A → ℕ → ℕ → ℕ → Type 0
WasBehind g q h t x =
    (i : ℕ) × (g.addrs at i is h)
    × (i ≤ length q.taken)
    × (h ≢ t → i < g.last)
    × (h ≢ t → g.addrs at suc i is x)
    × (x ≢ 0 → g.addrs at suc i is x)

abbrev pub IsBehind : {A : Type 0} → Nodes → LockFreeQueue A → ℕ → ℕ → Type 0
IsBehind g q h x =
    (i : ℕ) × (g.addrs at i is h) × (i ≤ length q.taken) × (i < g.last) × (g.addrs at suc i is x)

abbrev pub IsRead : {A : Type 0} → Nodes → LockFreeQueue A → ℕ → ℕ → A → Type 0
IsRead g q h x v =
    (i : ℕ) × (g.addrs at i is h)
    × (i ≤ length q.taken)
    × (i < g.last)
    × (g.addrs at suc i is x)
    × (q.linked at i is v)

abbrev pub IsPassed : {A : Type 0} → Nodes → LockFreeQueue A → ℕ → Type 0
IsPassed g q h = (i : ℕ) × (g.addrs at i is h) × (i < length q.taken)

-- What a thread knows where it is.
abbrev pub Knows : {A : Type 0} → Nodes → LockFreeQueue A → Place A → Type 0
Knows g q outside = Unit
Knows g q (push_tail n v) = IsOwn g q n v
Knows g q (push_next n v t) = IsOwn g q n v × IsLinked g t
Knows g q (push_test n v t x) = IsOwn g q n v × WasNext g t x
Knows g q (push_help n v t x) = IsOwn g q n v × IsNext g t x
Knows g q (push_link n v t) = IsOwn g q n v × IsLinked g t
Knows g q (push_move n t) = IsNext g t n
Knows g q push_count = Unit
Knows g q (pushed done) = Unit
Knows g q pop_head = Unit
Knows g q (pop_tail h) = WasHead g q h
Knows g q (pop_next h t) = WasTail g q h t
Knows g q (pop_test h t x) = WasBehind g q h t x
Knows g q (pop_help t x) = IsNext g t x
Knows g q (pop_read h x) = IsBehind g q h x
Knows g q (pop_move h x v) = IsRead g q h x v
Knows g q (pop_free h v) = IsPassed g q h
Knows g q (pop_count v) = Unit
Knows g q (popped got) = Unit

-- The node of its own that a thread has not linked, 0 if there is none.
abbrev pub own : {A : Type 0} → Place A → ℕ
own (push_tail n v) = n
own (push_next n v t) = n
own (push_test n v t x) = n
own (push_help n v t x) = n
own (push_link n v t) = n
own _ = 0

-- What never goes back, in a later state.
pub record Later {A : Type 0} (g : Nodes) (q : LockFreeQueue A) (g' : Nodes) (q' : LockFreeQueue A)
    : Type 0 where
  pub addrs : (i a : ℕ) → g.addrs at i is a → g'.addrs at i is a
  pub linked : (i : ℕ) (v : A) → q.linked at i is v → q'.linked at i is v
  pub taken : length q.taken ≤ length q'.taken
  pub last : g.last ≤ g'.last
  pub fresh : q.fresh ≤ q'.fresh

-- The nodes that other threads own, `n` being the one of this thread, stay theirs.
abbrev pub Spares : {A : Type 0} → Nodes → LockFreeQueue A → Nodes → LockFreeQueue A → ℕ → Type 0
Spares {A} g q g' q' n = (m : ℕ) (v : A) → m ≢ n → IsOwn g q m v → IsOwn g' q' m v

-- What a thread knows stays true while others go on.
pub Knows-Later :
    {A : Type 0} {g g' : Nodes} {q q' : LockFreeQueue A} (n : ℕ) (p : Place A)
    → Later g q g' q'
    → Spares g q g' q' n
    → (own p ≢ 0 → own p ≢ n)
    → Knows g q p
    → Knows g' q' p
Knows-Later n outside l s d k = tt
Knows-Later n (push_tail m v) l s d k = s m v (d (omega (arith, k.fits))) k
Knows-Later n (push_next m v t) l s d (o, (i, e)) =
    (s m v (d (omega (arith, o.fits))) o, (i, l.addrs i t e))
Knows-Later n (push_test m v t x) l s d (o, (i, e, f)) =
    (s m v (d (omega (arith, o.fits))) o, (i, l.addrs i t e, λ ne. l.addrs (suc i) x (f ne)))
Knows-Later n (push_help m v t x) l s d (o, (i, e, f)) =
    (s m v (d (omega (arith, o.fits))) o, (i, l.addrs i t e, l.addrs (suc i) x f))
Knows-Later n (push_link m v t) l s d (o, (i, e)) =
    (s m v (d (omega (arith, o.fits))) o, (i, l.addrs i t e))
Knows-Later n (push_move m t) l s d (i, e, f) = (i, l.addrs i t e, l.addrs (suc i) m f)
Knows-Later n push_count l s d k = tt
Knows-Later n (pushed done) l s d k = tt
Knows-Later n pop_head l s d k = tt
Knows-Later n (pop_tail h) l s d (i, e, b) = (i, l.addrs i h e, omega (arith, l.taken))
Knows-Later n (pop_next h t) l s d (i, e, b, f) =
    (i, l.addrs i h e, omega (arith, l.taken), λ ne. omega (arith, f ne, l.last))
Knows-Later n (pop_test h t x) l s d (i, e, b, f, c, r) = (
  i,
  l.addrs i h e,
  omega (arith, l.taken),
  λ ne. omega (arith, f ne, l.last),
  λ ne. l.addrs (suc i) x (c ne),
  λ ne. l.addrs (suc i) x (r ne),
)
Knows-Later n (pop_help t x) l s d (i, e, f) = (i, l.addrs i t e, l.addrs (suc i) x f)
Knows-Later n (pop_read h x) l s d (i, e, b, c, f) =
    (i, l.addrs i h e, omega (arith, l.taken), omega (arith, l.last), l.addrs (suc i) x f)
Knows-Later n (pop_move h x v) l s d (i, e, b, c, f, r) = (
  i,
  l.addrs i h e,
  omega (arith, l.taken),
  omega (arith, l.last),
  l.addrs (suc i) x f,
  l.linked i v r,
)
Knows-Later n (pop_free h v) l s d (i, e, b) = (i, l.addrs i h e, omega (arith, l.taken))
Knows-Later n (pop_count v) l s d k = tt
Knows-Later n (popped got) l s d k = tt
