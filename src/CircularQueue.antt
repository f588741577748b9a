-- ===== src/CircularQueue.antt =====
-- code/CircularQueue.hpp: a ring of `max_count` places, one of which stays free; a push into a full
-- ring drops the oldest item. `vector_` is the list of its elements: `reserve` makes none. An access
-- beyond them is a fault, and so is a remainder by 0.
pub mod Reserved
mod Tests
use ecron.Prelude.{
  Bool, List, Option, Outcome, [], add_size, fault, get_elem?, if◌then◌else◌, length, length_error,
  ltb, none, ok, set, some, sub_size, ℕ, ◌%◌, ◌==◌, ◌>>=◌, ◌∷◌,
}

pub record CircularQueue {ℓ} (A : Type ℓ) : Type ℓ where
  pub vector : List A
  pub max_count : ℕ
  pub head : ℕ
  pub tail : ℕ

-- The calls of a user, and what each returns.
pub data Call {ℓ} (A : Type ℓ) : Type ℓ where
  put : A → Call A
  take_one : Call A
  see_front : Call A
  see_back : Call A
  count : Call A

pub data Answer {ℓ} (A : Type ℓ) : Type ℓ where
  done : Answer A
  got : Option A → Answer A
  number : ℕ → Answer A

module _ {ℓ} {A : Type ℓ} where
  unfoldable pub create : CircularQueue A
  create = record { vector = []; max_count = 0; head = 0; tail = 0 }

  -- It returns true, if `reserve` does not throw; `max_size` is that of the vector.
  unfoldable pub init : ℕ → CircularQueue A → ℕ → Outcome (CircularQueue A)
  init max_size q max_count =
      if ltb max_size (add_size max_count 1)
      then length_error
      else ok (record q { max_count = add_size max_count 1; head = 0; tail = 0 })

  -- `idx % max_count_`
  abbrev pub remainder : CircularQueue A → ℕ → Outcome ℕ
  remainder q idx = if q.max_count == 0 then fault else ok (idx % q.max_count)

  unfoldable pub next_index : CircularQueue A → ℕ → Outcome ℕ
  next_index q idx = remainder q (add_size idx 1)

  unfoldable pub prev_index : CircularQueue A → ℕ → Outcome ℕ
  prev_index q idx = remainder q (sub_size (add_size idx q.max_count) 1)

  -- `vector_[i]`, read and written
  abbrev pub at_index : List A → ℕ → Outcome A
  at_index xs i = elim (get_elem? xs i) as (λ x. Outcome A) [ none ↦ fault | some x ↦ ok x ]

  abbrev pub put_at : List A → ℕ → A → Outcome (List A)
  put_at xs i x = if ltb i (length xs) then ok (set xs i x) else fault

  unfoldable pub empty : CircularQueue A → Bool
  empty q = q.head == q.tail

  unfoldable pub full : CircularQueue A → Outcome Bool
  full q = do next ← next_index q q.tail; ok (q.head == next)

  unfoldable pub size : CircularQueue A → Outcome ℕ
  size q = remainder q (add_size (sub_size q.tail q.head) q.max_count)

  -- The place for one more item, the oldest one being dropped from a full ring.
  unfoldable pub make_room : CircularQueue A → Outcome (CircularQueue A)
  make_room q = do
    is_full ← full q
    if is_full then (do h ← next_index q q.head; ok (record q { head = h })) else ok q

  -- Both overloads, which always return true.
  unfoldable pub push : CircularQueue A → A → Outcome (CircularQueue A)
  push q item = do
    r ← make_room q
    v ← put_at r.vector r.tail item
    t ← next_index r r.tail
    ok (record r { vector = v; tail = t })

  unfoldable pub pop : CircularQueue A → Outcome (Option A × CircularQueue A)
  pop q = if empty q then ok (none, q) else (do
    x ← at_index q.vector q.head
    h ← next_index q q.head
    ok (some x, record q { head = h }))

  unfoldable pub front : CircularQueue A → Outcome (Option A)
  front q = if empty q then ok none else (do x ← at_index q.vector q.head; ok (some x))

  unfoldable pub back : CircularQueue A → Outcome (Option A)
  back q =
      if empty q
      then ok none
      else (do i ← prev_index q q.tail; x ← at_index q.vector i; ok (some x))

  unfoldable pub call : CircularQueue A → Call A → Outcome (Answer A × CircularQueue A)
  call q (put x) = do q' ← push q x; ok (done, q')
  call q take_one = do r ← pop q; ok (got r.0, r.1)
  call q see_front = do r ← front q; ok (got r, q)
  call q see_back = do r ← back q; ok (got r, q)
  call q count = do n ← size q; ok (number n, q)

  unfoldable pub run : CircularQueue A → List (Call A) → Outcome (List (Answer A) × CircularQueue A)
  run q [] = ok ([], q)
  run q (c ∷ cs) = do r ← call q c; rest ← run r.1 cs; ok (r.0 ∷ rest.0, rest.1)
