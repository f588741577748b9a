-- ===== src/CircularQueue/Reserved.antt =====
-- code/CircularQueue.hpp: the ring as `init` leaves it, for whose elements there is only room.
use ecron.Prelude.{
  Bool, Bool-cases, Ends, Ends-ok, List, [], add_size, arith, false, fault, inl, inr, ltb, ok, refl,
  true, ℕ, ◌==◌, ◌∷◌, ◌≡◌,
}
use ecron.CircularQueue.{
  Call, CircularQueue, back, call, count, empty, front, full, init, make_room, next_index, pop,
  push, put, run, see_back, see_front, size, take_one,
}

module _ {A : Type 0} where
  abbrev pub has_put : List (Call A) → Bool
  has_put [] = false
  has_put (put x ∷ cs) = true
  has_put (take_one ∷ cs) = has_put cs
  has_put (see_front ∷ cs) = has_put cs
  has_put (see_back ∷ cs) = has_put cs
  has_put (count ∷ cs) = has_put cs

  -- No element, and the head at the tail.
  record IsReserved (q : CircularQueue A) : Type 0 where
    no_element : q.vector ≡ []
    at_tail : q.head ≡ q.tail

  push-IsReserved : (q : CircularQueue A) (x : A) → IsReserved q → push q x ≡ fault
  unfolding push make_room full next_index
  push-IsReserved q x i = ground (arith, i.no_element, i.at_tail)

  is_empty : (q : CircularQueue A) → IsReserved q → (q.head == q.tail) ≡ true
  is_empty q i = ground (arith, i.at_tail)

  run-IsReserved :
      (q : CircularQueue A) (cs : List (Call A))
      → IsReserved q
      → has_put cs ≡ true
      → run q cs ≡ fault
  unfolding run call pop front back empty size
  run-IsReserved q [] i h = cc
  run-IsReserved q (put x ∷ cs) i h = rw (push-IsReserved q x i) refl
  run-IsReserved q (take_one ∷ cs) i h = rw (is_empty q i, run-IsReserved q cs i h) refl
  run-IsReserved q (see_front ∷ cs) i h = rw (is_empty q i, run-IsReserved q cs i h) refl
  run-IsReserved q (see_back ∷ cs) i h = rw (is_empty q i, run-IsReserved q cs i h) refl
  run-IsReserved q (count ∷ cs) i h = elim (Bool-cases (q.max_count == 0)) [
    | inl null ↦ rw null refl
    | inr some_place ↦ rw (some_place, run-IsReserved q cs i h) refl
  ]

  init-IsReserved :
      (max_size : ℕ) (q : CircularQueue A) (n : ℕ)
      → q.vector ≡ []
      → Ends IsReserved (init max_size q n)
  unfolding init
  init-IsReserved max_size q n e = elim (Bool-cases (ltb max_size (add_size n 1))) [
    | inl big ↦ rw big tt
    | inr fits ↦ rw fits (record { no_element = e; at_tail = refl })
  ]

  -- But behind an `init` that returned, a queue whose vector had no element has none: whatever room was
  -- reserved, every sequence of calls with a push in it comes to an access beyond the elements.
  pub run-faults :
      (max_size : ℕ) (q q' : CircularQueue A) (n : ℕ) (cs : List (Call A))
      → q.vector ≡ []
      → init max_size q n ≡ ok q'
      → has_put cs ≡ true
      → run q' cs ≡ fault
  run-faults max_size q q' n cs e made h =
      run-IsReserved q' cs
        (Ends-ok IsReserved (init max_size q n) q' made (init-IsReserved max_size q n e)) h
