-- ===== src/EventLoopPool/Turns.antt =====
-- code/EventLoopPool.cpp: each loop has its turn.
use ecron.Prelude.{
  Bool-cases, [], add_size, ap, arith, get_elem?, get_elem?-append_end, get_elem?-append_lt,
  get_elem?-below, inl, inr, length, length-append, ltb, ok, refl, some, suc, sym, zero, ℕ, ◌%◌,
  ◌+◌, ◌<◌, ◌^◌, ◌∙◌, ◌∷◌, ◌≡◌,
}
use native.Mathlib.Nat.{mod-add-mod, mod-eq_of_lt, mod-lt}
use ecron.EventLoopPool.{
  EventLoopPool, add_loops, create, get_nextloop, get_nextloop_after, set_threads, start,
}

get_nextloop-eq :
    (p : EventLoopPool) (loop : ℕ)
    → 0 < length p.loops
    → get_elem? p.loops p.next ≡ some loop
    → get_nextloop p ≡ ok (loop, record p { next = add_size p.next 1 % length p.loops })
unfolding get_nextloop
get_nextloop-eq p loop more e = ground (arith, e)

turns :
    (i : ℕ) (p : EventLoopPool) (loop : ℕ)
    → p.next < length p.loops
    → length p.loops < 2 ^ 64
    → get_elem? p.loops ((p.next + i) % length p.loops) ≡ some loop
    → (p' : EventLoopPool) × (get_nextloop_after i p ≡ ok (loop, p'))
unfolding get_nextloop_after
turns zero p loop inside small e = (
  record p { next = add_size p.next 1 % length p.loops },
  get_nextloop-eq p loop (omega arith) (ap (get_elem? p.loops) same ∙ e),
)
  where
    same : p.next ≡ (p.next + 0) % length p.loops
    same = sym (ap (λ n. n % length p.loops) (omega arith) ∙ mod-eq_of_lt inside)
turns (suc i) p loop inside small e =
    let (now, found) = get_elem?-below p.loops p.next inside in
    let p' = record p { next = add_size p.next 1 % length p.loops } in
    let step : add_size p.next 1 ≡ p.next + 1 = omega arith in
    let same : (add_size p.next 1 % length p.loops + i) % length p.loops
        ≡ (p.next + suc i) % length p.loops =
      mod-add-mod (add_size p.next 1) (length p.loops) i
      ∙ ap (λ n. n % length p.loops) (omega arith) in
    let (q, later) =
      turns i p' loop (mod-lt (add_size p.next 1) (omega arith)) small
        (ap (get_elem? p.loops) same ∙ e) in
    (q, rw (get_nextloop-eq p now (omega arith) found) later)

length-add_loops : (made : ℕ → ℕ) (n : ℕ) → length (add_loops made n []) ≡ n
unfolding add_loops
length-add_loops made zero = refl
length-add_loops made (suc n) =
    omega (arith, length-append (add_loops made n []) (made n ∷ []), length-add_loops made n)

get_elem?-add_loops :
    (made : ℕ → ℕ) (n i : ℕ) → i < n → get_elem? (add_loops made n []) i ≡ some (made i)
unfolding add_loops
get_elem?-add_loops made zero i h = absurd (omega arith)
get_elem?-add_loops made (suc n) i h = elim (Bool-cases (ltb i n)) [
  | inl l ↦
      get_elem?-append_lt (add_loops made n []) (made n ∷ []) i
        (ground (arith, length-add_loops made n))
      ∙ get_elem?-add_loops made n i (ground arith)
  | inr l ↦
      let top : i ≡ n = ground arith in
      get_elem?-append_end (add_loops made n []) (made n) i (omega (arith, length-add_loops made n))
      ∙ ap (λ j. some (made j)) (sym top)
]

-- After start with `n` threads, not 0 and fewer than 2 ^ 64, each call of get_nextloop returns, and
-- the one that follows `i` others returns the loop number `i % n`, in the order of their creation.
pub start-round_robin :
    (made : ℕ → ℕ) (base n i : ℕ)
    → 0 < n
    → n < 2 ^ 64
    → (p : EventLoopPool) × (get_nextloop_after i (start made (set_threads (create base) n))
        ≡ ok (made (i % n), p))
unfolding start set_threads create
start-round_robin made base n i more small =
    let p = start made (set_threads (create base) n) in
    let size = length-add_loops made n in
    let first : 0 + i ≡ i = omega arith in
    turns i p (made (i % n)) (omega arith) (omega arith) (
      ap (λ m. get_elem? (add_loops made n []) ((0 + i) % m)) size
      ∙ ap (λ j. get_elem? (add_loops made n []) (j % n)) first
      ∙ get_elem?-add_loops made n (i % n) (mod-lt i more))
