-- ===== src/EventLoopPool.antt =====
-- code/EventLoopPool.h and code/EventLoopPool.cpp: the loops of the io threads, chosen in turn.
-- A loop is its address. The threads that run the loops are not modelled.
pub mod Turns
mod Tests
use ecron.Prelude.{
  List, Outcome, [], add_size, fault, get_elem?, if◌then◌else◌, length, none, ok, some, suc, zero,
  ℕ, ◌%◌, ◌++◌, ◌==◌, ◌>>=◌, ◌∷◌,
}

pub record EventLoopPool : Type 0 where
  pub num : ℕ
  pub baseloop : ℕ
  pub next : ℕ
  pub loops : List ℕ

unfoldable pub create : ℕ → EventLoopPool
create loop = record { num = 0; baseloop = loop; next = 0; loops = [] }

unfoldable pub set_threads : EventLoopPool → ℕ → EventLoopPool
set_threads p n = record p { num = n }

-- What `emplace_back` has put behind `loops` after `n` turns of the loop, where `made` gives the
-- address of each new EventLoop.
unfoldable pub add_loops : (ℕ → ℕ) → ℕ → List ℕ → List ℕ
add_loops made zero loops = loops
add_loops made (suc n) loops = add_loops made n loops ++ made n ∷ []

unfoldable pub start : (ℕ → ℕ) → EventLoopPool → EventLoopPool
start made p = record p { next = 0; loops = add_loops made p.num p.loops }

unfoldable pub stop : EventLoopPool → EventLoopPool
stop p = record p { loops = [] }

-- The access `loops_[next_]` is a fault out of range.
unfoldable pub get_nextloop : EventLoopPool → Outcome (ℕ × EventLoopPool)
get_nextloop p =
    if length p.loops == 0 then ok (p.baseloop, p) else elim (get_elem? p.loops p.next) [
      | none ↦ fault
      | some loop ↦ ok (loop, record p { next = add_size p.next 1 % length p.loops })
    ]

-- What the call returns that comes after `i` others.
unfoldable pub get_nextloop_after : ℕ → EventLoopPool → Outcome (ℕ × EventLoopPool)
get_nextloop_after zero p = get_nextloop p
get_nextloop_after (suc i) p = do r ← get_nextloop p; get_nextloop_after i r.1
