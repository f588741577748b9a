-- ===== src/ThreadGroup/Tests.antt =====
-- code/ThreadGroup.cpp: a group of three workers, and the theorem at it.
use ecron.Prelude.{none, ok, refl, some, arith, ℕ, ◌+◌, ◌≡◌, negsuc}
use ecron.ThreadGroup.{ThreadGroup, create, get_worker, get_worker_after, new_worker, start}
use ecron.ThreadGroup.Turns.{start-turns}

abbrev address : ℕ → ℕ
address i = 100 + i

-- The default bound, 0, is refused.
default_example : (start address create 3 0).0 ≡ negsuc 0
unfolding start
default_example = refl

none_example : get_worker create ≡ ok (none, create)
unfolding get_worker create
none_example = refl

start-turns_example :
    (g : ThreadGroup) × (get_worker_after 4 (start address create 3 10).1 ≡ ok (some 101, g))
    × (g.heap 101 ≡ some (new_worker 100000))
start-turns_example = start-turns address 3 10 4 (omega arith) (omega arith) (omega arith)
