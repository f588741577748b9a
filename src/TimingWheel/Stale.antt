-- ===== src/TimingWheel/Stale.antt =====
-- code/TimingWheel.cpp: `del_timer_loop` with a timer that is gone.
use ecron.Prelude.{List, arith, false, fault, ok, ℕ, ◌≡◌}
use ecron.TimingWheel.{Timer, TimerId, TimingWheel, del_timer_loop, handle_timeout}
use ecron.TimingWheel.Inv.{IsSound}
use ecron.TimingWheel.Due.{Ticked-of, Waits, remaining, tick_last}

-- Once a timer that does not repeat was called it is deleted, and `del_timer_loop` with its TimerId
-- reads the deleted timer.
pub del_timer_loop-after_fire :
    (w w' : TimingWheel) (tid : TimerId) (t : Timer) (f : List ℕ)
    → IsSound w
    → Waits w tid.timer t
    → remaining w t ≡ 1
    → t.repeat ≡ false
    → handle_timeout w false ≡ ok (w', f)
    → del_timer_loop w' tid ≡ fault
unfolding del_timer_loop
del_timer_loop-after_fire w w' tid t f i p due_now once e =
    let k = Ticked-of w w' f i e in
    let (called, heap, list) = tick_last w w' f tid.timer t i k p due_now in ground (arith, heap)
