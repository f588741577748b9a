-- ===== src/TimingWheel/Lost.antt =====
-- code/TimingWheel.cpp: what becomes of a repeating timer after its task was called.
use ecron.Prelude.{
  List, ap, arith, false, length, ok, ok-injective, size_mod, some, subst, suc, sym, true, ℕ, ◌%◌,
  ◌+◌, ◌∙◌, ◌≡◌, ◌≢◌, ◌≤◌,
}
use ecron.TimingWheel.{Timer, TimingWheel, contains, enter, handle_timeout, place, start, stepped}
use ecron.TimingWheel.Inv.{IsSound, Same}
use ecron.TimingWheel.Due.{Ticked, Ticked-of, Waits, remaining, tick_last}
use ecron.TimingWheel.Run.{
  Run, add, added-eq, allocated, del, del-frame, done, enter_new-IsSound, enter_new-Same, made,
  tick,
}
use ecron.TimingWheel.Fires.{Silent, fires-remaining}

-- A repeating timer whose interval is no multiple of 60 is called again `interval` ticks after each
-- call, and by no tick between.
pub repeat-period :
    (w w₁ w₂ w₃ : TimingWheel) (a : ℕ) (t : Timer) (f g : List ℕ) (fs : List (List ℕ))
    → IsSound w
    → Waits w a t
    → remaining w t ≡ 1
    → t.repeat ≡ true
    → t.interval % 60 ≢ 0
    → t.interval + 60 ≤ size_mod
    → handle_timeout w false ≡ ok (w₁, f)
    → Run a w₁ fs w₂
    → handle_timeout w₂ false ≡ ok (w₃, g)
    → suc (length fs) ≡ t.interval
    → (contains f a ≡ t.task) × Silent a fs × (contains g a ≡ t.task)
repeat-period w w₁ w₂ w₃ a t f g fs i p due_now again off small e run e' h =
    let k = Ticked-of w w₁ f i e in
    let (called, heap, list) = tick_last w w₁ f a t i k p due_now in
    let waits : Waits w₁ a (place w₁ t) = record {
      stored = ground (arith, heap);
      listed = ground (arith, list (place w₁ t).slot, k.sound.current);
    } in
    let r : remaining w₁ (place w₁ t) ≡ t.interval = ground (arith, k.sound.current) in
    let (quiet, last) = fires-remaining a (place w₁ t) g k.sound waits run e' (h ∙ sym r) in
    (called, quiet, last)

-- The timer behind `a` is in no bucket, and is not deleted either.
record IsLost (w : TimingWheel) (a : ℕ) : Type 0 where
  sound : IsSound w
  timer : Timer
  stored : w.heap a ≡ some timer
  nowhere : (s : ℕ) → contains (w.wheel s) a ≡ false

IsLost-Same : (w w' : TimingWheel) (a : ℕ) → IsSound w' → Same a w w' → IsLost w a → IsLost w' a
IsLost-Same w w' a i same l = record {
  sound = i;
  timer = l.timer;
  stored = same.0 ∙ l.stored;
  nowhere = λ s. same.1 s ∙ l.nowhere s;
}

tick-Lost :
    (w w' : TimingWheel) (f : List ℕ) (a : ℕ)
    → IsLost w a
    → Ticked w w' f
    → IsLost w' a × (contains f a ≡ false)
unfolding start
tick-Lost w w' f a l k =
    let out = l.nowhere (stepped w).cur_slot in
    (IsLost-Same w w' a k.sound (k.others a out) l, k.silent a out)

Run-Lost :
    (a : ℕ) {w w' : TimingWheel} {fs : List (List ℕ)} → IsLost w a → Run a w fs w' → Silent a fs
Run-Lost a l done = tt
Run-Lost a {w} l (tick {w₁ = w₁} f e run) =
    let (l₁, quiet) = tick-Lost w w₁ f a l (Ticked-of w w₁ f l.sound e) in
    (quiet, Run-Lost a l₁ run)
Run-Lost a {w} l (add {w₁ = w₁} n interval repeat free_n e run) =
    let w₂ = enter (allocated w n interval repeat) n (made w interval repeat) in
    let out : w₁ ≡ w₂ = ok-injective w₁ w₂ (sym e ∙ added-eq w n interval repeat) in
    let ne : n ≢ a = λ q. absurd (ground (arith, ap w.heap q, l.stored)) in
    let l₂ : IsLost w₂ a =
      IsLost-Same w w₂ a (enter_new-IsSound w n interval repeat l.sound free_n)
        (enter_new-Same w n interval repeat a ne) l in
    Run-Lost a (subst (λ x. IsLost x a) (sym out) l₂) run
Run-Lost a {w} l (del {w₁ = w₁} tid ne e run) =
    let (i₁, c₁, same) = del-frame w w₁ tid l.sound e in
    Run-Lost a (IsLost-Same w w₁ a i₁ (same a ne) l) run

-- A repeating timer whose interval is a multiple of 60 is called once and never again: the loop
-- erases the entry that `add_timer_loop` would have put back, and the timer is not deleted.
pub repeat-lost :
    (w w₁ w₂ : TimingWheel) (a : ℕ) (t : Timer) (f : List ℕ) (fs : List (List ℕ))
    → IsSound w
    → Waits w a t
    → remaining w t ≡ 1
    → t.repeat ≡ true
    → t.interval % 60 ≡ 0
    → t.interval + 60 ≤ size_mod
    → handle_timeout w false ≡ ok (w₁, f)
    → Run a w₁ fs w₂
    → (contains f a ≡ t.task)
      × (w₁.heap a ≡ some (place w₁ t))
      × ((s : ℕ) → contains (w₁.wheel s) a ≡ false)
      × Silent a fs
repeat-lost w w₁ w₂ a t f fs i p due_now again whole small e run =
    let k = Ticked-of w w₁ f i e in
    let (called, heap, list) = tick_last w w₁ f a t i k p due_now in
    let stored : w₁.heap a ≡ some (place w₁ t) = ground (arith, heap) in
    let nowhere : (s : ℕ) → contains (w₁.wheel s) a ≡ false =
      λ s. ground (arith, list s, k.sound.current) in
    let l : IsLost w₁ a = record {
      sound = k.sound;
      timer = place w₁ t;
      stored = stored;
      nowhere = nowhere;
    } in
    (called, stored, nowhere, Run-Lost a l run)
