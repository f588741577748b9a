-- ===== src/TimingWheel/Fires.antt =====
-- code/TimingWheel.cpp: a timer that is left alone fires at the tick when it is due, and no sooner.
use ecron.Prelude.{
  ==_refl, Bool, List, [], ap, arith, false, if◌then◌else◌, length, none, ok, ok-injective, refl,
  size_mod, subst, suc, sym, true, ℕ, ◌%◌, ◌*◌, ◌+◌, ◌-◌, ◌<◌, ◌==◌, ◌∙◌, ◌∷◌, ◌≡◌, ◌≢◌, ◌≤◌,
}
use ecron.TimingWheel.{
  Timer, TimingWheel, add_job, add_timer, contains, count_ticks, enter, handle_timeout, place,
  run_job,
}
use ecron.TimingWheel.Inv.{IsSound, Same}
use ecron.TimingWheel.Due.{Ticked-of, Waits, remaining, tick_last, tick_nearer}
use ecron.TimingWheel.Run.{
  Run, add, added-eq, allocated, del, del-frame, done, enter_new, enter_new-IsSound, enter_new-Same,
  made, tick,
}

-- None of the ticks called the task of the timer at `a`.
abbrev pub Silent : ℕ → List (List ℕ) → Type 0
Silent a [] = Unit {0}
Silent a (f ∷ fs) = (contains f a ≡ false) × Silent a fs

-- A timer that still waits, `r` ticks after it had so many left.
pub record Nearer (w : TimingWheel) (a : ℕ) (t : Timer) (fs : List (List ℕ)) (r : ℕ) : Type 0 where
  pub later : Timer
  pub sound : IsSound w
  pub waits : Waits w a later
  pub left : remaining w later + length fs ≡ r
  pub quiet : Silent a fs
  pub kept : (later.interval ≡ t.interval) × (later.task ≡ t.task) × (later.repeat ≡ t.repeat)

Waits-Same : (w w' : TimingWheel) (a : ℕ) (t : Timer) → Same a w w' → Waits w a t → Waits w' a t
Waits-Same w w' a t same p = record {
  stored = same.0 ∙ p.stored;
  listed = same.1 t.slot ∙ p.listed;
}

-- `remaining` by the slot that the wheel is at.
abbrev left_at : Timer → ℕ → ℕ
left_at t c = (t.slot + 59 - c) % 60 + 1 + 60 * t.rotation

Nearer-left :
    {w : TimingWheel} {a : ℕ} {t : Timer} {fs : List (List ℕ)} {r r' : ℕ}
    → r ≡ r'
    → Nearer w a t fs r
    → Nearer w a t fs r'
Nearer-left {w} {a} {t} {fs} e n = subst (Nearer w a t fs) e n

pub Run-Nearer :
    (a : ℕ) {w w' : TimingWheel} (t : Timer) {fs : List (List ℕ)}
    → IsSound w
    → Waits w a t
    → Run a w fs w'
    → length fs < remaining w t
    → Nearer w' a t fs (remaining w t)
Run-Nearer a t i p done h = record {
  later = t;
  sound = i;
  waits = p;
  left = omega arith;
  quiet = tt;
  kept = (refl, refl, refl);
}
Run-Nearer a {w} t i p (tick {w₁ = w₁} f e run) h =
    let k = Ticked-of w w₁ f i e in
    let (t₁, p₁, near, quiet, kept) = tick_nearer w w₁ f a t i k p (omega arith) in
    let n = Run-Nearer a t₁ k.sound p₁ run (omega arith) in
    record {
      later = n.later;
      sound = n.sound;
      waits = n.waits;
      left = omega (arith, n.left);
      quiet = (quiet, n.quiet);
      kept = (n.kept.0 ∙ kept.0, n.kept.1 ∙ kept.1, n.kept.2 ∙ kept.2);
    }
Run-Nearer a {w} t i p (add {w₁ = w₁} n interval repeat free_n e run) h =
    let w₂ = enter (allocated w n interval repeat) n (made w interval repeat) in
    let out : w₁ ≡ w₂ = ok-injective w₁ w₂ (sym e ∙ added-eq w n interval repeat) in
    let (cur, heap, list, distinct) = enter_new w n interval repeat i free_n in
    let ne : n ≢ a = λ q. absurd (ground (arith, ap w.heap q, p.stored)) in
    let i₁ : IsSound w₁ = rw out (enter_new-IsSound w n interval repeat i free_n) in
    let p₁ : Waits w₁ a t =
      rw out (Waits-Same w w₂ a t (enter_new-Same w n interval repeat a ne) p) in
    let c₁ : w₁.cur_slot ≡ w.cur_slot = rw out cur in
    Nearer-left (ap (left_at t) c₁) (Run-Nearer a t i₁ p₁ run (rw c₁ h))
Run-Nearer a {w} t i p (del {w₁ = w₁} tid ne e run) h =
    let (i₁, c₁, same) = del-frame w w₁ tid i e in
    Nearer-left (ap (left_at t) c₁)
      (Run-Nearer a t i₁ (Waits-Same w w₁ a t (same a ne) p) run (rw c₁ h))

-- Ticks from the addition of a timer with this interval to the call of its task.
abbrev pub due : ℕ → ℕ
due k = if k % 60 == 0 then k + 60 else k

-- A timer that is left alone since it had `r` ticks left is called at the r-th tick, and by none of
-- the ticks before.
pub fires-remaining :
    {w w₁ w₂ : TimingWheel} (a : ℕ) (t : Timer) {fs : List (List ℕ)} (f : List ℕ)
    → IsSound w
    → Waits w a t
    → Run a w fs w₁
    → handle_timeout w₁ false ≡ ok (w₂, f)
    → suc (length fs) ≡ remaining w t
    → Silent a fs × (contains f a ≡ t.task)
fires-remaining {w} {w₁} {w₂} a t f i p run e h =
    let n = Run-Nearer a t i p run (omega arith) in
    let k = Ticked-of w₁ w₂ f n.sound e in
    let last = tick_last w₁ w₂ f a n.later n.sound k n.waits (omega (arith, n.left)) in
    (n.quiet, last.0 ∙ n.kept.1)

-- Where a new timer lies, and after how many ticks it is due.
placed-due :
    (w : TimingWheel) (interval : ℕ) (repeat : Bool)
    → w.cur_slot < count_ticks
    → 0 < interval
    → interval + 60 ≤ size_mod
    → remaining w (place w (made w interval repeat)) ≡ due interval
placed-due w interval repeat cur more small = ground arith

-- What the loop's job for a new timer leaves behind.
record Added (w : TimingWheel) (a interval : ℕ) (repeat : Bool) (w₁ : TimingWheel) : Type 0 where
  sound : IsSound w₁
  waits : Waits w₁ a (place w (made w interval repeat))
  cur : w₁.cur_slot ≡ w.cur_slot

add_timer-Added :
    (w : TimingWheel) (a interval : ℕ) (repeat : Bool) (w₁ : TimingWheel)
    → IsSound w
    → w.heap a ≡ none
    → 0 < interval
    → run_job (add_timer w a interval true repeat).0 (add_job a) ≡ ok w₁
    → Added w a interval repeat w₁
unfolding add_timer
add_timer-Added w a interval repeat w₁ i fresh more e =
    let t : Timer = made w interval repeat in
    let (cur, heap, list, distinct) = enter_new w a interval repeat i fresh in
    let given : (interval == 0) ≡ false = ground arith in
    let e' : run_job (allocated w a interval repeat) (add_job a) ≡ ok w₁ = rw given at e in
    let out : w₁ ≡ enter (allocated w a interval repeat) a t =
      ok-injective w₁ _ (sym e' ∙ added-eq w a interval repeat) in
    subst (Added w a interval repeat) (sym out) (record {
      sound = enter_new-IsSound w a interval repeat i fresh;
      waits = record { stored = heap; listed = list (place w t).slot ∙ ==_refl (place w t).slot };
      cur = cur;
    })

-- A timer added on a sound wheel with `add_timer`, once the loop has run the job, is called at tick
-- number `due interval` and by no tick before, whatever other timers come and go: after `interval`
-- ticks if that is no multiple of 60, and 60 ticks later than that if it is one.
pub add_timer-fires :
    (w : TimingWheel) (a interval : ℕ) (repeat : Bool) (w₁ w₂ w₃ : TimingWheel) (fs : List (List ℕ))
    (f : List ℕ)
    → IsSound w
    → w.heap a ≡ none
    → 0 < interval
    → interval + 60 ≤ size_mod
    → run_job (add_timer w a interval true repeat).0 (add_job a) ≡ ok w₁
    → Run a w₁ fs w₂
    → handle_timeout w₂ false ≡ ok (w₃, f)
    → suc (length fs) ≡ due interval
    → Silent a fs × (contains f a ≡ true)
add_timer-fires w a interval repeat w₁ w₂ w₃ fs f i fresh more small e run last h =
    let t : Timer = place w (made w interval repeat) in
    let d = add_timer-Added w a interval repeat w₁ i fresh more e in
    let r : remaining w₁ t ≡ due interval =
      ap (left_at t) d.cur ∙ placed-due w interval repeat i.current more small in
    fires-remaining a t f d.sound d.waits run last (h ∙ sym r)

-- A timer that does not repeat is deleted at the tick that calls it.
pub add_timer-gone :
    (w : TimingWheel) (a interval : ℕ) (w₁ w₂ w₃ : TimingWheel) (fs : List (List ℕ)) (f : List ℕ)
    → IsSound w
    → w.heap a ≡ none
    → 0 < interval
    → interval + 60 ≤ size_mod
    → run_job (add_timer w a interval true false).0 (add_job a) ≡ ok w₁
    → Run a w₁ fs w₂
    → handle_timeout w₂ false ≡ ok (w₃, f)
    → suc (length fs) ≡ due interval
    → w₃.heap a ≡ none
add_timer-gone w a interval w₁ w₂ w₃ fs f i fresh more small e run last h =
    let t : Timer = place w (made w interval false) in
    let d = add_timer-Added w a interval false w₁ i fresh more e in
    let r : remaining w₁ t ≡ due interval =
      ap (left_at t) d.cur ∙ placed-due w interval false i.current more small in
    let n = Run-Nearer a t d.sound d.waits run (omega (arith, r, h)) in
    let k = Ticked-of w₂ w₃ f n.sound last in
    let at_last = tick_last w₂ w₃ f a n.later n.sound k n.waits (omega (arith, n.left, r, h)) in
    ground (arith, at_last.1, n.kept.2)
