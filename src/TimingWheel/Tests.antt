-- ===== src/TimingWheel/Tests.antt =====
-- code/TimingWheel.cpp: runs on small wheels, and the theorems at them.
use ecron.Prelude.{Bool, [], arith, false, fault, none, refl, some, true, ℕ, ◌<◌, ◌∷◌, ◌≡◌}
use ecron.TimingWheel.{
  Timer, TimerId, TimingWheel, add_timer, add_timer_loop, contains, create, del_timer_loop, enter,
  erase, free, handle_timeout, insert, new_timer, place, run_job, start, stepped, update, visit,
  visit_one,
}
use ecron.TimingWheel.Inv.{IsSound, create-IsSound}
use ecron.TimingWheel.Due.{Waits, remaining}
use ecron.TimingWheel.Run.{done, tick}
use ecron.TimingWheel.Fires.{Silent, add_timer-fires, due}
use ecron.TimingWheel.Lost.{repeat-lost, repeat-period}
use ecron.TimingWheel.Stale.{del_timer_loop-after_fire}

-- A timer at address 7 that was added to a wheel at slot 0 and has `left` full turns to go.
abbrev waiting_timer : ℕ → Bool → ℕ → ℕ → Timer
waiting_timer interval repeat slot left = record {
  interval = interval;
  task = true;
  repeat = repeat;
  rotation = left;
  slot = slot;
  seq = 0;
}

abbrev with_timer : ℕ → Timer → TimingWheel
with_timer cur t = record {
  heap = update (λ _. none) 7 (some t);
  wheel = update (λ _. []) t.slot (7 ∷ []);
  cur_slot = cur;
  num_created = 1;
  waiting = true;
}

with_timer-IsSound : (cur : ℕ) (t : Timer) → cur < 60 → t.slot < 60 → IsSound (with_timer cur t)
with_timer-IsSound cur t h k = record {
  current = h;
  held = λ s b m. (t, ground arith, ground arith, ground arith);
  distinct = λ s. ground arith;
}

with_timer-Waits : (cur : ℕ) (t : Timer) → Waits (with_timer cur t) 7 t
with_timer-Waits cur t = record { stored = ground arith; listed = ground arith }

abbrev once_in_2 : Timer
once_in_2 = waiting_timer 2 false 2 0

-- A timer of 2 seconds is called at the second tick.
add_timer-fires_example : Silent 7 ([] ∷ []) × (contains (7 ∷ []) 7 ≡ true)
unfolding create add_timer new_timer run_job add_timer_loop enter insert handle_timeout start visit
    visit_one erase
add_timer-fires_example =
    add_timer-fires (create 0) 7 2 false _ _ _ ([] ∷ []) (7 ∷ []) (create-IsSound 0) refl
      (omega arith) (omega arith) refl (tick [] refl done) refl refl

-- A minute takes two turns: 119 ticks in silence, the call at the next.
abbrev in_60 : Timer
in_60 = waiting_timer 60 false 0 1

due_examples : (due 59 ≡ 59) × (due 60 ≡ 120) × (due 61 ≡ 61)
due_examples = (refl, refl, refl)

remaining_example : remaining (with_timer 0 in_60) in_60 ≡ 120
remaining_example = refl

-- Every 2 seconds, due now, and again two ticks later.
abbrev every_2 : Timer
every_2 = waiting_timer 2 true 2 0

repeat-period_example :
    (contains (7 ∷ []) 7 ≡ true) × Silent 7 ([] ∷ []) × (contains (7 ∷ []) 7 ≡ true)
unfolding enter insert handle_timeout start visit visit_one erase
repeat-period_example =
    repeat-period (with_timer 1 every_2) _ _ _ 7 every_2 (7 ∷ []) (7 ∷ []) ([] ∷ [])
      (with_timer-IsSound 1 every_2 (omega arith) (omega arith)) (with_timer-Waits 1 every_2) refl
      refl (omega arith) (omega arith) refl (tick [] refl done) refl refl

-- Every minute, due now: called once, then lost.
abbrev every_60 : Timer
every_60 = waiting_timer 60 true 2 0

abbrev called_60 : TimingWheel
called_60 =
    let w = enter (stepped (with_timer 1 every_60)) 7 every_60 in
    record w { wheel = update w.wheel 2 (erase (w.wheel 2) 7) }

repeat-lost_example :
    (contains (7 ∷ []) 7 ≡ true)
    × (called_60.heap 7 ≡ some (place called_60 every_60))
    × ((s : ℕ) → contains (called_60.wheel s) 7 ≡ false)
    × Silent 7 ([] ∷ [])
unfolding enter insert handle_timeout start visit visit_one erase
repeat-lost_example =
    repeat-lost (with_timer 1 every_60) called_60 _ 7 every_60 (7 ∷ []) ([] ∷ [])
      (with_timer-IsSound 1 every_60 (omega arith) (omega arith)) (with_timer-Waits 1 every_60) refl
      refl refl (omega arith) refl (tick [] refl done)

abbrev stale_id : TimerId
stale_id = record { timer = 7; seq = 99 }

abbrev called_once : TimingWheel
called_once =
    let w = free (stepped (with_timer 1 once_in_2)) 7 in
    record w { wheel = update w.wheel 2 (erase (w.wheel 2) 7) }

del_timer_loop-after_fire_example : del_timer_loop called_once stale_id ≡ fault
unfolding handle_timeout start visit visit_one erase
del_timer_loop-after_fire_example =
    del_timer_loop-after_fire (with_timer 1 once_in_2) called_once stale_id once_in_2 (7 ∷ [])
      (with_timer-IsSound 1 once_in_2 (omega arith) (omega arith)) (with_timer-Waits 1 once_in_2)
      refl refl refl
