-- ===== src/TimingWheel/Due.antt =====
-- code/TimingWheel.cpp: after how many ticks the task of a timer is called.
use ecron.Prelude.{
  List, add_size, arith, false, if◌then◌else◌, none, not, ok, ok-injective, refl, some, subst, sym,
  true, ℕ, ℕ_discrete, ◌%◌, ◌&&◌, ◌*◌, ◌+◌, ◌-◌, ◌<◌, ◌==◌, ◌∙◌, ◌≡◌, ◌≢◌,
}
use ecron.TimingWheel.{
  Timer, TimingWheel, contains, count_ticks, handle_timeout, place, start, stepped,
}
use ecron.TimingWheel.Inv.{IsSound, Visited, held_once}
use ecron.TimingWheel.Visit.{Looped, visit-Looped}

-- The timer `t` behind `a` lies in the bucket of its slot.
pub record Waits (w : TimingWheel) (a : ℕ) (t : Timer) : Type 0 where
  pub stored : w.heap a ≡ some t
  pub listed : contains (w.wheel t.slot) a ≡ true

-- Ticks until the loop finds the timer with no rotation left.
abbrev pub remaining : TimingWheel → Timer → ℕ
remaining w t = (t.slot + 59 - w.cur_slot) % 60 + 1 + 60 * t.rotation

stepped-IsSound : (w : TimingWheel) → IsSound w → IsSound (stepped w)
unfolding start
stepped-IsSound w i = record {
  current = omega (arith, i.current);
  held = i.held;
  distinct = i.distinct;
}

heap-stepped : (w : TimingWheel) → (stepped w).heap ≡ w.heap
unfolding start
heap-stepped w = refl

wheel-stepped : (w : TimingWheel) → (stepped w).wheel ≡ w.wheel
unfolding start
wheel-stepped w = refl

abbrev pub Ticked : TimingWheel → TimingWheel → List ℕ → Type 0
Ticked w w' f = Looped (stepped w) ((stepped w).wheel (stepped w).cur_slot) w' f

pub handle_timeout-Ticked :
    (w : TimingWheel)
    → IsSound w
    → (w' : TimingWheel) × (f : List ℕ) × (handle_timeout w false ≡ ok (w', f)) × Ticked w w' f
unfolding handle_timeout
handle_timeout-Ticked w i =
    let j = stepped-IsSound w i in
    visit-Looped (stepped w) ((stepped w).wheel (stepped w).cur_slot) j
      (j.distinct (stepped w).cur_slot) (λ b h. h)

pub Ticked-of :
    (w w' : TimingWheel) (f : List ℕ)
    → IsSound w
    → handle_timeout w false ≡ ok (w', f)
    → Ticked w w' f
Ticked-of w w' f i e =
    let (w₁, f₁, e₁, k) = handle_timeout-Ticked w i in
    subst (λ r. Ticked w r.0 r.1) (ok-injective (w₁, f₁) (w', f) (sym e₁ ∙ e)) k

module _ (w w' : TimingWheel) (f : List ℕ) (a : ℕ) (t : Timer) (i : IsSound w) (k : Ticked w w' f)
    (p : Waits w a t) where
  in_range : t.slot < 60
  in_range = let (u, e, q, l) = i.held t.slot a p.listed in l

  abbrev next_slot : ℕ
  next_slot = add_size w.cur_slot 1 % count_ticks

  at_next : w'.cur_slot ≡ next_slot
  at_next = k.cur

  -- Whether the loop of this tick meets the timer.
  met : contains (w.wheel next_slot) a ≡ (next_slot == t.slot)
  met = held_once w t.slot next_slot a t i p.stored p.listed

  passed_by :
      next_slot ≢ t.slot
      → (w'.heap a ≡ some t) × (contains (w'.wheel t.slot) a ≡ true) × (contains f a ≡ false)
  unfolding start
  passed_by ne =
      let out : contains (w.wheel next_slot) a ≡ false = ground (arith, met) in
      let (heap, list) = k.others a out in (heap ∙ p.stored, list t.slot ∙ p.listed, k.silent a out)

  reached : next_slot ≡ t.slot → Visited (stepped w) a t w' f
  unfolding start
  reached e = k.visited a t (ground (arith, met)) p.stored

  -- A tick that is not the last one brings the timer one tick nearer.
  pub tick_nearer :
      1 < remaining w t
      → (t' : Timer) × Waits w' a t'
        × (remaining w' t' + 1 ≡ remaining w t)
        × (contains f a ≡ false)
        × ((t'.interval ≡ t.interval) × (t'.task ≡ t.task) × (t'.repeat ≡ t.repeat))
  unfolding start
  tick_nearer h = elim (ℕ_discrete next_slot t.slot) [
    | yes e ↦
        let v = reached e in
        (
          record t { rotation = t.rotation - 1 },
          record {
            stored = ground (arith, v.timer, i.current);
            listed = ground (arith, v.listed t.slot, i.current);
          },
          ground (arith, at_next, i.current, in_range),
          ground (arith, v.called, i.current),
          (refl, refl, refl),
        )
    | no ne ↦
        let (heap, list, quiet) = passed_by ne in
        (
          t,
          record { stored = heap; listed = list },
          ground (arith, at_next, i.current, in_range),
          quiet,
          (refl, refl, refl),
        )
  ]

  -- The last tick calls the task, and then the timer is placed again or deleted.
  pub tick_last :
      remaining w t ≡ 1
      → (contains f a ≡ t.task)
        × (w'.heap a ≡ (if t.repeat then some (place w' t) else none))
        × ((s : ℕ)
            → contains (w'.wheel s) a
              ≡ (t.repeat && ((s == (place w' t).slot) && not (s == w'.cur_slot))))
  unfolding start
  tick_last h =
      let e : next_slot ≡ t.slot = omega (arith, i.current, in_range) in
      let v = reached e in
      (
        ground (arith, v.called),
        ground (arith, v.timer, at_next),
        λ s. ground (arith, v.listed s, at_next),
      )
