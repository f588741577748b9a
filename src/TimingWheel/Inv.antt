-- ===== src/TimingWheel/Inv.antt =====
-- code/TimingWheel.cpp: each address that a bucket holds leads to a timer of that slot.
use ecron.Prelude.{
  Bool, Bool-cases, List, Option, ap, arith, if◌then◌else◌, inl, inr, ltb, none, not, some, true, ℕ,
  ◌&&◌, ◌-◌, ◌<◌, ◌==◌, ◌≡◌, ◌≢◌,
}
use ecron.TimingWheel.{
  Timer, TimingWheel, contains, count_ticks, create, enter, insert, place, remove, visit_one,
}
use ecron.TimingWheel.Members.{Distinct, contains-erase, contains-insert}

abbrev pub Held : TimingWheel → ℕ → ℕ → Type 0
Held w s b = (t : Timer) × (w.heap b ≡ some t) × (t.slot ≡ s) × (s < count_ticks)

pub record IsSound (w : TimingWheel) : Type 0 where
  pub current : w.cur_slot < count_ticks
  pub held : (s b : ℕ) → contains (w.wheel s) b ≡ true → Held w s b
  pub distinct : (s : ℕ) → Distinct (w.wheel s)

pub create-IsSound : (created : ℕ) → IsSound (create created)
unfolding create
create-IsSound created = record { current = omega arith; held = λ s b m. cc; distinct = λ s. tt }

-- An address of a bucket is in no other bucket.
pub held_once :
    (w : TimingWheel) (s r b : ℕ) (t : Timer)
    → IsSound w
    → w.heap b ≡ some t
    → contains (w.wheel s) b ≡ true
    → contains (w.wheel r) b ≡ (r == s)
held_once w s r b t i e m = elim (Bool-cases (contains (w.wheel r) b)) [
  | inl h ↦
      let (t₁, e₁, q₁, l₁) = i.held s b m in let (t₂, e₂, q₂, l₂) = i.held r b h in ground arith
  | inr h ↦ ground (arith, ap (λ k. contains (w.wheel k) b))
]

-- The heap and the buckets at the address `b` are the same in both wheels.
abbrev pub Same : ℕ → TimingWheel → TimingWheel → Type 0
Same b w w' = (w'.heap b ≡ w.heap b) × ((s : ℕ) → contains (w'.wheel s) b ≡ contains (w.wheel s) b)

module _ (w : TimingWheel) (a b : ℕ) (ne : a ≢ b) where
  pub enter-Same : (t : Timer) → Same b w (enter w a t)
  unfolding enter
  enter-Same t = (ground arith, λ s. ground (arith, contains-insert (w.wheel (place w t).slot) a b))

  pub visit_one-Same : (t : Timer) → Same b w (visit_one w a t).0
  unfolding visit_one enter
  visit_one-Same t = (
    ground arith,
    λ s. ground (
      arith,
      contains-insert (w.wheel (place w t).slot) a b,
      contains-erase (w.wheel w.cur_slot) a b,
      contains-erase (insert (w.wheel (place w t).slot) a) a b,
    ),
  )

  pub remove-Same : (t : Timer) → Same b w (remove w a t)
  remove-Same t = (ground arith, λ s. ground (arith, contains-erase (w.wheel t.slot) a b))

pub cur_slot-visit_one :
    (w : TimingWheel) (a : ℕ) (t : Timer) → (visit_one w a t).0.cur_slot ≡ w.cur_slot
unfolding visit_one enter
cur_slot-visit_one w a t = ground arith

-- What one visit makes of the timer `t` that it visits: the record, its buckets, and whether its
-- task is called.
abbrev pub next_timer : TimingWheel → Timer → Option Timer
next_timer w t =
    if ltb 0 t.rotation
    then some (record t { rotation = t.rotation - 1 })
    else (if t.repeat then some (place w t) else none)

abbrev pub next_listed : TimingWheel → Timer → ℕ → Bool
next_listed w t s =
    if ltb 0 t.rotation
    then s == w.cur_slot
    else t.repeat && ((s == (place w t).slot) && not (s == w.cur_slot))

abbrev pub fires : Timer → Bool
fires t = not (ltb 0 t.rotation) && t.task

pub record Visited (w : TimingWheel) (a : ℕ) (t : Timer) (w' : TimingWheel) (f : List ℕ)
    : Type 0 where
  pub timer : w'.heap a ≡ next_timer w t
  pub listed : (s : ℕ) → contains (w'.wheel s) a ≡ next_listed w t s
  pub called : contains f a ≡ fires t

pub visit_one-Visited :
    (w : TimingWheel) (a : ℕ) (t : Timer)
    → IsSound w
    → w.heap a ≡ some t
    → contains (w.wheel w.cur_slot) a ≡ true
    → Visited w a t (visit_one w a t).0 (visit_one w a t).1
unfolding visit_one enter
visit_one-Visited w a t i e m = record {
  timer = ground arith;
  listed = λ s. ground (
    arith,
    held_once w w.cur_slot s a t i e m,
    held_once w w.cur_slot (place w t).slot a t i e m,
    contains-insert (w.wheel (place w t).slot) a a,
    contains-erase (w.wheel w.cur_slot) a a,
    contains-erase (insert (w.wheel (place w t).slot) a) a a,
  );
  called = ground arith;
}
