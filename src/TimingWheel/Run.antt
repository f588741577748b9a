-- ===== src/TimingWheel/Run.antt =====
-- code/TimingWheel.cpp: sequences of ticks, additions and removals, as the loop's thread makes them.
use ecron.Prelude.{
  Bool, Bool-cases, List, Option-cases, [], arith, false, if◌then◌else◌, inl, inr, none, ok,
  ok-injective, refl, some, sym, true, ℕ, ◌==◌, ◌∙◌, ◌∷◌, ◌≡◌, ◌≢◌,
}
use ecron.TimingWheel.{
  Timer, TimerId, TimingWheel, add_job, add_timer_loop, contains, del_job, del_timer_loop, enter,
  handle_timeout, new_timer, place, remove, run_job,
}
use ecron.TimingWheel.Members.{
  Distinct, contains-erase, contains-insert, erase-Distinct, insert-Distinct,
}
use ecron.TimingWheel.Inv.{IsSound, Same, held_once, remove-Same}
use ecron.TimingWheel.Visit.{IsSound-at}

-- What happens to a wheel while the timer at `a` is left alone: ticks, with the tasks that each calls,
-- new timers at addresses that are not in use, and removals of other timers.
pub data Run (a : ℕ) : TimingWheel → List (List ℕ) → TimingWheel → Type 0 where
  done : {w : TimingWheel} → Run a w [] w
  tick :
      {w w₁ w₂ : TimingWheel} {fs : List (List ℕ)} (f : List ℕ)
      → handle_timeout w false ≡ ok (w₁, f)
      → Run a w₁ fs w₂
      → Run a w (f ∷ fs) w₂
  add :
      {w w₁ w₂ : TimingWheel} {fs : List (List ℕ)} (n interval : ℕ) (repeat : Bool)
      → w.heap n ≡ none
      → run_job (new_timer w n interval repeat) (add_job n) ≡ ok w₁
      → Run a w₁ fs w₂
      → Run a w fs w₂
  del :
      {w w₁ w₂ : TimingWheel} {fs : List (List ℕ)} (tid : TimerId)
      → tid.timer ≢ a
      → run_job w (del_job tid) ≡ ok w₁
      → Run a w₁ fs w₂
      → Run a w fs w₂

-- The timer that `new Timer` makes.
abbrev pub made : TimingWheel → ℕ → Bool → Timer
made w interval repeat = record {
  interval = interval;
  task = true;
  repeat = repeat;
  rotation = 0;
  slot = 0;
  seq = w.num_created;
}

unlisted :
    (w : TimingWheel) (n s : ℕ) → IsSound w → w.heap n ≡ none → contains (w.wheel s) n ≡ false
unlisted w n s i e = elim (Bool-cases (contains (w.wheel s) n)) [
  | inl h ↦ let (t, stored, q, l) = i.held s n h in cc
  | inr h ↦ h
]

module _ (w : TimingWheel) (n interval : ℕ) (repeat : Bool) where
  abbrev pub allocated : TimingWheel
  allocated = new_timer w n interval repeat

  pub added-eq : run_job allocated (add_job n) ≡ ok (enter allocated n (made w interval repeat))
  unfolding run_job add_timer_loop new_timer
  added-eq = ground arith

  pub enter_new-Same : (b : ℕ) → n ≢ b → Same b w (enter allocated n (made w interval repeat))
  unfolding enter new_timer
  enter_new-Same b ne = (
    ground arith,
    λ s. ground (arith, contains-insert (w.wheel (place w (made w interval repeat)).slot) n b),
  )

  pub enter_new :
      IsSound w
      → w.heap n ≡ none
      → let w' = enter allocated n (made w interval repeat) in
        (w'.cur_slot ≡ w.cur_slot)
        × (w'.heap n ≡ some (place w (made w interval repeat)))
        × ((s : ℕ) → contains (w'.wheel s) n ≡ (s == (place w (made w interval repeat)).slot))
        × ((s : ℕ) → Distinct (w'.wheel s))
  unfolding enter new_timer
  enter_new i e = (
    refl,
    ground arith,
    λ s. ground (
      arith,
      unlisted w n s i e,
      contains-insert (w.wheel (place w (made w interval repeat)).slot) n n,
    ),
    λ s. ground (
      arith,
      i.distinct s,
      insert-Distinct (w.wheel (place w (made w interval repeat)).slot) n
          (i.distinct (place w (made w interval repeat)).slot),
    ),
  )

  pub enter_new-IsSound :
      IsSound w → w.heap n ≡ none → IsSound (enter allocated n (made w interval repeat))
  enter_new-IsSound i e =
      let (cur, heap, list, distinct) = enter_new i e in
      IsSound-at w (enter allocated n (made w interval repeat)) n i enter_new-Same
        (rw cur i.current)
        (λ s h.
          (place w (made w interval repeat), heap, ground (arith, list s), ground (arith, list s)))
        distinct

pub remove-IsSound :
    (w : TimingWheel) (a : ℕ) (t : Timer)
    → IsSound w
    → w.heap a ≡ some t
    → contains (w.wheel t.slot) a ≡ true
    → IsSound (remove w a t)
remove-IsSound w a t i e m =
    IsSound-at w (remove w a t) a i (λ b ne. remove-Same w a b ne t) i.current
      (λ s h.
        absurd
          (ground (arith, held_once w t.slot s a t i e m, contains-erase (w.wheel t.slot) a a)))
      (λ s. ground (arith, i.distinct s, erase-Distinct (w.wheel t.slot) a (i.distinct t.slot)))

-- A removal finds a stored timer, and takes it out if its bucket holds it.
pub del-cases :
    (w w' : TimingWheel) (tid : TimerId)
    → run_job w (del_job tid) ≡ ok w'
    → (t : Timer) × (w.heap tid.timer ≡ some t)
      × (w' ≡ (if contains (w.wheel t.slot) tid.timer then remove w tid.timer t else w))
unfolding run_job del_timer_loop
del-cases w w' tid e = elim (Option-cases (w.heap tid.timer)) [
  | inl h ↦ absurd (ground arith)
  | inr (t, h) ↦ (t, h, ok-injective w' _ (sym e ∙ ground arith))
]

-- A removal of another timer leaves the wheel sound, and this one alone.
pub del-frame :
    (w w' : TimingWheel) (tid : TimerId)
    → IsSound w
    → run_job w (del_job tid) ≡ ok w'
    → IsSound w' × (w'.cur_slot ≡ w.cur_slot) × ((b : ℕ) → tid.timer ≢ b → Same b w w')
del-frame w w' tid i e =
    let (t, stored, eq) = del-cases w w' tid e in
    elim (Bool-cases (contains (w.wheel t.slot) tid.timer)) [
      | inl h ↦
          let out : w' ≡ remove w tid.timer t = rw h at eq in
          rw out
            (remove-IsSound w tid.timer t i stored h, refl, λ b ne. remove-Same w tid.timer b ne t)
      | inr h ↦ let out : w' ≡ w = rw h at eq in rw out (i, refl, λ b ne. (refl, λ s. refl))
    ]
