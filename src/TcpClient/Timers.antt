-- ===== src/TcpClient/Timers.antt =====
-- code/TcpClient.cpp: the timers that a client has in its loop's wheel.
use ecron.Prelude.{
  ==_refl, Bool-cases, Ends, Ends-bind, Ends-map, List, [], ap, arith, false, inl, inr, length,
  none, ok, refl, some, subst, sym, true, ℕ, ◌<◌, ◌==◌, ◌>>=◌, ◌∙◌, ◌∷◌, ◌≡◌, ◌≤◌,
}
use Prim.{tt}
use ecron.TimingWheel.{
  remove, Timer, add_job, no_timer, TimerId, TimingWheel, add_timer, contains, erase, run_job,
  del_timer, del_timer_loop, deref, new_timer,
}
use ecron.TcpClient.{TcpClient, arm, await_retry, cancel_timer}
use ecron.TcpClient.Run.{is_waiting, waiting_of}

-- Each of the timers is the one of the address `t`, which is not null.
abbrev pub AreAt : ℕ → List ℕ → Type 0
AreAt t [] = Unit
AreAt t (a ∷ rest) = (a ≡ t) × (0 < t) × AreAt t rest

pub waiting_of-AreAt :
    (w : TimingWheel) (t : ℕ) (xs : List ℕ) → AreAt t xs → AreAt t (waiting_of w xs)
waiting_of-AreAt w t [] k = tt
waiting_of-AreAt w t (a ∷ rest) k = elim (Bool-cases (is_waiting w a)) [
  | inl e ↦ rw e (k.0, k.1, waiting_of-AreAt w t rest k.2)
  | inr e ↦ rw e (waiting_of-AreAt w t rest k.2)
]

pub length-waiting_of : (w : TimingWheel) (xs : List ℕ) → length (waiting_of w xs) ≤ length xs
length-waiting_of w [] = omega arith
length-waiting_of w (a ∷ rest) = elim (Bool-cases (is_waiting w a)) [
  | inl e ↦ rw e (omega (arith, length-waiting_of w rest))
  | inr e ↦ rw e (omega (arith, length-waiting_of w rest))
]

-- If that timer does not wait, none does.
pub waiting_of-none :
    (w : TimingWheel) (t : ℕ) (xs : List ℕ)
    → AreAt t xs
    → (0 < t → is_waiting w t ≡ false)
    → waiting_of w xs ≡ []
waiting_of-none w t [] k h = refl
waiting_of-none w t (a ∷ rest) k h =
    rw (ap (is_waiting w) k.0 ∙ h k.1) (waiting_of-none w t rest k.2 h)

pub erase-AreAt : (t b : ℕ) (xs : List ℕ) → AreAt t xs → AreAt t (erase xs b)
unfolding erase
erase-AreAt t b [] k = tt
erase-AreAt t b (a ∷ rest) k = elim (Bool-cases (a == b)) [
  | inl e ↦ rw e (erase-AreAt t b rest k.2)
  | inr e ↦ rw e (k.0, k.1, erase-AreAt t b rest k.2)
]

erase-length : (xs : List ℕ) (b : ℕ) → length (erase xs b) ≤ length xs
unfolding erase
erase-length [] b = omega arith
erase-length (a ∷ rest) b = ground (arith, erase-length rest b)

pub length-erase : (xs : List ℕ) (b : ℕ) → contains xs b ≡ true → length (erase xs b) < length xs
unfolding erase
length-erase [] b h = cc
length-erase (a ∷ rest) b h = elim (Bool-cases (a == b)) [
  | inl e ↦ rw e (omega (arith, erase-length rest b))
  | inr e ↦
      let there : contains rest b ≡ true = ground (arith, h, e) in
      rw e (omega (arith, length-erase rest b there))
]

-- Once a timer was deleted or is not found in its bucket, no tick can come to it.
abbrev Cancelled : ℕ → TimingWheel → Type 0
Cancelled a w = is_waiting w a ≡ false

deref-stored : (w : TimingWheel) (a : ℕ) (t : Timer) → deref w a ≡ ok t → w.heap a ≡ some t
deref-stored w a t e = ground (arith, e)

is_waiting-none : (w : TimingWheel) (a : ℕ) → w.heap a ≡ none → is_waiting w a ≡ false
is_waiting-none w a e = ground (arith, e)

is_waiting-some :
    (w : TimingWheel) (a : ℕ) (t : Timer)
    → w.heap a ≡ some t
    → is_waiting w a ≡ contains (w.wheel t.slot) a
is_waiting-some w a t e = ground (arith, e)

del_timer_loop-Ends :
    (w : TimingWheel) (tid : TimerId) → Ends (Cancelled tid.timer) (del_timer_loop w tid)
unfolding del_timer_loop
del_timer_loop-Ends w tid = Ends-bind (Cancelled tid.timer) (deref w tid.timer) _ (λ t e.
    elim (Bool-cases (contains (w.wheel t.slot) tid.timer)) [
      | inl there ↦
          rw there (is_waiting-none (remove w tid.timer t) tid.timer (rw (==_refl tid.timer) refl))
      | inr gone ↦ rw gone (is_waiting-some w tid.timer t (deref-stored w tid.timer t e) ∙ gone)
    ])

cancel-null :
    (w : TimingWheel) (tid : TimerId) → (tid.timer == 0) ≡ true → cancel_timer w tid ≡ ok w
unfolding cancel_timer del_timer
cancel-null w tid e = ground (arith, e)

cancel-job :
    (w : TimingWheel) (tid : TimerId)
    → (tid.timer == 0) ≡ false
    → cancel_timer w tid ≡ del_timer_loop w tid
unfolding cancel_timer del_timer run_job
cancel-job w tid e = ground (arith, e)

pub cancel_timer-Ends :
    (w : TimingWheel) (tid : TimerId)
    → Ends (λ w'. 0 < tid.timer → is_waiting w' tid.timer ≡ false) (cancel_timer w tid)
cancel_timer-Ends w tid = elim (Bool-cases (tid.timer == 0)) [
  | inl null ↦
      subst (Ends (λ w'. 0 < tid.timer → is_waiting w' tid.timer ≡ false))
        (sym (cancel-null w tid null)) (λ h. absurd (ground (arith, null, h)))
  | inr e ↦
      subst (Ends (λ w'. 0 < tid.timer → is_waiting w' tid.timer ≡ false))
        (sym (cancel-job w tid e))
        (Ends-map (Cancelled tid.timer) _ (del_timer_loop w tid) (λ w' c h. c)
          (del_timer_loop-Ends w tid))
]

-- The retry's timer, if it waits, is the one that the client remembers.
abbrev pub Remembers : ℕ → TcpClient × TimingWheel → Type 0
Remembers a r = AreAt r.0.timer.timer (waiting_of r.1 (a ∷ []))

no_interval :
    (c : TcpClient) (w : TimingWheel) (a : ℕ)
    → (c.interval == 0) ≡ true
    → await_retry c w a ≡ ok (record c { conn = none; timer = no_timer }, w)
unfolding await_retry arm add_timer
no_interval c w a e = rw e refl

some_interval :
    (c : TcpClient) (w : TimingWheel) (a : ℕ)
    → (c.interval == 0) ≡ false
    → await_retry c w a ≡ (do
      w' ← run_job (new_timer w a c.interval false) (add_job a)
      ok (record c { conn = none; timer = record { timer = a; seq = w.num_created } }, w'))
unfolding await_retry arm add_timer
some_interval c w a e = rw e refl

at_own : (w : TimingWheel) (a : ℕ) → 0 < a → AreAt a (waiting_of w (a ∷ []))
at_own w a h = elim (Bool-cases (is_waiting w a)) [ inl e ↦ rw e (refl, h, tt) | inr e ↦ rw e tt ]

none_waits : (w : TimingWheel) (a : ℕ) → w.heap a ≡ none → waiting_of w (a ∷ []) ≡ []
none_waits w a e = rw (is_waiting-none w a e) refl

pub await_retry-Ends :
    (c : TcpClient) (w : TimingWheel) (a : ℕ)
    → 0 < a
    → w.heap a ≡ none
    → Ends (Remembers a) (await_retry c w a)
await_retry-Ends c w a h fresh = elim (Bool-cases (c.interval == 0)) [
  | inl e ↦
      subst (Ends (Remembers a)) (sym (no_interval c w a e))
        (subst (AreAt 0) (sym (none_waits w a fresh)) tt)
  | inr e ↦ subst (Ends (Remembers a)) (sym (some_interval c w a e)) (
      Ends-bind (Remembers a) (run_job (new_timer w a c.interval false) (add_job a)) _
        (λ w' e'. at_own w' a h))
]
