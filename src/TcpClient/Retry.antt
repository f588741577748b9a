-- ===== src/TcpClient/Retry.antt =====
-- code/TcpClient.cpp with code/TimingWheel.cpp: the timer of a retry, and a disconnect behind it.
use ecron.Prelude.{
  >>=-eq-ok, Ends, Ends-bind, Ends-ok, List, ap, arith, false, fault, length, none, ok,
  ok-injective, refl, size_mod, some, subst, suc, sym, true, ℕ, ◌+◌, ◌<◌, ◌==◌, ◌∙◌, ◌≡◌, ◌≤◌,
}
use ecron.TcpConnection
use ecron.TcpConnection.{Callbacks}
use ecron.TcpClient
use ecron.TimingWheel
use ecron.TcpClient.{
  TcpClient, Request, arm, await_retry, cancel_timer, connect_loop, disconnect_loop, drop_conn,
  failure, handle_connect,
}
use ecron.TimingWheel.{
  Job, TimerId, TimingWheel, add_job, add_timer, contains, del_timer, del_timer_loop, new_timer,
  run_job,
}
use ecron.TimingWheel.Inv.{IsSound}
use ecron.TimingWheel.Run.{Run}
use ecron.TimingWheel.Fires.{add_timer-fires, Silent, add_timer-gone, due}

-- `add_timer` with an interval.
add_timer-given :
    (w : TimingWheel) (a interval : ℕ)
    → 0 < interval
    → add_timer w a interval true false
      ≡ (new_timer w a interval false, some (add_job a), record { timer = a; seq = w.num_created })
unfolding add_timer
add_timer-given w a interval more =
    let given : (interval == 0) ≡ false = ground arith in rw given refl

arm-timer :
    (c c' : TcpClient) (w w' : TimingWheel) (a n : ℕ)
    → arm c (w, some (add_job a), record { timer = a; seq = n }) ≡ ok (c', w')
    → (run_job w (add_job a) ≡ ok w') × (c'.timer ≡ record { timer = a; seq = n })
unfolding arm
arm-timer c c' w w' a n e =
    let (v, ran, out) = >>=-eq-ok (run_job w (add_job a)) _ _ e in
    let both = ok-injective _ _ out in (ran ∙ ap (λ r. ok r.1) both, sym (ap (λ r. r.0.timer) both))

-- After a failed attempt the wheel holds the timer for the next one.
failure-armed :
    (cb : Callbacks) (c c' : TcpClient) (w w' : TimingWheel) (a : ℕ)
    → 0 < c.interval
    → handle_connect cb c w a failure ≡ ok (c', w')
    → (run_job (add_timer w a c.interval true false).0 (add_job a) ≡ ok w') × (c'.timer.timer ≡ a)
unfolding handle_connect await_retry
failure-armed cb c c' w w' a more e =
    let given = add_timer-given w a c.interval more in
    let (ran, kept) =
      arm-timer c c' (new_timer w a c.interval false) w' a w.num_created
        (ap (arm c) (sym given) ∙ e) in
    (ap (λ r. run_job r.0 (add_job a)) given ∙ ran, ap (λ t. t.timer) kept)

connect_loop-timer : (c : TcpClient) → Ends (λ r. r.0.timer ≡ c.timer) (connect_loop c)
unfolding connect_loop
connect_loop-timer c = Ends-bind _ TcpConnection.create _ (λ k e. refl)

cancel_timer-stale :
    (w : TimingWheel) (tid : TimerId)
    → 0 < tid.timer
    → w.heap tid.timer ≡ none
    → cancel_timer w tid ≡ fault
unfolding cancel_timer del_timer run_job del_timer_loop
cancel_timer-stale w tid some_timer gone = ground (arith, gone)

disconnect_loop-stale :
    (c : TcpClient) (w : TimingWheel)
    → 0 < c.timer.timer
    → w.heap c.timer.timer ≡ none
    → disconnect_loop c w ≡ fault
unfolding disconnect_loop
disconnect_loop-stale c w some_timer gone =
    let stale = cancel_timer-stale w c.timer some_timer gone in rw (disconnect_loop, stale) refl

-- After an attempt that failed, on a sound wheel and with an interval that is not 0 and no overflow,
-- the timer of the retry is called at tick number `due interval` and by no tick before. But the
-- client keeps its TimerId: a `disconnect_loop` behind the retry reads the deleted timer.
pub disconnect-after_retry :
    (cb : Callbacks) (c c' d : TcpClient) (w w₁ w₂ w₃ : TimingWheel) (a : ℕ) (fs : List (List ℕ))
    (f : List ℕ) (asked : List Request)
    → IsSound w
    → w.heap a ≡ none
    → 0 < a
    → 0 < c.interval
    → c.interval + 60 ≤ size_mod
    → handle_connect cb c w a failure ≡ ok (c', w₁)
    → Run a w₁ fs w₂
    → TimingWheel.handle_timeout w₂ false ≡ ok (w₃, f)
    → suc (length fs) ≡ due c.interval
    → TcpClient.handle_timeout c' ≡ ok (d, asked)
    → Silent c'.timer.timer fs × (contains f c'.timer.timer ≡ true) × (disconnect_loop d w₃ ≡ fault)
unfolding TcpClient.handle_timeout
disconnect-after_retry cb c c' d w w₁ w₂ w₃ a fs f asked i fresh used more small e run last h
      again =
    let (ran, timer) = failure-armed cb c c' w w₁ a more e in
    let fires =
      add_timer-fires w a c.interval false w₁ w₂ w₃ fs f i fresh more small ran run last h in
    let gone = add_timer-gone w a c.interval w₁ w₂ w₃ fs f i fresh more small ran run last h in
    let kept = Ends-ok _ _ (d, asked) again (connect_loop-timer c') in
    let same : d.timer.timer ≡ a = ap (λ t. t.timer) kept ∙ timer in
    (
      subst (λ x. Silent x fs) (sym timer) fires.0,
      subst (λ x. contains f x ≡ true) (sym timer) fires.1,
      disconnect_loop-stale d w₃ (rw same used) (ap w₃.heap same ∙ gone),
    )
