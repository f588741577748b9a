-- ===== src/BlockingQueue/Wakeup.antt =====
-- code/BlockingQueue.hpp: no thread sleeps while there is something for it.
use ecron.Prelude.{
  Option, [], arith, false, length, length-append, ok, refl, true, ℕ, ◌+◌, ◌<◌, ◌∷◌, ◌≡◌, ◌≤◌,
}
use ecron.BlockingQueue.{BlockingQueue, init, notify_exit, push, ready, take_front}
use ecron.BlockingQueue.Threads.{
  Reach, State, Step, exiting, here, next, pop_now, pop_wait, push_full, push_ok, resume,
  sleep_again, start, wake_up,
}

-- While a thread sleeps, each item of the queue has a thread that was woken and will take it, and
-- notify_exit was not called.
pub record IsAwake {A : Type 0} (s : State A) : Type 0 where
  pub enough : 0 < s.sleeping → length s.shared.queue ≤ s.woken
  pub open_still : 0 < s.sleeping → s.shared.exit ≡ false

not_ready :
    {A : Type 0} (q : BlockingQueue A) → ready q ≡ false → (length q.queue ≡ 0) × (q.exit ≡ false)
unfolding ready
not_ready q h = ground arith

push-length :
    {A : Type 0} (q q' : BlockingQueue A) (x : A)
    → push q x ≡ (true, q')
    → (length q'.queue ≡ length q.queue + 1) × (q'.exit ≡ q.exit)
unfolding push
push-length q q' x e = ground (arith, length-append q.queue (x ∷ []))

push-full : {A : Type 0} (q q' : BlockingQueue A) (x : A) → push q x ≡ (false, q') → q' ≡ q
unfolding push
push-full q q' x e = ground arith

take_front-cases :
    {A : Type 0} (q : BlockingQueue A) (r : Option A × BlockingQueue A)
    → take_front q ≡ ok r
    → (q.exit ≡ false → length q.queue ≡ length r.1.queue + 1) × (r.1.exit ≡ q.exit)
unfolding take_front
take_front-cases q r e = ground arith

Step-IsAwake : {A : Type 0} {s t : State A} → Step s t → IsAwake s → IsAwake t
unfolding notify_exit
Step-IsAwake {A} {s} (push_ok x q e) i =
    let (len, exit) = push-length s.shared q x e in ground (arith, i.enough, i.open_still)
Step-IsAwake {A} {s} (push_full x q e) i =
    ground (arith, push-full s.shared q x e, i.enough, i.open_still)
Step-IsAwake {A} {s} (pop_now r h e) i =
    ground (arith, take_front-cases s.shared r e, i.enough, i.open_still)
Step-IsAwake {A} {s} (pop_wait h) i = ground (arith, not_ready s.shared h, i.enough, i.open_still)
Step-IsAwake {A} {s} (wake_up h) i = ground (arith, i.enough, i.open_still)
Step-IsAwake {A} {s} (resume r w h e) i =
    ground (arith, take_front-cases s.shared r e, i.enough, i.open_still)
Step-IsAwake {A} {s} (sleep_again w h) i =
    ground (arith, not_ready s.shared h, i.enough, i.open_still)
Step-IsAwake {A} {s} exiting i = ground (arith, i.enough, i.open_still)

-- In every run of any number of threads over a queue made by init, while a thread sleeps in `pop`,
-- exit is not set, and there are at least as many woken threads as items in the queue.
pub Reach-IsAwake :
    {A : Type 0} (max_count : ℕ) {s : State A} → Reach (start max_count) s → IsAwake s
unfolding init
Reach-IsAwake max_count here = record { enough = λ h. omega arith; open_still = λ h. refl }
Reach-IsAwake max_count (next r e) = Step-IsAwake e (Reach-IsAwake max_count r)
