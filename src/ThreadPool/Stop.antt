-- ===== src/ThreadPool/Stop.antt =====
-- code/ThreadPool.cpp: `stop` ends.
use ecron.Prelude.{
  Bool-cases, List, [], ap, arith, false, inl, inr, length, ok, ok-injective, refl, some, suc, sym,
  true, ℕ, ◌*◌, ◌++◌, ◌+◌, ◌∙◌, ◌∷◌, ◌≡◌, ◌≤◌, ◌⊎◌,
}
use ecron.BlockingQueue.{BlockingQueue, notify_exit, ready, take_front}
use ecron.ThreadPool.{
  Task, ThreadPool, Turn, Worker, all_finished, finished, idle, join_all, popping, returning,
  run_turn, running, stop,
}

-- A run of `n` turns.
pub data Turns (p : ThreadPool) : ℕ → ThreadPool → Type 0 where
  here : Turns p 0 p
  next : {n : ℕ} {q r : ThreadPool} → Turns p n q → Turn q r → Turns p (suc n) r

abbrev pub weight : Worker → ℕ
weight idle = 1
weight (running task) = 2
weight finished = 0

-- The turns that the threads have still to make once exit is set.
abbrev pub left : List Worker → ℕ
left [] = 0
left (w ∷ ws) = weight w + left ws

left-append :
    (xs : List Worker) (w : Worker) (ys : List Worker)
    → left (xs ++ w ∷ ys) ≡ left xs + weight w + left ys
left-append [] w ys = omega arith
left-append (x ∷ xs) w ys = omega (arith, left-append xs w ys)

run_turn-exit : (q : BlockingQueue Task) → q.exit ≡ true → run_turn q ≡ ok (finished, q)
unfolding run_turn take_front
run_turn-exit q e = rw (take_front, e) refl

ready-exit : (q : BlockingQueue Task) → q.exit ≡ true → ready q ≡ true
unfolding ready
ready-exit q e = ground (arith, e)

-- A turn behind exit takes the thread nearer to its end, and takes no task.
Turn-left :
    {p q : ThreadPool}
    → p.tasks.exit ≡ true
    → Turn p q
    → (q.tasks ≡ p.tasks) × (suc (left q.threads) ≡ left p.threads)
Turn-left {p} e (popping before after r at h ran) =
    let out = ok-injective _ _ (sym (run_turn-exit p.tasks e) ∙ ran) in
    let was = left-append before idle after in
    let is = left-append before r.0 after in
    (sym (ap (λ x. x.1) out), omega (arith, was, is, ap left at, ap (λ x. weight x.0) out))
Turn-left {p} e (returning before after task at) =
    let was = left-append before (running task) after in
    let is = left-append before idle after in (refl, omega (arith, was, is, ap left at))

-- Some thread is not finished, and it is idle or in a task.
unfinished :
    (ws : List Worker)
    → all_finished ws ≡ false
    → ((before : List Worker) × (after : List Worker) × (ws ≡ before ++ idle ∷ after))
      ⊎ ((before : List Worker) × (after : List Worker) × (task : ℕ) × (ws
            ≡ before ++ running task ∷ after))
unfinished [] h = cc
unfinished (idle ∷ ws) h = inl ([], ws, refl)
unfinished (running task ∷ ws) h = inr ([], ws, task, refl)
unfinished (finished ∷ ws) h = elim (unfinished ws h) [
  | inl (before, after, at) ↦ inl (finished ∷ before, after, ap (λ xs. finished ∷ xs) at)
  | inr (before, after, task, at) ↦
      inr (finished ∷ before, after, task, ap (λ xs. finished ∷ xs) at)
]

goes_on :
    (p : ThreadPool)
    → p.tasks.exit ≡ true
    → all_finished p.threads ≡ false
    → (q : ThreadPool) × Turn p q
goes_on p e h = elim (unfinished p.threads h) [
  | inl (before, after, at) ↦ (
    _,
    popping before after (finished, p.tasks) at (ready-exit p.tasks e) (run_turn-exit p.tasks e),
  )
  | inr (before, after, task, at) ↦ (_, returning before after task at)
]

Turns-left :
    {p q : ThreadPool} {n : ℕ}
    → p.tasks.exit ≡ true
    → Turns p n q
    → (q.tasks ≡ p.tasks) × (n + left q.threads ≡ left p.threads)
Turns-left e here = (refl, omega arith)
Turns-left {p} e (next {q = q} run x) =
    let (same, count) = Turns-left e run in
    let (same', step) = Turn-left (ap (λ t. t.exit) same ∙ e) x in
    (same' ∙ same, omega (arith, count, step))

left-length : (ws : List Worker) → left ws ≤ 2 * length ws
left-length [] = omega arith
left-length (idle ∷ ws) = omega (arith, left-length ws)
left-length (running task ∷ ws) = omega (arith, left-length ws)
left-length (finished ∷ ws) = omega (arith, left-length ws)

stop-eq : (p p' : ThreadPool) → stop p ≡ some p' → p' ≡ record p { tasks = notify_exit p.tasks }
unfolding stop
stop-eq p p' e = ground arith

-- Where `stop` finds threads, and provided that tasks return: after at most two turns for each thread
-- no thread can go on, the joins then return, and as long as they do not some thread can go on. No
-- task that was queued is taken out any more.
pub stop-ends :
    (p p' q : ThreadPool) (n : ℕ)
    → stop p ≡ some p'
    → Turns p' n q
    → (n ≤ 2 * length p.threads)
      × (q.tasks.queue ≡ p.tasks.queue)
      × ((join_all q ≡ some (record q { threads = [] })) ⊎ ((r : ThreadPool) × Turn q r))
unfolding join_all notify_exit
stop-ends p p' q n e run =
    let stopped = stop-eq p p' e in
    let exiting : p'.tasks.exit ≡ true = ap (λ t. t.tasks.exit) stopped in
    let (same, count) = Turns-left exiting run in
    let short = left-length p.threads in
    (
      omega (arith, count, short, ap (λ t. left t.threads) stopped),
      ap (λ t. t.queue) same ∙ ap (λ t. t.tasks.queue) stopped,
      elim (Bool-cases (all_finished q.threads)) [
        | inl h ↦ inl (rw h refl)
        | inr h ↦ inr (goes_on q (ap (λ t. t.exit) same ∙ exiting) h)
      ],
    )
