-- ===== src/TimingWheel.antt =====
-- code/TimerId.h, code/TimingWheel.h and code/TimingWheel.cpp: timers in a wheel of 60 buckets.
-- A `Timer*` is an address, 0 the null pointer; `new Timer` gets the address that the allocator
-- chose as an argument. A bucket (an unordered_set) is a list without repetition in the order in
-- which the loop visits it. The callbacks of timers are not run: a tick returns the addresses of the
-- timers whose task it calls, in order.
pub mod Members
pub mod Visit
pub mod Inv
pub mod Due
pub mod Run
pub mod Fires
pub mod Lost
pub mod Stale
mod Tests
use ecron.Prelude.{
  Bool, List, Option, Outcome, [], add_size, false, fault, if◌then◌else◌, ltb, none, not, ok, some,
  suc, true, zero, ℕ, ◌%◌, ◌++◌, ◌+◌, ◌-◌, ◌/◌, ◌==◌, ◌>>=◌, ◌||◌, ◌∷◌,
}

pub record Timer : Type 0 where
  pub interval : ℕ
  pub task : Bool  -- whether `task_` holds a function
  pub repeat : Bool
  pub rotation : ℕ
  pub slot : ℕ
  pub seq : ℕ

pub record TimerId : Type 0 where
  pub timer : ℕ
  pub seq : ℕ

abbrev pub no_timer : TimerId
no_timer = record { timer = 0; seq = 0 }

pub record TimingWheel : Type 0 where
  pub heap : ℕ → Option Timer
  pub wheel : ℕ → List ℕ
  pub cur_slot : ℕ
  pub num_created : ℕ  -- Timer::num_created_
  pub waiting : Bool  -- an `async_wait` of `timer_` is pending

abbrev pub count_ticks : ℕ
count_ticks = 60

abbrev pub update {ℓ} : {A : Type ℓ} → (ℕ → A) → ℕ → A → ℕ → A
update f i v j = if i == j then v else f j

-- `unordered_set`: find, insert and erase
abbrev pub contains : List ℕ → ℕ → Bool
contains [] a = false
contains (x ∷ xs) a = (x == a) || contains xs a

unfoldable pub insert : List ℕ → ℕ → List ℕ
insert xs a = if contains xs a then xs else a ∷ xs

unfoldable pub erase : List ℕ → ℕ → List ℕ
erase [] a = []
erase (x ∷ xs) a = let rest = erase xs a in if x == a then rest else x ∷ rest

-- `delete timer`
abbrev pub free : TimingWheel → ℕ → TimingWheel
free w a = record w { heap = update w.heap a none }

abbrev pub deref : TimingWheel → ℕ → Outcome Timer
deref w a = elim (w.heap a) [ none ↦ fault | some t ↦ ok t ]

unfoldable pub create : ℕ → TimingWheel
create created = record {
  heap = λ _. none;
  wheel = λ _. [];
  cur_slot = 0;
  num_created = created;
  waiting = false;
}

unfoldable pub start : TimingWheel → TimingWheel
start w = record w { waiting = true }

-- The handler that `cancel` aborts runs with an error code.
unfoldable pub stop : TimingWheel → TimingWheel
stop w = record w { waiting = false }

-- What `dispatch` is handed: the body to run in the loop's thread.
pub data Job : Type 0 where
  add_job : ℕ → Job
  del_job : TimerId → Job

-- `new Timer(interval, task, repeat)`; the constructor leaves `rotation_` and `slot_` without a
-- value. They are 0 here; a del_timer_loop that reads them before add_timer_loop sets them is left out.
unfoldable pub new_timer : TimingWheel → ℕ → ℕ → Bool → TimingWheel
new_timer w a interval repeat = record w {
  heap = update w.heap a (
      some (record {
        interval = interval;
        task = true;
        repeat = repeat;
        rotation = 0;
        slot = 0;
        seq = w.num_created;
      }));
  num_created = add_size w.num_created 1;
}

unfoldable pub add_timer : TimingWheel → ℕ → ℕ → Bool → Bool → TimingWheel × Option Job × TimerId
add_timer w a interval task repeat = if (interval == 0) || not task then (w, none, no_timer) else (
  new_timer w a interval repeat,
  some (add_job a),
  record { timer = a; seq = w.num_created },
)

unfoldable pub del_timer : TimerId → Option Job
del_timer tid = if tid.timer == 0 then none else some (del_job tid)

-- `add_timer_loop`, at the timer that the pointer leads to
abbrev pub place : TimingWheel → Timer → Timer
place w t = record t {
  rotation = t.interval / count_ticks;
  slot = add_size w.cur_slot t.interval % count_ticks;
}

unfoldable pub enter : TimingWheel → ℕ → Timer → TimingWheel
enter w a t = record w {
  heap = update w.heap a (some (place w t));
  wheel = update w.wheel (place w t).slot (insert (w.wheel (place w t).slot) a);
}

unfoldable pub add_timer_loop : TimingWheel → ℕ → Outcome TimingWheel
add_timer_loop w a = do t ← deref w a; ok (enter w a t)

-- The timer is taken out of its bucket and deleted.
abbrev pub remove : TimingWheel → ℕ → Timer → TimingWheel
remove w a t = free (record w { wheel = update w.wheel t.slot (erase (w.wheel t.slot) a) }) a

unfoldable pub del_timer_loop : TimingWheel → TimerId → Outcome TimingWheel
del_timer_loop w tid = do
  t ← deref w tid.timer
  ok (if contains (w.wheel t.slot) tid.timer then remove w tid.timer t else w)

unfoldable pub run_job : TimingWheel → Job → Outcome TimingWheel
run_job w (add_job a) = add_timer_loop w a
run_job w (del_job tid) = del_timer_loop w tid

-- The body of the loop in `handle_timeout`, at the timer `t` behind the address `a`.
unfoldable pub visit_one : TimingWheel → ℕ → Timer → TimingWheel × List ℕ
visit_one w a t =
    if ltb 0 t.rotation
    then (record w { heap = update w.heap a (some (record t { rotation = t.rotation - 1 })) }, [])
    else (
      record after {
        wheel = update after.wheel after.cur_slot (erase (after.wheel after.cur_slot) a);
      },
      if t.task then a ∷ [] else [],
    )
  where
    after : TimingWheel
    after = if t.repeat then enter w a t else free w a

-- The loop over the bucket. The one insertion into the bucket that is being visited is of an address
-- that it holds already, so the loop visits what the bucket held at the start.
unfoldable pub visit : TimingWheel → List ℕ → Outcome (TimingWheel × List ℕ)
visit w [] = ok (w, [])
visit w (a ∷ rest) = do
  t ← deref w a
  let r = visit_one w a t
  later ← visit r.0 rest
  ok (later.0, r.1 ++ later.1)

-- `stepped w` is the wheel when the loop begins.
abbrev pub stepped : TimingWheel → TimingWheel
stepped w = record (start w) { cur_slot = add_size w.cur_slot 1 % count_ticks }

unfoldable pub handle_timeout : TimingWheel → Bool → Outcome (TimingWheel × List ℕ)
handle_timeout w true = ok (w, [])
handle_timeout w false = visit (stepped w) ((stepped w).wheel (stepped w).cur_slot)

-- `~TimingWheel` deletes every timer that a bucket holds.
unfoldable pub delete_all : TimingWheel → List ℕ → Outcome TimingWheel
delete_all w [] = ok w
delete_all w (a ∷ rest) = do t ← deref w a; delete_all (free w a) rest

unfoldable pub destroy_from : ℕ → ℕ → TimingWheel → Outcome TimingWheel
destroy_from i zero w = ok w
destroy_from i (suc n) w = do
  w' ← delete_all w (w.wheel i)
  destroy_from (i + 1) n (record w' { wheel = update w'.wheel i [] })

unfoldable pub destroy : TimingWheel → Outcome TimingWheel
destroy w = destroy_from 0 count_ticks w
