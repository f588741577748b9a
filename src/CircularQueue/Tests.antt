-- ===== src/CircularQueue/Tests.antt =====
-- code/CircularQueue.hpp: rings of three places, and the theorem at one.
use ecron.Prelude.{[], fault, length_error, ok, refl, some, ℕ, ◌∷◌, ◌≡◌}
use ecron.CircularQueue.{
  CircularQueue, back, call, count, create, done, empty, full, got, init, make_room, next_index,
  number, pop, prev_index, push, put, run, see_back, size, take_one,
}
use ecron.CircularQueue.Reserved.{run-faults}

-- What the ring would do if its vector had the elements: 5 is forgotten.
abbrev three_places : CircularQueue ℕ
three_places = record { vector = 0 ∷ 0 ∷ 5 ∷ []; max_count = 3; head = 2; tail = 0 }

forgets_oldest :
    run three_places (put 6 ∷ put 7 ∷ count ∷ see_back ∷ take_one ∷ [])
    ≡ ok (
      done ∷ done ∷ number 2 ∷ got (some 7) ∷ got (some 6) ∷ [],
      record { vector = 6 ∷ 7 ∷ 5 ∷ []; max_count = 3; head = 1; tail = 2 },
    )
unfolding run call push make_room full next_index size back prev_index pop empty
forgets_oldest = refl

too_long : init {A = ℕ} 100 create 100 ≡ length_error
unfolding init
too_long = refl

abbrev reserved : CircularQueue ℕ
reserved = record { vector = []; max_count = 3; head = 0; tail = 0 }

run-faults_example : run reserved (count ∷ put 7 ∷ []) ≡ fault
unfolding create init
run-faults_example = run-faults 100 create reserved 2 (count ∷ put 7 ∷ []) refl refl refl
