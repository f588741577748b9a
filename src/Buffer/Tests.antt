-- ===== src/Buffer/Tests.antt =====
-- code/Buffer.cpp: runs on small buffers, and the theorems at them.
use ecron.Prelude.{List, [], arith, length, ok, refl, size_mod, some, ◌-◌, ◌<◌, ◌∷◌, ◌≡◌}
use ecron.Buffer.{
  Buffer, compact, create, ensure_writable, fill, has_written, make_space, move_down, overwrite,
  readable_bytes, writable_bytes, write,
}
use ecron.Buffer.Inv.{IsValid}
use ecron.Buffer.Run.{Call, create-run, get, put, reserve, run, run-eq-run_queue, run_queue, skip}
use ecron.Buffer.Wrap.{ensure_writable-wraps}

-- "read" was consumed up to index 1; one byte is free.
abbrev half_read : Buffer
half_read = record { buff = 1 ∷ 2 ∷ 3 ∷ 0 ∷ []; read_index = 1; write_index = 3 }

half_read-IsValid : IsValid half_read
half_read-IsValid = omega arith

-- Two bytes fit only after the readable ones were moved to the front.
moves_down :
    write half_read (some (8 ∷ 9 ∷ [])) 2
    ≡ ok (record { buff = 2 ∷ 3 ∷ 8 ∷ 9 ∷ []; read_index = 0; write_index = 4 })
unfolding write ensure_writable make_space compact move_down overwrite fill has_written
    writable_bytes readable_bytes
moves_down = refl

abbrev calls : List Call
calls = put (7 ∷ 8 ∷ 9 ∷ []) ∷ get 2 ∷ reserve 100 ∷ put (5 ∷ []) ∷ skip 1 ∷ get 9 ∷ []

create-run_example : (b : Buffer) × (create 2 ≡ ok b) × (run b calls ≡ ok (run_queue [] calls))
create-run_example = create-run 2 calls (omega arith) (omega arith) (omega arith)

run_queue_example : run_queue [] calls ≡ (7 ∷ 8 ∷ []) ∷ (5 ∷ []) ∷ []
unfolding run_queue
run_queue_example = refl

run-eq-run_queue_example : run half_read calls ≡ ok (run_queue (2 ∷ 3 ∷ []) calls)
run-eq-run_queue_example =
    run-eq-run_queue half_read calls (record { valid = half_read-IsValid; not_empty = omega arith })
      (omega arith)

ensure_writable-wraps_example :
    (b' : Buffer) × (ensure_writable half_read (size_mod - 2) ≡ ok b')
    × (length b'.buff < b'.write_index)
    × (b'.write_index ≡ 3)
ensure_writable-wraps_example =
    ensure_writable-wraps half_read (size_mod - 2) half_read-IsValid (omega arith) (omega arith)
