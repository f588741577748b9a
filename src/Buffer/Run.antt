-- ===== src/Buffer/Run.antt =====
-- code/Buffer.cpp: a sequence of calls on one buffer against a queue of bytes.
use ecron.Prelude.{
  List, Outcome, [], arith, drop, length, length-replicate, ok, refl, replicate, some, take,
  take-length, ℕ, ◌++◌, ◌+◌, ◌<◌, ◌>>=◌, ◌∷◌, ◌≡◌, ◌≤◌,
}
use ecron.Buffer.{Buffer, create, ensure_writable, has_readed, max_size, read_string, write}
use ecron.Buffer.Inv.{IsValid, contents}
use ecron.Buffer.Space.{ensure_writable-Ready}
use ecron.Buffer.Fifo.{has_readed-Holds, has_readed-frame, read_string-Holds, write-Holds}

-- Calls of a client: `write`, `read_string(n)`, `has_readed` and `ensure_writable`.
pub data Call : Type 0 where
  put : List ℕ → Call
  get : ℕ → Call
  skip : ℕ → Call
  reserve : ℕ → Call

-- The strings that the calls return, in order.
unfoldable pub run : Buffer → List Call → Outcome (List (List ℕ))
run b [] = ok []
run b (put xs ∷ cs) = do b' ← write b (some xs) (length xs); run b' cs
run b (get n ∷ cs) = do r ← read_string b n; rest ← run r.1 cs; ok (r.0 ∷ rest)
run b (skip n ∷ cs) = run (has_readed b n) cs
run b (reserve n ∷ cs) = do b' ← ensure_writable b n; run b' cs

-- The same calls on the queue alone.
unfoldable pub run_queue : List ℕ → List Call → List (List ℕ)
run_queue q [] = []
run_queue q (put xs ∷ cs) = run_queue (q ++ xs) cs
run_queue q (get n ∷ cs) = take n q ∷ run_queue (drop n q) cs
run_queue q (skip n ∷ cs) = run_queue (drop n q) cs
run_queue q (reserve n ∷ cs) = run_queue q cs

-- How far the calls can move the write index up, or ask for room.
abbrev pub demand : List Call → ℕ
demand [] = 0
demand (put xs ∷ cs) = length xs + demand cs
demand (get n ∷ cs) = demand cs
demand (skip n ∷ cs) = demand cs
demand (reserve n ∷ cs) = n + demand cs

-- A buffer whose array is not empty stays so.
pub record IsLive (b : Buffer) : Type 0 where
  pub valid : IsValid b
  pub not_empty : 0 < length b.buff

-- No sequence of calls tells the buffer from the queue of its bytes: every call returns, and the
-- strings read are those of the queue, as long as the array need not pass its size limit.
pub run-eq-run_queue :
    (b : Buffer) (cs : List Call)
    → IsLive b
    → b.write_index + demand cs ≤ max_size
    → run b cs ≡ ok (run_queue (contents b) cs)
unfolding run run_queue
run-eq-run_queue b [] l h = refl
run-eq-run_queue b (put xs ∷ cs) l h =
    let (b', e, holds, index, wide) =
      write-Holds b xs (length xs) l.valid (omega arith) (omega arith) in
    let live : IsLive b' = record { valid = holds.valid; not_empty = omega (arith, l.not_empty) } in
    rw
      (
        e,
        run-eq-run_queue b' cs live (omega arith),
        holds.bytes,
        take-length (length xs) xs (omega arith),
      )
      refl
run-eq-run_queue b (get n ∷ cs) l h =
    let (b', e, holds, index, same) = read_string-Holds b n l.valid l.not_empty in
    let live : IsLive b' = record { valid = holds.valid; not_empty = rw same l.not_empty } in
    rw (e, run-eq-run_queue b' cs live (omega arith), holds.bytes) refl
run-eq-run_queue b (skip n ∷ cs) l h =
    let holds = has_readed-Holds b n l.valid in
    let (index, same) = has_readed-frame b n in
    let live : IsLive (has_readed b n) = record {
      valid = holds.valid;
      not_empty = rw same l.not_empty;
    } in
    rw (run-eq-run_queue (has_readed b n) cs live (omega arith), holds.bytes) refl
run-eq-run_queue b (reserve n ∷ cs) l h =
    let (b', e, r) = ensure_writable-Ready b n l.valid (omega arith) in
    let live : IsLive b' = record {
      valid = r.valid;
      not_empty = omega (arith, r.wide, l.not_empty);
    } in
    rw (e, run-eq-run_queue b' cs live (omega (arith, r.lower)), r.kept) refl

-- No sequence of writes, reads, skips and reservations tells a buffer that its constructor made, of any
-- size but 0, from a queue of bytes that starts empty: every call returns, and the strings read are
-- those of the queue. What the calls write and reserve must be at most the size limit of the array.
pub create-run :
    (size : ℕ) (cs : List Call)
    → 0 < size
    → size ≤ max_size
    → demand cs ≤ max_size
    → (b : Buffer) × (create size ≡ ok b) × (run b cs ≡ ok (run_queue [] cs))
unfolding create
create-run size cs pos fits h = (fresh, ground arith, run-eq-run_queue fresh cs live (omega arith))
  where
    fresh : Buffer
    fresh = record { buff = replicate size 0; read_index = 0; write_index = 0 }

    live : IsLive fresh
    live = record {
      valid = omega (arith, length-replicate {A = ℕ} size 0);
      not_empty = omega (arith, length-replicate {A = ℕ} size 0);
    }
