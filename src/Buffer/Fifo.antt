-- ===== src/Buffer/Fifo.antt =====
-- code/Buffer.cpp: the operations seen as those of a queue of bytes.
use ecron.Prelude.{
  Bool-cases, List, add_size, ap, append-nil, arith, drop, drop-append_le, drop-drop, drop-length,
  inl, inr, length, length-take, length_error, ltb, ok, refl, some, subst, suc, sym, take,
  take-append_ge, take-drop-take, take-length, zero, ℕ, ◌++◌, ◌+◌, ◌-◌, ◌<◌, ◌∙◌, ◌≡◌, ◌≤◌,
}
use ecron.Buffer.{
  Buffer, copy_out, ensure_writable, fill, grow, has_readall, has_readed, has_written, make_space,
  max_size, overwrite, read_string, readable_bytes, resize, writable_bytes, write,
}
use ecron.Buffer.Inv.{
  IsValid, contents, length-contents, length-overwrite, readable_bytes-eq, writable_bytes-eq,
}
use ecron.Buffer.Space.{ensure_writable-Ready}

-- The buffer is well formed and holds the bytes `q`, oldest first.
pub record Holds (b : Buffer) (q : List ℕ) : Type 0 where
  pub valid : IsValid b
  pub bytes : contents b ≡ q

fill-eq :
    (b : Buffer) (xs : List ℕ)
    → b.write_index + length xs ≤ length b.buff
    → fill b xs ≡ ok (record b { buff = overwrite b.buff b.write_index xs })
unfolding fill
fill-eq b xs h = ground arith

has_written-eq :
    (b : Buffer) (n : ℕ)
    → IsValid b
    → n ≤ length b.buff - b.write_index
    → has_written b n ≡ record b { write_index = b.write_index + n }
unfolding has_written
has_written-eq b n v h = ground (arith, writable_bytes-eq b v)

module _ (b : Buffer) (xs : List ℕ) (v : IsValid b) (h : length xs ≤ writable_bytes b) where
  abbrev stored : Buffer
  stored = record b { buff = overwrite b.buff b.write_index xs }

  abbrev appended : Buffer
  appended = record stored { write_index = b.write_index + length xs }

  length-stored : length stored.buff ≡ length b.buff
  length-stored = length-overwrite b.buff b.write_index xs (omega (arith, v, writable_bytes-eq b v))

  appended-Holds : Holds appended (contents b ++ xs)
  unfolding overwrite
  appended-Holds = record {
    valid = omega (arith, v, writable_bytes-eq b v, length-stored);
    bytes =
        ap (drop b.read_index) (
          take-append_ge (take b.write_index b.buff) _ (b.write_index + length xs) (length xs)
            (omega (arith, v, full)))
        ∙ drop-append_le b.read_index (take b.write_index b.buff) _ (omega (arith, v, full))
        ∙ ap (λ t. contents b ++ t)
            (take-append_ge xs _ (length xs) 0 (omega arith) ∙ append-nil xs);
  }
    where
      full : length (take b.write_index b.buff) ≡ b.write_index
      full = omega (arith, v, length-take b.write_index b.buff)

  -- Bytes stored behind the write index and then announced are appended.
  pub has_written-fill :
      (b' : Buffer) × (fill b xs ≡ ok b')
      × Holds (has_written b' (length xs)) (contents b ++ xs)
      × ((has_written b' (length xs)).write_index ≡ b.write_index + length xs)
      × (length (has_written b' (length xs)).buff ≡ length b.buff)
  has_written-fill = (
    stored,
    fill-eq b xs (omega (arith, v, writable_bytes-eq b v)),
    rw advanced appended-Holds,
    rw advanced,
    rw advanced length-stored,
  )
    where
      advanced : has_written stored (length xs) ≡ appended
      advanced =
          has_written-eq stored (length xs) (omega (arith, v, length-stored))
            (omega (arith, v, length-stored, writable_bytes-eq b v))

-- `write` appends the `n` bytes behind `data`, whatever room there was, if the array may get so
-- long: it neither throws nor leaves the array, and the write index moves up by at most `n`.
pub write-Holds :
    (b : Buffer) (src : List ℕ) (n : ℕ)
    → IsValid b
    → n ≤ length src
    → b.write_index + n ≤ max_size
    → (b' : Buffer) × (write b (some src) n ≡ ok b')
      × Holds b' (contents b ++ take n src)
      × (b'.write_index ≤ b.write_index + n)
      × (length b.buff ≤ length b'.buff)
unfolding write
write-Holds b src zero v len fits =
    (b, refl, record { valid = v; bytes = sym (append-nil (contents b)) }, omega arith, omega arith)
write-Holds b src (suc n) v len fits =
    let (r, made, ready) = ensure_writable-Ready b (suc n) v fits in
    let part : length (take (suc n) src) ≡ suc n = omega (arith, length-take (suc n) src) in
    let (f, filled, holds, index, size) =
      has_written-fill r (take (suc n) src) ready.valid (omega (arith, ready.room, part)) in
    (
      has_written f (suc n),
      ground (arith, made, filled),
      subst (λ q. Holds (has_written f (suc n)) (q ++ take (suc n) src)) ready.kept
          (rw part at holds),
      omega (arith, ready.lower, rw part at index),
      omega (arith, ready.wide, rw part at size),
    )

-- When the array would pass the size limit of a vector, `write` throws and nothing is written.
pub write-length_error :
    (b : Buffer) (src : List ℕ) (n : ℕ)
    → IsValid b
    → n ≤ max_size
    → b.read_index + (length b.buff - b.write_index) < n
    → max_size < b.write_index + n
    → write b (some src) n ≡ length_error
unfolding write ensure_writable make_space grow resize
write-length_error b src n v small lack over = ground (arith, v, writable_bytes-eq b v)

read_on-Holds :
    (b : Buffer) (n : ℕ)
    → IsValid b
    → n < readable_bytes b
    → Holds (record b { read_index = add_size b.read_index n }) (drop n (contents b))
read_on-Holds b n v h =
    let e : add_size b.read_index n ≡ b.read_index + n = omega (arith, v, readable_bytes-eq b v) in
    rw e (record {
      valid = omega (arith, v, readable_bytes-eq b v);
      bytes = sym (drop-drop n b.read_index (b.read_index + n) (take b.write_index b.buff) refl);
    })

-- `has_readed` drops bytes, and starts again at the front when it drops them all.
pub has_readed-Holds :
    (b : Buffer) (n : ℕ) → IsValid b → Holds (has_readed b n) (drop n (contents b))
unfolding has_readed has_readall
has_readed-Holds b n v = elim (Bool-cases (ltb n (readable_bytes b))) [
  | inl h ↦ rw h (read_on-Holds b n v (ground arith))
  | inr h ↦ rw h (record {
    valid = omega (arith, v);
    bytes = sym (drop-length n (contents b) (ground (arith, length-contents b v)));
  })
]

copy_out-eq :
    (b : Buffer) (n : ℕ)
    → IsValid b
    → 0 < length b.buff
    → n ≤ readable_bytes b
    → copy_out b n ≡ ok (take n (contents b))
unfolding copy_out
copy_out-eq b n v some_space h =
    rw
      (take-drop-take n b.read_index b.write_index b.buff (omega (arith, v, readable_bytes-eq b v)))
      (ground (arith, v, readable_bytes-eq b v))

pub has_readed-frame :
    (b : Buffer) (n : ℕ)
    → ((has_readed b n).write_index ≤ b.write_index) × ((has_readed b n).buff ≡ b.buff)
unfolding has_readed has_readall
has_readed-frame b n = ground arith

-- `read_string(n)` returns the oldest `n` bytes, or all if there are fewer, and drops them.
pub read_string-Holds :
    (b : Buffer) (n : ℕ)
    → IsValid b
    → 0 < length b.buff
    → (b' : Buffer) × (read_string b n ≡ ok (take n (contents b), b'))
      × Holds b' (drop n (contents b))
      × (b'.write_index ≤ b.write_index)
      × (b'.buff ≡ b.buff)
unfolding read_string
read_string-Holds b n v some_space = elim (Bool-cases (ltb (readable_bytes b) n)) [
  | inl h ↦ (
    has_readed b all,
    rw (h, copy_out-eq b all v some_space (omega arith))
        (ap (λ t. ok (t, has_readed b all))
          (take-length all q len ∙ sym (take-length n q (ground (arith, len))))),
    subst (Holds (has_readed b all))
        (drop-length all q len ∙ sym (drop-length n q (ground (arith, len))))
        (has_readed-Holds b all v),
    (has_readed-frame b all).0,
    (has_readed-frame b all).1,
  )
  | inr h ↦ (
    has_readed b n,
    rw (h, copy_out-eq b n v some_space (ground arith)),
    has_readed-Holds b n v,
    (has_readed-frame b n).0,
    (has_readed-frame b n).1,
  )
]
  where
    all : ℕ
    all = readable_bytes b

    q : List ℕ
    q = contents b

    len : length q ≤ all
    len = omega (arith, length-contents b v)
