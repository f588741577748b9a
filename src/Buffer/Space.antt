-- ===== src/Buffer/Space.antt =====
-- code/Buffer.cpp: `make_space` and `ensure_writable`, on every branch.
use ecron.Prelude.{
  Bool-cases, List, Safe, add_size, ap, append-nil, arith, dec_le, drop, false, inl, inr, length,
  length-append, length-replicate, length-take, length_error, ltb, ok, refl, replicate, take,
  take-append_ge, take-append_le, take-length, ℕ, ◌++◌, ◌+◌, ◌-◌, ◌<◌, ◌==◌, ◌∙◌, ◌≡◌, ◌≤◌,
}
use ecron.Buffer.{
  Buffer, compact, ensure_writable, grow, make_space, max_size, move_down, overwrite,
  readable_bytes, resize, writable_bytes,
}
use ecron.Buffer.Inv.{
  IsValid, contents, length-contents, length-overwrite, readable_bytes-eq, writable_bytes-eq,
}

-- What a call that makes room for `n` bytes leaves behind.
pub record Ready (b : Buffer) (n : ℕ) (b' : Buffer) : Type 0 where
  pub valid : IsValid b'
  pub kept : contents b' ≡ contents b
  pub room : n ≤ writable_bytes b'
  pub lower : b'.write_index ≤ b.write_index
  pub wide : length b.buff ≤ length b'.buff

resize-eq :
    (l : List ℕ) (m : ℕ) → m ≤ max_size → resize l m ≡ ok (take m l ++ replicate (m - length l) 0)
unfolding resize
resize-eq l m h = ground arith

module _ (b : Buffer) (n : ℕ) (v : IsValid b) where
  abbrev grown : Buffer
  grown = record b {
    buff = take (b.write_index + n) b.buff ++ replicate (b.write_index + n - length b.buff) 0;
  }

  grow-eq : b.write_index + n ≤ max_size → grow b n ≡ ok grown
  unfolding grow
  grow-eq fits =
      let e : add_size b.write_index n ≡ b.write_index + n = omega arith in
      rw (e, resize-eq b.buff (b.write_index + n) fits) refl

  length-grown : length b.buff ≤ b.write_index + n → length grown.buff ≡ b.write_index + n
  length-grown more = omega (
    arith,
    length-append (take (b.write_index + n) b.buff)
        (replicate (b.write_index + n - length b.buff) 0),
    length-take (b.write_index + n) b.buff,
    length-replicate {A = ℕ} (b.write_index + n - length b.buff) 0,
  )

  grown-Ready : b.write_index + n ≤ max_size → length b.buff ≤ b.write_index + n → Ready b n grown
  grown-Ready fits more = record {
    valid = valid;
    kept = ap (drop b.read_index) (
        rw (take-length (b.write_index + n) b.buff more)
          (take-append_le b.write_index b.buff _ v.inside));
    room = omega (arith, writable_bytes-eq grown valid, length-grown more);
    lower = omega arith;
    wide = omega (arith, length-grown more);
  }
    where
      valid : IsValid grown
      valid = omega (arith, v, length-grown more)

  -- The buffer that `compact` makes.
  abbrev lowered : Buffer
  lowered = record {
    buff = overwrite b.buff 0 (contents b);
    read_index = 0;
    write_index = readable_bytes b;
  }

  compact-eq : compact b ≡ ok lowered
  unfolding compact move_down
  compact-eq = ground (arith, v)

  contents-lowered : contents lowered ≡ contents b
  unfolding overwrite
  contents-lowered =
      take-append_ge (contents b) _ (readable_bytes b) 0 (omega (arith, length-contents b v))
      ∙ append-nil (contents b)

  lowered-Ready : n ≤ b.read_index + writable_bytes b → Ready b n lowered
  lowered-Ready enough = record {
    valid = valid;
    kept = contents-lowered;
    room = omega (
      arith,
      v,
      writable_bytes-eq lowered valid,
      writable_bytes-eq b v,
      readable_bytes-eq b v,
      same,
    );
    lower = omega (arith, readable_bytes-eq b v);
    wide = omega (arith, same);
  }
    where
      same : length (overwrite b.buff 0 (contents b)) ≡ length b.buff
      same =
          length-overwrite b.buff 0 (contents b)
            (omega (arith, v, length-contents b v, readable_bytes-eq b v))

      valid : IsValid lowered
      valid = omega (arith, v, same, readable_bytes-eq b v)

  make_space-Ready :
      b.write_index + n ≤ max_size
      → writable_bytes b < n
      → (b' : Buffer) × (make_space b n ≡ ok b') × Ready b n b'
  unfolding make_space
  make_space-Ready fits lack =
      elim (Bool-cases (ltb (add_size b.read_index (writable_bytes b)) n)) [
        | inl h ↦
            (grown, rw (h, grow-eq fits), grown-Ready fits (omega (arith, writable_bytes-eq b v)))
        | inr h ↦ (
          lowered,
          ground (arith, compact-eq, v, writable_bytes-eq b v),
          lowered-Ready (ground (arith, v, writable_bytes-eq b v)),
        )
      ]

  -- Room for `n` more bytes is made, if the array may get that long, without losing a byte.
  pub ensure_writable-Ready :
      b.write_index + n ≤ max_size → (b' : Buffer) × (ensure_writable b n ≡ ok b') × Ready b n b'
  unfolding ensure_writable
  ensure_writable-Ready fits = elim (Bool-cases (ltb (writable_bytes b) n)) [
    | inl h ↦ let (b', e, r) = make_space-Ready fits (ground arith) in (b', rw h e, r)
    | inr h ↦ (
      b,
      rw h,
      record {
        valid = v;
        kept = refl;
        room = ground arith;
        lower = omega arith;
        wide = omega arith;
      },
    )
  ]

  grow-length_error : n ≤ max_size → max_size < b.write_index + n → grow b n ≡ length_error
  unfolding grow resize
  grow-length_error small over = ground (arith, v)

  make_space-Safe : n ≤ max_size → writable_bytes b < n → Safe (Ready b n) (make_space b n)
  unfolding make_space
  make_space-Safe small lack =
      elim (Bool-cases (ltb (add_size b.read_index (writable_bytes b)) n)) [
        | inl h ↦ elim (dec_le (b.write_index + n) max_size) [
          | yes fits ↦
              rw (h, grow-eq fits) (grown-Ready fits (omega (arith, writable_bytes-eq b v)))
          | no over ↦ rw (h, grow-length_error small (omega arith)) tt
        ]
        | inr h ↦
            let moved : (b.read_index == 0) ≡ false = ground (arith, v, writable_bytes-eq b v) in
            rw (h, moved, compact-eq) (lowered-Ready (ground (arith, v, writable_bytes-eq b v)))
      ]

  -- However long the array is, the call makes the room or throws.
  pub ensure_writable-Safe : n ≤ max_size → Safe (Ready b n) (ensure_writable b n)
  unfolding ensure_writable
  ensure_writable-Safe small = elim (Bool-cases (ltb (writable_bytes b) n)) [
    | inl h ↦ rw h (make_space-Safe small (ground arith))
    | inr h ↦ rw h (record {
      valid = v;
      kept = refl;
      room = ground arith;
      lower = omega arith;
      wide = omega arith;
    })
  ]
