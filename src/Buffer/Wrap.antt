-- ===== src/Buffer/Wrap.antt =====
-- code/Buffer.cpp: what `ensure_writable` does where `write_index_ + n` passes 2^64.
use ecron.Prelude.{
  add_size, arith, length, length-append, length-replicate, length-take, ok, refl, replicate,
  size_mod, take, ℕ, ◌++◌, ◌+◌, ◌-◌, ◌<◌, ◌≡◌, ◌≤◌,
}
use ecron.Buffer.{Buffer, ensure_writable, grow, make_space, resize}
use ecron.Buffer.Inv.{IsValid, writable_bytes-eq}

-- For a request so large that `write_index_ + n` wraps, `ensure_writable` does not throw: it cuts the
-- array below the write index, and the buffer is no longer well formed.
pub ensure_writable-wraps :
    (b : Buffer) (n : ℕ)
    → IsValid b
    → n < size_mod
    → size_mod ≤ b.write_index + n
    → (b' : Buffer) × (ensure_writable b n ≡ ok b')
      × (length b'.buff < b'.write_index)
      × (b'.write_index ≡ b.write_index)
unfolding ensure_writable make_space grow resize
ensure_writable-wraps b n v lt over = (cut, ground (arith, v, writable_bytes-eq b v), short, refl)
  where
    m : ℕ
    m = add_size b.write_index n

    cut : Buffer
    cut = record b { buff = take m b.buff ++ replicate (m - length b.buff) 0 }

    short : length cut.buff < b.write_index
    short = omega (
      arith,
      v,
      length-append (take m b.buff) (replicate (m - length b.buff) 0),
      length-take m b.buff,
      length-replicate {A = ℕ} (m - length b.buff) 0,
    )
