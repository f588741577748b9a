-- ===== src/Buffer/Inv.antt =====
-- code/Buffer.cpp: the indices of a buffer stay in order, so no difference of them wraps.
use ecron.Prelude.{
  ℕ, ◌+◌, ◌-◌, ◌≤◌, ◌≡◌, List, ◌++◌, length, take, drop, arith, length-append, length-take,
  length-drop, length-replicate, ok, refl, replicate,
}
use ecron.Buffer.{Buffer, create, initial_size, max_size, readable_bytes, writable_bytes, overwrite}

pub record IsValid (b : Buffer) : Type 0 where
  pub ordered : b.read_index ≤ b.write_index
  pub inside : b.write_index ≤ length b.buff
  pub small : length b.buff ≤ max_size

-- The bytes that were written and not yet read.
abbrev pub contents : Buffer → List ℕ
contents b = drop b.read_index (take b.write_index b.buff)

pub readable_bytes-eq : (b : Buffer) → IsValid b → readable_bytes b ≡ b.write_index - b.read_index
unfolding readable_bytes
readable_bytes-eq b v = omega arith

pub writable_bytes-eq : (b : Buffer) → IsValid b → writable_bytes b ≡ length b.buff - b.write_index
unfolding writable_bytes
writable_bytes-eq b v = omega arith

pub length-contents : (b : Buffer) → IsValid b → length (contents b) ≡ readable_bytes b
length-contents b v = omega (
  arith,
  readable_bytes-eq b v,
  length-drop b.read_index (take b.write_index b.buff),
  length-take b.write_index b.buff,
)

pub length-overwrite :
    (l : List ℕ) (i : ℕ) (xs : List ℕ)
    → i + length xs ≤ length l
    → length (overwrite l i xs) ≡ length l
unfolding overwrite
length-overwrite l i xs h = omega (
  arith,
  length-append (take i l) (xs ++ drop (i + length xs) l),
  length-append xs (drop (i + length xs) l),
  length-take i l,
  length-drop (i + length xs) l,
)

-- A buffer of the initial size.
abbrev pub fresh : Buffer
fresh = record { buff = replicate initial_size 0; read_index = 0; write_index = 0 }

pub create-fresh : create initial_size ≡ ok fresh
unfolding create
create-fresh = refl

pub fresh-IsValid : IsValid fresh
fresh-IsValid = omega (arith, length-replicate {A = ℕ} initial_size 0)
