-- ===== src/Buffer.antt =====
-- code/Buffer.h and code/Buffer.cpp: a growing array of bytes with a read and a write index.
-- A pointer to `n` bytes is the list of the bytes behind it, `none` for a null pointer. A function
-- that changes the buffer returns the new one. Indices are `size_t` and wrap.
pub mod Inv
pub mod Space
pub mod Fifo
pub mod Run
pub mod Wrap
mod Tests
use ecron.Prelude.{
  ℕ, ◌+◌, ◌-◌, ◌^◌, List, [], ◌++◌, Option, none, some, Outcome, ok, length_error, fault, ◌>>=◌,
  ltb, ◌==◌, if◌then◌else◌, length, take, drop, replicate, add_size, sub_size, ◌||◌,
}

pub record Buffer : Type 0 where
  pub buff : List ℕ
  pub read_index : ℕ
  pub write_index : ℕ

abbrev pub initial_size : ℕ
initial_size = 1024

-- What `std::vector<char>::max_size` returns: a larger `resize` throws std::length_error.
abbrev pub max_size : ℕ
max_size = 2 ^ 63 - 1

unfoldable pub create : ℕ → Outcome Buffer
create size =
    if ltb max_size size
    then length_error
    else ok (record { buff = replicate size 0; read_index = 0; write_index = 0 })

unfoldable pub swap : Buffer → Buffer → Buffer × Buffer
swap b rhs = (
  record { buff = rhs.buff; read_index = rhs.read_index; write_index = rhs.write_index },
  record { buff = b.buff; read_index = b.read_index; write_index = b.write_index },
)

unfoldable pub readable_bytes : Buffer → ℕ
readable_bytes b = sub_size b.write_index b.read_index

unfoldable pub writable_bytes : Buffer → ℕ
writable_bytes b = sub_size (length b.buff) b.write_index

-- The bytes from `i` on are overwritten by `xs`.
unfoldable pub overwrite : List ℕ → ℕ → List ℕ → List ℕ
overwrite l i xs = take i l ++ (xs ++ drop (i + length xs) l)

-- `std::vector<char>::resize`, new bytes are 0.
unfoldable pub resize : List ℕ → ℕ → Outcome (List ℕ)
resize l m = if ltb max_size m then length_error else ok (take m l ++ replicate (m - length l) 0)

-- `std::copy(begin() + read_index_, begin() + write_index_, begin())`
unfoldable pub move_down : Buffer → Outcome (List ℕ)
move_down b =
    if ltb b.write_index b.read_index || ltb (length b.buff) b.write_index
    then fault
    else ok (overwrite b.buff 0 (drop b.read_index (take b.write_index b.buff)))

-- The two branches of `make_space`.
unfoldable pub grow : Buffer → ℕ → Outcome Buffer
grow b n = do grown ← resize b.buff (add_size b.write_index n); ok (record b { buff = grown })

unfoldable pub compact : Buffer → Outcome Buffer
compact b = do
  moved ← move_down b
  ok (record { buff = moved; read_index = 0; write_index = readable_bytes b })

unfoldable pub make_space : Buffer → ℕ → Outcome Buffer
make_space b n =
    if ltb (add_size b.read_index (writable_bytes b)) n
    then grow b n
    else (if b.read_index == 0 then ok b else compact b)

unfoldable pub ensure_writable : Buffer → ℕ → Outcome Buffer
ensure_writable b n = if ltb (writable_bytes b) n then make_space b n else ok b

unfoldable pub has_written : Buffer → ℕ → Buffer
has_written b n =
    if ltb (writable_bytes b) n then b else record b { write_index = add_size b.write_index n }

unfoldable pub has_readall : Buffer → Buffer
has_readall b = record b { read_index = 0; write_index = 0 }

unfoldable pub has_readed : Buffer → ℕ → Buffer
has_readed b n =
    if ltb n (readable_bytes b)
    then record b { read_index = add_size b.read_index n }
    else has_readall b

-- Bytes stored from `begin_write()` on: by `std::copy` in `write`, or by a receive of the system.
unfoldable pub fill : Buffer → List ℕ → Outcome Buffer
fill b xs =
    if ltb (length b.buff) (b.write_index + length xs)
    then fault
    else ok (record b { buff = overwrite b.buff b.write_index xs })

-- `write(data, n)` reads `n` bytes behind `data`.
unfoldable pub write : Buffer → Option (List ℕ) → ℕ → Outcome Buffer
write b none n = ok b
write b (some src) n = if n == 0 then ok b else store
  where
    store : Outcome Buffer
    store = do
      ready ← ensure_writable b n
      filled ← if ltb (length src) n then fault else fill ready (take n src)
      ok (has_written filled n)

-- `write(str)`
unfoldable pub write_str : Buffer → List ℕ → Outcome Buffer
write_str b str = write b (some str) (length str)

-- `std::string str(begin_read(), n)`; `begin` indexes the vector, so it must not be empty.
unfoldable pub copy_out : Buffer → ℕ → Outcome (List ℕ)
copy_out b n =
    if (length b.buff == 0) || ltb (length b.buff) (b.read_index + n)
    then fault
    else ok (take n (drop b.read_index b.buff))

-- `read_string(n)`
unfoldable pub read_string : Buffer → ℕ → Outcome (List ℕ × Buffer)
read_string b n = do
  let m = if ltb (readable_bytes b) n then readable_bytes b else n
  str ← copy_out b m
  ok (str, has_readed b m)

-- `read_string()`
unfoldable pub read_all : Buffer → Outcome (List ℕ × Buffer)
read_all b = read_string b (readable_bytes b)

-- `shrink_to_fit` may give back unused capacity; size and bytes stay.
unfoldable pub shrink : Buffer → Buffer
shrink b = record b { buff = b.buff }
