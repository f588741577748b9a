-- ===== src/Rpc/Overflow.antt =====
-- examples/rpc/RpcChannel.cpp: pack_send with lengths whose sum does not fit 32 bits.
use ecron.Prelude.{length, ℕ, ◌+◌, ◌≡◌, ◌≤◌}
use ecron.Buffer
use ecron.Buffer.{Buffer, overwrite}

-- Longer by at most `n`, with no byte read yet.
abbrev Grown : Buffer → ℕ → Buffer → Type 0
Grown b n r = (length r.buff ≤ length b.buff + n) × (r.read_index ≡ 0)

abbrev Longer : Buffer → ℕ → Buffer → Type 0
Longer b n r = length r.buff ≤ length b.buff + n
