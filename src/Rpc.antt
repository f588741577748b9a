-- ===== src/Rpc.antt =====
-- examples/rpc/RpcChannel.cpp: the messages of the protocol in a stream of bytes.
-- A message is "ERPC", the lengths of body and meta in network order, the meta, and the user's bytes.
pub mod Peek
pub mod Frame
pub mod Process
pub mod Stream
pub mod Cut
pub mod Chunks
pub mod Pack
pub mod Overflow
pub mod Stuck
pub mod Calls
pub mod Ends
pub mod RpcServer
pub mod RpcClient
pub mod Plain
pub mod Samples
mod Tests
use ecron.Prelude.{
  Bool, List, Option, Outcome, [], drop, fault, if◌then◌else◌, length, ltb, none, not, ok,
  same_bytes, some, suc, take, zero, ℕ, ◌%◌, ◌++◌, ◌+◌, ◌-◌, ◌<◌, ◌>>=◌, ◌^◌, ◌∷◌, ◌≡◌,
}
use ecron.Buffer.{
  Buffer, readable_bytes, has_readed, has_written, ensure_writable, fill, write, initial_size,
}
use ecron.Buffer
use ecron.TcpConnection.{Call, send}

-- asio's conversions, on the bytes in memory, and what the generated code does.
pub record Codec (Meta Message : Type 0) : Type 0 where
  pub network_to_host : List ℕ → ℕ
  pub host_to_network : ℕ → List ℕ
  pub parse_meta : List ℕ → Option Meta
  pub meta_bytes : Meta → List ℕ
  pub meta_size : Meta → ℕ
  pub message_bytes : Message → List ℕ
  pub message_size : Message → ℕ

-- What is documented of them.
pub record IsLawful {Meta Message : Type 0} (k : Codec Meta Message) : Type 0 where
  pub four_bytes : (n : ℕ) → length (k.host_to_network n) ≡ 4
  pub same_number : (n : ℕ) → n < 2 ^ 32 → k.network_to_host (k.host_to_network n) ≡ n
  pub parsed : (m : Meta) → k.parse_meta (k.meta_bytes m) ≡ some m
  pub meta_length : (m : Meta) → k.meta_size m ≡ length (k.meta_bytes m)
  pub message_length : (x : Message) → k.message_size x ≡ length (k.message_bytes x)

abbrev pub header_len : ℕ
header_len = 12

abbrev pub identifier : List ℕ
identifier = 69 ∷ 82 ∷ 80 ∷ 67 ∷ []

-- `n` bytes at `begin_read() + i`
unfoldable pub peek : Buffer → ℕ → ℕ → Outcome (List ℕ)
peek b i n =
    if ltb (length b.buff) (b.read_index + i + n)
    then fault
    else ok (take n (drop (b.read_index + i) b.buff))

-- The buffer, whether the connection is still there, what process_message was called with, and the
-- number of calls of close.
pub record Channel (Meta : Type 0) : Type 0 where
  pub buffer : Buffer
  pub connected : Bool
  pub handled : List (Meta × List ℕ)
  pub closes : ℕ

-- The bytes are stored behind `begin_write()`, then announced.
unfoldable pub pack_bytes : Buffer → List ℕ → ℕ → Outcome Buffer
pack_bytes b bytes n = do b' ← fill b bytes; ok (has_written b' n)

-- What process does where the meta does not parse.
abbrev pub give_up : {Meta : Type 0} → Channel Meta → Channel Meta
give_up c = record c { closes = if c.connected then c.closes + 1 else c.closes }

module _ {Meta Message : Type 0} (k : Codec Meta Message) where
  -- The lengths of body and meta, or `none` where process returns with an error.
  unfoldable pub parse_header : List ℕ → Option (ℕ × ℕ)
  parse_header header =
      let body_len = k.network_to_host (take 4 (drop 4 header)) in
      let meta_len = k.network_to_host (take 4 (drop 8 header)) in
      if not (same_bytes (take 4 header) identifier)
      then none
      else (if ltb body_len meta_len then none else some (body_len, meta_len))

  -- The part of the loop behind the check that the message is complete.
  unfoldable pub take_message : Channel Meta → ℕ → ℕ → Outcome (Channel Meta)
  take_message c body_len meta_len = do
    bytes ← peek c.buffer header_len meta_len
    elim (k.parse_meta bytes) [
      | none ↦ ok (give_up c)
      | some m ↦ do
        msg ← peek c.buffer (header_len + meta_len) (body_len - meta_len)
        ok (record c {
          buffer = has_readed c.buffer (header_len + body_len);
          handled = c.handled ++ (m, msg) ∷ [];
        })
    ]

  -- The body of the loop: none where it returns.
  unfoldable pub turn : Channel Meta → Outcome (Option (Channel Meta))
  turn c = do
    header ← peek c.buffer 0 header_len
    elim (parse_header header) [
      | none ↦ ok none
      | some sizes ↦
          if ltb (readable_bytes c.buffer) (header_len + sizes.0)
          then ok none
          else (do c' ← take_message c sizes.0 sizes.1; ok (some c'))
    ]

  -- The loop, `none` where the fuel is used up.
  unfoldable pub process : ℕ → Channel Meta → Outcome (Option (Channel Meta))
  process zero c = ok none
  process (suc fuel) c =
      if ltb (readable_bytes c.buffer) header_len
      then ok (some c)
      else (do next ← turn c; elim next [ none ↦ ok (some c) | some c' ↦ process fuel c' ])

  -- What a receive of the connection does to the buffer, and then RpcClient::on_recv.
  unfoldable pub receive : ℕ → Channel Meta → List ℕ → Outcome (Option (Channel Meta))
  receive fuel c bytes = do
    b ← ensure_writable c.buffer initial_size
    b' ← fill b bytes
    process fuel (record c { buffer = has_written b' (length bytes) })

  unfoldable pub receive_all : ℕ → Channel Meta → List (List ℕ) → Outcome (Option (Channel Meta))
  receive_all fuel c [] = ok (some c)
  receive_all fuel c (bytes ∷ chunks) = do
    next ← receive fuel c bytes
    elim next [ none ↦ ok none | some c' ↦ receive_all fuel c' chunks ]

  -- `msg` may be a null pointer.
  abbrev pub size_of : Option Message → ℕ
  size_of none = 0
  size_of (some x) = k.message_size x % 2 ^ 32

  abbrev pub bytes_of : Option Message → List ℕ
  bytes_of none = []
  bytes_of (some x) = k.message_bytes x

  unfoldable pub make_header : ℕ → ℕ → List ℕ
  make_header body_len meta_len =
      identifier ++ k.host_to_network body_len ++ k.host_to_network meta_len

  -- The buffer filled, with the lengths as process will read them.
  unfoldable pub pack_parts : Meta → Option Message → ℕ → ℕ → ℕ → Outcome Buffer
  pack_parts meta msg meta_len msg_len body_len = do
    new ← Buffer.create initial_size
    b ← ensure_writable new (body_len + header_len)
    b' ← write b (some (make_header body_len meta_len)) header_len
    b'' ← pack_bytes b' (k.meta_bytes meta) meta_len
    if ltb 0 msg_len then pack_bytes b'' (bytes_of msg) msg_len else ok b''

  unfoldable pub pack : Meta → Option Message → Outcome Buffer
  pack meta msg =
      let meta_len = k.meta_size meta % 2 ^ 32 in
      let msg_len = size_of msg in
      pack_parts meta msg meta_len msg_len ((meta_len + msg_len) % 2 ^ 32)

  -- The calls on the connection, which may be gone.
  unfoldable pub pack_send : Bool → Meta → Option Message → Outcome (List Call)
  pack_send connected meta msg = do
    b ← pack meta msg
    ok (if connected then send (some b) ∷ [] else [])
