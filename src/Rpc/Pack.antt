-- ===== src/Rpc/Pack.antt =====
-- examples/rpc/RpcChannel.cpp: pack_send writes the bytes of one message.
use ecron.Prelude.{
  List, Option, [], ap, append-nil, append_assoc, arith, false, if◌then◌else◌, length,
  length-append, ltb, none, ok, refl, some, subst, sym, take, take-length, true, ℕ, ◌%◌, ◌++◌, ◌+◌,
  ◌<◌, ◌^◌, ◌∙◌, ◌∷◌, ◌≡◌, ◌≤◌,
}
use ecron.Buffer.{Buffer, initial_size, writable_bytes, ensure_writable, write, fill, has_written}
use ecron.Buffer
use ecron.Buffer.Inv.{contents, create-fresh, fresh, fresh-IsValid, writable_bytes-eq}
use ecron.Buffer.Fifo.{Holds, has_written-fill, write-Holds}
use ecron.Buffer.Space.{ensure_writable-Ready}
use ecron.TcpConnection.{send}
use ecron.Rpc.Frame.{length-make_header, packed}
use ecron.Rpc.{
  Codec, IsLawful, bytes_of, header_len, make_header, pack, pack_bytes, pack_parts, pack_send,
  size_of,
}

pub pack_bytes-Holds :
    (b : Buffer) (xs q : List ℕ)
    → Holds b q
    → b.write_index + length xs ≤ length b.buff
    → (b' : Buffer) × (pack_bytes b xs (length xs) ≡ ok b')
      × Holds b' (q ++ xs)
      × (b'.write_index ≡ b.write_index + length xs)
      × (length b'.buff ≡ length b.buff)
unfolding pack_bytes
pack_bytes-Holds b xs q holds h =
    let (f, filled, after, index, size) =
      has_written-fill b xs holds.valid (omega (arith, writable_bytes-eq b holds.valid)) in
    (
      has_written f (length xs),
      rw filled refl,
      subst (λ l. Holds (has_written f (length xs)) (l ++ xs)) holds.bytes after,
      index,
      size,
    )

-- The second part is left out where it is empty.
message_part-Holds :
    (b : Buffer) (xs q : List ℕ)
    → Holds b q
    → b.write_index + length xs ≤ length b.buff
    → (b' : Buffer) × ((if ltb 0 (length xs) then pack_bytes b xs (length xs) else ok b) ≡ ok b')
      × Holds b' (q ++ xs)
message_part-Holds b [] q holds h =
    (b, refl, record { valid = holds.valid; bytes = holds.bytes ∙ sym (append-nil q) })
message_part-Holds b (x ∷ xs) q holds h =
    let (b', e, after, index, size) = pack_bytes-Holds b (x ∷ xs) q holds h in
    (b', ground (arith, e), after)

module _ {Meta Message : Type 0} (k : Codec Meta Message) (meta : Meta) (msg : Option Message) where
  pack_parts-of :
      (new r b b' b'' : Buffer) (meta_len msg_len body_len : ℕ)
      → Buffer.create initial_size ≡ ok new
      → ensure_writable new (body_len + header_len) ≡ ok r
      → write r (some (make_header k body_len meta_len)) header_len ≡ ok b
      → pack_bytes b (k.meta_bytes meta) meta_len ≡ ok b'
      → (if ltb 0 msg_len then pack_bytes b' (bytes_of k msg) msg_len else ok b') ≡ ok b''
      → pack_parts k meta msg meta_len msg_len body_len ≡ ok b''
  unfolding pack_parts
  pack_parts-of new r b b' b'' meta_len msg_len body_len made ready header first second =
      rw made (rw ready (rw header (rw first second)))

pub size_of-eq :
    {Meta Message : Type 0} (k : Codec Meta Message) (law : IsLawful k) (msg : Option Message)
    → length (bytes_of k msg) < 2 ^ 32
    → size_of k msg ≡ length (bytes_of k msg)
size_of-eq k law none h = refl
size_of-eq k law (some x) h = omega (arith, law.message_length x)

module _ {Meta Message : Type 0} (k : Codec Meta Message) (law : IsLawful k) (meta : Meta)
    (msg : Option Message) (fits : length (k.meta_bytes meta ++ bytes_of k msg) < 2 ^ 32) where
  pack_parts-Holds :
      (b : Buffer) × (pack_parts k meta msg
          (length (k.meta_bytes meta))
          (length (bytes_of k msg))
          (length (k.meta_bytes meta ++ bytes_of k msg))
        ≡ ok b)
      × Holds b (packed k meta msg)
  unfolding packed
  pack_parts-Holds =
      let m = k.meta_bytes meta in
      let x = bytes_of k msg in
      let h = make_header k (length (m ++ x)) (length m) in
      let twelve : length h ≡ 12 = length-make_header k law (length (m ++ x)) (length m) in
      let more : length (m ++ x) ≡ length m + length x = length-append m x in
      let (r, ready, room) =
        ensure_writable-Ready fresh (length (m ++ x) + 12) fresh-IsValid (omega arith) in
      let space = writable_bytes-eq r room.valid in
      let (b, header, holds, index, wide) =
        write-Holds r h 12 room.valid (omega arith) (omega (arith, room.lower)) in
      let begun : contents r ++ take 12 h ≡ h =
        ap (λ q. q ++ take 12 h) room.kept ∙ take-length 12 h (omega arith) in
      let (b', first, after, moved, same) =
        pack_bytes-Holds b m h (record { valid = holds.valid; bytes = holds.bytes ∙ begun })
          (omega (arith, room.room, room.lower)) in
      let (b'', second, all) =
        message_part-Holds b' x (h ++ m) after (omega (arith, room.room, room.lower)) in
      (
        b'',
        pack_parts-of k meta msg fresh r b b' b'' (length m) (length x) (length (m ++ x))
            create-fresh ready header first second,
        subst (Holds b'') (append_assoc h m x) all,
      )

  -- pack fills a new buffer with the message as the protocol describes it.
  pub pack-Holds : (b : Buffer) × (pack k meta msg ≡ ok b) × Holds b (packed k meta msg)
  unfolding pack
  pack-Holds =
      let m = k.meta_bytes meta in
      let x = bytes_of k msg in
      let more : length (m ++ x) ≡ length m + length x = length-append m x in
      let meta_len : k.meta_size meta % 2 ^ 32 ≡ length m = omega (arith, law.meta_length meta) in
      let msg_len : size_of k msg ≡ length x = size_of-eq k law msg (omega arith) in
      let body_len : (length m + length x) % 2 ^ 32 ≡ length (m ++ x) = omega arith in
      let (b, e, holds) = pack_parts-Holds in (b, rw (meta_len, msg_len, body_len) e, holds)

  -- Where meta and message together have fewer than 2 ^ 32 bytes, pack_send gives the connection, if
  -- it is still there, one buffer, whose bytes are the message.
  pub pack_send-Packed :
      (b : Buffer) × Holds b (packed k meta msg)
      × (pack_send k true meta msg ≡ ok (send (some b) ∷ []))
      × (pack_send k false meta msg ≡ ok [])
  unfolding pack_send
  pack_send-Packed = let (b, e, holds) = pack-Holds in (b, holds, rw e refl, rw e refl)
