-- ===== src/Rpc/Process.antt =====
-- examples/rpc/RpcChannel.cpp: process takes the complete messages out of its buffer, each once.
use ecron.Prelude.{
  List, Option, [], ap, arith, length, length-append, none, ok, some, subst, sym, ℕ, ◌++◌, ◌+◌, ◌-◌,
  ◌<◌, ◌^◌, ◌∙◌, ◌∷◌, ◌≡◌, ◌≤◌,
}
use ecron.Buffer.{readable_bytes, has_readed}
use ecron.Buffer.Inv.{IsValid, contents, length-contents}
use ecron.Buffer.Fifo.{Holds, has_readed-Holds}
use ecron.Rpc.Peek.{peek-eq}
use ecron.Rpc.Frame.{Parts, parse_header-make_header}
use ecron.Rpc.{
  Channel, Codec, IsLawful, bytes_of, header_len, make_header, parse_header, peek, take_message,
  turn,
}

module _ {Meta Message : Type 0} (k : Codec Meta Message) where
  abbrev pub body_length : Meta → Option Message → ℕ
  body_length meta msg = length (k.meta_bytes meta ++ bytes_of k msg)

  -- The channel after the message `meta` and `msg`, which its buffer begins with.
  abbrev pub handle : Channel Meta → Meta → Option Message → Channel Meta
  handle c meta msg = record c {
    buffer = has_readed c.buffer (header_len + body_length meta msg);
    handled = c.handled ++ (meta, bytes_of k msg) ∷ [];
  }

  turn-of :
      (c c' : Channel Meta) (header : List ℕ) (body_len meta_len : ℕ)
      → peek c.buffer 0 header_len ≡ ok header
      → parse_header k header ≡ some (body_len, meta_len)
      → header_len + body_len ≤ readable_bytes c.buffer
      → take_message k c body_len meta_len ≡ ok c'
      → turn k c ≡ ok (some c')
  unfolding turn
  turn-of c c' header body_len meta_len read parsed complete taken = ground arith

  pub turn-part :
      (c : Channel Meta) (header : List ℕ) (body_len meta_len : ℕ)
      → peek c.buffer 0 header_len ≡ ok header
      → parse_header k header ≡ some (body_len, meta_len)
      → readable_bytes c.buffer < header_len + body_len
      → turn k c ≡ ok none
  unfolding turn
  turn-part c header body_len meta_len read parsed partial = ground arith

  take_message-of :
      (c : Channel Meta) (body_len meta_len : ℕ) (bytes msg : List ℕ) (meta : Meta)
      → peek c.buffer header_len meta_len ≡ ok bytes
      → k.parse_meta bytes ≡ some meta
      → peek c.buffer (header_len + meta_len) (body_len - meta_len) ≡ ok msg
      → take_message k c body_len meta_len
        ≡ ok (record c {
          buffer = has_readed c.buffer (header_len + body_len);
          handled = c.handled ++ (meta, msg) ∷ [];
        })
  unfolding take_message
  take_message-of c body_len meta_len bytes msg meta read parsed rest = ground arith

  module _ (law : IsLawful k) (c : Channel Meta) (v : IsValid c.buffer) where
    pub turn-message :
        (meta : Meta) (msg : Option Message) (rest : List ℕ)
        → body_length meta msg < 2 ^ 32
        → Parts k meta msg rest (contents c.buffer)
        → turn k c ≡ ok (some (handle c meta msg))
    turn-message meta msg rest fits p =
        let m = length (k.meta_bytes meta) in
        let b = body_length meta msg in
        let size : readable_bytes c.buffer ≡ 12 + b + length rest =
          sym (length-contents c.buffer v) ∙ p.all in
        let le : m ≤ b = omega (arith, length-append (k.meta_bytes meta) (bytes_of k msg)) in
        turn-of c (handle c meta msg) (make_header k b m) b m
          (peek-eq c.buffer 0 12 v (omega arith) ∙ ap ok p.header)
          (parse_header-make_header k law b m fits le) (omega arith)
          (take_message-of c b m (k.meta_bytes meta) (bytes_of k msg) meta
            (peek-eq c.buffer 12 m v (omega arith) ∙ ap ok p.meta_part) (law.parsed meta)
            (peek-eq c.buffer (12 + m) (b - m) v (omega arith) ∙ ap ok p.message_part))

    -- What is left of the buffer behind the message.
    pub handle-Holds :
        (meta : Meta) (msg : Option Message) (rest : List ℕ)
        → Parts k meta msg rest (contents c.buffer)
        → Holds (handle c meta msg).buffer rest
    handle-Holds meta msg rest p =
        subst (Holds (handle c meta msg).buffer) p.behind
          (has_readed-Holds c.buffer (12 + body_length meta msg) v)
