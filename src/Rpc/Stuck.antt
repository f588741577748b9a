-- ===== src/Rpc/Stuck.antt =====
-- examples/rpc/RpcChannel.cpp: a message whose meta does not parse.
use ecron.Prelude.{
  List, arith, drop, length, none, ok, refl, some, suc, take, zero, ℕ, ◌+◌, ◌∙◌, ◌≡◌, ◌≤◌,
}
use ecron.Buffer.{readable_bytes}
use ecron.Buffer.Inv.{IsValid, contents, length-contents}
use ecron.Rpc.Peek.{peek-eq}
use ecron.Rpc.Stream.{process-next}
use ecron.Rpc.{Channel, Codec, give_up, header_len, parse_header, peek, process, take_message, turn}

module _ {Meta Message : Type 0} (k : Codec Meta Message) where
  meta_len-le :
      (header : List ℕ) (body_len meta_len : ℕ)
      → parse_header k header ≡ some (body_len, meta_len)
      → meta_len ≤ body_len
  unfolding parse_header
  meta_len-le header body_len meta_len e = ground arith

  turn-bad :
      (c : Channel Meta) (header bytes : List ℕ) (body_len meta_len : ℕ)
      → peek c.buffer 0 header_len ≡ ok header
      → parse_header k header ≡ some (body_len, meta_len)
      → header_len + body_len ≤ readable_bytes c.buffer
      → peek c.buffer header_len meta_len ≡ ok bytes
      → k.parse_meta bytes ≡ none
      → turn k c ≡ ok (some (give_up c))
  unfolding turn take_message
  turn-bad c header bytes body_len meta_len read sizes complete bytes_read bad = ground arith

  -- When the buffer begins with a complete message whose meta does not parse, process does not
  -- return: with any fuel it takes all its turns and leaves the message where it is.
  pub process-stuck :
      (fuel body_len meta_len : ℕ) (c : Channel Meta)
      → IsValid c.buffer
      → parse_header k (take 12 (contents c.buffer)) ≡ some (body_len, meta_len)
      → 12 + body_len ≤ length (contents c.buffer)
      → k.parse_meta (take meta_len (drop 12 (contents c.buffer))) ≡ none
      → process k fuel c ≡ ok none
  unfolding process
  process-stuck zero body_len meta_len c v sizes complete bad = refl
  process-stuck (suc fuel) body_len meta_len c v sizes complete bad =
      let size = length-contents c.buffer v in
      let le = meta_len-le (take 12 (contents c.buffer)) body_len meta_len sizes in
      process-next k c fuel (give_up c) (omega arith) (
        turn-bad c (take 12 (contents c.buffer)) (take meta_len (drop 12 (contents c.buffer)))
          body_len meta_len (peek-eq c.buffer 0 12 v (omega arith)) sizes (omega arith)
          (peek-eq c.buffer 12 meta_len v (omega arith)) bad)
      ∙ process-stuck fuel body_len meta_len (give_up c) v sizes complete bad
