-- ===== src/Rpc/Stream.antt =====
-- examples/rpc/RpcChannel.cpp: the loop of process over a stream of messages.
use ecron.Prelude.{
  Bool-cases, List, Option, [], ap, append-nil, append_assoc, arith, inl, inr, length,
  length-append, ltb, none, ok, refl, some, subst, suc, sym, take, take-append_le, zero, ℕ, ◌++◌,
  ◌+◌, ◌<◌, ◌^◌, ◌∙◌, ◌∷◌, ◌≡◌, ◌≤◌,
}
use ecron.Buffer.{Buffer, readable_bytes}
use ecron.Buffer.Inv.{IsValid, contents, length-contents}
use ecron.Buffer.Fifo.{Holds, has_readed-frame}
use ecron.Rpc.Peek.{peek-eq}
use ecron.Rpc.Frame.{Parts, packed, packed-Parts, parse_header-make_header}
use ecron.Rpc.Process.{body_length, handle, handle-Holds, turn-message, turn-part}
use ecron.Rpc.{Channel, Codec, IsLawful, bytes_of, header_len, make_header, process, turn}

module _ {Meta Message : Type 0} (k : Codec Meta Message) where
  -- The bytes of the messages, one behind the other.
  unfoldable pub wire : List (Meta × Option Message) → List ℕ
  wire [] = []
  wire (p ∷ ps) = packed k p.0 p.1 ++ wire ps

  -- What process_message is called with for them.
  unfoldable pub messages : List (Meta × Option Message) → List (Meta × List ℕ)
  messages [] = []
  messages (p ∷ ps) = (p.0, bytes_of k p.1) ∷ messages ps

  -- Each body has a length of 32 bits.
  abbrev pub Fits : List (Meta × Option Message) → Type 0
  Fits [] = Unit
  Fits (p ∷ ps) = (body_length k p.0 p.1 < 2 ^ 32) × Fits ps

  -- Bytes that a message begins with and that are not all of it.
  pub data IsPart (rest : List ℕ) : Type 0 where
    short : length rest < 12 → IsPart rest
    begun :
        (meta : Meta) (msg : Option Message) (more : List ℕ)
        → rest ++ more ≡ packed k meta msg
        → 0 < length more
        → body_length k meta msg < 2 ^ 32
        → IsPart rest

  module _ (c : Channel Meta) (fuel : ℕ) where
    process-short : readable_bytes c.buffer < 12 → process k (suc fuel) c ≡ ok (some c)
    unfolding process
    process-short h = ground arith

    process-stop : turn k c ≡ ok none → process k (suc fuel) c ≡ ok (some c)
    unfolding process
    process-stop e = elim (Bool-cases (ltb (readable_bytes c.buffer) header_len)) [
      | inl h ↦ rw h refl
      | inr h ↦ rw (h, e) refl
    ]

    pub process-next :
        (c' : Channel Meta)
        → 12 ≤ readable_bytes c.buffer
        → turn k c ≡ ok (some c')
        → process k (suc fuel) c ≡ process k fuel c'
    unfolding process
    process-next c' h e = elim (Bool-cases (ltb (readable_bytes c.buffer) header_len)) [
      | inl l ↦ ground arith
      | inr l ↦ rw (l, e) refl
    ]

module _ {Meta Message : Type 0} (k : Codec Meta Message) (law : IsLawful k) where
  -- A message that is not complete is left where it is.
  process-IsPart :
      (c : Channel Meta) (fuel : ℕ)
      → IsValid c.buffer
      → IsPart k (contents c.buffer)
      → process k (suc fuel) c ≡ ok (some c)
  process-IsPart c fuel v (short h) =
      process-short k c fuel (omega (arith, length-contents c.buffer v))
  process-IsPart c fuel v (begun meta msg more e some_more fits) =
      elim (Bool-cases (ltb (length (contents c.buffer)) 12)) [
        | inl h ↦ process-short k c fuel (ground (arith, length-contents c.buffer v))
        | inr h ↦
            let q = contents c.buffer in
            let m = length (k.meta_bytes meta) in
            let b = body_length k meta msg in
            let enough : 12 ≤ length q = ground arith in
            let p = packed-Parts k law meta msg [] in
            let whole : packed k meta msg ++ [] ≡ q ++ more =
              append-nil (packed k meta msg) ∙ sym e in
            let header : take 12 q ≡ make_header k b m =
              sym (take-append_le 12 q more enough) ∙ ap (take 12) (sym whole) ∙ p.header in
            let le : m ≤ b = omega (arith, length-append (k.meta_bytes meta) (bytes_of k msg)) in
            let size = length-contents c.buffer v in
            process-stop k c fuel (
              turn-part k c (make_header k b m) b m
                (peek-eq c.buffer 0 12 v (omega arith) ∙ ap ok header)
                (parse_header-make_header k law b m fits le)
                (omega (arith, length-append q more, p.all, ap length whole)))
      ]

  -- When the buffer holds the bytes of some messages and then a part of another one, process calls
  -- process_message for each of them, once and in order, leaves the part in the buffer, whose write
  -- index does not move up, and returns, with fuel for one turn more than there are messages.
  pub process-Delivered :
      (fuel : ℕ) (ps : List (Meta × Option Message)) (c : Channel Meta) (rest : List ℕ)
      → IsValid c.buffer
      → contents c.buffer ≡ wire k ps ++ rest
      → Fits k ps
      → IsPart k rest
      → length ps < fuel
      → (b : Buffer) × (process k fuel c
          ≡ ok (some (record c { buffer = b; handled = c.handled ++ messages k ps })))
        × Holds b rest
        × (b.write_index ≤ c.buffer.write_index)
  unfolding wire messages
  process-Delivered zero ps c rest v e fits part h = absurd (omega arith)
  process-Delivered (suc fuel) [] c rest v e fits part h = (
    c.buffer,
    process-IsPart c fuel v (subst (IsPart k) (sym e) part)
        ∙ ap (λ l. ok (some (record c { handled = l }))) (sym (append-nil c.handled)),
    record { valid = v; bytes = e },
    omega arith,
  )
  process-Delivered (suc fuel) (p ∷ ps) c rest v e fits part h =
      let (meta, msg) = p in
      let parts : Parts k meta msg (wire k ps ++ rest) (contents c.buffer) =
        subst (Parts k meta msg (wire k ps ++ rest))
          (sym (e ∙ append_assoc (packed k meta msg) (wire k ps) rest))
          (packed-Parts k law meta msg (wire k ps ++ rest)) in
      let next = handle k c meta msg in
      let holds = handle-Holds k law c v meta msg (wire k ps ++ rest) parts in
      let (b, run, left, lower) =
        process-Delivered fuel ps next rest holds.valid holds.bytes fits.1 part (omega arith) in
      (
        b,
        process-next k c fuel next (omega (arith, length-contents c.buffer v, parts.all))
              (turn-message k law c v meta msg (wire k ps ++ rest) fits.0 parts)
            ∙ run
            ∙ ap (λ l. ok (some (record c { buffer = b; handled = l })))
                (append_assoc c.handled ((meta, bytes_of k msg) ∷ []) (messages k ps)),
        left,
        omega (arith, (has_readed-frame c.buffer (12 + body_length k meta msg)).0),
      )
