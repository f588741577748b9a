-- ===== src/Rpc/Chunks.antt =====
-- examples/rpc/RpcChannel.cpp: process called for each chunk of bytes that the connection receives.
use ecron.Prelude.{
  List, Option, [], ap, append-nil, append_assoc, arith, joined, length, length-append, ok, refl,
  some, subst, sym, ℕ, ◌++◌, ◌+◌, ◌<◌, ◌∙◌, ◌∷◌, ◌≡◌, ◌≤◌,
}
use ecron.Buffer.{Buffer, ensure_writable, fill, has_written, initial_size, max_size}
use ecron.Buffer.Fifo.{Holds, has_written-fill}
use ecron.Buffer.Space.{ensure_writable-Ready}
use ecron.Rpc.Frame.{packed-Parts}
use ecron.Rpc.Stream.{Fits, messages, process-Delivered, wire}
use ecron.Rpc.Cut.{cut}
use ecron.Rpc.{Channel, Codec, IsLawful, bytes_of, process, receive, receive_all}

-- asio receives into the room behind the write index, which is at least the initial size.
abbrev pub Small : List (List ℕ) → Type 0
Small [] = Unit
Small (x ∷ xs) = (length x ≤ initial_size) × Small xs

module _ {Meta Message : Type 0} (k : Codec Meta Message) where
  receive-of :
      (fuel : ℕ) (c : Channel Meta) (bytes : List ℕ) (b b' : Buffer)
      → ensure_writable c.buffer initial_size ≡ ok b
      → fill b bytes ≡ ok b'
      → receive k fuel c bytes
        ≡ process k fuel (record c { buffer = has_written b' (length bytes) })
  unfolding receive
  receive-of fuel c bytes b b' ready filled = rw ready (rw filled refl)

  receive_all-next :
      (fuel : ℕ) (c c' : Channel Meta) (bytes : List ℕ) (chunks : List (List ℕ))
      → receive k fuel c bytes ≡ ok (some c')
      → receive_all k fuel c (bytes ∷ chunks) ≡ receive_all k fuel c' chunks
  unfolding receive_all
  receive_all-next fuel c c' bytes chunks e = rw e refl

  messages-append :
      (ps qs : List (Meta × Option Message))
      → messages k (ps ++ qs) ≡ messages k ps ++ messages k qs
  unfolding messages
  messages-append [] qs = refl
  messages-append (p ∷ ps) qs = ap (λ l. (p.0, bytes_of k p.1) ∷ l) (messages-append ps qs)

  -- The chunk is put behind what the buffer holds.
  receive-process :
      (fuel : ℕ) (c : Channel Meta) (q bytes : List ℕ)
      → Holds c.buffer q
      → length bytes ≤ initial_size
      → c.buffer.write_index + initial_size ≤ max_size
      → (b : Buffer) × (receive k fuel c bytes ≡ process k fuel (record c { buffer = b }))
        × Holds b (q ++ bytes)
        × (b.write_index ≤ c.buffer.write_index + length bytes)
  receive-process fuel c q bytes holds small room =
      let (r, made, ready) = ensure_writable-Ready c.buffer initial_size holds.valid room in
      let (f, filled, after, index, size) =
        has_written-fill r bytes ready.valid (omega (arith, ready.room)) in
      (
        has_written f (length bytes),
        receive-of fuel c bytes r f made filled,
        subst (λ l. Holds (has_written f (length bytes)) (l ++ bytes)) (ready.kept ∙ holds.bytes)
            after,
        omega (arith, ready.lower),
      )

nothing : {A : Type 0} (xs ys : List A) → xs ++ ys ≡ [] → xs ≡ []
nothing [] ys e = refl
nothing (x ∷ xs) ys e = cc

module _ {Meta Message : Type 0} (k : Codec Meta Message) (law : IsLawful k) where
  no_message : (ps : List (Meta × Option Message)) → wire k ps ≡ [] → ps ≡ []
  unfolding wire
  no_message [] e = refl
  no_message (p ∷ ps) e =
      absurd (omega (arith, ap length e, (packed-Parts k law p.0 p.1 (wire k ps)).all))

  receive_all-from :
      (fuel : ℕ) (chunks : List (List ℕ)) (ps : List (Meta × Option Message)) (c : Channel Meta)
      (rest : List ℕ)
      → Holds c.buffer rest
      → rest ++ joined chunks ≡ wire k ps
      → (joined chunks ≡ [] → ps ≡ [])
      → Fits k ps
      → Small chunks
      → c.buffer.write_index + length (joined chunks) + initial_size ≤ max_size
      → length ps < fuel
      → (b : Buffer) × (receive_all k fuel c chunks
          ≡ ok (some (record c { buffer = b; handled = c.handled ++ messages k ps })))
        × Holds b []
  unfolding receive_all wire messages
  receive_all-from fuel [] ps c rest holds e last fits small room enough =
      let none_left : ps ≡ [] = last refl in
      let gone : rest ≡ [] = nothing rest [] (e ∙ ap (wire k) none_left) in
      (
        c.buffer,
        ap (λ l. ok (some (record c { handled = l })))
            (sym (append-nil c.handled) ∙ ap (λ qs. c.handled ++ messages k qs) (sym none_left)),
        subst (Holds c.buffer) gone holds,
      )
  receive_all-from fuel (x ∷ xs) ps c rest holds e last fits small room enough =
      let more = length-append x (joined xs) in
      let (b, run, held, up) = receive-process k fuel c rest x holds small.0 (omega arith) in
      let parts =
        cut k ps (rest ++ x) (joined xs) fits (sym (append_assoc rest x (joined xs) ∙ e)) in
      let count : length ps ≡ length parts.front + length parts.back =
        ap length parts.both ∙ length-append parts.front parts.back in
      let (b', turned, left, lower) =
        process-Delivered k law fuel parts.front (record c { buffer = b }) parts.rest held.valid
          (held.bytes ∙ parts.before) parts.front_fits parts.part (omega arith) in
      let c' = record c { buffer = b'; handled = c.handled ++ messages k parts.front } in
      let (b'', rest_run, end) =
        receive_all-from fuel xs parts.back c' parts.rest left (sym parts.behind) parts.finished
          parts.back_fits small.1 (omega (arith, lower, up)) (omega arith) in
      (
        b'',
        receive_all-next k fuel c c' x xs (run ∙ turned)
            ∙ rest_run
            ∙ ap (λ l. ok (some (record c { buffer = b''; handled = l })))
                (append_assoc c.handled (messages k parts.front) (messages k parts.back)
                  ∙ ap (λ l. c.handled ++ l)
                      (sym (messages-append k parts.front parts.back)
                        ∙ ap (messages k) (sym parts.both))),
        end,
      )

  -- However the bytes of some messages are cut into chunks of at most the initial size, a channel with
  -- an empty buffer that receives the chunks calls process_message for each message, once and in order,
  -- and its buffer is empty again. The stream must be shorter than the size limit of a buffer by the
  -- initial size, and the fuel of each call of process more than the number of messages.
  pub receive_all-Delivered :
      (fuel : ℕ) (chunks : List (List ℕ)) (ps : List (Meta × Option Message)) (c : Channel Meta)
      → Holds c.buffer []
      → joined chunks ≡ wire k ps
      → Fits k ps
      → Small chunks
      → c.buffer.write_index + length (joined chunks) + initial_size ≤ max_size
      → length ps < fuel
      → (b : Buffer) × (receive_all k fuel c chunks
          ≡ ok (some (record c { buffer = b; handled = c.handled ++ messages k ps })))
        × Holds b []
  receive_all-Delivered fuel chunks ps c holds e fits small room enough =
      receive_all-from fuel chunks ps c [] holds e (λ h. no_message ps (sym e ∙ h)) fits small room
        enough
