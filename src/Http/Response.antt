-- ===== src/Http/Response.antt =====
-- examples/http/HttpResponse.cpp: the bytes of a response.
use ecron.Prelude.{
  Bool, List, Outcome, [], ap, append-nil, append_assoc, arith, drop, false, fault, if◌then◌else◌,
  length, length-append, length-drop, lookup, ltb, none, ok, refl, some, sym, take, take-drop-take,
  take-length, true, ℕ, ◌++◌, ◌+◌, ◌-◌, ◌==◌, ◌>>=◌, ◌∙◌, ◌∷◌, ◌≡◌, ◌≤◌,
}
use ecron.Buffer.{Buffer, readable_bytes, max_size, write, write_str}
use ecron.Buffer.Inv.{IsValid, contents, length-contents, readable_bytes-eq}
use ecron.Buffer.Fifo.{Holds, write-Holds}
use ecron.Http.{
  HttpResponse, code_status, connection_line, crlf, find_status, header_line, is_empty, length_line,
  make_buffer, status_line, type_line, write_headers, write_response,
}

-- A call that appends `xs` to a buffer and returns it.
pub record Appends (b : Buffer) (m : Outcome Buffer) (xs : List ℕ) : Type 0 where
  pub after : Buffer
  pub returns : m ≡ ok after
  pub valid : IsValid after
  pub bytes : contents after ≡ contents b ++ xs
  pub index : after.write_index ≤ b.write_index + length xs

pub write_str-Appends :
    (b : Buffer) (xs : List ℕ)
    → IsValid b
    → b.write_index + length xs ≤ max_size
    → Appends b (write_str b xs) xs
unfolding write_str
write_str-Appends b xs v h =
    let (b', e, holds, index, wide) = write-Holds b xs (length xs) v (omega arith) h in
    record {
      after = b';
      returns = e;
      valid = holds.valid;
      bytes = holds.bytes ∙ ap (λ l. contents b ++ l) (take-length (length xs) xs (omega arith));
      index = index;
    }

pub nothing-Appends : (b : Buffer) → IsValid b → Appends b (ok b) []
nothing-Appends b v = record {
  after = b;
  returns = refl;
  valid = v;
  bytes = sym (append-nil (contents b));
  index = omega arith;
}

-- A function that appends `xs` to every buffer that may get so long.
abbrev pub Writes : (Buffer → Outcome Buffer) → List ℕ → Type 0
Writes f xs = (b : Buffer) → IsValid b → b.write_index + length xs ≤ max_size → Appends b (f b) xs

-- Two calls, one after the other.
Writes-then :
    (f g : Buffer → Outcome Buffer) (xs ys : List ℕ)
    → Writes f xs
    → Writes g ys
    → Writes (λ b. f b >>= g) (xs ++ ys)
Writes-then f g xs ys first second b v h =
    let size = length-append xs ys in
    let one = first b v (omega (arith, size)) in
    let two = second one.after one.valid (omega (arith, size, one.index)) in
    record {
      after = two.after;
      returns = ap (λ r. r >>= g) one.returns ∙ two.returns;
      valid = two.valid;
      bytes = two.bytes ∙ ap (λ l. l ++ ys) one.bytes ∙ append_assoc (contents b) xs ys;
      index = omega (arith, one.index, two.index, size);
    }

write_str-Writes : (xs : List ℕ) → Writes (λ b. write_str b xs) xs
write_str-Writes xs b v h = write_str-Appends b xs v h

pub remaining-contents :
    (b : Buffer) → IsValid b → take (readable_bytes b) (drop b.read_index b.buff) ≡ contents b
remaining-contents b v =
    sym (
      take-drop-take (readable_bytes b) b.read_index b.write_index b.buff
        (omega (arith, v, readable_bytes-eq b v)))
    ∙ take-length (readable_bytes b) (contents b) (omega (arith, length-contents b v))

write_body-Writes :
    (body : Buffer)
    → IsValid body
    → Writes
        (λ b. write b (some (drop body.read_index body.buff)) (readable_bytes body))
        (contents body)
write_body-Writes body w b v h =
    let n = readable_bytes body in
    let src = drop body.read_index body.buff in
    let part : take n src ≡ contents body = remaining-contents body w in
    let size = length-contents body w in
    let len : length src ≡ length body.buff - body.read_index =
      length-drop body.read_index body.buff in
    let (b', e, holds, index, wide) =
      write-Holds b src n v (omega (arith, w, readable_bytes-eq body w)) (omega arith) in
    record {
      after = b';
      returns = e;
      valid = holds.valid;
      bytes = holds.bytes ∙ ap (λ l. contents b ++ l) part;
      index = omega arith;
    }

if-Writes :
    (t : Bool) (f : Buffer → Outcome Buffer) (xs : List ℕ)
    → Writes f xs
    → Writes (λ b. if t then f b else ok b) (if t then xs else [])
if-Writes true f xs w b v h = w b v h
if-Writes false f xs w b v h = nothing-Appends b v

unless-Writes :
    (t : Bool) (f : Buffer → Outcome Buffer) (xs : List ℕ)
    → Writes f xs
    → Writes (λ b. if t then ok b else f b) (if t then [] else xs)
unless-Writes true f xs w b v h = nothing-Appends b v
unless-Writes false f xs w b v h = w b v h

-- The header lines.
unfoldable pub header_lines : List (List ℕ × List ℕ) → List ℕ
header_lines [] = []
header_lines (item ∷ items) = header_line item ++ header_lines items

write_headers-Writes :
    (items : List (List ℕ × List ℕ)) → Writes (λ b. write_headers b items) (header_lines items)
unfolding write_headers header_lines
write_headers-Writes [] b v h = nothing-Appends b v
write_headers-Writes (item ∷ items) b v h =
    Writes-then (λ b. write_str b (header_line item)) (λ b. write_headers b items)
      (header_line item) (header_lines items) (write_str-Writes (header_line item))
      (write_headers-Writes items) b v h

find_status-known :
    (code : ℕ) (status : List ℕ)
    → lookup ◌==◌ code code_status ≡ some status
    → find_status code ≡ ok status
unfolding find_status
find_status-known code status e = ground (arith, e)

find_status-unknown : (code : ℕ) → lookup ◌==◌ code code_status ≡ none → find_status code ≡ fault
unfolding find_status
find_status-unknown code e = ground (arith, e)

module _ (format : ℕ → List ℕ) where
  -- A whole response.
  unfoldable pub rendered : HttpResponse → List ℕ → List ℕ
  rendered r status =
      status_line format r.code status
      ++ (header_lines r.headers
          ++ (connection_line r.close_connection
              ++ ((if is_empty r.content_type then [] else type_line r.content_type)
                  ++ ((if ltb 0 r.content_len then length_line format r.content_len else [])
                      ++ (crlf ++ contents r.body)))))

  write_response-Writes :
      (r : HttpResponse) (status : List ℕ)
      → IsValid r.body
      → Writes (write_response format r status) (rendered r status)
  unfolding write_response rendered
  write_response-Writes r status w b v h =
      let type_part = if is_empty r.content_type then [] else type_line r.content_type in
      let length_part = if ltb 0 r.content_len then length_line format r.content_len else [] in
      let line = λ (xs : List ℕ) (c : Buffer). write_str c xs in
      let g1 = λ (c : Buffer).
        write c (some (drop r.body.read_index r.body.buff)) (readable_bytes r.body) in
      let g2 = λ (c : Buffer). line crlf c >>= g1 in
      let size = λ (c : Buffer).
        if ltb 0 r.content_len then line (length_line format r.content_len) c else ok c in
      let g3 = λ (c : Buffer). size c >>= g2 in
      let type = λ (c : Buffer).
        if is_empty r.content_type then ok c else line (type_line r.content_type) c in
      let g4 = λ (c : Buffer). type c >>= g3 in
      let connection = connection_line r.close_connection in
      let g5 = λ (c : Buffer). line connection c >>= g4 in
      let heads = λ (c : Buffer). write_headers c r.headers in
      let g6 = λ (c : Buffer). heads c >>= g5 in
      let first = status_line format r.code status in
      let q2 = crlf ++ contents r.body in
      let q3 = length_part ++ q2 in
      let q4 = type_part ++ q3 in
      let q5 = connection ++ q4 in
      let w2 =
        Writes-then (line crlf) g1 crlf (contents r.body) (write_str-Writes crlf)
          (write_body-Writes r.body w) in
      let w3 =
        Writes-then size g2 length_part q2
          (if-Writes (ltb 0 r.content_len) (line (length_line format r.content_len))
            (length_line format r.content_len)
            (write_str-Writes (length_line format r.content_len)))
          w2 in
      let w4 =
        Writes-then type g3 type_part q3
          (unless-Writes (is_empty r.content_type) (line (type_line r.content_type))
            (type_line r.content_type) (write_str-Writes (type_line r.content_type)))
          w3 in
      let w5 = Writes-then (line connection) g4 connection q4 (write_str-Writes connection) w4 in
      let w6 =
        Writes-then heads g5 (header_lines r.headers) q5 (write_headers-Writes r.headers) w5 in
      let done =
        Writes-then (line first) g6 first (header_lines r.headers ++ q5) (write_str-Writes first) w6
          b v h in
      done

  -- A response with a code of the table is written as its status line, its headers, the connection,
  -- the type and the length where they are set, an empty line and the body, in this order, behind
  -- what the buffer holds, if the buffer may get so long.
  pub make_buffer-rendered :
      (r : HttpResponse) (status : List ℕ) (b : Buffer)
      → lookup ◌==◌ r.code code_status ≡ some status
      → IsValid r.body
      → IsValid b
      → b.write_index + length (rendered r status) ≤ max_size
      → (b' : Buffer) × (make_buffer format r b ≡ ok b')
        × Holds b' (contents b ++ rendered r status)
  unfolding make_buffer
  make_buffer-rendered r status b known w v h =
      let done = write_response-Writes r status w b v h in
      (
        done.after,
        rw (find_status-known r.code status known) done.returns,
        record { valid = done.valid; bytes = done.bytes },
      )

  -- With a code that is not in the table, make_buffer reads the end of the map.
  pub make_buffer-fault :
      (r : HttpResponse) (b : Buffer)
      → lookup ◌==◌ r.code code_status ≡ none
      → make_buffer format r b ≡ fault
  unfolding make_buffer
  make_buffer-fault r b unknown = rw (find_status-unknown r.code unknown) refl
