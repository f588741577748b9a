-- ===== src/Http/Task/Collect.antt =====
-- examples/http/HttpTask.cpp: what the parser's callbacks put together.
use ecron.Prelude.{
  >>=-eq-ok, Bool, List, Never, Never-elim, [], ap, append-nil, append_assoc, arith, assign, drop,
  false, if◌then◌else◌, joined, length, length-append, ok, ok-injective, refl, same_bytes, some,
  subst, sym, take, take-length, true, ℕ, ◌++◌, ◌+◌, ◌∙◌, ◌∷◌, ◌≡◌, ◌≤◌,
}
use ecron.Buffer.{Buffer, max_size, write, readable_bytes, has_readed}
use ecron.Buffer.Inv.{IsValid, contents}
use ecron.Buffer.Fifo.{Holds, write-Holds}
use ecron.Http.Task.{
  HttpParser, HttpTask, Parsed, ParserEvent, body_data, header_field_data, header_value_data,
  headers_end, message_begin, message_end, on_body, on_event, on_events, on_header_field,
  on_header_value, on_headers_complete, on_message_complete, on_url, parse, status_data,
  take_parsed, url_data,
}

-- The callbacks for headers, and for a body in pieces.
abbrev pub header_events : List (List ℕ × List ℕ) → List ParserEvent
header_events [] = []
header_events ((field, value) ∷ hs) =
    header_field_data field ∷ header_value_data value ∷ header_events hs

abbrev pub body_events : List (List ℕ) → List ParserEvent
body_events [] = []
body_events (x ∷ xs) = body_data x ∷ body_events xs

-- The headers as a map: a later one replaces an earlier one of the same name.
unfoldable pub collected : List (List ℕ × List ℕ) → List (List ℕ × List ℕ) → List (List ℕ × List ℕ)
collected m [] = m
collected m ((field, value) ∷ hs) = collected (assign same_bytes field value m) hs

-- The callbacks for a whole request, from its first byte to its last.
abbrev pub request_events :
    List ℕ → List ℕ → Bool → List (List ℕ × List ℕ) → List (List ℕ) → List ParserEvent
request_events url method keep_alive hs chunks =
    (message_begin ∷ url_data url ∷ [])
    ++ (header_events hs
        ++ (headers_end method keep_alive ∷ (body_events chunks ++ message_end ∷ [])))

module _ {P : Type 0} where
  on_events-append :
      (t t' : HttpTask P) (xs ys : List ParserEvent)
      → on_events t xs ≡ ok t'
      → on_events t (xs ++ ys) ≡ on_events t' ys
  unfolding on_events
  on_events-append t t' [] ys e = ap (λ s. on_events s ys) (ok-injective t t' e)
  on_events-append t t' (x ∷ xs) ys e =
      let (s, now, rest) = >>=-eq-ok (on_event t x) (λ s. on_events s xs) t' e in
      rw now (on_events-append s t' xs ys rest)

  on_events-headers :
      (t : HttpTask P) (hs : List (List ℕ × List ℕ))
      → (field : List ℕ) × (on_events t (header_events hs)
          ≡ ok (record t {
            header_field = field;
            request = record t.request { headers = collected t.request.headers hs };
          }))
  unfolding on_events on_event on_header_field on_header_value collected
  on_events-headers t [] = (t.header_field, refl)
  on_events-headers t ((field, value) ∷ hs) =
      on_events-headers (on_header_value (on_header_field t field) value) hs

  on_events-body :
      (t : HttpTask P) (chunks : List (List ℕ))
      → IsValid t.request.body
      → t.request.body.write_index + length (joined chunks) ≤ max_size
      → (b : Buffer) × (on_events t (body_events chunks)
          ≡ ok (record t { request = record t.request { body = b } }))
        × Holds b (contents t.request.body ++ joined chunks)
  unfolding on_events on_event on_body
  on_events-body t [] v h = (
    t.request.body,
    refl,
    record { valid = v; bytes = sym (append-nil (contents t.request.body)) },
  )
  on_events-body t (x ∷ xs) v h =
      let q = contents t.request.body in
      let size = length-append x (joined xs) in
      let (b, e, holds, index, wide) =
        write-Holds t.request.body x (length x) v (omega arith) (omega (arith, size)) in
      let (b', rest, after) =
        on_events-body (record t { request = record t.request { body = b } }) xs holds.valid
          (omega (arith, size)) in
      let all : contents b ++ joined xs ≡ q ++ (x ++ joined xs) =
        ap (λ l. l ++ joined xs)
          (holds.bytes ∙ ap (λ l. q ++ l) (take-length (length x) x (omega arith)))
        ∙ append_assoc q x (joined xs) in
      (b', rw e rest, subst (Holds b') all after)

  -- The callbacks for a request whose parts, but for the body, come in one piece each leave a task that
  -- was new with the request that they tell of: its method, its url, the map of its headers and the
  -- pieces of its body, one behind the other.
  pub on_events-collects :
      (t : HttpTask P) (url method : List ℕ) (keep_alive : Bool) (hs : List (List ℕ × List ℕ))
      (chunks : List (List ℕ))
      → IsValid t.request.body
      → contents t.request.body ≡ []
      → t.request.headers ≡ []
      → t.request.body.write_index + length (joined chunks) ≤ max_size
      → (t' : HttpTask P) × (on_events t (request_events url method keep_alive hs chunks) ≡ ok t')
        × (t'.completed ≡ true)
        × (t'.request.url ≡ url)
        × (t'.request.method ≡ method)
        × (t'.request.keep_alive ≡ keep_alive)
        × (t'.request.headers ≡ collected [] hs)
        × Holds t'.request.body (joined chunks)
  unfolding on_events on_event on_url on_headers_complete on_message_complete
  on_events-collects t url method keep_alive hs chunks v empty_body no_headers h =
      let t1 = on_url t url in
      let (field, heads) = on_events-headers t1 hs in
      let t2 = record t1 {
        header_field = field;
        request = record t1.request { headers = collected t1.request.headers hs };
      } in
      let t3 = on_headers_complete t2 method keep_alive in
      let (b, bodies, holds) = on_events-body t3 chunks v h in
      let t4 = record t3 { request = record t3.request { body = b } } in
      (
        on_message_complete t4,
        on_events-append t1 t2 (header_events hs) _ heads
            ∙ on_events-append t3 t4 (body_events chunks) (message_end ∷ []) bodies,
        refl,
        refl,
        refl,
        refl,
        ap (λ m. collected m hs) no_headers,
        subst (λ q. Holds b (q ++ joined chunks)) empty_body holds,
      )

-- No further part of the url is reported.
abbrev pub NoUrl : List ParserEvent → Type 0
NoUrl [] = Unit
NoUrl (message_begin ∷ es) = NoUrl es
NoUrl (url_data at ∷ es) = Never
NoUrl (status_data at ∷ es) = NoUrl es
NoUrl (header_field_data at ∷ es) = NoUrl es
NoUrl (header_value_data at ∷ es) = NoUrl es
NoUrl (headers_end method keep_alive ∷ es) = NoUrl es
NoUrl (body_data at ∷ es) = NoUrl es
NoUrl (message_end ∷ es) = NoUrl es

module _ {P : Type 0} where
  on_events-NoUrl :
      (t t' : HttpTask P) (es : List ParserEvent)
      → NoUrl es
      → on_events t es ≡ ok t'
      → t'.request.url ≡ t.request.url
  unfolding on_events on_event on_header_field on_header_value on_headers_complete on_body
      on_message_complete
  on_events-NoUrl t t' [] h e = ap (λ (s : HttpTask P). s.request.url) (sym (ok-injective t t' e))
  on_events-NoUrl t t' (message_begin ∷ es) h e = on_events-NoUrl t t' es h e
  on_events-NoUrl t t' (url_data at ∷ es) h e = Never-elim h
  on_events-NoUrl t t' (status_data at ∷ es) h e = on_events-NoUrl t t' es h e
  on_events-NoUrl t t' (header_field_data at ∷ es) h e =
      on_events-NoUrl (on_header_field t at) t' es h e
  on_events-NoUrl t t' (header_value_data at ∷ es) h e =
      on_events-NoUrl (on_header_value t at) t' es h e
  on_events-NoUrl t t' (headers_end m k ∷ es) h e =
      on_events-NoUrl (on_headers_complete t m k) t' es h e
  on_events-NoUrl t t' (body_data at ∷ es) h e =
      let (s, now, rest) = >>=-eq-ok (on_body t at) (λ s. on_events s es) t' e in
      let (b, written, made) =
        >>=-eq-ok (write t.request.body (some at) (length at))
          (λ b. ok (record t { request = record t.request { body = b } })) s now in
      on_events-NoUrl s t' es h rest
      ∙ ap (λ (s : HttpTask P). s.request.url)
          (sym (ok-injective (record t { request = record t.request { body = b } }) s made))
  on_events-NoUrl t t' (message_end ∷ es) h e = on_events-NoUrl (on_message_complete t) t' es h e

  if-task :
      (good : Bool) (t : HttpTask P) (b b' : Buffer)
      → (let r : Bool × HttpTask P × Buffer = if good then (true, t, b') else (false, t, b) in r.1)
        ≡ t
  if-task true t b b' = refl
  if-task false t b b' = refl

  take_parsed-events :
      (t : HttpTask P) (b : Buffer) (ran : Parsed P) (r : Bool × HttpTask P × Buffer)
      → take_parsed t b ran ≡ ok r
      → on_events (record t { parser = ran.parser }) ran.events ≡ ok r.1
  unfolding take_parsed
  take_parsed-events t b ran r e =
      let pick = λ (s : HttpTask P).
        if ran.good then (true, s, has_readed b ran.parsed) else (false, s, b) in
      let (s, now, made) =
        >>=-eq-ok (on_events (record t { parser = ran.parser }) ran.events) (λ s. ok (pick s)) r
          e in
      now
      ∙ ap ok (
          sym (if-task ran.good s b (has_readed b ran.parsed))
          ∙ ap (λ (p : Bool × HttpTask P × Buffer). p.1) (ok-injective (pick s) r made))

  -- Where the url of a request comes in two receives, so that the parser reports it in two parts, the
  -- request has the last part alone as its url.
  pub parse-forgets_url :
      (parser : HttpParser P) (t : HttpTask P) (b1 b2 : Buffer) (s1 s2 : P) (first last : List ℕ)
      (es : List ParserEvent) (n1 n2 : ℕ) (good1 good2 : Bool) (r1 r2 : Bool × HttpTask P × Buffer)
      → parser.execute t.parser (take (readable_bytes b1) (drop b1.read_index b1.buff)) ≡ record {
        parser = s1;
        events = message_begin ∷ url_data first ∷ [];
        parsed = n1;
        good = good1;
      }
      → parser.execute s1 (take (readable_bytes b2) (drop b2.read_index b2.buff))
        ≡ record { parser = s2; events = url_data last ∷ es; parsed = n2; good = good2 }
      → NoUrl es
      → parse parser t b1 ≡ ok r1
      → parse parser r1.1 b2 ≡ ok r2
      → r2.1.request.url ≡ last
  unfolding parse on_events on_event on_url
  parse-forgets_url parser t b1 b2 s1 s2 first last es n1 n2 good1 good2 r1 r2 one two none_else e1
        e2 =
      let ran1 : Parsed P = record {
        parser = s1;
        events = message_begin ∷ url_data first ∷ [];
        parsed = n1;
        good = good1;
      } in
      let ran2 : Parsed P = record {
        parser = s2;
        events = url_data last ∷ es;
        parsed = n2;
        good = good2;
      } in
      let after1 = take_parsed-events t b1 ran1 r1 (ap (take_parsed t b1) (sym one) ∙ e1) in
      let same : on_url (record t { parser = s1 }) first ≡ r1.1 =
        ok-injective (on_url (record t { parser = s1 }) first) r1.1 after1 in
      let state : s1 ≡ r1.1.parser = ap (λ (s : HttpTask P). s.parser) same in
      let read = take (readable_bytes b2) (drop b2.read_index b2.buff) in
      let two' : parser.execute r1.1.parser read ≡ ran2 =
        ap (λ s. parser.execute s read) (sym state) ∙ two in
      let after2 = take_parsed-events r1.1 b2 ran2 r2 (ap (take_parsed r1.1 b2) (sym two') ∙ e2) in
      on_events-NoUrl (on_url (record r1.1 { parser = s2 }) last) r2.1 es none_else after2
