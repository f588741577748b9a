-- ===== src/Http/Tests.antt =====
-- examples/http: small requests, and the theorems at them.
use ecron.Prelude.{
  List, [], arith, codes, false, length, lookup, none, ok, refl, suc, true, zero, ℕ, ◌++◌, ◌∷◌, ◌≡◌,
}
use Prim.{tt}
use ecron.Buffer.{Buffer, readable_bytes, has_readed, has_readall}
use ecron.Buffer.Inv.{IsValid, contents}
use ecron.Buffer.Fifo.{Holds}
use ecron.Http.{HttpRequest, HttpResponse, code_status, make_buffer}
use ecron.Http.Response.{header_lines, make_buffer-rendered, rendered}
use ecron.Http.Task.{
  HttpParser, HttpTask, Parsed, message_begin, url_data, headers_end, message_end, on_events, parse,
  take_parsed, on_event, on_url, on_message_complete, on_headers_complete,
}
use ecron.Http.Task.Collect.{collected, on_events-collects, parse-forgets_url, request_events}

abbrev nothing : Buffer
nothing = record { buff = []; read_index = 0; write_index = 0 }

nothing-IsValid : IsValid nothing
nothing-IsValid = omega arith

-- A number is written as one byte.
abbrev one_byte : ℕ → List ℕ
one_byte n = n ∷ []

abbrev fine : HttpResponse
fine = record {
  code = 200;
  close_connection = true;
  content_type = codes "text/html";
  content_len = 7;
  headers = (codes "A", codes "b") ∷ [];
  body = nothing;
}

make_buffer-rendered_example :
    (b : Buffer) × (make_buffer one_byte fine nothing ≡ ok b)
    × Holds b (contents nothing ++ rendered one_byte fine (codes "OK"))
unfolding lookup code_status rendered header_lines
make_buffer-rendered_example =
    make_buffer-rendered one_byte fine (codes "OK") nothing refl nothing-IsValid nothing-IsValid
      (omega arith)

abbrev empty_request : HttpRequest
empty_request = record { method = []; url = []; keep_alive = false; headers = []; body = nothing }

abbrev new_task : HttpTask ℕ
new_task = record {
  connected = true;
  parser = 0;
  header_field = [];
  completed = false;
  request = empty_request;
  response = fine;
  send_progressively = false;
  context = none;
}

abbrev two_headers : List (List ℕ × List ℕ)
two_headers = (codes "Host", codes "a") ∷ (codes "Host", codes "b") ∷ []

on_events-collects_example :
    (t' : HttpTask ℕ) × (on_events new_task
        (request_events (codes "/x") (codes "POST") true two_headers ((1 ∷ []) ∷ (2 ∷ []) ∷ []))
      ≡ ok t')
    × (t'.completed ≡ true)
    × (t'.request.url ≡ codes "/x")
    × (t'.request.method ≡ codes "POST")
    × (t'.request.keep_alive ≡ true)
    × (t'.request.headers ≡ collected [] two_headers)
    × Holds t'.request.body (1 ∷ 2 ∷ [])
on_events-collects_example =
    on_events-collects new_task (codes "/x") (codes "POST") true two_headers
      ((1 ∷ []) ∷ (2 ∷ []) ∷ []) nothing-IsValid refl refl (omega arith)

-- The first receive is a part of the url, the second the rest of it and the end of the request.
abbrev halves : ℕ → List ℕ → Parsed ℕ
halves zero bytes = record {
  parser = 1;
  events = message_begin ∷ url_data bytes ∷ [];
  parsed = length bytes;
  good = true;
}
halves (suc n) bytes = record {
  parser = 2;
  events = url_data bytes ∷ headers_end (codes "GET") true ∷ message_end ∷ [];
  parsed = length bytes;
  good = true;
}

abbrev parser : HttpParser ℕ
parser = record { start = 0; execute = halves }

abbrev half_one : Buffer
half_one = record { buff = codes "/lo"; read_index = 0; write_index = 3 }

abbrev half_two : Buffer
half_two = record { buff = codes "gin"; read_index = 0; write_index = 3 }

abbrev after_one : HttpTask ℕ
after_one = record new_task { parser = 1; request = record empty_request { url = codes "/lo" } }

abbrev after_two : HttpTask ℕ
after_two = record new_task {
  parser = 2;
  completed = true;
  request = record empty_request { url = codes "gin"; method = codes "GET"; keep_alive = true };
}

parsed_one :
    parse parser new_task half_one
    ≡ ok (true, after_one, record half_one { read_index = 0; write_index = 0 })
unfolding parse take_parsed on_events on_event on_url on_message_complete on_headers_complete
    has_readed has_readall readable_bytes
parsed_one = refl

parsed_two :
    parse parser after_one half_two
    ≡ ok (true, after_two, record half_two { read_index = 0; write_index = 0 })
unfolding parse take_parsed on_events on_event on_url on_message_complete on_headers_complete
    has_readed has_readall readable_bytes
parsed_two = refl

parse-forgets_url_example : after_two.request.url ≡ codes "gin"
unfolding readable_bytes
parse-forgets_url_example =
    parse-forgets_url parser new_task half_one half_two 1 2 (codes "/lo") (codes "gin")
      (headers_end (codes "GET") true ∷ message_end ∷ []) 3 3 true true
      (true, after_one, record half_one { read_index = 0; write_index = 0 })
      (true, after_two, record half_two { read_index = 0; write_index = 0 }) refl refl tt parsed_one
      parsed_two
