-- ===== src/Http.antt =====
-- examples/http/HttpRequest.h, examples/http/HttpRequest.cpp, examples/http/HttpResponse.h and
-- examples/http/HttpResponse.cpp: a request and a response. A std::string is the list of its bytes; a
-- map is a list of pairs, in the order in which it is walked.
pub mod Response
pub mod Task
pub mod Server
pub mod Host
pub mod Site
mod Tests
use ecron.Prelude.{
  Bool, List, Option, Outcome, [], assign, codes, drop, false, fault, if◌then◌else◌, lookup, ltb,
  none, ok, same_bytes, some, true, ℕ, ◌%◌, ◌++◌, ◌==◌, ◌>>=◌, ◌^◌, ◌∷◌,
}
use ecron.Buffer.{Buffer, readable_bytes, has_readall, write, write_str}

pub record HttpRequest : Type 0 where
  pub method : List ℕ
  pub url : List ℕ
  pub keep_alive : Bool
  pub headers : List (List ℕ × List ℕ)
  pub body : Buffer

unfoldable pub init_request : HttpRequest → HttpRequest
init_request r = record {
  method = [];
  url = [];
  keep_alive = false;
  headers = [];
  body = has_readall r.body;
}

unfoldable pub get_header : HttpRequest → List ℕ → Option (List ℕ)
get_header r key = lookup same_bytes key r.headers

pub record HttpResponse : Type 0 where
  pub code : ℕ
  pub close_connection : Bool
  pub content_type : List ℕ
  pub content_len : ℕ
  pub headers : List (List ℕ × List ℕ)
  pub body : Buffer

unfoldable pub init_response : HttpResponse → HttpResponse
init_response r = record {
  code = 200;
  close_connection = true;
  content_type = [];
  content_len = 0;
  headers = [];
  body = has_readall r.body;
}

unfoldable pub set_code : HttpResponse → ℕ → HttpResponse
set_code r code = record r { code = code }

unfoldable pub set_closeconnection : HttpResponse → Bool → HttpResponse
set_closeconnection r on = record r { close_connection = on }

unfoldable pub set_content_type : HttpResponse → List ℕ → HttpResponse
set_content_type r type = record r { content_type = type }

-- The argument has 32 bits.
unfoldable pub set_content_length : HttpResponse → ℕ → HttpResponse
set_content_length r len = record r { content_len = len % 2 ^ 32 }

unfoldable pub set_header : HttpResponse → List ℕ → List ℕ → HttpResponse
set_header r key value = record r { headers = assign same_bytes key value r.headers }

unfoldable pub code_status : List (ℕ × List ℕ)
code_status =
    (200, codes "OK")
    ∷ (400, codes "Bad Request")
    ∷ (403, codes "Forbidden")
    ∷ (404, codes "Not Found")
    ∷ []

abbrev pub crlf : List ℕ
crlf = 13 ∷ 10 ∷ []

abbrev pub is_empty : List ℕ → Bool
is_empty [] = true
is_empty (x ∷ xs) = false

abbrev pub header_line : List ℕ × List ℕ → List ℕ
header_line (key, value) = key ++ (codes ": " ++ (value ++ crlf))

unfoldable pub write_headers : Buffer → List (List ℕ × List ℕ) → Outcome Buffer
write_headers b [] = ok b
write_headers b (item ∷ items) = do b' ← write_str b (header_line item); write_headers b' items

abbrev pub connection_line : Bool → List ℕ
connection_line true = codes "Connection: close" ++ crlf
connection_line false = codes "Connection: Keep-Alive" ++ crlf

abbrev pub type_line : List ℕ → List ℕ
type_line type = codes "Content-type: " ++ (type ++ crlf)

-- `it->second` at the end of the map is no access to an element.
unfoldable pub find_status : ℕ → Outcome (List ℕ)
find_status code = elim (lookup ◌==◌ code code_status) [ none ↦ fault | some status ↦ ok status ]

-- `format` is how fmt writes a number.
module _ (format : ℕ → List ℕ) where
  abbrev pub status_line : ℕ → List ℕ → List ℕ
  status_line code status = codes "HTTP/1.1 " ++ (format code ++ (32 ∷ status ++ crlf))

  abbrev pub length_line : ℕ → List ℕ
  length_line n = codes "Content-length: " ++ (format n ++ crlf)

  -- What make_buffer writes, once it has the text of the code.
  unfoldable pub write_response : HttpResponse → List ℕ → Buffer → Outcome Buffer
  write_response r status buffer = do
    b ← write_str buffer (status_line r.code status)
    b ← write_headers b r.headers
    b ← write_str b (connection_line r.close_connection)
    b ← if is_empty r.content_type then ok b else write_str b (type_line r.content_type)
    b ← if ltb 0 r.content_len then write_str b (length_line r.content_len) else ok b
    b ← write_str b crlf
    write b (some (drop r.body.read_index r.body.buff)) (readable_bytes r.body)

  unfoldable pub make_buffer : HttpResponse → Buffer → Outcome Buffer
  make_buffer r buffer = do status ← find_status r.code; write_response r status buffer
