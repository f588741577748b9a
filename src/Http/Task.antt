-- ===== src/Http/Task.antt =====
-- examples/http/HttpTask.h and examples/http/HttpTask.cpp: one request and its response.
-- http_parser is a parameter: it gives its new state, the callbacks that it makes, in order, and how
-- many bytes it has parsed. `connected` tells whether the connection is still there.
pub mod Collect
pub mod Reply
use ecron.Prelude.{
  Bool, List, Option, Outcome, [], assign, drop, false, if◌then◌else◌, length, ltb, none, ok,
  same_bytes, some, take, true, ℕ, ◌>>=◌, ◌∷◌,
}
use ecron.Buffer
use ecron.Buffer.{Buffer, initial_size, readable_bytes, has_readed, write}
use ecron.TcpConnection.{Call, send, close}
use ecron.Http.{HttpRequest, HttpResponse, init_request, init_response, make_buffer}

pub data ParserEvent : Type 0 where
  message_begin : ParserEvent
  url_data : List ℕ → ParserEvent
  status_data : List ℕ → ParserEvent
  header_field_data : List ℕ → ParserEvent
  header_value_data : List ℕ → ParserEvent
  headers_end : List ℕ → Bool → ParserEvent  -- with the method's name and http_should_keep_alive
  body_data : List ℕ → ParserEvent
  message_end : ParserEvent

pub record Parsed (P : Type 0) : Type 0 where
  pub parser : P
  pub events : List ParserEvent
  pub parsed : ℕ
  pub good : Bool

pub record HttpParser (P : Type 0) : Type 0 where
  pub start : P
  pub execute : P → List ℕ → Parsed P

pub record HttpTask (P : Type 0) : Type 0 where
  pub connected : Bool
  pub parser : P
  pub header_field : List ℕ
  pub completed : Bool
  pub request : HttpRequest
  pub response : HttpResponse
  pub send_progressively : Bool
  pub context : Option ℕ

module _ {P : Type 0} where
  unfoldable pub on_url : HttpTask P → List ℕ → HttpTask P
  on_url t at = record t { request = record t.request { url = at } }

  unfoldable pub on_header_field : HttpTask P → List ℕ → HttpTask P
  on_header_field t at = record t { header_field = at }

  unfoldable pub on_header_value : HttpTask P → List ℕ → HttpTask P
  on_header_value t at = record t {
    request = record t.request { headers = assign same_bytes t.header_field at t.request.headers };
  }

  unfoldable pub on_headers_complete : HttpTask P → List ℕ → Bool → HttpTask P
  on_headers_complete t method keep_alive = record t {
    request = record t.request { method = method; keep_alive = keep_alive };
  }

  unfoldable pub on_body : HttpTask P → List ℕ → Outcome (HttpTask P)
  on_body t at = do
    body ← write t.request.body (some at) (length at)
    ok (record t { request = record t.request { body = body } })

  unfoldable pub on_message_complete : HttpTask P → HttpTask P
  on_message_complete t = record t { completed = true }

  -- The callbacks of `_parser_settings`.
  unfoldable pub on_event : HttpTask P → ParserEvent → Outcome (HttpTask P)
  on_event t message_begin = ok t
  on_event t (url_data at) = ok (on_url t at)
  on_event t (status_data at) = ok t
  on_event t (header_field_data at) = ok (on_header_field t at)
  on_event t (header_value_data at) = ok (on_header_value t at)
  on_event t (headers_end method keep_alive) = ok (on_headers_complete t method keep_alive)
  on_event t (body_data at) = on_body t at
  on_event t message_end = ok (on_message_complete t)

  unfoldable pub on_events : HttpTask P → List ParserEvent → Outcome (HttpTask P)
  on_events t [] = ok t
  on_events t (e ∷ es) = do t' ← on_event t e; on_events t' es

  -- The callbacks run; the answer is false where the parser reports an error, and then no byte of the
  -- buffer is taken.
  unfoldable pub take_parsed : HttpTask P → Buffer → Parsed P → Outcome (Bool × HttpTask P × Buffer)
  take_parsed t buffer ran = do
    t' ← on_events (record t { parser = ran.parser }) ran.events
    ok (if ran.good then (true, t', has_readed buffer ran.parsed) else (false, t', buffer))

  module _ (parser : HttpParser P) where
    unfoldable pub init : HttpTask P → HttpTask P
    init t = record {
      connected = true;
      parser = parser.start;
      header_field = [];
      completed = false;
      request = init_request t.request;
      response = init_response t.response;
      send_progressively = false;
      context = none;
    }

    unfoldable pub parse : HttpTask P → Buffer → Outcome (Bool × HttpTask P × Buffer)
    parse t buffer = take_parsed t buffer (
        parser.execute t.parser (take (readable_bytes buffer) (drop buffer.read_index buffer.buff)))

    -- How fmt writes numbers, and the user's callbacks, which may also change a world of their own.
    module _ {W : Type 0} (format : ℕ → List ℕ)
        (http_cb : W → HttpTask P → Outcome (W × HttpTask P))
        (http_send_cb : W → HttpTask P → Buffer → Outcome (W × HttpTask P × Buffer)) where
      unfoldable pub on_request : W → HttpTask P → Outcome (W × HttpTask P × List Call)
      on_request w t =
          if t.connected
          then (do
            r ← http_cb w t
            new ← Buffer.create initial_size
            b ← make_buffer format r.1.response new
            ok (r.0, r.1, send (some b) ∷ []))
          else ok (w, t, [])

      -- What stands behind the user's callback.
      unfoldable pub sent_progressively : W × HttpTask P × Buffer → W × HttpTask P × List Call
      sent_progressively (w, t, b) =
          if ltb 0 (readable_bytes b)
          then (w, t, send (some b) ∷ [])
          else if t.response.close_connection
          then (w, t, close ∷ [])
          else (w, init t, [])

      unfoldable pub on_send_progressively : W → HttpTask P → Outcome (W × HttpTask P × List Call)
      on_send_progressively w t =
          if t.connected
          then (do
            new ← Buffer.create initial_size
            r ← http_send_cb w t new
            ok (sent_progressively r))
          else ok (w, t, [])
