-- ===== src/Http/Server/Tests.antt =====
-- examples/http/HttpServer.cpp: a parser that reports an error behind a complete request.
use ecron.Prelude.{Bool, List, Outcome, [], false, length, none, ok, refl, true, ℕ, ◌∷◌, ◌≡◌}
use ecron.Buffer.{Buffer, readable_bytes, has_readed, has_readall}
use ecron.TcpConnection.{TcpConnection}
use ecron.Http.{HttpResponse}
use ecron.Http.Server.{HttpServer, send_job}
use ecron.Http.Task.{
  HttpParser, HttpTask, message_begin, message_end, on_events, parse, take_parsed, on_event,
  on_message_complete,
}

abbrev nothing : Buffer
nothing = record { buff = []; read_index = 0; write_index = 0 }

abbrev response : HttpResponse
response = record {
  code = 200;
  close_connection = true;
  content_type = [];
  content_len = 0;
  headers = [];
  body = nothing;
}

abbrev task : HttpTask ℕ
task = record {
  connected = true;
  parser = 0;
  header_field = [];
  completed = false;
  request = record { method = []; url = []; keep_alive = false; headers = []; body = nothing };
  response = response;
  send_progressively = false;
  context = none;
}

abbrev complete : HttpTask ℕ
complete = record task { parser = 1; completed = true }

-- The parser completes a request, and then reports an error or not.
abbrev parser : Bool → HttpParser ℕ
parser good = record {
  start = 0;
  execute = λ n bytes. record {
    parser = 1;
    events = message_begin ∷ message_end ∷ [];
    parsed = length bytes;
    good = good;
  };
}

abbrev bytes : Buffer
bytes = record { buff = 9 ∷ []; read_index = 0; write_index = 1 }

good_bytes : parse (parser true) task bytes ≡ ok (true, complete, record bytes { write_index = 0 })
unfolding parse take_parsed on_events on_event on_message_complete has_readed has_readall
    readable_bytes
good_bytes = refl

abbrev server : ℕ → HttpServer
server n = record {
  num_workers = n;
  tasks = record { queue = send_job 3 ∷ []; max_count = 1; exit = false };
}

-- The user's callbacks change nothing.
abbrev same : ℕ → HttpTask ℕ → Outcome (ℕ × HttpTask ℕ)
same w t = ok (w, t)

abbrev same_buffer : ℕ → HttpTask ℕ → Buffer → Outcome (ℕ × HttpTask ℕ × Buffer)
same_buffer w t b = ok (w, t, b)

abbrev one_byte : ℕ → List ℕ
one_byte n = n ∷ []

-- The connection runs its receive callback.
abbrev peer : TcpConnection
peer = record {
  connected = true;
  recv_buffer = bytes;
  send_buffer = [];
  shut = false;
  reads = 0;
  writes = [];
  accepted = [];
  wire = [];
  events = [];
}
