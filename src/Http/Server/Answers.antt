-- ===== src/Http/Server/Answers.antt =====
-- examples/http/HttpServer.cpp: what a receive leads to.
use ecron.Prelude.{Bool, List, Outcome, [], false, ok, refl, some, ℕ, ◌∙◌, ◌∷◌, ◌≡◌}
use ecron.Buffer
use ecron.Buffer.{Buffer}
use ecron.TcpConnection.{TcpConnection, close, send_data}
use ecron.Http.Task.{HttpParser, HttpTask, parse}
use ecron.Http.Server.{HttpServer, Left, bad_request_text, on_recv, process}

-- The buffer that `send` copies the error line into.
abbrev text_buffer : Buffer
text_buffer = record { buff = bad_request_text; read_index = 0; write_index = 28 }

module _ {P W : Type 0} (parser : HttpParser P) (format : ℕ → List ℕ)
    (http_cb : W → HttpTask P → Outcome (W × HttpTask P))
    (http_send_cb : W → HttpTask P → Buffer → Outcome (W × HttpTask P × Buffer)) (me : ℕ)
    (s : HttpServer) (w : W) (t t' : HttpTask P) (b b' : Buffer) where
  abbrev run : Outcome (Left P W)
  run = on_recv parser format http_cb http_send_cb me s w t b

  on_recv-process :
      (good : Bool)
      → parse parser t b ≡ ok (good, t', b')
      → run ≡ process parser format http_cb http_send_cb me s w (good, t', b')
  unfolding on_recv
  on_recv-process good e = rw e refl

  -- Bytes that the parser refuses, of a request that is not complete, are answered by the error line
  -- and the end of the connection, and by nothing else.
  pub on_recv-refuses :
      parse parser t b ≡ ok (false, t', b')
      → t'.completed ≡ false
      → on_recv parser format http_cb http_send_cb me s w t b
        ≡ ok (record {
          server = s;
          world = w;
          task = t';
          buffer = b';
          calls = send_data (some bad_request_text) 28 ∷ close ∷ [];
        })
  unfolding process
  on_recv-refuses e open_ = on_recv-process false e ∙ rw open_ refl
