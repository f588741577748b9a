-- ===== src/Http/Task/Reply.antt =====
-- examples/http/HttpTask.cpp: the answers that a task sends.
use ecron.Prelude.{
  List, Outcome, [], arith, length, lookup, ok, refl, some, true, ℕ, ◌==◌, ◌∷◌, ◌≡◌, ◌≤◌,
}
use ecron.Buffer.{Buffer, max_size}
use ecron.Buffer.Inv.{IsValid, create-fresh, fresh, fresh-IsValid}
use ecron.Buffer.Fifo.{Holds}
use ecron.TcpConnection.{send}
use ecron.Http.{code_status, make_buffer}
use ecron.Http.Response.{make_buffer-rendered, rendered}
use ecron.Http.Task.{HttpParser, HttpTask, on_request, on_send_progressively, sent_progressively}

module _ {P W : Type 0} (parser : HttpParser P) (format : ℕ → List ℕ)
    (http_cb : W → HttpTask P → Outcome (W × HttpTask P))
    (http_send_cb : W → HttpTask P → Buffer → Outcome (W × HttpTask P × Buffer)) where
  on_request-of :
      (w : W) (t : HttpTask P) (r : W × HttpTask P) (b : Buffer)
      → t.connected ≡ true
      → http_cb w t ≡ ok r
      → make_buffer format r.1.response fresh ≡ ok b
      → on_request parser format http_cb http_send_cb w t ≡ ok (r.0, r.1, send (some b) ∷ [])
  unfolding on_request
  on_request-of w t r b alive called made = rw called (rw create-fresh (rw made (rw alive refl)))

  -- While the connection is there, on_request sends one buffer: the rendered response, as the user's
  -- callback left it, if that returns with a code of the table and the response is not too long.
  pub on_request-answers :
      (w : W) (t : HttpTask P) (r : W × HttpTask P) (status : List ℕ)
      → t.connected ≡ true
      → http_cb w t ≡ ok r
      → lookup ◌==◌ r.1.response.code code_status ≡ some status
      → IsValid r.1.response.body
      → length (rendered format r.1.response status) ≤ max_size
      → (b : Buffer) × (on_request parser format http_cb http_send_cb w t
          ≡ ok (r.0, r.1, send (some b) ∷ []))
        × Holds b (rendered format r.1.response status)
  on_request-answers w t r status alive called known v small =
      let (b, made, holds) =
        make_buffer-rendered format r.1.response status fresh known v fresh-IsValid (omega arith) in
      (b, on_request-of w t r b alive called made, holds)

  pub on_send_progressively-of :
      (w : W) (t : HttpTask P) (r : W × HttpTask P × Buffer)
      → t.connected ≡ true
      → http_send_cb w t fresh ≡ ok r
      → on_send_progressively parser format http_cb http_send_cb w t
        ≡ ok (sent_progressively parser format http_cb http_send_cb r)
  unfolding on_send_progressively
  on_send_progressively-of w t r alive called = rw create-fresh (rw called (rw alive refl))
