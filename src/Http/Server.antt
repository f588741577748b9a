-- ===== src/Http/Server.antt =====
-- examples/http/HttpServer.h and examples/http/HttpServer.cpp: a server's part in one connection, whose
-- task has the address `me`. What its worker threads will run stands in their queue. The calls on the
-- connection are listed as they are made; what comes of them is run_calls of the connection.
pub mod Answers
mod Tests
use ecron.Prelude.{
  Bool, List, Outcome, [], codes, false, if◌then◌else◌, ltb, ok, some, true, ℕ, ◌++◌, ◌>>=◌, ◌∷◌,
}
use ecron.Buffer.{Buffer}
use ecron.TcpConnection.{Call, send_data, close}
use ecron.BlockingQueue
use ecron.BlockingQueue.{BlockingQueue}
use ecron.Http.{crlf}
use ecron.Http.Task
use ecron.Http.Task.{HttpParser, HttpTask, on_request, on_send_progressively, parse}

-- A task's on_request or on_send_progressively, for a worker.
pub data Job : Type 0 where
  request_job : ℕ → Job
  send_job : ℕ → Job

pub record HttpServer : Type 0 where
  pub num_workers : ℕ
  pub tasks : BlockingQueue Job

-- `workers_.append`; what it returns is not looked at.
unfoldable pub append : HttpServer → Job → HttpServer
append s job = record s { tasks = (BlockingQueue.push s.tasks job).1 }

abbrev pub bad_request_text : List ℕ
bad_request_text = codes "HTTP/1.1 400 Bad Request" ++ (crlf ++ crlf)

-- The calls on the connection where the parser refuses what it is given.
abbrev pub refusal : Bool → List Call
refusal true = []
refusal false = send_data (some bad_request_text) 28 ∷ close ∷ []

-- What a callback leaves behind: the server, the user's world, the task, the connection's buffer, and
-- the calls on the connection.
pub record Left (P W : Type 0) : Type 0 where
  pub server : HttpServer
  pub world : W
  pub task : HttpTask P
  pub buffer : Buffer
  pub calls : List Call

module _ {P W : Type 0} (parser : HttpParser P) (format : ℕ → List ℕ)
    (http_cb : W → HttpTask P → Outcome (W × HttpTask P))
    (http_send_cb : W → HttpTask P → Buffer → Outcome (W × HttpTask P × Buffer)) (me : ℕ) where
  -- The part of on_recv behind the parser.
  unfoldable pub process : HttpServer → W → Bool × HttpTask P × Buffer → Outcome (Left P W)
  process s w (good, t, buffer) =
      if t.completed
      then if ltb 0 s.num_workers
        then ok (record {
          server = append s (request_job me);
          world = w;
          task = t;
          buffer = buffer;
          calls = refusal good;
        })
        else (do
          r ← on_request parser format http_cb http_send_cb w t
          ok (record {
            server = s;
            world = r.0;
            task = r.1;
            buffer = buffer;
            calls = refusal good ++ r.2;
          }))
      else ok (record { server = s; world = w; task = t; buffer = buffer; calls = refusal good })

  unfoldable pub on_recv : HttpServer → W → HttpTask P → Buffer → Outcome (Left P W)
  on_recv s w t buffer = do r ← parse parser t buffer; process s w r

  unfoldable pub on_sendcomplete : HttpServer → W → HttpTask P → Buffer → Outcome (Left P W)
  on_sendcomplete s w t buffer =
      if t.send_progressively
      then if ltb 0 s.num_workers
        then ok (record {
          server = append s (send_job me);
          world = w;
          task = t;
          buffer = buffer;
          calls = [];
        })
        else (do
          r ← on_send_progressively parser format http_cb http_send_cb w t
          ok (record { server = s; world = r.0; task = r.1; buffer = buffer; calls = r.2 }))
      else ok (record { server = s; world = w; task = t; buffer = buffer; calls = [] })
