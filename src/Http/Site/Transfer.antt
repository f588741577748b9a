-- ===== src/Http/Site/Transfer.antt =====
-- examples/http/HttpMain.cpp: a file that is sent piece by piece.
use ecron.Prelude.{
  ==_refl, Bool-cases, List, Outcome, [], ap, append-nil, arith, drop, if◌then◌else◌, inl, inr,
  length, length-drop, length-replicate, length-take, ltb, ltb→lt, lt→ltb, ok, refl, some, suc, sym,
  take, true, zero, ℕ, ◌*◌, ◌++◌, ◌<◌, ◌==◌, ◌>>=◌, ◌∙◌, ◌∷◌, ◌≡◌, ◌≤◌,
}
use ecron.Buffer.{Buffer, initial_size, has_written, readable_bytes}
use ecron.Buffer.Inv.{contents, fresh, fresh-IsValid, length-contents, writable_bytes-eq}
use ecron.Buffer.Fifo.{Holds, has_written-fill}
use ecron.TcpConnection.{Call, send, close}
use ecron.Http.Site.{World, Host, process_file}
use ecron.Http.Task.{HttpParser, HttpTask, init, on_send_progressively, sent_progressively}
use ecron.Http.Task.Reply.{on_send_progressively-of}

-- The world after one piece of the file was read.
abbrev pub read_on : World → ℕ → World
read_on w handle = record w {
  remaining = λ f. if f == handle then drop initial_size (w.remaining f) else w.remaining f;
}

empty_of : {A : Type 0} (xs : List A) → length xs ≤ 0 → xs ≡ []
empty_of [] h = refl
empty_of (x ∷ xs) h = absurd (omega arith)

take-drop : {A : Type 0} (n : ℕ) (xs : List A) → take n xs ++ drop n xs ≡ xs
take-drop zero xs = refl
take-drop (suc n) [] = refl
take-drop (suc n) (x ∷ xs) = ap (λ l. x ∷ l) (take-drop n xs)

module _ (h : Host) {P : Type 0} where
  process_file-piece :
      (w : World) (t : HttpTask P) (handle : ℕ)
      → t.context ≡ some handle
      → 0 < length (w.remaining handle)
      → (b : Buffer) × (process_file h w t fresh ≡ ok (read_on w handle, t, b))
        × Holds b (take initial_size (w.remaining handle))
  unfolding process_file
  process_file-piece w t handle e more =
      let bytes = take initial_size (w.remaining handle) in
      let size = length-take initial_size (w.remaining handle) in
      let (f, filled, holds, index, same) = has_written-fill fresh bytes fresh-IsValid (
        omega (
          arith,
          size,
          writable_bytes-eq fresh fresh-IsValid,
          length-replicate {A = ℕ} initial_size 0,
        )) in
      (
        has_written f (length bytes),
        rw (e, lt→ltb 0 (length bytes) (omega arith), filled) refl,
        holds,
      )

  process_file-end :
      (w : World) (t : HttpTask P) (handle : ℕ)
      → t.context ≡ some handle
      → w.remaining handle ≡ []
      → process_file h w t fresh ≡ ok (record w { closed = w.closed ++ handle ∷ [] }, t, fresh)
  unfolding process_file
  process_file-end w t handle e none_left = rw (e, none_left) refl

abbrev pub send_calls : List Buffer → List Call
send_calls [] = []
send_calls (b ∷ bs) = send (some b) ∷ send_calls bs

abbrev pub all_contents : List Buffer → List ℕ
all_contents [] = []
all_contents (b ∷ bs) = contents b ++ all_contents bs

-- The task and the calls once the file was sent: the connection ends, or waits for a request.
abbrev pub ended_task : {P : Type 0} → HttpParser P → HttpTask P → HttpTask P
ended_task parser t = if t.response.close_connection then t else init parser t

abbrev pub ended_calls : {P : Type 0} → HttpTask P → List Call
ended_calls t = if t.response.close_connection then close ∷ [] else []

module _ {P : Type 0} (parser : HttpParser P) (format : ℕ → List ℕ) (h : Host)
    (http_cb : World → HttpTask P → Outcome (World × HttpTask P)) where
  -- One call of on_send_progressively after another, each when the bytes of the last one are sent.
  unfoldable pub send_all : ℕ → World → HttpTask P → Outcome (World × HttpTask P × List Call)
  send_all zero w t = ok (w, t, [])
  send_all (suc n) w t = do
    r ← on_send_progressively parser format http_cb (process_file h) w t
    rest ← send_all n r.0 r.1
    ok (rest.0, rest.1, r.2 ++ rest.2)

  piece :
      (w : World) (t : HttpTask P) (handle : ℕ)
      → t.connected ≡ true
      → t.context ≡ some handle
      → 0 < length (w.remaining handle)
      → (b : Buffer) × (on_send_progressively parser format http_cb (process_file h) w t
          ≡ ok (read_on w handle, t, send (some b) ∷ []))
        × (contents b ≡ take initial_size (w.remaining handle))
  unfolding sent_progressively
  piece w t handle alive e more =
      let (b, ran, holds) = process_file-piece h w t handle e more in
      let size = length-take initial_size (w.remaining handle) in
      let some_bytes : 0 < readable_bytes b =
        omega (arith, length-contents b holds.valid, ap length holds.bytes, size) in
      (
        b,
        on_send_progressively-of parser format http_cb (process_file h) w t (read_on w handle, t, b)
              alive ran
            ∙ rw (lt→ltb 0 (readable_bytes b) some_bytes) refl,
        holds.bytes,
      )

  last_piece :
      (w : World) (t : HttpTask P) (handle : ℕ)
      → t.connected ≡ true
      → t.context ≡ some handle
      → w.remaining handle ≡ []
      → on_send_progressively parser format http_cb (process_file h) w t
        ≡ ok (record w { closed = w.closed ++ handle ∷ [] }, ended_task parser t, ended_calls t)
  unfolding sent_progressively readable_bytes
  last_piece w t handle alive e none_left =
      on_send_progressively-of parser format http_cb (process_file h) w t
        (record w { closed = w.closed ++ handle ∷ [] }, t, fresh) alive
        (process_file-end h w t handle e none_left)
      ∙ elim (Bool-cases t.response.close_connection) [
        | inl closing ↦ rw closing refl
        | inr keeping ↦ rw keeping refl
      ]

  -- The calls of on_send_progressively that follow the head of a response send the whole file and
  -- nothing else, in pieces and in order; then the file is closed once, and the connection ends if
  -- the response closes it, else the task is made ready for the next request. The task must still
  -- have its connection, and the file as its context.
  pub send_all-file :
      (k : ℕ) (w : World) (t : HttpTask P) (handle : ℕ)
      → t.connected ≡ true
      → t.context ≡ some handle
      → length (w.remaining handle) ≤ initial_size * k
      → (bs : List Buffer) × (w' : World) × (send_all (suc (length bs)) w t
          ≡ ok (w', ended_task parser t, send_calls bs ++ ended_calls t))
        × (all_contents bs ≡ w.remaining handle)
        × (w'.closed ≡ w.closed ++ handle ∷ [])
        × (length bs ≤ k)
  unfolding send_all
  send_all-file zero w t handle alive e small =
      let none_left : w.remaining handle ≡ [] = empty_of (w.remaining handle) (omega arith) in
      (
        [],
        record w { closed = w.closed ++ handle ∷ [] },
        rw (last_piece w t handle alive e none_left, append-nil (ended_calls t)) refl,
        sym none_left,
        refl,
        omega arith,
      )
  send_all-file (suc k) w t handle alive e small =
      elim (Bool-cases (ltb 0 (length (w.remaining handle)))) [
        | inr stop ↦
            let none_left : w.remaining handle ≡ [] =
              empty_of (w.remaining handle) (ground arith) in
            (
              [],
              record w { closed = w.closed ++ handle ∷ [] },
              rw (last_piece w t handle alive e none_left, append-nil (ended_calls t)) refl,
              sym none_left,
              refl,
              omega arith,
            )
        | inl more ↦
            let (b, sent, bytes) =
              piece w t handle alive e (ltb→lt 0 (length (w.remaining handle)) more) in
            let left : (read_on w handle).remaining handle
                ≡ drop initial_size (w.remaining handle) =
              rw (==_refl handle) refl in
            let (bs, w', rest, all, closed, count) =
              send_all-file k (read_on w handle) t handle alive e
                (omega (arith, length-drop initial_size (w.remaining handle), ap length left)) in
            (
              b ∷ bs,
              w',
              rw sent (rw rest refl),
              ap (λ l. l ++ all_contents bs) bytes
                  ∙ ap (λ l. take initial_size (w.remaining handle) ++ l) (all ∙ left)
                  ∙ take-drop initial_size (w.remaining handle),
              closed,
              omega arith,
            )
      ]
