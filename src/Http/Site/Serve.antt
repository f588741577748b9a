-- ===== src/Http/Site/Serve.antt =====
-- examples/http/HttpMain.cpp: the response to a request.
use ecron.Prelude.{
  List, ap, codes, false, lookup, not, ok, refl, some, true, ℕ, ◌%◌, ◌++◌, ◌==◌, ◌^◌, ◌∙◌, ◌≡◌, ◌⊎◌,
}
use ecron.Http.{code_status, set_closeconnection, set_code, set_content_length, set_content_type}
use ecron.Http.Site.{
  Host, World, begin_response, get_file_type, get_path, in_route, on_request, route, serve_file,
  text_eq,
}
use ecron.Http.Task.{HttpTask}

get_path-up : (rest : List ℕ) → get_path (codes "/.." ++ rest) ≡ codes "/.." ++ rest
unfolding get_path in_route route
get_path-up rest = refl

module _ (h : Host) {P : Type 0} where
  -- The response has a code of the table, and the connection ends unless that is 200.
  pub record IsFinal (t : HttpTask P) : Type 0 where
    pub known : (status : List ℕ) × (lookup ◌==◌ t.response.code code_status ≡ some status)
    pub closing : (t.response.code ≡ 200) ⊎ (t.response.close_connection ≡ true)

  serve_file-opened :
      (t : HttpTask P) (path : List ℕ) (len handle : ℕ)
      → h.file_size (h.root_dir ++ path) ≡ some len
      → h.open_file (h.root_dir ++ path) ≡ some handle
      → serve_file h t path ≡ record t {
        response =
            set_content_length
              (set_content_type t.response (get_file_type (h.root_dir ++ path)))
              len;
        send_progressively = true;
        context = some handle;
      }
  unfolding serve_file
  serve_file-opened t path len handle e f = rw (e, f, serve_file) refl

  on_request-get :
      (w : World) (t : HttpTask P)
      → text_eq t.request.method "POST" ≡ false
      → text_eq t.request.method "GET" ≡ true
      → on_request h w t ≡ ok (w, serve_file h (begin_response h t) (get_path t.request.url))
  unfolding on_request
  on_request-get w t other get = rw (other, get) refl

  -- A GET request whose url begins with "/.." is answered with 200 and the file of that path behind the
  -- root directory, if the host can open it: nothing keeps the path below the root directory.
  pub on_request-escapes :
      (w : World) (t : HttpTask P) (rest : List ℕ) (len handle : ℕ)
      → t.request.method ≡ codes "GET"
      → t.request.url ≡ codes "/.." ++ rest
      → h.file_size (h.root_dir ++ (codes "/.." ++ rest)) ≡ some len
      → h.open_file (h.root_dir ++ (codes "/.." ++ rest)) ≡ some handle
      → (t' : HttpTask P) × (on_request h w t ≡ ok (w, t'))
        × (t'.response.code ≡ 200)
        × (t'.response.content_len ≡ len % 2 ^ 32)
        × (t'.response.close_connection ≡ not t.request.keep_alive)
        × (t'.send_progressively ≡ true)
        × (t'.context ≡ some handle)
  unfolding begin_response set_code set_closeconnection set_content_length set_content_type
  on_request-escapes w t rest len handle get url found opened =
      let file = h.root_dir ++ (codes "/.." ++ rest) in
      let t1 = begin_response h t in
      (
        record t1 {
          response = set_content_length (set_content_type t1.response (get_file_type file)) len;
          send_progressively = true;
          context = some handle;
        },
        on_request-get w t (ap (λ m. text_eq m "POST") get) (ap (λ m. text_eq m "GET") get)
            ∙ ap (λ u. ok (w, serve_file h t1 (get_path u))) url
            ∙ ap (λ u. ok (w, serve_file h t1 u)) (get_path-up rest)
            ∙ ap (λ s. ok (w, s))
                (serve_file-opened t1 (codes "/.." ++ rest) len handle found opened),
        refl,
        refl,
        refl,
        refl,
        refl,
      )
