-- ===== src/Http/Site.antt =====
-- examples/http/HttpMain.cpp: the callbacks of the http server's program. The file system, the regular
-- expression and the database are a parameter.
pub mod Serve
pub mod Transfer
mod Tests
use ecron.Prelude.{
  Bool, List, Option, Outcome, String, [], assign, codes, drop, false, if◌then◌else◌, length,
  lookup, ltb, none, not, ok, out_of_range, same_bytes, some, take, true, ℕ, ◌&&◌, ◌++◌, ◌/◌, ◌==◌,
  ◌>>=◌, ◌||◌, ◌∷◌,
}
use ecron.Buffer.{Buffer, initial_size, fill, has_written, readable_bytes}
use ecron.Sql
use ecron.Sql.{SqlConnPool, acquire}
use ecron.Http.{
  HttpRequest, get_header, set_closeconnection, set_code, set_content_length, set_content_type,
}
use ecron.Http.Task.{HttpTask}

-- `fields` are the sub-matches of "(\w+)=(\w+)", one behind the other; `query` answers a text with
-- the passwords of the rows, `none` where it fails.
pub record Host : Type 0 where
  pub root_dir : List ℕ
  pub file_size : List ℕ → Option ℕ
  pub open_file : List ℕ → Option ℕ
  pub fields : List ℕ → List (List ℕ)
  pub query : List ℕ → Option (List (List ℕ))

-- The pool, what is still to be read of each open file, and the files that were closed.
pub record World : Type 0 where
  pub pool : SqlConnPool
  pub remaining : ℕ → List ℕ
  pub closed : List ℕ

abbrev pub text_eq : List ℕ → String → Bool
text_eq s t = same_bytes s (codes t)

unfoldable pub suffix_type : List (List ℕ × List ℕ)
suffix_type =
    (codes ".html", codes "text/html")
    ∷ (codes ".xml", codes "text/xml")
    ∷ (codes ".xhtml", codes "application/xhtml+xml")
    ∷ (codes ".txt", codes "text/plain")
    ∷ (codes ".rtf", codes "application/rtf")
    ∷ (codes ".pdf", codes "application/pdf")
    ∷ (codes ".word", codes "application/nsword")
    ∷ (codes ".png", codes "image/png")
    ∷ (codes ".gif", codes "image/gif")
    ∷ (codes ".jpg", codes "image/jpeg")
    ∷ (codes ".jpeg", codes "image/jpeg")
    ∷ (codes ".ico", codes "image/x-icon")
    ∷ (codes ".au", codes "audio/basic")
    ∷ (codes ".mpeg", codes "video/mpeg")
    ∷ (codes ".mpg", codes "video/mpeg")
    ∷ (codes ".avi", codes "video/x-msvideo")
    ∷ (codes ".gz", codes "application/x-gzip")
    ∷ (codes ".tar", codes "application/x-tar")
    ∷ (codes ".css", codes "text/css ")
    ∷ (codes ".js", codes "text/javascript ")
    ∷ []

unfoldable pub route : List (List ℕ)
route =
    codes "/index"
    ∷ codes "/login"
    ∷ codes "/register"
    ∷ codes "/picture"
    ∷ codes "/video"
    ∷ codes "/fans"
    ∷ []

unfoldable pub in_route : List ℕ → List (List ℕ) → Bool
in_route path [] = false
in_route path (r ∷ rs) = same_bytes path r || in_route path rs

-- The text from its last dot on.
unfoldable pub last_suffix : List ℕ → Option (List ℕ)
last_suffix [] = none
last_suffix (c ∷ cs) = elim (last_suffix cs) [
  | some s ↦ some s
  | none ↦ if c == 46 then some (c ∷ cs) else none
]

unfoldable pub get_file_type : List ℕ → List ℕ
get_file_type path = elim (last_suffix path) [
  | none ↦ codes "text/plain"
  | some suffix ↦ elim (lookup same_bytes suffix suffix_type) [
    | none ↦ codes "text/plain"
    | some type ↦ type
  ]
]

-- The loop over the sub-matches: a name waits in `field` for its value.
unfoldable pub parse_postbody :
    List (List ℕ) → List ℕ → List (List ℕ × List ℕ) → List (List ℕ × List ℕ)
parse_postbody [] field post = post
parse_postbody (m ∷ ms) [] post = parse_postbody ms m post
parse_postbody (m ∷ ms) (c ∷ cs) post = parse_postbody ms [] (assign same_bytes (c ∷ cs) m post)

-- `post_map.at(key)`
unfoldable pub at : List (List ℕ × List ℕ) → List ℕ → Outcome (List ℕ)
at post key = elim (lookup same_bytes key post) [ none ↦ out_of_range | some value ↦ ok value ]

abbrev pub no_rows : List (List ℕ) → Bool
no_rows [] = true
no_rows (r ∷ rs) = false

unfoldable pub has_password : List ℕ → List (List ℕ) → Bool
has_password pwd [] = false
has_password pwd (r ∷ rs) = same_bytes pwd r || has_password pwd rs

abbrev pub select_text : List ℕ → List ℕ
select_text name =
    codes "SELECT username, password FROM user WHERE username='" ++ (name ++ codes "' LIMIT 1")

abbrev pub insert_text : List ℕ → List ℕ → List ℕ
insert_text name pwd =
    codes "INSERT INTO user(username, password) VALUES('"
    ++ (name ++ (codes "','" ++ (pwd ++ codes "')")))

abbrev pub is_some {ℓ} : {A : Type ℓ} → Option A → Bool
is_some none = false
is_some (some a) = true

-- `user` and `pwd` of a POST request.
unfoldable pub credentials : List (List ℕ × List ℕ) → Outcome (List ℕ × List ℕ)
credentials [] = ok ([], [])
credentials (p ∷ ps) = do
  user ← at (p ∷ ps) (codes "user")
  pwd ← at (p ∷ ps) (codes "password")
  ok (user, pwd)

unfoldable pub get_path : List ℕ → List ℕ
get_path url =
    let path = if text_eq url "/" then codes "/index" else url in
    if in_route path route then path ++ codes ".html" else path

module _ (h : Host) where
  -- What user_verify does with its database handle.
  unfoldable pub verify_rows : List ℕ → List ℕ → Bool → Bool
  verify_rows name pwd login = elim (h.query (select_text name)) [
    | none ↦ false
    | some rows ↦
        if no_rows rows
        then not login && is_some (h.query (insert_text name pwd))
        else login && has_password pwd rows
  ]

  unfoldable pub user_verify : World → List ℕ → List ℕ → Bool → Bool × World
  user_verify w name pwd login =
      let (sql, pool) = acquire w.pool in
      (is_some sql && verify_rows name pwd login, record w { pool = pool })

  unfoldable pub post_map : HttpRequest → List ℕ → List (List ℕ × List ℕ)
  post_map r body = elim (get_header r (codes "Content-Type")) [
    | none ↦ []
    | some type ↦
        if text_eq type "application/x-www-form-urlencoded"
        then parse_postbody (h.fields body) [] []
        else []
  ]

  -- The page of a POST request, `none` for a url that is not supported.
  unfoldable pub post_path : World → List ℕ → List ℕ → List ℕ → Option (List ℕ) × World
  post_path w url user pwd =
      if text_eq url "/login"
      then (let (good, w') = user_verify w user pwd true in
          (some (if good then codes "/welcome.html" else codes "/login_error.html"), w'))
      else if text_eq url "/register"
      then (let (good, w') = user_verify w user pwd false in
          (some (if good then codes "/login.html" else codes "/register_error.html"), w'))
      else if text_eq url "/picture"
      then (some (codes "/picture.html"), w)
      else if text_eq url "/video"
      then (some (codes "/video.html"), w)
      else if text_eq url "/fans"
      then (some (codes "/fans.html"), w)
      else (none, w)

  module _ {P : Type 0} where
    -- `resp->set_code(code)`, and the end of the connection for all but 200.
    unfoldable pub refuse : HttpTask P → ℕ → HttpTask P
    refuse t code = record t { response = set_closeconnection (set_code t.response code) true }

    unfoldable pub serve_file : HttpTask P → List ℕ → HttpTask P
    serve_file t path =
        let file = h.root_dir ++ path in
        elim (h.file_size file) [
          | none ↦ refuse t 404
          | some len ↦ elim (h.open_file file) [
            | none ↦ refuse t 404
            | some handle ↦ record t {
              response = set_content_length (set_content_type t.response (get_file_type file)) len;
              send_progressively = true;
              context = some handle;
            }
          ]
        ]

    -- The first two calls of on_request.
    unfoldable pub begin_response : HttpTask P → HttpTask P
    begin_response t = record t {
      response = set_closeconnection (set_code t.response 200) (not t.request.keep_alive);
    }

    -- The branch of a POST request.
    unfoldable pub on_post : World → HttpTask P → Outcome (World × HttpTask P)
    on_post w t = do
      let body =
          take (readable_bytes t.request.body) (drop t.request.body.read_index t.request.body.buff)
      who ← credentials (post_map t.request body)
      let r = post_path w t.request.url who.0 who.1
      ok (
        r.1,
        elim r.0 as (λ x. HttpTask P) [ none ↦ refuse t 404 | some path ↦ serve_file t path ],
      )

    unfoldable pub on_request : World → HttpTask P → Outcome (World × HttpTask P)
    on_request w t =
        if text_eq t.request.method "POST"
        then on_post w (begin_response t)
        else if text_eq t.request.method "GET"
        then ok (w, serve_file (begin_response t) (get_path t.request.url))
        else ok (w, refuse (begin_response t) 400)

    -- fread stores at most the initial size behind `begin_write()`.
    unfoldable pub process_file :
        World → HttpTask P → Buffer → Outcome (World × HttpTask P × Buffer)
    process_file w t buffer = elim t.context [
      | none ↦ ok (w, t, buffer)
      | some handle ↦
          let bytes = take initial_size (w.remaining handle) in
          if ltb 0 (length bytes)
          then (do
            b ← fill buffer bytes
            ok (
              record w {
                remaining =
                    λ f. if f == handle then drop initial_size (w.remaining f) else w.remaining f;
              },
              t,
              has_written b (length bytes),
            ))
          else ok (record w { closed = w.closed ++ handle ∷ [] }, t, buffer)
    ]
