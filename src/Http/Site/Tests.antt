-- ===== src/Http/Site/Tests.antt =====
-- examples/http/HttpMain.cpp: a host with one file, and the theorems at it.
use ecron.Prelude.{
  List, [], arith, assign, codes, false, length, lookup, none, ok, refl, some, suc, true, ℕ, ◌++◌,
  ◌∷◌, ◌≡◌, ◌≤◌,
}
use ecron.Buffer.{Buffer}
use ecron.Http.Site.{
  Host, World, get_file_type, last_suffix, on_request, parse_postbody, suffix_type,
}
use ecron.Http.Site.Serve.{on_request-escapes}
use ecron.Http.Site.Transfer.{
  all_contents, ended_calls, ended_task, send_all, send_all-file, send_calls,
}
use ecron.Http.Task.{HttpParser, HttpTask}

abbrev nothing : Buffer
nothing = record { buff = []; read_index = 0; write_index = 0 }

-- Every path is a file of two bytes, with the handle 8.
abbrev host : Host
host = record {
  root_dir = codes "/srv";
  file_size = λ path. some 2;
  open_file = λ path. some 8;
  fields = λ text. [];
  query = λ text. none;
}

abbrev world : World
world = record {
  pool = record { queue = 31 ∷ []; closed = [] };
  remaining = λ f. 1 ∷ 2 ∷ [];
  closed = [];
}

abbrev asking : List ℕ → List ℕ → HttpTask ℕ
asking method url = record {
  connected = true;
  parser = 0;
  header_field = [];
  completed = true;
  request = record { method = method; url = url; keep_alive = true; headers = []; body = nothing };
  response = record {
    code = 0;
    close_connection = true;
    content_type = [];
    content_len = 0;
    headers = [];
    body = nothing;
  };
  send_progressively = false;
  context = none;
}

abbrev upward : HttpTask ℕ
upward = asking (codes "GET") (codes "/../x")

on_request-escapes_example :
    (t' : HttpTask ℕ) × (on_request host world upward ≡ ok (world, t'))
    × (t'.response.code ≡ 200)
    × (t'.response.content_len ≡ 2)
    × (t'.response.close_connection ≡ false)
    × (t'.send_progressively ≡ true)
    × (t'.context ≡ some 8)
on_request-escapes_example =
    on_request-escapes host world upward (codes "/x") 2 8 refl refl refl refl

abbrev deleting : HttpTask ℕ
deleting = asking (codes "DELETE") (codes "/x")

abbrev parser : HttpParser ℕ
parser = record {
  start = 0;
  execute = λ n bytes. record { parser = n; events = []; parsed = 0; good = true };
}

abbrev sending : HttpTask ℕ
sending = record upward { send_progressively = true; context = some 8 }

send_all-file_example :
    (bs : List Buffer) × (w' : World) × (send_all parser
        (λ n. n ∷ [])
        host
        (λ w t. ok (w, t))
        (suc (length bs))
        world
        sending
      ≡ ok (w', ended_task parser sending, send_calls bs ++ ended_calls sending))
    × (all_contents bs ≡ 1 ∷ 2 ∷ [])
    × (w'.closed ≡ 8 ∷ [])
    × (length bs ≤ 1)
send_all-file_example =
    send_all-file parser (λ n. n ∷ []) host (λ w t. ok (w, t)) 1 world sending 8 refl refl
      (omega arith)

-- A later field of a form replaces an earlier one, and a name without a value is forgotten.
form :
    parse_postbody (codes "user" ∷ codes "a" ∷ codes "user" ∷ codes "b" ∷ codes "x" ∷ []) [] []
    ≡ (codes "user", codes "b") ∷ []
unfolding parse_postbody assign
form = refl

types :
    (get_file_type (codes "/srv/a.b.html") ≡ codes "text/html")
    × (get_file_type (codes "/srv/a") ≡ codes "text/plain")
unfolding get_file_type last_suffix suffix_type lookup
types = (refl, refl)
