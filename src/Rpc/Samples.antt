-- ===== src/Rpc/Samples.antt =====
-- examples/rpc/RpcServer.cpp and examples/rpc/RpcClient.cpp: a server that counts, and the bytes
-- of a call of it.
use ecron.Prelude.{
  List, Option, [], arith, lookup, none, refl, some, str_eq, true, ℕ, ◌+◌, ◌<◌, ◌==◌, ◌^◌, ◌∷◌, ◌≡◌,
}
use ecron.Buffer.{Buffer}
use ecron.Buffer.Fifo.{Holds}
use ecron.TcpServer
use ecron.ThreadPool
use ecron.Rpc.{make_header}
use ecron.Rpc.Frame.{packed}
use ecron.Rpc.Process.{body_length}
use ecron.Rpc.Stream.{wire}
use ecron.Rpc.Calls.{Memory, RpcMeta, Service}
use ecron.Rpc.Calls.Trip.{question}
use ecron.Rpc.Calls.Server.{answer}
use ecron.Rpc.Ends.{new_channel}
use ecron.Rpc.RpcServer.{RpcServer}
use ecron.Rpc.Ends.Served.{one}
use ecron.Rpc.Plain.{plain}

abbrev pub parse_number : List ℕ → Option ℕ
parse_number [] = some 0
parse_number (a ∷ []) = some a
parse_number (a ∷ b ∷ rest) = none

abbrev pub successor : Service ℕ
successor = record {
  has_method = λ m. str_eq m "next";
  parse_request = λ m bytes. parse_number bytes;
  call = λ m x ctrl. some (ctrl, x + 1);
}

abbrev pub plenty : Memory
plenty = record { request = true; response = true; controller = true; closure = true }

-- The connection at 5 has a channel.
abbrev pub counting : RpcServer ℕ
counting = record {
  server = TcpServer.create 1;
  workers = ThreadPool.create;
  num_workers = 0;
  services = ("counter", successor) ∷ [];
  contexts = (5, new_channel 0 none) ∷ [];
}

pub counting-lookup : lookup ◌==◌ 5 counting.contexts ≡ some (new_channel 0 none)
unfolding lookup
counting-lookup = refl

-- The bytes of a request with the number 6.
abbrev pub request_bytes : Buffer
request_bytes = record {
  buff =
      69 ∷ 82 ∷ 80 ∷ 67 ∷ 0 ∷ 0 ∷ 0 ∷ 17 ∷ 0 ∷ 0 ∷ 0 ∷ 16 ∷ 4 ∷ 1 ∷ 100 ∷ 112 ∷ 118 ∷ 111 ∷ 117
      ∷ 102 ∷ 115 ∷ 0 ∷ 111 ∷ 102 ∷ 121 ∷ 117 ∷ 0 ∷ 0 ∷ 6 ∷ [];
  read_index = 0;
  write_index = 29;
}

abbrev pub asks_next : RpcMeta
asks_next = question 4 "counter" "next"

pub request_bytes-Holds : Holds request_bytes (wire plain (one asks_next 6))
unfolding wire packed make_header
request_bytes-Holds = record { valid = omega arith; bytes = refl }

pub asks-small : body_length plain asks_next (some 6) < 2 ^ 32
asks-small = omega arith

-- The bytes of its answer, the number 7.
abbrev pub answer_bytes : Buffer
answer_bytes = record {
  buff = 69 ∷ 82 ∷ 80 ∷ 67 ∷ 0 ∷ 0 ∷ 0 ∷ 6 ∷ 0 ∷ 0 ∷ 0 ∷ 5 ∷ 4 ∷ 0 ∷ 1 ∷ 0 ∷ 0 ∷ 7 ∷ [];
  read_index = 0;
  write_index = 18;
}

pub answer_bytes-Holds : Holds answer_bytes (wire plain (one (answer 4 0 "") 7))
unfolding wire packed make_header
answer_bytes-Holds = record { valid = omega arith; bytes = refl }
