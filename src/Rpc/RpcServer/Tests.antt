-- ===== src/Rpc/RpcServer/Tests.antt =====
-- examples/rpc/RpcServer.cpp: a server with one connection, and the theorems at it.
use ecron.Prelude.{
  [], arith, assign, false, if◌then◌else◌, lookup, none, ok, refl, some, true, ℕ, ◌++◌, ◌==◌, ◌∷◌,
  ◌≡◌,
}
use Prim.{tt}
use ecron.Buffer.{Buffer}
use ecron.Buffer.Fifo.{Holds}
use ecron.TcpServer.{Acceptor}
use ecron.ThreadPool
use ecron.ThreadPool.{no_threads}
use ecron.Rpc.{make_header}
use ecron.Rpc.Stream.{short, wire}
use ecron.Rpc.Frame.{packed}
use ecron.Rpc.Calls.{RpcChannel}
use ecron.Rpc.Ends.{new_channel}
use ecron.Rpc.Ends.Served.{Served, one}
use ecron.Rpc.Samples.{
  asks-small, asks_next, counting, counting-lookup, parse_number, plenty, request_bytes, successor,
}
use ecron.Rpc.RpcServer.{RpcServer, start, register_service, on_recv, with_services}
use ecron.Rpc.RpcServer.Start.{here, registering, start-again, starting}
use ecron.Rpc.RpcServer.Answers.{on_recv-Served}
use ecron.Rpc.Plain.{plain, plain-IsLawful}

abbrev part_behind : Buffer
part_behind = record request_bytes { buff = request_bytes.buff ++ 69 ∷ []; write_index = 30 }

part_behind-Holds : Holds part_behind (wire plain (one asks_next 6) ++ 69 ∷ [])
unfolding wire packed make_header
part_behind-Holds = record { valid = omega arith; bytes = refl }

on_recv-Served_example :
    (ch' : RpcChannel ℕ) × (b' : Buffer) × (on_recv plain plenty parse_number 2 counting 5
        part_behind
      ≡ ok (some (record counting { contexts = assign ◌==◌ 5 ch' counting.contexts }, b', 0)))
    × Holds b' (69 ∷ [])
    × Served (with_services counting (new_channel 0 none)) (one asks_next 6) ch'
    × ((j : ℕ)
        → (lookup ◌==◌ j (assign ◌==◌ 5 ch' counting.contexts)
            ≡ (if 5 == j then some ch' else lookup ◌==◌ j counting.contexts)))
on_recv-Served_example =
    on_recv-Served plain plain-IsLawful plenty parse_number 2 counting 5 (new_channel 0 none)
      part_behind (one asks_next 6) (69 ∷ []) refl counting-lookup part_behind-Holds
      (asks-small, tt) (short (omega arith)) (omega arith) (refl, (_, refl), tt)

abbrev closed : Acceptor
closed = record {
  opens = true;
  reuse_address = true;
  enable_connection_aborted = true;
  binds = false;
  listens = false;
}

abbrev usable : Acceptor
usable = record closed { binds = true; listens = true }

-- The address cannot be bound, also not without workers, and then a service is added.
abbrev tried : RpcServer ℕ
tried = (start (λ ip. some 1) (λ n. n) closed counting (some "127.0.0.1") 80 0 2).1

abbrev tried_again : RpcServer ℕ
tried_again = (start (λ ip. some 1) (λ n. n) closed tried (some "127.0.0.1") 80 0 0).1

start-again_example :
    start
      (λ ip. some 1)
      (λ n. n)
      usable
      (register_service tried_again "next" successor)
      (some "127.0.0.1")
      80
      0
      2
    ≡ (false, record (register_service tried_again "next" successor) { num_workers = 2 }, [])
unfolding ThreadPool.create
start-again_example =
    start-again (λ ip. some 1) (λ n. n) closed usable counting
      (register_service tried_again "next" successor) (some "127.0.0.1") (some "127.0.0.1") 80 80 0
      0 1 1 refl
      (registering "next" successor
        (starting (λ ip. some 1) (λ n. n) closed (some "127.0.0.1") 80 0 0 here))
