-- ===== src/Rpc/RpcClient/Tests.antt =====
-- examples/rpc/RpcClient.cpp: a client that calls a server, and the theorem at them.
use ecron.Prelude.{[], arith, assign, lookup, none, ok, refl, some, true, ℕ, ◌++◌, ◌==◌, ◌∷◌, ◌≡◌}
use ecron.Buffer.{Buffer}
use ecron.Buffer.Fifo.{Holds}
use ecron.Rpc.Calls.{
  RpcChannel, call_method, code_error, failed, new_controller, server_controller, try_request,
}
use ecron.Rpc.Calls.Trip.{asked, question}
use ecron.Rpc.Calls.Server.{answer}
use ecron.Rpc.Ends.{new_channel}
use ecron.Rpc.RpcServer
use ecron.Rpc.RpcServer.{RpcServer}
use ecron.Rpc.RpcClient
use ecron.Rpc.Ends.Served.{one}
use ecron.Rpc.RpcClient.{RpcClient, create, on_recv}
use ecron.Rpc.RpcClient.Trip.{call-comes_back}
use ecron.Rpc.Samples.{
  answer_bytes, answer_bytes-Holds, asks-small, counting, counting-lookup, parse_number, plenty,
  request_bytes, request_bytes-Holds, successor,
}
use ecron.Rpc.Plain.{plain, plain-IsLawful}

abbrev client : RpcClient ℕ
client = record (create 4 none) { is_connected = true; channel = new_channel 4 none }

abbrev called : RpcClient ℕ
called = record client {
  channel = call_method client.channel "counter" "next" new_controller 6 true (some 9);
}

call-comes_back_example :
    ((asked
        (new_channel 4 none)
        (new_channel 0 none)
        "counter"
        "next"
        new_controller
        6
        9
        plenty
        plenty
        parse_number
        parse_number
        []
        []).sent
      ≡ [] ++ one (question 4 "counter" "next") 6)
    × ((sv' : RpcChannel ℕ) × (b' : Buffer) × (RpcServer.on_recv plain plenty parse_number 2
            counting 5 request_bytes
          ≡ ok (some (record counting { contexts = assign ◌==◌ 5 sv' counting.contexts }, b', 0)))
        × Holds b' []
        × (sv'.sent ≡ [] ++ one (answer 4 0 "") 7))
    × ((c' : RpcClient ℕ) × (r' : Buffer) × (RpcClient.on_recv plain plenty parse_number 2 called
            answer_bytes
          ≡ ok (some (c', r', 0)))
        × Holds r' []
        × (c'.channel.finished
            ≡ [] ++ (9, record new_controller { response = true; done = some 9 }, some 7) ∷ []))
unfolding try_request lookup code_error new_channel create new_controller failed server_controller
call-comes_back_example =
    call-comes_back plain plain-IsLawful plenty plenty parse_number parse_number 2 client counting 5
      (new_channel 0 none) "counter" "next" new_controller 6 9 request_bytes answer_bytes successor
      6 7 (server_controller 4) refl counting-lookup refl refl refl request_bytes-Holds
      answer_bytes-Holds asks-small (omega arith) (omega arith)
