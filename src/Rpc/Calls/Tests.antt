-- ===== src/Rpc/Calls/Tests.antt =====
-- examples/rpc/RpcChannel.cpp: a service of one method, and the theorems at it.
use ecron.Prelude.{
  List, Option, String, [], arith, if◌then◌else◌, lookup, none, pos, refl, some, str_eq, true, ℕ,
  ◌++◌, ◌+◌, ◌==◌, ◌∷◌, ◌≡◌,
}
use ecron.Rpc.Calls.{
  Memory, RpcChannel, RpcController, RpcRequestMeta, Service, call_method, failed, no_method,
  process_message, set_failed, try_request,
}
use ecron.Rpc.Calls.Client.{IsFresh, call_method-IsFresh, process_message-answers}
use ecron.Rpc.Calls.Server.{answer}
use ecron.Rpc.Calls.Trip.{asked, question, refusal-unnoticed}

-- A message is a number; no byte is the number 0.
abbrev parse_number : List ℕ → Option ℕ
parse_number [] = some 0
parse_number (a ∷ []) = some a
parse_number (a ∷ b ∷ rest) = none

abbrev next : Service ℕ
next = record {
  has_method = λ m. str_eq m "next";
  parse_request = λ m bytes. parse_number bytes;
  call = λ m x ctrl. some (ctrl, x + 1);
}

abbrev plenty : Memory
plenty = record { request = true; response = true; controller = true; closure = true }

abbrev idle : RpcChannel ℕ
idle = record { reqs = []; services = none; id = 4; sent = []; finished = []; waiting = [] }

abbrev serving : RpcChannel ℕ
serving = record idle { services = some (("counter", next) ∷ []) }

abbrev mine : RpcController
mine = record {
  response = true;
  done = some 9;
  error_text = "";
  error_code = pos 0;
  log_id = pos 0;
}

abbrev asking : RpcChannel ℕ
asking = record idle { reqs = (4, mine) ∷ []; id = 5 }

abbrev call_of : String → RpcRequestMeta
call_of method = record { service_name = "counter"; method_name = method }

process_message-answers_example :
    (lookup ◌==◌ 4 (process_message asking plenty parse_number (answer 4 1005 "no") (7 ∷ [])).reqs
      ≡ (if 4 == 4 then none else lookup ◌==◌ 4 asking.reqs))
    × ((x : ℕ)
        → parse_number (7 ∷ []) ≡ some x
        → (process_message asking plenty parse_number (answer 4 1005 "no") (7 ∷ [])).finished
          ≡ [] ++ (9, mine, some x) ∷ [])
    × (parse_number (7 ∷ []) ≡ none
        → (process_message asking plenty parse_number (answer 4 1005 "no") (7 ∷ [])).finished
          ≡ [] ++ (9, set_failed mine "invalid response", none) ∷ [])
    × ((process_message asking plenty parse_number (answer 4 1005 "no") (7 ∷ [])).sent ≡ [])
unfolding lookup
process_message-answers_example =
    process_message-answers asking plenty parse_number (answer 4 1005 "no") (7 ∷ [])
      (record { error_code = 1005; error_text = "no" }) mine 9 4 refl refl refl refl

call_method-IsFresh_example : IsFresh (call_method idle "counter" "next" mine 6 true (some 9))
unfolding lookup
call_method-IsFresh_example =
    call_method-IsFresh idle "counter" "next" mine 6 true (some 9) (omega arith) (λ j h. refl)

refusal-unnoticed_example :
    (text : String) × ((process_message serving plenty parse_number
        (question 4 "counter" "last")
        (6 ∷ [])).sent
      ≡ [] ++ (answer 4 no_method text, none) ∷ [])
    × ((process_message
          (asked idle serving "counter" "last" mine 6 9 plenty plenty parse_number parse_number
            (6 ∷ [])
            [])
          plenty
          parse_number
          (answer 4 no_method text)
          []).finished
        ≡ [] ++ (9, mine, some 0) ∷ [])
    × (failed mine ≡ failed mine)
unfolding try_request lookup
refusal-unnoticed_example =
    refusal-unnoticed idle serving "counter" "last" mine 6 9 plenty plenty parse_number parse_number
      (6 ∷ []) [] no_method 0 refl refl
