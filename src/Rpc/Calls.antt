-- ===== src/Rpc/Calls.antt =====
-- examples/rpc/RpcChannel.cpp and examples/rpc/RpcController.cpp: calls and their answers.
-- A channel records what it gives to pack_send. An object that the generated code makes is a value; a
-- controller is its fields, since its channel alone reads it until `done` runs.
pub mod Client
pub mod Server
pub mod Trip
mod Tests
use ecron.Prelude.{
  Bool, List, Option, String, [], add_size, assign, erase_key, false, if◌then◌else◌, is_zero,
  lookup, negsuc, none, not, pos, some, str_eq, true, ℕ, ℤ, ◌&&◌, ◌++◌, ◌==◌, ◌∷◌,
}

pub record RpcRequestMeta : Type 0 where
  pub service_name : String
  pub method_name : String

pub record RpcResponseMeta : Type 0 where
  pub error_code : ℕ
  pub error_text : String

pub record RpcMeta : Type 0 where
  pub request : Option RpcRequestMeta
  pub response : Option RpcResponseMeta
  pub correlation_id : ℕ

-- `no_error` and the errors of the protocol, with their numbers.
abbrev pub no_error : ℕ
no_error = 0

abbrev pub no_service : ℕ
no_service = 1001

abbrev pub no_method : ℕ
no_method = 1002

abbrev pub bad_request : ℕ
bad_request = 1003

abbrev pub bad_response : ℕ
bad_response = 1004

abbrev pub internal_error : ℕ
internal_error = 1005

unfoldable pub code_error : List (ℕ × String)
code_error =
    (1001, "no service")
    ∷ (1002, "no method")
    ∷ (1003, "invalid request")
    ∷ (1004, "invalid response")
    ∷ (1005, "internal error")
    ∷ []

-- `response` tells whether there is a message to parse the answer into, `done` is the closure.
pub record RpcController : Type 0 where
  pub response : Bool
  pub done : Option ℕ
  pub error_text : String
  pub error_code : ℤ
  pub log_id : ℤ

unfoldable pub new_controller : RpcController
new_controller = record {
  response = false;
  done = none;
  error_text = "";
  error_code = pos 0;
  log_id = pos 0;
}

unfoldable pub reset : RpcController → RpcController
reset c = record {
  response = false;
  done = none;
  error_text = "";
  error_code = pos 0;
  log_id = pos 0;
}

unfoldable pub set_error_code : RpcController → ℤ → RpcController
set_error_code c ec = record c { error_code = ec }

unfoldable pub set_failed : RpcController → String → RpcController
set_failed c reason = record c { error_text = reason; error_code = negsuc 0 }

unfoldable pub failed : RpcController → Bool
failed c = not (is_zero c.error_code)

-- A service as the generated code makes it: `call` is the user's method, `none` where it keeps
-- `done` for later, else how it left its controller and the response when it ran `done`.
pub record Service (Message : Type 0) : Type 0 where
  pub has_method : String → Bool
  pub parse_request : String → List ℕ → Option Message
  pub call : String → Message → RpcController → Option (RpcController × Message)

-- Whether the allocations of process_message succeed.
pub record Memory : Type 0 where
  pub request : Bool
  pub response : Bool
  pub controller : Bool
  pub closure : Bool

-- `sent` are the arguments of pack_send, `finished` what `done` saw: the closure, its controller and
-- the answer; `waiting` the calls of methods that will run `done` later.
pub record RpcChannel (Message : Type 0) : Type 0 where
  pub reqs : List (ℕ × RpcController)
  pub services : Option (List (String × Service Message))
  pub id : ℕ
  pub sent : List (RpcMeta × Option Message)
  pub finished : List (ℕ × RpcController × Option Message)
  pub waiting : List ℕ

-- `ctrl->SetFailed`, if the error has a text.
unfoldable pub set_error : RpcController → ℕ → RpcController
set_error c error = elim (lookup ◌==◌ error code_error) as (λ x. RpcController) [
  | none ↦ c
  | some t ↦ set_failed c t
]

-- What stops a request, or the service, its method and the message to call it with.
pub data Attempt (Message : Type 0) : Type 0 where
  refused : ℕ → Attempt Message
  accepted : Service Message → String → Message → Attempt Message

-- The controller that the user's method is given.
unfoldable pub server_controller : ℕ → RpcController
server_controller id = record new_controller { response = true; done = some id }

module _ {Message : Type 0} where
  unfoldable pub call_method :
      RpcChannel Message
      → String
      → String
      → RpcController
      → Message
      → Bool
      → Option ℕ
      → RpcChannel Message
  call_method ch service method controller request response done =
      let meta : RpcMeta = record {
        request = some (record { service_name = service; method_name = method });
        response = none;
        correlation_id = ch.id;
      } in
      record ch {
        id = add_size ch.id 1;
        reqs = assign ◌==◌ ch.id (record controller { response = response; done = done }) ch.reqs;
        sent = ch.sent ++ (meta, some request) ∷ [];
      }

  unfoldable pub send_resp : RpcChannel Message → ℕ → ℕ → Option Message → RpcChannel Message
  send_resp ch id code resp =
      let text = elim (lookup ◌==◌ code code_error) as (λ x. String) [ none ↦ "" | some t ↦ t ] in
      let meta : RpcMeta = record {
        request = none;
        response = some (record { error_code = code; error_text = text });
        correlation_id = id;
      } in
      record ch { sent = ch.sent ++ (meta, resp) ∷ [] }

  unfoldable pub on_done : RpcChannel Message → ℕ → RpcController → Message → RpcChannel Message
  on_done ch id ctrl response =
      send_resp ch id (if failed ctrl then internal_error else no_error) (some response)

  -- The client's part of process_message, at the controller that was taken out of `reqs`.
  unfoldable pub finish : RpcChannel Message → RpcController → Option Message → RpcChannel Message
  finish ch ctrl parsed =
      let error =
        if ctrl.response
        then (elim parsed as (λ x. ℕ) [ none ↦ bad_response | some x ↦ no_error ])
        else no_error in
      elim ctrl.done [
        | none ↦ ch
        | some d ↦ record ch {
          finished =
              ch.finished
              ++ (d, set_error ctrl error, (if ctrl.response then parsed else none)) ∷ [];
        }
      ]

  unfoldable pub try_request :
      Option (List (String × Service Message)) → Memory → RpcRequestMeta → List ℕ → Attempt Message
  try_request none mem r msg = refused no_service
  try_request (some services) mem r msg = elim (lookup str_eq r.service_name services) [
    | none ↦ refused no_service
    | some service ↦
        if not (service.has_method r.method_name)
        then refused no_method
        else if not mem.request
        then refused internal_error
        else elim (service.parse_request r.method_name msg) [
          | none ↦ refused bad_request
          | some request ↦
              if mem.response && mem.controller && mem.closure
              then accepted service r.method_name request
              else refused internal_error
        ]
  ]

  unfoldable pub call_service :
      RpcChannel Message → ℕ → Option (RpcController × Message) → RpcChannel Message
  call_service ch id none = record ch { waiting = ch.waiting ++ id ∷ [] }
  call_service ch id (some r) = on_done ch id r.0 r.1

  -- `parse` is `ParseFromArray` of the response object that the client gave to CallMethod.
  unfoldable pub process_message :
      RpcChannel Message
      → Memory
      → (List ℕ → Option Message)
      → RpcMeta
      → List ℕ
      → RpcChannel Message
  process_message ch mem parse meta msg = elim meta.response [
    | some r ↦ elim (lookup ◌==◌ meta.correlation_id ch.reqs) [
      | none ↦ ch
      | some ctrl ↦
          finish (record ch { reqs = erase_key ◌==◌ meta.correlation_id ch.reqs }) ctrl (parse msg)
    ]
    | none ↦ elim meta.request [
      | none ↦ ch
      | some r ↦ elim (try_request ch.services mem r msg) [
        | refused error ↦ send_resp ch meta.correlation_id error none
        | accepted service method request ↦
            call_service ch meta.correlation_id
              (service.call method request (server_controller meta.correlation_id))
      ]
    ]
  ]
