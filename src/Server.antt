-- ===== src/Server.antt =====
-- mcp_gateway/server.py: the protocol of the gateway on one line of input.
-- Parameters: the decoder of a line (UTF-8 and Python's json, which also fails on the constants
-- NaN and Infinity), and the gateway's `call`, whose envelope is passed on as it is.
pub mod Message
pub mod Measured
pub mod Phases
pub mod Replies
use oracle_diagnostic_estack.Prelude.{
  ℕ, String, Bool, true, false, not, ◌&&◌, ◌||◌, Option, none, some, List, [], ◌∷◌, ◌++◌, ltb,
  str_eq, length, if◌then◌else◌,
}
use oracle_diagnostic_estack.Prelude.Int.{ℤ, negsuc}
use oracle_diagnostic_estack.Prelude.Dict.{contains, is_subset}
use oracle_diagnostic_estack.Schemas.{Json, null, obj, Members, member_keys}
use oracle_diagnostic_estack.Common.{
  ErrorCode, parse, invalid_request, method_not_found, not_initialized, invalid_params,
  message_too_large, internal, Result, ok, err, raise,
}
use oracle_diagnostic_estack.Server.Message.{
  measure, no_dupes, get_member, text_of, is_object_or_absent, Incoming, misshapen, bad_id,
  bad_params, notification, request, message_of,
}

pub data ProtocolState : Type 0 where
  new initializing ready : ProtocolState

-- newest first
abbrev pub supported_protocol_versions : List String
supported_protocol_versions = "2025-06-18" ∷ "2025-03-26" ∷ "2024-11-05" ∷ []

abbrev negotiated : String → String
negotiated version = if contains supported_protocol_versions version then version else "2025-06-18"

-- JSON-RPC's numbers of the errors: -32700, -32600, -32601, -32602 and -32603
abbrev parse_error : ℤ
parse_error = negsuc 32699

abbrev pub invalid_request_error : ℤ
invalid_request_error = negsuc 32599

abbrev method_not_found_error : ℤ
method_not_found_error = negsuc 32600

abbrev invalid_params_error : ℤ
invalid_params_error = negsuc 32601

abbrev internal_error : ℤ
internal_error = negsuc 32602

-- A line that is sent: an error, or the result of a method.
pub data Reply (Envelope : Type 0) : Type 0 where
  failed : (id : Json) (code : ℤ) (key : ErrorCode) → Reply Envelope
  initialized : (id : Json) (version : String) → Reply Envelope
  pong tool_list : (id : Json) → Reply Envelope
  called : (id : Json) → Envelope → (is_error : Bool) → Reply Envelope

pub record McpServer (Gateway Session : Type 0) : Type 0 where
  pub state : ProtocolState
  pub protocol_version : Option String
  pub session : Option Session
  pub gateway : Gateway

-- What the server asks of the gateway. `call` never raises.
pub record Service : Type 1 where
  pub Gateway : Type 0
  pub Session : Type 0
  pub Envelope : Type 0
  pub call : Gateway → Session → String → Option Members → (Envelope × Bool) × (Gateway × Session)

abbrev pub is_new : ProtocolState → Bool
is_new new = true
is_new _ = false

abbrev pub is_ready : ProtocolState → Bool
is_ready ready = true
is_ready _ = false

-- `arguments`, where `null` is Python's `None`; the outer `none` if they are no object
abbrev arguments_of : Option Json → Option (Option Members)
arguments_of none = some none
arguments_of (some null) = some none
arguments_of (some (obj ms)) = some (some ms)
arguments_of _ = none

-- The number of an error that a request raised
abbrev number_of : ErrorCode → ℤ
number_of invalid_params = invalid_params_error
number_of internal = internal_error
number_of _ = invalid_request_error

module _ (service : Service) where
  abbrev pub Server : Type 0
  Server = McpServer service.Gateway service.Session

  abbrev pub Answer : Type 0
  Answer = Reply service.Envelope

  -- `_notification`
  unfoldable pub notified : String → Server → Server
  notified method s = elim s.state [
    | initializing ↦
        if str_eq method "notifications/initialized" then record s { state = ready } else s
    | _ ↦ s
  ]

  abbrev initialize_with :
      Json → service.Session → Option String → Bool → Server → Result Answer × Server
  initialize_with id fresh none objects s = (raise invalid_params, s)
  initialize_with id fresh (some version) objects s =
      if not objects then (raise invalid_params, s) else (
        ok (initialized id (negotiated version)),
        record s {
          state = initializing;
          protocol_version = some (negotiated version);
          session = some fresh;
        },
      )

  -- the branch "initialize", with the session that it makes
  unfoldable pub initialize : Json → Members → service.Session → Server → Result Answer × Server
  unfolding get_member contains
  initialize id params fresh s =
      if not (is_new s.state)
      then (raise invalid_request, s)
      else initialize_with id fresh (text_of (get_member "protocolVersion" params))
          (is_object_or_absent (get_member "capabilities" params)
            && is_object_or_absent (get_member "clientInfo" params))
          s

  -- Without a session `call` fails on `session.scope`.
  abbrev call_with :
      Json → String → Option Members → Option service.Session → Server → Result Answer × Server
  call_with id name arguments none s = (raise internal, s)
  call_with id name arguments (some session) s =
      let (out, after) = service.call s.gateway session name arguments in
      (ok (called id out.0 out.1), record s { gateway = after.0; session = some after.1 })

  abbrev checked_call :
      Json → Option String → Option (Option Members) → Bool → Server → Result Answer × Server
  checked_call id (some name) (some arguments) true s = call_with id name arguments s.session s
  checked_call id _ _ _ s = (raise invalid_params, s)

  -- the branch "tools/call"
  unfoldable pub tools_call : Json → Members → Server → Result Answer × Server
  unfolding get_member is_subset
  tools_call id params s =
      checked_call id (text_of (get_member "name" params))
        (arguments_of (get_member "arguments" params))
        (is_subset (member_keys params) ("name" ∷ "arguments" ∷ "_meta" ∷ [])
          && is_object_or_absent (get_member "_meta" params))
        s

  -- `_request`, with the session that "initialize" makes
  unfoldable pub requested :
      Json → String → Members → service.Session → Server → Result Answer × Server
  unfolding initialize tools_call
  requested id method params fresh s =
      if str_eq method "initialize"
      then initialize id params fresh s
      else if str_eq method "ping"
      then (ok (pong id), s)
      else if not (is_ready s.state)
      then (raise not_initialized, s)
      else if str_eq method "tools/list"
      then (ok (tool_list id), s)
      else if str_eq method "tools/call"
      then tools_call id params s
      else (ok (failed id method_not_found_error method_not_found), s)

  -- the handlers of the exceptions of `_request`
  abbrev pub answered : Json → Result Answer × Server → List Answer × Server
  answered id (ok reply, s) = (reply ∷ [], s)
  answered id (err code status, s) = (failed id (number_of code) code ∷ [], s)

  abbrev pub handle_message : Incoming → service.Session → Server → List Answer × Server
  handle_message (misshapen id) fresh s = (failed id invalid_request_error invalid_request ∷ [], s)
  handle_message (bad_id id) fresh s = (failed id invalid_request_error invalid_request ∷ [], s)
  handle_message (bad_params id) fresh s = (failed id invalid_params_error invalid_params ∷ [], s)
  handle_message (notification method params) fresh s = ([], notified method s)
  handle_message (request id method params) fresh s =
      answered id (requested id method params fresh s)

  abbrev is_simple : Json → Bool
  is_simple msg = no_dupes msg && (elim (measure msg 0 0) [ none ↦ false | some n ↦ true ])

  abbrev handle_decoded : Option Json → service.Session → Server → List Answer × Server
  handle_decoded none fresh s = (failed null parse_error parse ∷ [], s)
  handle_decoded (some msg) fresh s =
      if is_simple msg
      then handle_message (message_of msg) fresh s
      else (failed null parse_error parse ∷ [], s)

  module _ (decode : List ℕ → Option Json) where
    -- `handle_line` with the limit on a line and the session that "initialize" would make: the
    -- lines sent, and the server after it
    unfoldable pub handle_line :
        (max_message_bytes : ℕ) → List ℕ → service.Session → Server → List Answer × Server
    unfolding measure no_dupes message_of notified requested
    handle_line most raw fresh s =
        if ltb most (length raw)
        then (failed null invalid_request_error message_too_large ∷ [], s)
        else handle_decoded (decode raw) fresh s

    -- the lines of `serve` that are handled, in order, each with the session that it would make
    unfoldable pub handle_lines :
        (max_message_bytes : ℕ) → List (List ℕ × service.Session) → Server → List Answer × Server
    unfolding handle_line
    handle_lines most [] s = ([], s)
    handle_lines most ((raw, fresh) ∷ raws) s =
        let (replies, s') = handle_line most raw fresh s in
        let (more, s'') = handle_lines most raws s' in (replies ++ more, s'')
