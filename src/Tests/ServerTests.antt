-- ===== src/Tests/ServerTests.antt =====
-- Runs of the protocol. The lines are numbered, and the decoder gives the message of a number.
use oracle_diagnostic_estack.Prelude.{
  ℕ, ◌+◌, ◌≤◌, String, ◌≡◌, ◌≢◌, refl, ◌↔◌, false, Option, none, some, List, [], ◌∷◌, map, ltb,
  ◌==◌, if◌then◌else◌,
}
use oracle_diagnostic_estack.Prelude.Int.{pos}
use oracle_diagnostic_estack.Schemas.{
  Json, null, int, str, arr, obj, nil, cons, Members, end, member,
}
use oracle_diagnostic_estack.Server.Message.{measure, max_json_depth, max_json_items}
use oracle_diagnostic_estack.Server.{
  new, initializing, ready, Service, Server, initialized, called, failed, handle_line, handle_lines,
  invalid_request_error,
}
use oracle_diagnostic_estack.Common.{not_initialized}
use oracle_diagnostic_estack.Server.Measured.{height, nodes, measure_ok_iff}
use oracle_diagnostic_estack.Server.Phases.{IsValid, handle_lines-untouched}
use oracle_diagnostic_estack.Server.Replies.{id_of, ids_decoded, handle_line-ids}

-- A gateway that counts its calls.
abbrev counting : Service
counting = record {
  Gateway = ℕ;
  Session = String;
  Envelope = String;
  call = λ g s name arguments. ((name, false), (g + 1, s));
}

abbrev message : String → Members → Json
message method rest = obj (member "jsonrpc" (str "2.0") (member "method" (str method) rest))

abbrev with_id : Json → Members → Members
with_id params rest = member "id" (int (pos 7)) (member "params" params rest)

abbrev decode : List ℕ → Option Json
decode (n ∷ []) =
    if n == 1
    then some
        (message "initialize" (with_id (obj (member "protocolVersion" (str "2024-11-05") end)) end))
    else if n == 2
    then some (message "notifications/initialized" end)
    else some (
        message "tools/call"
          (with_id (obj (member "name" (str "diagnostics.list_capabilities") end)) end))
decode _ = none

abbrev start : Server counting
start = record { state = new; protocol_version = none; session = none; gateway = 0 }

abbrev greeted : Server counting
greeted = record {
  state = initializing;
  protocol_version = some "2024-11-05";
  session = some "S1";
  gateway = 0;
}

abbrev handshake : List (List ℕ × String)
handshake = (1 ∷ [], "S1") ∷ (2 ∷ [], "S2") ∷ (3 ∷ [], "S3") ∷ []

first_line :
    handle_line counting decode 1000 (1 ∷ []) "S1" start
    ≡ (initialized (int (pos 7)) "2024-11-05" ∷ [], greeted)
unfolding handle_line
first_line = refl

too_early :
    (handle_line counting decode 1000 (3 ∷ []) "S1" start).0
    ≡ failed (int (pos 7)) invalid_request_error not_initialized ∷ []
unfolding handle_line
too_early = refl

whole_handshake : handle_lines counting decode 1000 handshake start ≡ (
  initialized (int (pos 7)) "2024-11-05"
      ∷ called (int (pos 7)) "diagnostics.list_capabilities" false
      ∷ [],
  record { state = ready; protocol_version = some "2024-11-05"; session = some "S1"; gateway = 1 },
)
unfolding handle_lines
whole_handshake = refl

abbrev nested : Json
nested = arr (cons (arr (cons null nil)) (cons null nil))

measure_ok_iff_example :
    (measure nested 0 0 ≡ some 4)
    ↔ ((height nested ≤ max_json_depth) × (nodes nested ≤ max_json_items) × (4 ≡ nodes nested))
measure_ok_iff_example = measure_ok_iff nested 4

handle_lines-untouched_example :
    IsValid counting (handle_lines counting decode 1000 ((1 ∷ [], "S1") ∷ []) start).1
    × ((handle_lines counting decode 1000 ((1 ∷ [], "S1") ∷ []) start).1.state ≢ ready
        → ((handle_lines counting decode 1000 ((1 ∷ [], "S1") ∷ []) start).1.gateway ≡ 0)
          × (new ≢ ready))
handle_lines-untouched_example =
    handle_lines-untouched counting decode 1000 ((1 ∷ [], "S1") ∷ []) start (refl, refl)

handle_line-ids_example :
    map id_of (handle_line counting decode 1000 (3 ∷ []) "S1" start).0
    ≡ (if ltb 1000 1 then null ∷ [] else ids_decoded counting (decode (3 ∷ [])))
handle_line-ids_example = handle_line-ids counting decode 1000 (3 ∷ []) "S1" start
