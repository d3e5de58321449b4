-- ===== src/Server/Replies.antt =====
-- What is sent for a line of input: nothing for a notification, and one answer for all else.
use oracle_diagnostic_estack.Prelude.{
  ℕ, String, ◌≡◌, refl, ap, ◌∙◌, Bool, true, false, not, ◌&&◌, Option, none, some, List, [], ◌∷◌,
  map, ltb, length, str_eq, if◌then◌else◌, pick,
}
use oracle_diagnostic_estack.Prelude.Dict.{is_subset}
use oracle_diagnostic_estack.Text.{codes}
use oracle_diagnostic_estack.Schemas.{
  Json, null, bool, int, float, str, arr, obj, Members, member_keys,
}
use oracle_diagnostic_estack.Common.{message_too_large, Result, ok, err}
use oracle_diagnostic_estack.Server.Message.{
  Incoming, misshapen, bad_id, bad_params, notification, request, message_of, get_member,
  salvaged_id, with_params, params_of, good_id, has_shape, with_method, text_of,
}
use oracle_diagnostic_estack.Server.{
  Service, Server, Answer, Reply, failed, initialized, pong, tool_list, called, handle_line,
  handle_decoded, handle_message, answered, requested, initialize, initialize_with, tools_call,
  checked_call, call_with, is_simple, is_new, is_ready, invalid_request_error,
}

-- The id that a reply carries.
abbrev pub id_of : {Envelope : Type 0} → Reply Envelope → Json
id_of (failed id code key) = id
id_of (initialized id version) = id
id_of (pong id) = id
id_of (tool_list id) = id
id_of (called id envelope is_error) = id

-- The ids to answer to: none for a notification, and that of a request, or what could be read of it.
abbrev ids_asked : Incoming → List Json
ids_asked (misshapen id) = id ∷ []
ids_asked (bad_id id) = id ∷ []
ids_asked (bad_params id) = id ∷ []
ids_asked (notification method params) = []
ids_asked (request id method params) = id ∷ []

abbrev is_text : Option Json → Bool
is_text (some (str s)) = true
is_text _ = false

abbrev is_2 : Option Json → Bool
is_2 (some (str s)) = str_eq s "2.0"
is_2 _ = false

-- JSON-RPC 2.0 with a method and no member that it does not have.
abbrev pub has_form : Members → Bool
has_form ms =
    is_text (get_member "method" ms)
    && is_2 (get_member "jsonrpc" ms)
    && is_subset (member_keys ms) ("jsonrpc" ∷ "id" ∷ "method" ∷ "params" ∷ [])

-- no parameters, `null` or an object
abbrev pub has_params : Option Json → Bool
has_params none = true
has_params (some null) = true
has_params (some (obj ms)) = true
has_params _ = false

-- The id that answers to an id: an integer or a text itself, but not a text of more than 64
-- characters in a message of the right form; and `null` to all else.
abbrev pub answer_id : Json → (form : Bool) → Json
answer_id (int n) form = int n
answer_id (str s) form = if form && ltb 64 (length (codes s)) then null else str s
answer_id _ form = null

-- The ids that are due: none if there is no id and nothing is wrong, and else exactly one.
abbrev pub due_of : Option Json → (form params : Bool) → List Json
due_of none form params = if form && params then [] else null ∷ []
due_of (some id) form params = answer_id id form ∷ []

unfoldable pub ids_due : Json → List Json
unfolding get_member is_subset
ids_due (obj ms) = due_of (get_member "id" ms) (has_form ms) (has_params (get_member "params" ms))
ids_due _ = null ∷ []

bad-due :
    (id : Option Json) (params : Bool)
    → ids_asked (misshapen (salvaged_id id)) ≡ due_of id false params
bad-due none params = refl
bad-due (some null) params = refl
bad-due (some (bool b)) params = refl
bad-due (some (int n)) params = refl
bad-due (some (float f)) params = refl
bad-due (some (str s)) params = refl
bad-due (some (arr vs)) params = refl
bad-due (some (obj ms)) params = refl

with_params-due :
    (method : String) (p : Option Json)
    → ids_asked (with_params none method (params_of p)) ≡ due_of none true (has_params p)
with_params-due method none = refl
with_params-due method (some null) = refl
with_params-due method (some (bool b)) = refl
with_params-due method (some (int n)) = refl
with_params-due method (some (float f)) = refl
with_params-due method (some (str s)) = refl
with_params-due method (some (arr vs)) = refl
with_params-due method (some (obj ms)) = refl

with_params-some :
    (id : Json) (method : String) (o : Option Members)
    → ids_asked (with_params (some id) method o) ≡ id ∷ []
with_params-some id method none = refl
with_params-some id method (some params) = refl

good-due :
    (id : Option Json) (method : String) (p : Option Json)
    → ids_asked (if not (good_id id) then bad_id null else with_params id method (params_of p))
      ≡ due_of id true (has_params p)
good-due none method p = with_params-due method p
good-due (some null) method p = refl
good-due (some (bool b)) method p = refl
good-due (some (int n)) method p = with_params-some (int n) method (params_of p)
good-due (some (float f)) method p = refl
good-due (some (str s)) method p = go (ltb 64 (length (codes s)))
  where
    go :
        (b : Bool)
        → ids_asked
            (if not (not b) then bad_id null else with_params (some (str s)) method (params_of p))
          ≡ (if b then null else str s) ∷ []
    go true = refl
    go false = with_params-some (str s) method (params_of p)
good-due (some (arr vs)) method p = refl
good-due (some (obj ms)) method p = refl

form-due :
    (id : Option Json) (method : String) (p : Option Json) (b : Bool)
    → ids_asked (
        if not b
        then misshapen (salvaged_id id)
        else if not (good_id id)
        then bad_id null
        else with_params id method (params_of p))
      ≡ due_of id b (has_params p)
form-due id method p true = good-due id method p
form-due id method p false = bad-due id (has_params p)

with_method-due :
    (ms : Members) (id m p : Option Json)
    → get_member "params" ms ≡ p
    → get_member "method" ms ≡ m
    → ids_asked (with_method ms id (text_of m))
      ≡ due_of id
          (is_text m
            && is_2 (get_member "jsonrpc" ms)
            && is_subset (member_keys ms) ("jsonrpc" ∷ "id" ∷ "method" ∷ "params" ∷ []))
          (has_params (get_member "params" ms))
with_method-due ms id none p _ _ = bad-due id _
with_method-due ms id (some null) p _ _ = bad-due id _
with_method-due ms id (some (bool b)) p _ _ = bad-due id _
with_method-due ms id (some (int n)) p _ _ = bad-due id _
with_method-due ms id (some (float f)) p _ _ = bad-due id _
with_method-due ms id (some (str s)) p _ _ = form-due id s (get_member "params" ms) (has_shape ms)
with_method-due ms id (some (arr vs)) p _ _ = bad-due id _
with_method-due ms id (some (obj os)) p _ _ = bad-due id _

message_of-due : (msg : Json) → ids_asked (message_of msg) ≡ ids_due msg
unfolding message_of ids_due
message_of-due (obj ms) =
    with_method-due ms (get_member "id" ms) (get_member "method" ms) (get_member "params" ms) refl
      refl
message_of-due null = refl
message_of-due (bool b) = refl
message_of-due (int n) = refl
message_of-due (float f) = refl
message_of-due (str s) = refl
message_of-due (arr vs) = refl

module _ (service : Service) where
  -- The result of a request carries its id.
  abbrev Carries : Json → Result (Answer service) × Server service → Type 0
  Carries id (ok reply, s) = id_of reply ≡ id
  Carries id (err code status, s) = Unit

  initialize_with-Carries :
      (id : Json) (fresh : service.Session) (o : Option String) (objects : Bool)
      (s : Server service)
      → Carries id (initialize_with service id fresh o objects s)
  initialize_with-Carries id fresh none objects s = tt
  initialize_with-Carries id fresh (some v) true s = refl
  initialize_with-Carries id fresh (some v) false s = tt

  initialize-Carries :
      (id : Json) (params : Members) (fresh : service.Session) (s : Server service)
      → Carries id (initialize service id params fresh s)
  unfolding initialize
  initialize-Carries id params fresh s =
      pick (Carries id) (not (is_new s.state)) _ _ tt (initialize_with-Carries id fresh _ _ s)

  call_with-Carries :
      (id : Json) (name : String) (arguments : Option Members) (o : Option service.Session)
      (s : Server service)
      → Carries id (call_with service id name arguments o s)
  call_with-Carries id name arguments none s = tt
  call_with-Carries id name arguments (some session) s = refl

  checked_call-Carries :
      (id : Json) (name : Option String) (arguments : Option (Option Members)) (b : Bool)
      (s : Server service)
      → Carries id (checked_call service id name arguments b s)
  checked_call-Carries id (some name) (some arguments) true s =
      call_with-Carries id name arguments s.session s
  checked_call-Carries id _ _ _ s = tt

  tools_call-Carries :
      (id : Json) (params : Members) (s : Server service)
      → Carries id (tools_call service id params s)
  unfolding tools_call
  tools_call-Carries id params s = checked_call-Carries id _ _ _ s

  requested-Carries :
      (id : Json) (method : String) (params : Members) (fresh : service.Session)
      (s : Server service)
      → Carries id (requested service id method params fresh s)
  unfolding requested
  requested-Carries id method params fresh s =
      pick (Carries id) (str_eq method "initialize") _ _ (initialize-Carries id params fresh s) (
        pick (Carries id) (str_eq method "ping") _ _ refl (
          pick (Carries id) (not (is_ready s.state)) _ _ tt (
            pick (Carries id) (str_eq method "tools/list") _ _ refl (
              pick (Carries id) (str_eq method "tools/call") _ _ (tools_call-Carries id params s)
                refl))))

  answered-ids :
      (id : Json) (r : Result (Answer service) × Server service)
      → Carries id r
      → map id_of (answered service id r).0 ≡ id ∷ []
  answered-ids id (ok reply, s) h = ap (λ i. i ∷ []) h
  answered-ids id (err code status, s) h = refl

  handle_message-ids :
      (m : Incoming) (fresh : service.Session) (s : Server service)
      → map id_of (handle_message service m fresh s).0 ≡ ids_asked m
  handle_message-ids (misshapen id) fresh s = refl
  handle_message-ids (bad_id id) fresh s = refl
  handle_message-ids (bad_params id) fresh s = refl
  handle_message-ids (notification method params) fresh s = refl
  handle_message-ids (request id method params) fresh s =
      answered-ids id (requested service id method params fresh s)
        (requested-Carries id method params fresh s)

  -- The ids to answer to for a line: `null` if it is too long or cannot be read.
  abbrev pub ids_decoded : Option Json → List Json
  ids_decoded none = null ∷ []
  ids_decoded (some msg) = if is_simple service msg then ids_due msg else null ∷ []

  handle_decoded-ids :
      (o : Option Json) (fresh : service.Session) (s : Server service)
      → map id_of (handle_decoded service o fresh s).0 ≡ ids_decoded o
  handle_decoded-ids none fresh s = refl
  handle_decoded-ids (some msg) fresh s = go (is_simple service msg)
    where
      go :
          (b : Bool)
          → map id_of
              (if b
                then handle_message service (message_of msg) fresh s
                else handle_decoded service none fresh s).0
            ≡ (if b then ids_due msg else null ∷ [])
      go true = handle_message-ids (message_of msg) fresh s ∙ message_of-due msg
      go false = refl

  module _ (decode : List ℕ → Option Json) where
    -- Each line has the answers that are due: none for a message of the right form without an id, and
    -- exactly one for all else, with the id of the message if that is an integer or a text of at most
    -- 64 characters. A longer text is repeated only where the form is wrong; what cannot be read, is
    -- too long or not simple, and every other id, has `null`.
    pub handle_line-ids :
        (most : ℕ) (raw : List ℕ) (fresh : service.Session) (s : Server service)
        → map id_of (handle_line service decode most raw fresh s).0
          ≡ (if ltb most (length raw) then null ∷ [] else ids_decoded (decode raw))
    unfolding handle_line
    handle_line-ids most raw fresh s = go (ltb most (length raw))
      where
        go :
            (b : Bool)
            → map id_of
                (if b
                  then (failed null invalid_request_error message_too_large ∷ [], s)
                  else handle_decoded service (decode raw) fresh s).0
              ≡ (if b then null ∷ [] else ids_decoded (decode raw))
        go true = refl
        go false = handle_decoded-ids (decode raw) fresh s
