-- ===== src/Server/Phases.antt =====
-- The states of the protocol over lines of input: NEW, INITIALIZING and READY, in this order.
use oracle_diagnostic_estack.Prelude.{
  ℕ, String, ◌≡◌, refl, sym, subst, ◌∙◌, ◌&&◌, ◌≢◌, Bool, true, false, not, Option, none, some,
  List, [], ◌∷◌, arith, ltb, length, str_eq, if◌then◌else◌, pick, pick_if,
}
use oracle_diagnostic_estack.Prelude.Dict.{contains}
use oracle_diagnostic_estack.Schemas.{Json, Members}
use oracle_diagnostic_estack.Common.{Result, ok, err}
use oracle_diagnostic_estack.Server.Message.{
  get_member, text_of, is_object_or_absent, Incoming, misshapen, bad_id, bad_params, notification,
  request, message_of,
}
use oracle_diagnostic_estack.Server.{
  ProtocolState, new, initializing, ready, Service, Server, Answer, handle_line, handle_lines,
  handle_decoded, handle_message, answered, requested, notified, initialize, initialize_with,
  tools_call, checked_call, call_with, negotiated, supported_protocol_versions, is_simple, is_ready,
}

-- One line takes the protocol nowhere or one state on.
abbrev pub Advances : ProtocolState → ProtocolState → Type 0
Advances new ready = ⊥
Advances initializing new = ⊥
Advances ready new = ⊥
Advances ready initializing = ⊥
Advances _ _ = Unit

Advances-refl : (p : ProtocolState) → Advances p p
Advances-refl new = tt
Advances-refl initializing = tt
Advances-refl ready = tt

ready_of : (p : ProtocolState) → not (is_ready p) ≡ false → p ≡ ready
ready_of new h = absurd (ground arith)
ready_of initializing h = absurd (ground arith)
ready_of ready h = refl

chosen :
    (b : Bool) (v : String)
    → contains supported_protocol_versions v ≡ b
    → contains supported_protocol_versions (if b then v else "2025-06-18") ≡ true
unfolding contains
chosen true v h = h
chosen false v h = refl

negotiated-supported : (v : String) → contains supported_protocol_versions (negotiated v) ≡ true
negotiated-supported v = chosen (contains supported_protocol_versions v) v refl

module _ (service : Service) where
  -- The session and the version are there from the first `initialize` on.
  abbrev pub IsValidIn : ProtocolState → Server service → Type 0
  IsValidIn new s = (s.session ≡ none) × (s.protocol_version ≡ none)
  IsValidIn _ s =
      ((session : service.Session) × (s.session ≡ some session))
      × ((v : String) × (s.protocol_version ≡ some v)
          × (contains supported_protocol_versions v ≡ true))

  abbrev pub IsValid : Server service → Type 0
  IsValid s = IsValidIn s.state s

  -- What a line may do to the server: keep it valid, move the protocol on by at most one state,
  -- and leave the gateway alone unless it was ready.
  abbrev pub Steps : Server service → Server service → Type 0
  Steps s after =
      IsValid after × Advances s.state after.state × ((s.state ≢ ready) → after.gateway ≡ s.gateway)

  stays : (s : Server service) → IsValid s → Steps s s
  stays s v = (v, Advances-refl s.state, λ _. refl)

  module _ (version : Option String) (session : Option service.Session)
      (gateway : service.Gateway) where
    -- A server, by its state.
    abbrev in_state : ProtocolState → Server service
    in_state p = record {
      state = p;
      protocol_version = version;
      session = session;
      gateway = gateway;
    }

    notified-Steps :
        (method : String) (p : ProtocolState)
        → IsValid (in_state p)
        → Steps (in_state p) (notified service method (in_state p))
    unfolding notified
    notified-Steps method new v = stays (in_state new) v
    notified-Steps method initializing v =
        pick (Steps (in_state initializing)) (str_eq method "notifications/initialized")
          (in_state ready) (in_state initializing) (v, tt, λ _. refl)
          (stays (in_state initializing) v)
    notified-Steps method ready v = stays (in_state ready) v

    initialize_with-Steps :
        (id : Json) (fresh : service.Session) (o : Option String) (objects : Bool)
        → IsValid (in_state new)
        → Steps (in_state new) (initialize_with service id fresh o objects (in_state new)).1
    initialize_with-Steps id fresh none objects v = stays (in_state new) v
    initialize_with-Steps id fresh (some o) false v = stays (in_state new) v
    initialize_with-Steps id fresh (some o) true v =
        (((fresh, refl), (negotiated o, refl, negotiated-supported o)), tt, λ _. refl)

    initialize-Steps :
        (id : Json) (params : Members) (fresh : service.Session) (p : ProtocolState)
        → IsValid (in_state p)
        → Steps (in_state p) (initialize service id params fresh (in_state p)).1
    unfolding initialize
    initialize-Steps id params fresh new v =
        initialize_with-Steps id fresh (text_of (get_member "protocolVersion" params))
          (is_object_or_absent (get_member "capabilities" params)
            && is_object_or_absent (get_member "clientInfo" params))
          v
    initialize-Steps id params fresh initializing v = stays (in_state initializing) v
    initialize-Steps id params fresh ready v = stays (in_state ready) v

  call_with-Steps :
      (id : Json) (name : String) (arguments : Option Members) (o : Option service.Session)
      (s : Server service)
      → s.state ≡ ready
      → IsValid s
      → Steps s (call_with service id name arguments o s).1
  call_with-Steps id name arguments none s r v = stays s v
  call_with-Steps id name arguments (some session) s r v = (
    subst (λ p. IsValidIn p (call_with service id name arguments (some session) s).1) (sym r)
        (
          ((service.call s.gateway session name arguments).1.1, refl),
          (subst (λ p. IsValidIn p s) r v).1,
        ),
    Advances-refl s.state,
    λ other. absurd (other r),
  )

  checked_call-Steps :
      (id : Json) (name : Option String) (arguments : Option (Option Members)) (b : Bool)
      (s : Server service)
      → s.state ≡ ready
      → IsValid s
      → Steps s (checked_call service id name arguments b s).1
  checked_call-Steps id (some name) (some arguments) true s r v =
      call_with-Steps id name arguments s.session s r v
  checked_call-Steps id _ _ _ s r v = stays s v

  tools_call-Steps :
      (id : Json) (params : Members) (s : Server service)
      → s.state ≡ ready
      → IsValid s
      → Steps s (tools_call service id params s).1
  unfolding tools_call
  tools_call-Steps id params s r v =
      checked_call-Steps id (text_of (get_member "name" params)) _ _ s r v

  requested-Steps :
      (id : Json) (method : String) (params : Members) (fresh : service.Session)
      (s : Server service)
      → IsValid s
      → Steps s (requested service id method params fresh s).1
  unfolding requested
  requested-Steps id method params fresh s v =
      let P : Result (Answer service) × Server service → Type 0 = λ r. Steps s r.1 in
      pick P (str_eq method "initialize") _ _
        (initialize-Steps s.protocol_version s.session s.gateway id params fresh s.state v)
        (pick P (str_eq method "ping") _ _ (stays s v) (
          pick_if P (not (is_ready s.state)) _ _ (λ _. stays s v)
            (λ h. pick P (str_eq method "tools/list") _ _ (stays s v) (
              pick P (str_eq method "tools/call") _ _
                (tools_call-Steps id params s (ready_of s.state h) v) (stays s v)))))

  answered-Steps :
      (id : Json) (s : Server service) (r : Result (Answer service) × Server service)
      → Steps s r.1
      → Steps s (answered service id r).1
  answered-Steps id s (ok reply, after) h = h
  answered-Steps id s (err code status, after) h = h

  handle_message-Steps :
      (m : Incoming) (fresh : service.Session) (s : Server service)
      → IsValid s
      → Steps s (handle_message service m fresh s).1
  handle_message-Steps (misshapen id) fresh s v = stays s v
  handle_message-Steps (bad_id id) fresh s v = stays s v
  handle_message-Steps (bad_params id) fresh s v = stays s v
  handle_message-Steps (notification method params) fresh s v =
      notified-Steps s.protocol_version s.session s.gateway method s.state v
  handle_message-Steps (request id method params) fresh s v =
      answered-Steps id s (requested service id method params fresh s)
        (requested-Steps id method params fresh s v)

  handle_decoded-Steps :
      (o : Option Json) (fresh : service.Session) (s : Server service)
      → IsValid s
      → Steps s (handle_decoded service o fresh s).1
  handle_decoded-Steps none fresh s v = stays s v
  handle_decoded-Steps (some msg) fresh s v =
      let P : List (Answer service) × Server service → Type 0 = λ r. Steps s r.1 in
      pick P (is_simple service msg) _ _ (handle_message-Steps (message_of msg) fresh s v)
        (stays s v)

  module _ (decode : List ℕ → Option Json) where
    -- Whatever the bytes of a line are, a valid server is valid after it: without a session and a
    -- version exactly in NEW, and with a supported version else. The protocol moves on by at most
    -- one state, never back, and the gateway is left as it is unless the server was READY.
    pub handle_line-Steps :
        (most : ℕ) (raw : List ℕ) (fresh : service.Session) (s : Server service)
        → IsValid s
        → Steps s (handle_line service decode most raw fresh s).1
    unfolding handle_line
    handle_line-Steps most raw fresh s v =
        let P : List (Answer service) × Server service → Type 0 = λ r. Steps s r.1 in
        pick P (ltb most (length raw)) _ _ (stays s v) (handle_decoded-Steps (decode raw) fresh s v)

    -- A state that is not READY came from one that is not READY.
    not_yet : (p q : ProtocolState) → Advances p q → q ≢ ready → p ≢ ready
    not_yet new q a n r = absurd (ground (arith, r))
    not_yet initializing q a n r = absurd (ground (arith, r))
    not_yet ready new a n r = absurd a
    not_yet ready initializing a n r = absurd a
    not_yet ready ready a n r = n refl

    -- Over any lines of input, a valid server stays valid; and if it is not READY after them, it
    -- was not READY before them and its gateway is untouched: no tool runs before the handshake.
    pub handle_lines-untouched :
        (most : ℕ) (raws : List (List ℕ × service.Session)) (s : Server service)
        → IsValid s
        → IsValid (handle_lines service decode most raws s).1
          × ((handle_lines service decode most raws s).1.state ≢ ready
              → ((handle_lines service decode most raws s).1.gateway ≡ s.gateway)
                × (s.state ≢ ready))
    unfolding handle_lines
    handle_lines-untouched most [] s v = (v, λ n. (refl, n))
    handle_lines-untouched most ((raw, fresh) ∷ raws) s v =
        let (valid, on, kept) = handle_line-Steps most raw fresh s v in
        let step = (handle_line service decode most raw fresh s).1 in
        let (end_valid, end) = handle_lines-untouched most raws step valid in
        (
          end_valid,
          λ n.
              let (same, later) = end n in
              let earlier = not_yet s.state step.state on later in (same ∙ kept earlier, earlier),
        )
