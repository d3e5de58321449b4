-- ===== src/Gateway.antt =====
-- mcp_gateway/gateway.py: the session, authorization, and the tools that collect and return
-- evidence.
-- Parameters: the clock, random references, digests, the epoch of a time of collection, the
-- session's runtime for sanitation, and Python's operations on texts and numbers.
pub mod Collect
pub mod Authorized
pub mod Budget
pub mod Counted
pub mod Retrieve
pub mod Roundtrip
use oracle_diagnostic_estack.Prelude.{
  ℕ, ◌+◌, ◌-◌, ◌≤◌, min, String, Bool, true, false, not, ◌&&◌, ◌||◌, Option, none, some, List, [],
  ◌∷◌, ◌++◌, map, leb, ltb, str_eq, if◌then◌else◌,
}
use oracle_diagnostic_estack.Prelude.Int.{ℤ, pos, ◌-ℤ◌, abs}
use oracle_diagnostic_estack.Prelude.Dict.{Dict, lookup, insert, get_or, contains}
use oracle_diagnostic_estack.Text.{Text}
use oracle_diagnostic_estack.Schemas.{Json, bool, int, arr, Items}
use oracle_diagnostic_estack.Common.{
  ErrorCode, CapabilityStatus, supported, Result, ok, err, raise, ◌>>=◌, target_unknown,
  target_disabled, collector_unknown, collector_not_allowed, capability, budget_exceeded,
  result_invalid, internal,
}
use oracle_diagnostic_estack.Catalog.{Target, Collector, evaluate_capability}
use oracle_diagnostic_estack.Adapters
use oracle_diagnostic_estack.Adapters.{Adapter, status_of, run_with_timeout}
use oracle_diagnostic_estack.Evidence.Store
use oracle_diagnostic_estack.Evidence.Store.{Entry, EvidenceStore, put}
use oracle_diagnostic_estack.Evidence.Sanitize.{
  Released, same, Runtime, Aliases, Payload, Limitation, sanitize_rows,
}
use oracle_diagnostic_estack.Architecture.{
  Row, Observed, Mismatch, only_row, derive, compare, merge, release_update_from_identity,
}

pub record Session : Type 0 where
  pub session_id : String
  pub aliases : Aliases
  pub calls : ℕ
  pub target_calls : Dict ℕ
  pub target_rows : Dict ℕ
  pub observed_architecture : Dict Observed

-- the payload as `_tool_collect` completes it
pub record Stored : Type 0 where
  pub payload : Payload
  pub digest : String
  pub real : Bool
  pub collected_at_utc : Option String

-- The gateway's configuration, and the state that its tools change.
pub record Gateway : Type 0 where
  pub collectors : Dict Collector
  pub targets : Dict Target
  pub adapters : Adapters.Adapters
  pub max_session_calls : ℕ
  pub max_rows : ℕ

pub record State : Type 0 where
  pub session : Session
  pub store : EvidenceStore Stored

-- What the surroundings give to one call: the clock at the two readings of the store, the random
-- reference of a new entry, and the time of collection as a text and as an epoch.
pub record Moment : Type 0 where
  pub now : ℕ
  pub stamp : ℕ
  pub ref : String
  pub utc : String
  pub epoch : ℤ

pub record Builtins : Type 0 where
  pub run : Runtime
  pub lower : Text → Text
  pub isdigit : Text → Bool
  pub int_of : Text → Option ℕ
  pub str_of : ℕ → String
  pub digest_rows : Payload → String
  pub digest_stored : Stored → String

-- A limitation of a response: one of its payload, or one that the gateway adds.
pub data Notice : Type 0 where
  of_payload : Limitation → Notice
  declared_architecture_mismatch : (dimension : String) → Notice
  declared_release_update_mismatch clock_skew : Notice

-- The response of `diagnostics.collect`, without the texts that do not depend on the call.
pub record Collected : Type 0 where
  pub degraded : Bool
  pub capability_status : CapabilityStatus
  pub evidence_ref : String
  pub stored : Stored
  pub limitations : List Notice

abbrev collector_or_unknown : Option Collector → Result Collector
collector_or_unknown none = raise collector_unknown
collector_or_unknown (some c) = ok c

abbrev pub target_or_unknown : Option Target → Result Target
target_or_unknown none = raise target_unknown
target_or_unknown (some t) = ok t

-- `_target`
unfoldable pub target_of : Gateway → String → Result Target
unfolding lookup
target_of g a = target_or_unknown (lookup a g.targets)

unfoldable pub collector_of : Gateway → String → Result Collector
unfolding lookup
collector_of g id = collector_or_unknown (lookup id g.collectors)

-- One of the session's three budgets is used up.
unfoldable pub is_exhausted : Gateway → Session → Target → Bool
unfolding lookup
is_exhausted g s t =
    leb g.max_session_calls s.calls
    || leb t.budget.max_calls (get_or t.alias 0 s.target_calls)
    || leb t.budget.max_rows (get_or t.alias 0 s.target_rows)

abbrev is_supported : CapabilityStatus → Bool
is_supported supported = true
is_supported _ = false

-- `_authorize`, with `count_call`
unfoldable pub authorize :
    Builtins → Gateway → Session → Target → Collector → Result CapabilityStatus
unfolding evaluate_capability status_of contains is_exhausted
authorize b g s t c =
    let cap = evaluate_capability b.lower t c (status_of g.adapters t.adapter) in
    if not t.enabled
    then err target_disabled (some CapabilityStatus.disabled)
    else if not (contains t.allowed_collectors c.collector_id)
    then err collector_not_allowed (some CapabilityStatus.unsupported)
    else if not (is_supported cap)
    then err capability (some cap)
    else if is_exhausted g s t
    then raise budget_exceeded
    else ok cap
