-- ===== src/Adapters.antt =====
-- mcp_gateway/adapters.py: the registry of adapters, and the deadline on what they do.
-- Parameter: what an adapter's `fetch` does. It is untrusted, and may return anything, raise, or
-- not come back in time. The thread that waits for it is part of the parameter.
use oracle_diagnostic_estack.Prelude.{
  ℕ, String, Bool, true, not, Option, none, some, List, if◌then◌else◌,
}
use oracle_diagnostic_estack.Prelude.Dict.{Dict, lookup, contains}
use oracle_diagnostic_estack.Schemas.{Json}
use oracle_diagnostic_estack.Common.{
  ErrorCode, CapabilityStatus, AdapterStatus, Result, ok, err, raise, adapter_failed,
  adapter_disabled, timed_out,
}
use oracle_diagnostic_estack.Catalog.{Target, Collector}

-- How a call of an adapter ends: with a value, a `GatewayError`, another exception, or too late.
pub data Outcome : Type 0 where
  returned : Json → Outcome
  raised : ErrorCode → Option CapabilityStatus → Outcome
  crashed late : Outcome

pub record Adapter : Type 0 where
  pub name : String
  pub status : AdapterStatus
  pub implemented_collectors : Option (List String)
  pub row_cap : Option (Target → Collector → ℕ)
  pub fetch : Target → Collector → Outcome

-- the registry's `_adapters`
abbrev pub Adapters : Type 0
Adapters = Dict Adapter

-- `DisabledAdapter`, which never connects
abbrev pub disabled_adapter : String → AdapterStatus → Adapter
disabled_adapter name status = record {
  name = name;
  status = status;
  implemented_collectors = none;
  row_cap = none;
  fetch = λ target collector. raised adapter_disabled none;
}

abbrev or_disabled : Option Adapter → Result Adapter
or_disabled none = raise adapter_disabled
or_disabled (some a) = ok a

-- `AdapterRegistry.get`
unfoldable pub get : Adapters → String → Result Adapter
unfolding lookup
get adapters name = or_disabled (lookup name adapters)

-- `AdapterRegistry.status_of`
unfoldable pub status_of : Adapters → String → AdapterStatus
unfolding lookup
status_of adapters name = elim (lookup name adapters) [
  | none ↦ AdapterStatus.unsupported
  | some a ↦ a.status
]

abbrev implements : Adapter → String → Bool
implements a collector_id = elim a.implemented_collectors [
  | none ↦ true
  | some ids ↦ contains ids collector_id
]

-- `AdapterRegistry.status_for`
unfoldable pub status_for :
    Adapters → (name collector_id : String) → (declared : AdapterStatus) → AdapterStatus
unfolding lookup contains
status_for adapters name collector_id declared = elim (lookup name adapters) [
  | none ↦ declared
  | some a ↦ if not (implements a collector_id) then AdapterStatus.unsupported else a.status
]

-- `run_with_timeout`
abbrev pub run_with_timeout : Outcome → Result Json
run_with_timeout (returned v) = ok v
run_with_timeout (raised code status) = err code status
run_with_timeout crashed = raise adapter_failed
run_with_timeout late = raise timed_out
