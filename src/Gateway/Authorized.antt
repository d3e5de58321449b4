-- ===== src/Gateway/Authorized.antt =====
-- What an authorized collection has passed.
use oracle_diagnostic_estack.Prelude.{
  ◌<◌, String, ◌≡◌, ◌∙◌, Bool, true, false, not, some, arith, if◌then◌else◌,
}
use oracle_diagnostic_estack.Prelude.Dict.{lookup, get_or, contains}
use oracle_diagnostic_estack.Common.{
  CapabilityStatus, supported, ok, err, raise, target_disabled, collector_not_allowed, capability,
  budget_exceeded,
}
use oracle_diagnostic_estack.Catalog.{Target, Collector, evaluate_capability}
use oracle_diagnostic_estack.Adapters
use oracle_diagnostic_estack.Adapters.{Adapter, status_of}
use oracle_diagnostic_estack.Gateway.{
  Session, Gateway, Builtins, target_of, collector_of, authorize, is_exhausted, is_supported,
}
use oracle_diagnostic_estack.Gateway.Collect.{authorized}

-- Each of the session's three budgets has room.
abbrev pub HasRoom : Gateway → Session → Target → Type 0
HasRoom g s t =
    (s.calls < g.max_session_calls)
    × (get_or t.alias 0 s.target_calls < t.budget.max_calls)
    × (get_or t.alias 0 s.target_rows < t.budget.max_rows)

is_exhausted-HasRoom :
    (g : Gateway) (s : Session) (t : Target) → is_exhausted g s t ≡ false → HasRoom g s t
unfolding is_exhausted
is_exhausted-HasRoom g s t h = ground arith

is_supported-supported : (c : CapabilityStatus) → is_supported c ≡ true → c ≡ supported
is_supported-supported c h = ground arith

-- The guards of `_authorize`.
abbrev pub IsAuthorized : Builtins → Gateway → Session → Target → Collector → Type 0
IsAuthorized b g s t c =
    (t.enabled ≡ true)
    × (contains t.allowed_collectors c.collector_id ≡ true)
    × (evaluate_capability b.lower t c (status_of g.adapters t.adapter) ≡ supported)
    × HasRoom g s t

module _ (exhausted : Bool) (enabled : Bool) (allowed : Bool) (cap : CapabilityStatus) where
  guards :
      (out : CapabilityStatus)
      → (if not enabled
          then err target_disabled (some CapabilityStatus.disabled)
          else if not allowed
          then err collector_not_allowed (some CapabilityStatus.unsupported)
          else if not (is_supported cap)
          then err capability (some cap)
          else if exhausted
          then raise budget_exceeded
          else ok cap)
        ≡ ok out
      → (enabled ≡ true) × (allowed ≡ true) × (cap ≡ supported) × (exhausted ≡ false) × (out ≡ cap)
  guards out h = ground (arith, is_supported-supported cap)

pub authorize-IsAuthorized :
    (b : Builtins) (g : Gateway) (s : Session) (t : Target) (c : Collector) (cap : CapabilityStatus)
    → authorize b g s t c ≡ ok cap
    → IsAuthorized b g s t c × (cap ≡ supported)
unfolding authorize
authorize-IsAuthorized b g s t c cap h =
    let (enabled, allowed, is_cap, room, same) =
      guards (is_exhausted g s t) t.enabled (contains t.allowed_collectors c.collector_id)
        (evaluate_capability b.lower t c (status_of g.adapters t.adapter)) cap h in
    ((enabled, allowed, is_cap, is_exhausted-HasRoom g s t room), same ∙ is_cap)

-- What the guards of a collection let through is in the catalogs, and authorized.
pub authorized-IsAuthorized :
    (b : Builtins) (g : Gateway) (s : Session) (a id : String) (t : Target) (c : Collector)
    (cap : CapabilityStatus) (adapter : Adapter)
    → authorized b g s a id ≡ ok (t, c, cap, adapter)
    → (lookup a g.targets ≡ some t)
      × (lookup id g.collectors ≡ some c)
      × (lookup t.adapter g.adapters ≡ some adapter)
      × (authorize b g s t c ≡ ok cap)
unfolding target_of collector_of Adapters.get
authorized-IsAuthorized b g s a id t c cap adapter h = ground arith
