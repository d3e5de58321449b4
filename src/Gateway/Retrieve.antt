-- ===== src/Gateway/Retrieve.antt =====
-- mcp_gateway/gateway.py, `_tool_get_evidence`: stored evidence by its reference. The field
-- validation of the response is not modelled: it changes nothing.
use oracle_diagnostic_estack.Prelude.{String, not, Option, none, some, if◌then◌else◌}
use oracle_diagnostic_estack.Prelude.Dict.{lookup}
use oracle_diagnostic_estack.Common.{
  CapabilityStatus, Result, ok, err, raise, target_disabled, internal,
}
use oracle_diagnostic_estack.Catalog.{Target, Collector}
use oracle_diagnostic_estack.Evidence.Store
use oracle_diagnostic_estack.Evidence.Store.{Entry, EvidenceStore}
use oracle_diagnostic_estack.Gateway.{Stored, Gateway, State, Moment, Builtins, target_of}

-- The response of `diagnostics.get_evidence`, without the texts that do not depend on the call.
pub record Retrieved : Type 0 where
  pub collector_id : String
  pub evidence_ref : String
  pub stored : Stored

-- `self.collectors[e["collector"]]`, which raises KeyError on an unknown collector
abbrev pub retrieved_of : String → Stored → Option Collector → Result Retrieved
retrieved_of ref stored none = raise internal
retrieved_of ref stored (some c) =
    ok (record { collector_id = c.collector_id; evidence_ref = ref; stored = stored })

abbrev pub entry_found : Gateway → String → Result (Entry Stored) → Result Retrieved
entry_found g ref (err code status) = err code status
entry_found g ref (ok e) = retrieved_of ref e.payload (lookup e.collector g.collectors)

abbrev pub retrieve :
    Gateway
    → String
    → State
    → Result (Entry Stored) × EvidenceStore Stored
    → Result Retrieved × State
retrieve g ref s (found, store) = (entry_found g ref found, record s { store = store })

abbrev pub retrieve_from :
    Builtins → Gateway → Moment → String → State → Result Target → Result Retrieved × State
retrieve_from b g m ref s (err code status) = (err code status, s)
retrieve_from b g m ref s (ok t) =
    if not t.enabled
    then (err target_disabled (some CapabilityStatus.disabled), s)
    else retrieve g ref s (Store.get b.digest_stored m.now ref s.session.session_id t.alias s.store)

-- `_tool_get_evidence` on its validated arguments
unfoldable pub get_evidence :
    Builtins
    → Gateway
    → Moment
    → (target_alias evidence_ref : String) → State
    → Result Retrieved × State
unfolding target_of Store.get lookup
get_evidence b g m a ref s = retrieve_from b g m ref s (target_of g a)
