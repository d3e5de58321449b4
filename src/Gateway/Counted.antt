-- ===== src/Gateway/Counted.antt =====
-- What a collection does to the count of calls: an authorized one counts once, however it ends.
use oracle_diagnostic_estack.Prelude.{
  ℕ, ◌+◌, String, ◌≡◌, refl, ◌⊎◌, inl, inr, Bool, true, false, Option, none, some, List, [], str_eq,
  pick,
}
use oracle_diagnostic_estack.Common.{ErrorCode, CapabilityStatus, Result, ok, err}
use oracle_diagnostic_estack.Catalog.{Target, Collector}
use oracle_diagnostic_estack.Adapters.{Adapter}
use oracle_diagnostic_estack.Architecture.{Row, Observed, derive, release_update_from_identity}
use oracle_diagnostic_estack.Evidence.Store.{EvidenceStore}
use oracle_diagnostic_estack.Evidence.Sanitize.{Aliases, Payload}
use oracle_diagnostic_estack.Gateway.{
  Session, Stored, Gateway, State, Moment, Builtins, Notice, Collected,
}
use oracle_diagnostic_estack.Gateway.Collect.{
  count_call, count_rows, observe, observe_release, architecture_check, release_check,
  release_notices, released, respond, respond_to, stored_of, keep_rows, run_collector, authorized,
  collect_with, collect,
}

module _ (n : ℕ) where
  -- The session has counted `n` calls.
  abbrev HasCalls : Session → Type 0
  HasCalls s = s.calls ≡ n

  abbrev EndCounts : Result Collected × State → Type 0
  EndCounts r = HasCalls r.1.session

  abbrev CheckCounts : Option (List Notice × Session) → Type 0
  CheckCounts none = Unit
  CheckCounts (some (notices, s)) = HasCalls s

  observe-HasCalls :
      (t : Target) (real : Bool) (o : Observed) (s : Session)
      → HasCalls s
      → HasCalls (observe t real o s)
  unfolding observe
  observe-HasCalls t true o s w = w
  observe-HasCalls t false o s w = w

  observe_release-HasCalls :
      (t : Target) (real : Bool) (o : Option String) (s : Session)
      → HasCalls s
      → HasCalls (observe_release t real o s)
  unfolding observe_release
  observe_release-HasCalls t true (some r) s w = w
  observe_release-HasCalls t true none s w = w
  observe_release-HasCalls t false o s w = w

  release_check-HasCalls :
      (b : Builtins) (t : Target) (c : Collector) (real : Bool) (rows : List Row) (s : Session)
      → HasCalls s
      → CheckCounts (release_check b t c real rows s)
  release_check-HasCalls b t c real rows s w =
      pick CheckCounts (str_eq c.collector_id "Q-DISC-IDENTITY-001") _ (some ([], s))
        (go (release_update_from_identity b.isdigit b.int_of b.str_of rows)) w
    where
      go :
          (o : Option (Option String))
          → CheckCounts (elim o [
            | none ↦ none
            | some release ↦ some (release_notices t release, observe_release t real release s)
          ])
      go none = tt
      go (some release) = observe_release-HasCalls t real release s w

  released-HasCalls :
      (m : Moment) (cap : CapabilityStatus) (c : Collector) (stored : Stored)
      (notices : List Notice) (s : State) (o : Option (List Notice × Session))
      → HasCalls s.session
      → CheckCounts o
      → EndCounts (released m cap c stored notices s o)
  released-HasCalls m cap c stored notices s none w e = w
  released-HasCalls m cap c stored notices s (some (release, session)) w e = e

  respond-HasCalls :
      (b : Builtins) (m : Moment) (cap : CapabilityStatus) (t : Target) (c : Collector)
      (stored : Stored) (s : State)
      → HasCalls s.session
      → EndCounts (respond b m cap t c stored s)
  unfolding respond
  respond-HasCalls b m cap t c stored s w =
      let rows = stored.payload.rows in
      let P : List Notice × Session → Type 0 = λ r. HasCalls r.1 in
      let checked =
        pick P (str_eq c.collector_id "Q-DISC-ARCHITECTURE-001") _ _
          (observe-HasCalls t stored.real (derive rows) s.session w) w in
      released-HasCalls m cap c stored _ _ _ checked (
        release_check-HasCalls b t c stored.real rows
          (architecture_check t c stored.real rows s.session).1 checked)

  respond_to-HasCalls :
      (b : Builtins) (m : Moment) (cap : CapabilityStatus) (t : Target) (c : Collector)
      (stored : Stored) (s : Session) (store : EvidenceStore Stored)
      (o : Option (EvidenceStore Stored))
      → HasCalls s
      → EndCounts (respond_to b m cap t c stored s store o)
  respond_to-HasCalls b m cap t c stored s store none w = w
  respond_to-HasCalls b m cap t c stored s store (some after) w =
      respond-HasCalls b m cap t c stored (record { session = s; store = after }) w

  keep_rows-HasCalls :
      (b : Builtins) (m : Moment) (cap : CapabilityStatus) (t : Target) (c : Collector)
      (a : Adapter) (s : State) (r : Result (Payload × Aliases))
      → HasCalls s.session
      → EndCounts (keep_rows b m cap t c a s r)
  unfolding keep_rows count_rows
  keep_rows-HasCalls b m cap t c a s (err code status) w = w
  keep_rows-HasCalls b m cap t c a s (ok (payload, aliases)) w =
      respond_to-HasCalls b m cap t c (stored_of b m a payload)
        (count_rows t payload.row_count (record s.session { aliases = aliases })) s.store _ w

run_collector-calls :
    (b : Builtins) (g : Gateway) (m : Moment) (cap : CapabilityStatus) (t : Target) (c : Collector)
    (a : Adapter) (max_rows : Option ℕ) (s : State)
    → (run_collector b g m cap t c a max_rows s).1.session.calls ≡ s.session.calls + 1
unfolding run_collector count_call
run_collector-calls b g m cap t c a max_rows s =
    keep_rows-HasCalls (s.session.calls + 1) b m cap t c a
      (record s { session = count_call t s.session }) _ refl

-- A collection that an unknown target or collector or the authorization refuses ends with the error
-- of the refusal and changes nothing at all; every other counts exactly one call of the session,
-- whether the adapter returns, fails or is late, and whatever its rows are.
pub collect_calls :
    (b : Builtins) (g : Gateway) (m : Moment) (a id : String) (max_rows : Option ℕ) (s : State)
    → ((code : ErrorCode) × (status : Option CapabilityStatus) × (authorized b g s.session a id
          ≡ err code status)
        × (collect b g m a id max_rows s ≡ (err code status, s)))
      ⊎ ((x : Target × Collector × CapabilityStatus × Adapter) × (authorized b g s.session a id
            ≡ ok x)
          × ((collect b g m a id max_rows s).1.session.calls ≡ s.session.calls + 1))
unfolding collect
collect_calls b g m a id max_rows s = go (authorized b g s.session a id) refl
  where
    go :
        (r : Result (Target × Collector × CapabilityStatus × Adapter))
        → authorized b g s.session a id ≡ r
        → ((code : ErrorCode) × (status : Option CapabilityStatus) × (authorized b g s.session a id
              ≡ err code status)
            × (collect_with b g m max_rows s r ≡ (err code status, s)))
          ⊎ ((x : Target × Collector × CapabilityStatus × Adapter) × (authorized b g s.session a id
                ≡ ok x)
              × ((collect_with b g m max_rows s r).1.session.calls ≡ s.session.calls + 1))
    go (err code status) e = inl (code, status, e, refl)
    go (ok (t, c, cap, adapter)) e =
        inr ((t, c, cap, adapter), e, run_collector-calls b g m cap t c adapter max_rows s)
