-- ===== src/Gateway/Collect.antt =====
-- mcp_gateway/gateway.py, `_tool_collect`: one collector on one target, in the order of the code:
-- the call is counted, the adapter run, its rows sanitized and counted, the payload stored, and the
-- rows of three collectors checked. The field validation of the response is not modelled: it
-- changes nothing.
use oracle_diagnostic_estack.Prelude.{
  ℕ, ◌+◌, ◌-◌, min, String, Bool, true, false, not, ◌&&◌, Option, none, some, List, [], ◌∷◌, ◌++◌,
  map, ltb, str_eq, if◌then◌else◌,
}
use oracle_diagnostic_estack.Prelude.Int.{ℤ, pos, ◌-ℤ◌, abs}
use oracle_diagnostic_estack.Prelude.Dict.{lookup, insert, get_or}
use oracle_diagnostic_estack.Schemas.{Json, bool, int, arr, Items}
use oracle_diagnostic_estack.Common.{
  CapabilityStatus, Result, ok, err, raise, ◌>>=◌, result_invalid, internal,
}
use oracle_diagnostic_estack.Catalog.{Target, Collector}
use oracle_diagnostic_estack.Adapters
use oracle_diagnostic_estack.Adapters.{Adapter, status_of, run_with_timeout}
use oracle_diagnostic_estack.Evidence.Store
use oracle_diagnostic_estack.Evidence.Store.{Entry, EvidenceStore, put}
use oracle_diagnostic_estack.Evidence.Sanitize.{
  Released, same, Runtime, Aliases, Payload, sanitize_rows,
}
use oracle_diagnostic_estack.Architecture.{
  Row, Observed, Mismatch, derive, compare, merge, release_update_from_identity,
}
use oracle_diagnostic_estack.Gateway.{
  Session, Stored, Gateway, State, Moment, Builtins, Notice, of_payload,
  declared_architecture_mismatch, declared_release_update_mismatch, clock_skew, Collected,
  target_of, collector_of, authorize,
}

-- `session.calls += 1`, and the same for the target
unfoldable pub count_call : Target → Session → Session
unfolding insert lookup
count_call t s = record s {
  calls = s.calls + 1;
  target_calls = insert t.alias (get_or t.alias 0 s.target_calls + 1) s.target_calls;
}

unfoldable pub count_rows : Target → ℕ → Session → Session
unfolding insert lookup
count_rows t n s = record s {
  target_rows = insert t.alias (get_or t.alias 0 s.target_rows + n) s.target_rows;
}

abbrev pub or_limit : Option ℕ → ℕ → ℕ
or_limit none limit = limit
or_limit (some n) limit = n

abbrev pub adapter_cap : Option (Target → Collector → ℕ) → Target → Collector → ℕ → ℕ
adapter_cap none t c n = n
adapter_cap (some cap) t c n = min n (cap t c)

-- `cap_rows`, with the session before the rows of this call
unfoldable pub cap_rows : Gateway → Session → Target → Collector → Adapter → Option ℕ → ℕ
unfolding lookup
cap_rows g s t c a max_rows =
    let rows_left = t.budget.max_rows - get_or t.alias 0 s.target_rows in
    adapter_cap a.row_cap t c
      (min (or_limit max_rows c.row_limit) (min c.row_limit (min rows_left g.max_rows)))

abbrev pub rows_of : Json → Option Items
rows_of (arr vs) = some vs
rows_of _ = none

abbrev pub sanitized :
    Runtime → Collector → Target → ℕ → Aliases → Option Items → Result (Payload × Aliases)
sanitized run c t cap aliases none = raise result_invalid
sanitized run c t cap aliases (some rows) =
    sanitize_rows run c.output_fields c.row_limit rows t.alias cap aliases

-- The adapter's rows, run and sanitized.
unfoldable pub fetch_rows :
    Runtime → Target → Collector → Adapter → ℕ → Aliases → Result (Payload × Aliases)
unfolding sanitize_rows
fetch_rows run t c a cap aliases =
    run_with_timeout (a.fetch t c) >>= λ raw. sanitized run c t cap aliases (rows_of raw)

abbrev is_real : Adapter → Bool
is_real a = not (str_eq a.name "fixture")

abbrev pub stored_of : Builtins → Moment → Adapter → Payload → Stored
stored_of b m a payload = record {
  payload = payload;
  digest = b.digest_rows payload;
  real = is_real a;
  collected_at_utc = if is_real a then some m.utc else none;
}

abbrev nothing_observed : Observed
nothing_observed = record {
  rac = none;
  asm = none;
  dataguard = none;
  role = none;
  os_family = none;
  release_update = none;
}

-- `session.observed_architecture.setdefault(alias, {}).update(observed)`, if the rows are real
unfoldable pub observe : Target → Bool → Observed → Session → Session
unfolding insert lookup merge
observe t false o s = s
observe t true o s = record s {
  observed_architecture =
      insert t.alias (merge (lookup t.alias s.observed_architecture) o) s.observed_architecture;
}

unfoldable pub observe_release : Target → Bool → Option String → Session → Session
unfolding insert lookup
observe_release t true (some release) s =
    let old = get_or t.alias nothing_observed s.observed_architecture in
    record s {
      observed_architecture =
          insert t.alias (record old { release_update = some release }) s.observed_architecture;
    }
observe_release t _ _ s = s

-- `ru and declared_ru and ru != declared_ru`
abbrev release_differs : Option String → Option String → Bool
release_differs (some release) (some declared) =
    not (str_eq declared "") && not (str_eq release declared)
release_differs _ _ = false

-- a value that `isinstance(db, int)` takes, which counts a Boolean as 0 or 1
abbrev as_int : Option Released → Option ℤ
as_int (some (same (int n))) = some n
as_int (some (same (bool true))) = some (pos 1)
as_int (some (same (bool false))) = some (pos 0)
as_int _ = none

abbrev clock_skew_seconds : ℕ
clock_skew_seconds = 300

abbrev is_skewed : Option ℤ → Bool → ℤ → Bool
is_skewed (some db) true epoch = ltb clock_skew_seconds (abs (db -ℤ epoch))
is_skewed _ _ epoch = false

abbrev first_row : List Row → Row
first_row [] = []
first_row (r ∷ rows) = r

-- `clock_check(rows, collected_at_utc)["skew"]`
unfoldable pub clock_check : List Row → (is_collected : Bool) → (epoch : ℤ) → Bool
unfolding lookup ◌-ℤ◌
clock_check rows is_collected epoch =
    is_skewed (as_int (lookup "db_utc_epoch" (first_row rows))) is_collected epoch

abbrev mismatch_notices : List Mismatch → List Notice
mismatch_notices ms = map (λ m. declared_architecture_mismatch m.dimension) ms

-- The checks on the rows of three collectors: what they add to the limitations, and the session
-- after them. The outer `none` is the ValueError of a release update.
abbrev pub architecture_check :
    Target → Collector → Bool → List Row → Session → List Notice × Session
architecture_check t c real rows s =
    if str_eq c.collector_id "Q-DISC-ARCHITECTURE-001"
    then (mismatch_notices (compare (derive rows) t), observe t real (derive rows) s)
    else ([], s)

abbrev pub release_notices : Target → Option String → List Notice
release_notices t release =
    if release_differs release t.release_update then declared_release_update_mismatch ∷ [] else []

abbrev pub release_check :
    Builtins → Target → Collector → Bool → List Row → Session → Option (List Notice × Session)
release_check b t c real rows s =
    if str_eq c.collector_id "Q-DISC-IDENTITY-001"
    then elim (release_update_from_identity b.isdigit b.int_of b.str_of rows) [
      | none ↦ none
      | some release ↦ some (release_notices t release, observe_release t real release s)
    ]
    else some ([], s)

abbrev clock_notices : Collector → Bool → List Row → ℤ → List Notice
clock_notices c real rows epoch =
    if str_eq c.collector_id "Q-DISC-CLOCK-001" && clock_check rows real epoch
    then clock_skew ∷ []
    else []

abbrev has_limitations : Payload → Bool
has_limitations p = elim p.limitations [ [] ↦ false | l ∷ ls ↦ true ]

abbrev pub collected_of :
    Moment → CapabilityStatus → Collector → Stored → List Notice → List Notice → Collected
collected_of m cap c stored architecture release = record {
  degraded = has_limitations stored.payload;
  capability_status = cap;
  evidence_ref = m.ref;
  stored = stored;
  limitations =
      map of_payload stored.payload.limitations
      ++ architecture
      ++ release
      ++ clock_notices c stored.real stored.payload.rows m.epoch;
}

abbrev pub released :
    Moment
    → CapabilityStatus
    → Collector
    → Stored
    → List Notice
    → State
    → Option (List Notice × Session)
    → Result Collected × State
released m cap c stored architecture s none = (raise internal, s)
released m cap c stored architecture s (some (release, session)) =
    (ok (collected_of m cap c stored architecture release), record s { session = session })

-- After the rows are stored: the checks, and the response.
unfoldable pub respond :
    Builtins
    → Moment
    → CapabilityStatus
    → Target
    → Collector
    → Stored
    → State
    → Result Collected × State
unfolding derive compare observe observe_release release_update_from_identity clock_check
respond b m cap t c stored s =
    let rows = stored.payload.rows in
    let (architecture, session) = architecture_check t c stored.real rows s.session in
    released m cap c stored architecture (record s { session = session })
      (release_check b t c stored.real rows session)

-- `store.put` fails only in a store without room for any entry, after its purge.
abbrev pub respond_to :
    Builtins
    → Moment
    → CapabilityStatus
    → Target
    → Collector
    → Stored
    → Session
    → EvidenceStore Stored
    → Option (EvidenceStore Stored)
    → Result Collected × State
respond_to b m cap t c stored session store none =
    (raise internal, record { session = session; store = Store.purge m.now store })
respond_to b m cap t c stored session store (some after) =
    respond b m cap t c stored (record { session = session; store = after })

-- After the fetch: count the rows, and store them.
unfoldable pub keep_rows :
    Builtins
    → Moment
    → CapabilityStatus
    → Target
    → Collector
    → Adapter
    → State
    → Result (Payload × Aliases)
    → Result Collected × State
unfolding count_rows put respond Store.purge
keep_rows b m cap t c a s (err code status) = (err code status, s)
keep_rows b m cap t c a s (ok (payload, aliases)) =
    let session = count_rows t payload.row_count (record s.session { aliases = aliases }) in
    let stored = stored_of b m a payload in
    respond_to b m cap t c stored session s.store (
      put b.digest_stored m.now m.stamp m.ref session.session_id t.alias c.collector_id stored
        s.store)

-- After the authorization: the call counts from here on, whatever becomes of it.
unfoldable pub run_collector :
    Builtins
    → Gateway
    → Moment
    → CapabilityStatus
    → Target
    → Collector
    → Adapter
    → Option ℕ
    → State
    → Result Collected × State
unfolding count_call cap_rows fetch_rows keep_rows
run_collector b g m cap t c a max_rows s =
    let session = count_call t s.session in
    keep_rows b m cap t c a (record s { session = session })
      (fetch_rows b.run t c a (cap_rows g session t c a max_rows) session.aliases)

abbrev pub authorized :
    Builtins
    → Gateway
    → Session
    → String
    → String
    → Result (Target × Collector × CapabilityStatus × Adapter)
authorized b g s a id = do
  t ← target_of g a
  c ← collector_of g id
  cap ← authorize b g s t c
  adapter ← Adapters.get g.adapters t.adapter
  ok (t, c, cap, adapter)

abbrev pub collect_with :
    Builtins
    → Gateway
    → Moment
    → Option ℕ
    → State
    → Result (Target × Collector × CapabilityStatus × Adapter)
    → Result Collected × State
collect_with b g m max_rows s (err code status) = (err code status, s)
collect_with b g m max_rows s (ok (t, c, cap, a)) = run_collector b g m cap t c a max_rows s

-- `_tool_collect` on its validated arguments
unfoldable pub collect :
    Builtins
    → Gateway
    → Moment
    → (target_alias collector_id : String) (max_rows : Option ℕ) → State
    → Result Collected × State
unfolding target_of collector_of authorize Adapters.get run_collector
collect b g m a id max_rows s = collect_with b g m max_rows s (authorized b g s.session a id)
