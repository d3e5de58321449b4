-- ===== src/Gateway/Budget.antt =====
-- The budgets of a session: no collection ever exceeds one.
use oracle_diagnostic_estack.Prelude.{
  ℕ, ◌+◌, ◌-◌, ◌≤◌, min, String, ◌≡◌, refl, sym, ap, subst, ◌∙◌, inl, inr, Bool, true, false,
  Option, none, some, List, [], arith, str_eq, eq_iff, Bool-cases, if◌then◌else◌, pick,
}
use oracle_diagnostic_estack.Prelude.Dict.{Dict, lookup, insert, get_or, lookup-insert}
use oracle_diagnostic_estack.Common.{CapabilityStatus, Result, ok, err, ◌>>=◌}
use oracle_diagnostic_estack.Schemas.{Json, Items}
use oracle_diagnostic_estack.Catalog.{Target, Collector}
use oracle_diagnostic_estack.Adapters.{Adapter, run_with_timeout}
use oracle_diagnostic_estack.Evidence.Store.{EvidenceStore}
use oracle_diagnostic_estack.Evidence.Sanitize.{Runtime, Aliases, Payload}
use oracle_diagnostic_estack.Evidence.Sanitize.Deny.{sanitize_rows-deny}
use oracle_diagnostic_estack.Architecture.{Row, Observed, derive, release_update_from_identity}
use oracle_diagnostic_estack.Gateway.{
  Session, Stored, Gateway, State, Moment, Builtins, Notice, Collected,
}
use oracle_diagnostic_estack.Gateway.Collect.{
  count_call, count_rows, cap_rows, fetch_rows, sanitized, rows_of, adapter_cap, or_limit, observe,
  observe_release, architecture_check, release_check, release_notices, stored_of, released, respond,
  respond_to, keep_rows, run_collector, authorized, collect_with, collect,
}
use oracle_diagnostic_estack.Gateway.Authorized.{
  HasRoom, authorized-IsAuthorized, authorize-IsAuthorized,
}

-- Every target stands in the catalog under its own alias.
abbrev pub HasOwnAliases : Gateway → Type 0
HasOwnAliases g = (a : String) (t : Target) → lookup a g.targets ≡ some t → t.alias ≡ a

-- The session's calls, and each target's calls and rows, are within their limits.
abbrev pub WithinBudget : Gateway → Session → Type 0
WithinBudget g s =
    (s.calls ≤ g.max_session_calls)
    × ((a : String) (t : Target)
        → lookup a g.targets ≡ some t
        → (get_or a 0 s.target_calls ≤ t.budget.max_calls)
          × (get_or a 0 s.target_rows ≤ t.budget.max_rows))

get_or-insert :
    (k j : String) (n : ℕ) (d : Dict ℕ)
    → get_or j 0 (insert k n d) ≡ (if str_eq k j then n else get_or j 0 d)
get_or-insert k j n d = ground (arith, lookup-insert k j n d)

module _ (g : Gateway) (own : HasOwnAliases g) where
  -- A dict of counts stays below the limits, when the count of one target rises below its own.
  raised_within :
      (limit : Target → ℕ) (t : Target) (n : ℕ) (d : Dict ℕ)
      → lookup t.alias g.targets ≡ some t
      → n ≤ limit t
      → ((a : String) (u : Target) → lookup a g.targets ≡ some u → get_or a 0 d ≤ limit u)
      → (a : String) (u : Target) → lookup a g.targets ≡ some u
      → get_or a 0 (insert t.alias n d) ≤ limit u
  raised_within limit t n d here low all a u found =
      let value : (b : Bool)
          → str_eq t.alias a ≡ b
          → get_or a 0 (insert t.alias n d) ≡ (if b then n else get_or a 0 d) =
        λ b e. get_or-insert t.alias a n d ∙ ap (λ c. if c then n else get_or a 0 d) e in
      elim (Bool-cases (str_eq t.alias a)) [
        | inl same ↦
            let name : t.alias ≡ a = ground (arith, eq_iff t.alias a) in
            let target : t ≡ u = ground (arith, here, found, name) in
            subst (λ m. m ≤ limit u) (sym (value true same)) (subst (λ x. n ≤ limit x) target low)
        | inr other ↦ subst (λ m. m ≤ limit u) (sym (value false other)) (all a u found)
      ]

  count_call-WithinBudget :
      (s : Session) (t : Target)
      → lookup t.alias g.targets ≡ some t
      → HasRoom g s t
      → WithinBudget g s
      → WithinBudget g (count_call t s)
  unfolding count_call
  count_call-WithinBudget s t here room within = (
    omega (arith, room.0),
    λ a u found. (
      raised_within (λ x. x.budget.max_calls) t (get_or t.alias 0 s.target_calls + 1) s.target_calls
          here (omega (arith, room.1)) (λ b v f. (within.1 b v f).0) a u found,
      (within.1 a u found).1,
    ),
  )

  -- The rows of one fetch fit into what the target has left.
  fetch_rows-le :
      (run : Runtime) (t : Target) (c : Collector) (a : Adapter) (cap : ℕ) (aliases after : Aliases)
      (payload : Payload)
      → fetch_rows run t c a cap aliases ≡ ok (payload, after)
      → payload.row_count ≤ cap
  unfolding fetch_rows
  fetch_rows-le run t c a cap aliases after payload h = go (run_with_timeout (a.fetch t c)) h
    where
      with_rows :
          (o : Option Items)
          → sanitized run c t cap aliases o ≡ ok (payload, after)
          → payload.row_count ≤ cap
      with_rows none e = absurd (ground arith)
      with_rows (some rows) e =
          let bound =
            (sanitize_rows-deny run c.output_fields c.row_limit rows t.alias cap aliases after
              payload e).1 in
          omega (arith, bound)

      go :
          (r : Result Json)
          → (r >>= λ raw. sanitized run c t cap aliases (rows_of raw)) ≡ ok (payload, after)
          → payload.row_count ≤ cap
      go (ok raw) e = with_rows (rows_of raw) e
      go (err code status) e = absurd (ground arith)

  cap_rows-le :
      (s : Session) (t : Target) (c : Collector) (a : Adapter) (max_rows : Option ℕ)
      → cap_rows g s t c a max_rows ≤ t.budget.max_rows - get_or t.alias 0 s.target_rows
  unfolding cap_rows
  cap_rows-le s t c a max_rows = go a.row_cap
    where
      go :
          (o : Option (Target → Collector → ℕ))
          → adapter_cap o t c (
              min (or_limit max_rows c.row_limit) (
                min c.row_limit
                  (min (t.budget.max_rows - get_or t.alias 0 s.target_rows) g.max_rows)))
            ≤ t.budget.max_rows - get_or t.alias 0 s.target_rows
      go none = omega arith
      go (some cap) = omega arith

  count_rows-WithinBudget :
      (s : Session) (t : Target) (n : ℕ)
      → lookup t.alias g.targets ≡ some t
      → get_or t.alias 0 s.target_rows + n ≤ t.budget.max_rows
      → WithinBudget g s
      → WithinBudget g (count_rows t n s)
  unfolding count_rows
  count_rows-WithinBudget s t n here room within = (
    within.0,
    λ a u found. (
      (within.1 a u found).0,
      raised_within (λ x. x.budget.max_rows) t (get_or t.alias 0 s.target_rows + n) s.target_rows
          here room (λ b v f. (within.1 b v f).1) a u found,
    ),
  )

  -- The observed architecture is in no budget.
  observe-WithinBudget :
      (t : Target) (real : Bool) (o : Observed) (s : Session)
      → WithinBudget g s
      → WithinBudget g (observe t real o s)
  unfolding observe
  observe-WithinBudget t true o s w = w
  observe-WithinBudget t false o s w = w

  observe_release-WithinBudget :
      (t : Target) (real : Bool) (o : Option String) (s : Session)
      → WithinBudget g s
      → WithinBudget g (observe_release t real o s)
  unfolding observe_release
  observe_release-WithinBudget t true (some r) s w = w
  observe_release-WithinBudget t true none s w = w
  observe_release-WithinBudget t false o s w = w

  -- The session after a check, if it did not fail, is within its budgets.
  abbrev EndsWithin : Option (List Notice × Session) → Type 0
  EndsWithin none = Unit
  EndsWithin (some (notices, s)) = WithinBudget g s

  release_check-WithinBudget :
      (b : Builtins) (t : Target) (c : Collector) (real : Bool) (rows : List Row) (s : Session)
      → WithinBudget g s
      → EndsWithin (release_check b t c real rows s)
  release_check-WithinBudget b t c real rows s w =
      pick EndsWithin (str_eq c.collector_id "Q-DISC-IDENTITY-001") _ (some ([], s))
        (go (release_update_from_identity b.isdigit b.int_of b.str_of rows)) w
    where
      go :
          (o : Option (Option String))
          → EndsWithin (elim o [
            | none ↦ none
            | some release ↦ some (release_notices t release, observe_release t real release s)
          ])
      go none = tt
      go (some release) = observe_release-WithinBudget t real release s w

  abbrev EndWithin : Result Collected × State → Type 0
  EndWithin r = WithinBudget g r.1.session

  released-WithinBudget :
      (m : Moment) (cap : CapabilityStatus) (c : Collector) (stored : Stored)
      (notices : List Notice) (s : State) (o : Option (List Notice × Session))
      → WithinBudget g s.session
      → EndsWithin o
      → EndWithin (released m cap c stored notices s o)
  released-WithinBudget m cap c stored notices s none w e = w
  released-WithinBudget m cap c stored notices s (some (release, session)) w e = e

  respond-WithinBudget :
      (b : Builtins) (m : Moment) (cap : CapabilityStatus) (t : Target) (c : Collector)
      (stored : Stored) (s : State)
      → WithinBudget g s.session
      → EndWithin (respond b m cap t c stored s)
  unfolding respond
  respond-WithinBudget b m cap t c stored s w =
      let rows = stored.payload.rows in
      let P : List Notice × Session → Type 0 = λ r. WithinBudget g r.1 in
      let checked =
        pick P (str_eq c.collector_id "Q-DISC-ARCHITECTURE-001") _ _
          (observe-WithinBudget t stored.real (derive rows) s.session w) w in
      released-WithinBudget m cap c stored _ _ _ checked (
        release_check-WithinBudget b t c stored.real rows
          (architecture_check t c stored.real rows s.session).1 checked)

  respond_to-WithinBudget :
      (b : Builtins) (m : Moment) (cap : CapabilityStatus) (t : Target) (c : Collector)
      (stored : Stored) (s : Session) (store : EvidenceStore Stored)
      (o : Option (EvidenceStore Stored))
      → WithinBudget g s
      → EndWithin (respond_to b m cap t c stored s store o)
  respond_to-WithinBudget b m cap t c stored s store none w = w
  respond_to-WithinBudget b m cap t c stored s store (some after) w =
      respond-WithinBudget b m cap t c stored (record { session = s; store = after }) w

  keep_rows-WithinBudget :
      (b : Builtins) (m : Moment) (cap : CapabilityStatus) (t : Target) (c : Collector)
      (a : Adapter) (s : State) (r : Result (Payload × Aliases))
      → lookup t.alias g.targets ≡ some t
      → ((payload : Payload) (aliases : Aliases)
          → r ≡ ok (payload, aliases)
          → get_or t.alias 0 s.session.target_rows + payload.row_count ≤ t.budget.max_rows)
      → WithinBudget g s.session
      → EndWithin (keep_rows b m cap t c a s r)
  unfolding keep_rows
  keep_rows-WithinBudget b m cap t c a s (err code status) here room w = w
  keep_rows-WithinBudget b m cap t c a s (ok (payload, aliases)) here room w =
      let session = record s.session { aliases = aliases } in
      respond_to-WithinBudget b m cap t c (stored_of b m a payload)
        (count_rows t payload.row_count session) s.store _
        (count_rows-WithinBudget session t payload.row_count here (room payload aliases refl) w)

  -- What is left for the target is not less than the rows that are fetched.
  rows_fit :
      (run : Runtime) (s : Session) (t : Target) (c : Collector) (a : Adapter) (max_rows : Option ℕ)
      (payload : Payload) (aliases : Aliases)
      → get_or t.alias 0 s.target_rows ≤ t.budget.max_rows
      → fetch_rows run t c a (cap_rows g s t c a max_rows) s.aliases ≡ ok (payload, aliases)
      → get_or t.alias 0 s.target_rows + payload.row_count ≤ t.budget.max_rows
  rows_fit run s t c a max_rows payload aliases low h =
      let few = fetch_rows-le run t c a (cap_rows g s t c a max_rows) s.aliases aliases payload h in
      let fit = cap_rows-le s t c a max_rows in omega (arith, few, fit, low)

  run_collector-WithinBudget :
      (b : Builtins) (m : Moment) (cap : CapabilityStatus) (t : Target) (c : Collector)
      (a : Adapter) (max_rows : Option ℕ) (s : State)
      → lookup t.alias g.targets ≡ some t
      → HasRoom g s.session t
      → WithinBudget g s.session
      → EndWithin (run_collector b g m cap t c a max_rows s)
  unfolding run_collector
  run_collector-WithinBudget b m cap t c a max_rows s here room w =
      let session = count_call t s.session in
      let counted = count_call-WithinBudget s.session t here room w in
      keep_rows-WithinBudget b m cap t c a (record s { session = session })
        (fetch_rows b.run t c a (cap_rows g session t c a max_rows) session.aliases) here
        (λ payload aliases h.
          rows_fit b.run session t c a max_rows payload aliases (counted.1 t.alias t here).1 h)
        counted

  -- If the catalog has every target under its own alias: whatever `diagnostics.collect` is asked
  -- for, whatever the adapter does, and however it ends, a session that is within its budgets stays
  -- within them: the calls of the session, and the calls and the returned rows of each target.
  pub collect-WithinBudget :
      (b : Builtins) (m : Moment) (a id : String) (max_rows : Option ℕ) (s : State)
      → WithinBudget g s.session
      → WithinBudget g (collect b g m a id max_rows s).1.session
  unfolding collect
  collect-WithinBudget b m a id max_rows s w = go (authorized b g s.session a id) refl
    where
      go :
          (r : Result (Target × Collector × CapabilityStatus × Adapter))
          → authorized b g s.session a id ≡ r
          → EndWithin (collect_with b g m max_rows s r)
      go (err code status) h = w
      go (ok (t, c, cap, adapter)) h =
          let (found, _, _, passed) =
            authorized-IsAuthorized b g s.session a id t c cap adapter h in
          let (guards, _) = authorize-IsAuthorized b g s.session t c cap passed in
          run_collector-WithinBudget b m cap t c adapter max_rows s
            (subst (λ k. lookup k g.targets ≡ some t) (sym (own a t found)) found) (guards.3) w
