-- ===== src/Gateway/Roundtrip.antt =====
-- Evidence that was collected can be read back by its reference.
use oracle_diagnostic_estack.Prelude.{
  ℕ, ◌+◌, ◌≤◌, String, ◌≡◌, refl, sym, ap, subst, ◌∙◌, Bool, true, false, not, Option, none, some,
  List, [], arith, str_eq, if◌then◌else◌, pick,
}
use oracle_diagnostic_estack.Prelude.Dict.{lookup}
use oracle_diagnostic_estack.Common.{CapabilityStatus, Result, ok, err, target_disabled}
use oracle_diagnostic_estack.Catalog.{Target, Collector}
use oracle_diagnostic_estack.Adapters.{Adapter}
use oracle_diagnostic_estack.Architecture.{Row, Observed, derive, release_update_from_identity}
use oracle_diagnostic_estack.Evidence.Store
use oracle_diagnostic_estack.Evidence.Store.{EvidenceStore, put, entry}
use oracle_diagnostic_estack.Evidence.Store.Scope.{HasDistinctRefs, get-put}
use oracle_diagnostic_estack.Evidence.Sanitize.{Aliases, Payload}
use oracle_diagnostic_estack.Gateway.{
  Session, Stored, Gateway, State, Moment, Builtins, Notice, Collected, target_of,
  target_or_unknown,
}
use oracle_diagnostic_estack.Gateway.Collect.{
  count_call, count_rows, observe, observe_release, architecture_check, release_check,
  release_notices, released, respond, respond_to, stored_of, keep_rows, run_collector, authorized,
  collect_with, collect,
}
use oracle_diagnostic_estack.Gateway.Authorized.{authorized-IsAuthorized, authorize-IsAuthorized}
use oracle_diagnostic_estack.Gateway.Retrieve.{
  entry_found, retrieved_of, retrieve, retrieve_from, get_evidence,
}

-- Checks of the rows leave the session's identity alone.
observe-id :
    (t : Target) (real : Bool) (o : Observed) (s : Session)
    → (observe t real o s).session_id ≡ s.session_id
unfolding observe
observe-id t true o s = refl
observe-id t false o s = refl

observe_release-id :
    (t : Target) (real : Bool) (o : Option String) (s : Session)
    → (observe_release t real o s).session_id ≡ s.session_id
unfolding observe_release
observe_release-id t true (some r) s = refl
observe_release-id t true none s = refl
observe_release-id t false o s = refl

module _ (b : Builtins) (m : Moment) (t : Target) (c : Collector) (id : String) where
  -- A successful collection has put what it returns into the store, for the session and target.
  abbrev Keeps : EvidenceStore Stored → Result Collected × State → Type 0
  Keeps store (err code status, s) = Unit
  Keeps store (ok r, s) =
      (r.evidence_ref ≡ m.ref)
      × (put b.digest_stored m.now m.stamp m.ref id t.alias c.collector_id r.stored store
          ≡ some s.store)
      × (s.session.session_id ≡ id)

  abbrev KeepsId : Option (List Notice × Session) → Type 0
  KeepsId none = Unit
  KeepsId (some (notices, s)) = s.session_id ≡ id

  release_check-KeepsId :
      (real : Bool) (rows : List Row) (s : Session)
      → s.session_id ≡ id
      → KeepsId (release_check b t c real rows s)
  release_check-KeepsId real rows s w =
      pick KeepsId (str_eq c.collector_id "Q-DISC-IDENTITY-001") _ (some ([], s))
        (go (release_update_from_identity b.isdigit b.int_of b.str_of rows)) w
    where
      go :
          (o : Option (Option String))
          → KeepsId (elim o [
            | none ↦ none
            | some release ↦ some (release_notices t release, observe_release t real release s)
          ])
      go none = tt
      go (some release) = observe_release-id t real release s ∙ w

  released-Keeps :
      (cap : CapabilityStatus) (stored : Stored) (notices : List Notice) (s : State)
      (store : EvidenceStore Stored) (o : Option (List Notice × Session))
      → put b.digest_stored m.now m.stamp m.ref id t.alias c.collector_id stored store
        ≡ some s.store
      → KeepsId o
      → Keeps store (released m cap c stored notices s o)
  released-Keeps cap stored notices s store none h e = tt
  released-Keeps cap stored notices s store (some (release, session)) h e = (refl, h, e)

  respond-Keeps :
      (cap : CapabilityStatus) (stored : Stored) (s : State) (store : EvidenceStore Stored)
      → put b.digest_stored m.now m.stamp m.ref id t.alias c.collector_id stored store
        ≡ some s.store
      → s.session.session_id ≡ id
      → Keeps store (respond b m cap t c stored s)
  unfolding respond
  respond-Keeps cap stored s store h same =
      let rows = stored.payload.rows in
      let P : List Notice × Session → Type 0 = λ r. r.1.session_id ≡ id in
      let checked =
        pick P (str_eq c.collector_id "Q-DISC-ARCHITECTURE-001") _ _
          (observe-id t stored.real (derive rows) s.session ∙ same) same in
      released-Keeps cap stored _ _ store _ h (
        release_check-KeepsId stored.real rows (architecture_check t c stored.real rows s.session).1
          checked)

  respond_to-Keeps :
      (cap : CapabilityStatus) (stored : Stored) (session : Session) (store : EvidenceStore Stored)
      (o : Option (EvidenceStore Stored))
      → put b.digest_stored m.now m.stamp m.ref id t.alias c.collector_id stored store ≡ o
      → session.session_id ≡ id
      → Keeps store (respond_to b m cap t c stored session store o)
  respond_to-Keeps cap stored session store none h same = tt
  respond_to-Keeps cap stored session store (some after) h same =
      respond-Keeps cap stored (record { session = session; store = after }) store h same

keep_rows-Keeps :
    (b : Builtins) (m : Moment) (cap : CapabilityStatus) (t : Target) (c : Collector) (a : Adapter)
    (s : State) (r : Result (Payload × Aliases))
    → Keeps b m t c s.session.session_id s.store (keep_rows b m cap t c a s r)
unfolding keep_rows count_rows
keep_rows-Keeps b m cap t c a s (err code status) = tt
keep_rows-Keeps b m cap t c a s (ok (payload, aliases)) =
    respond_to-Keeps b m t c s.session.session_id cap (stored_of b m a payload)
      (count_rows t payload.row_count (record s.session { aliases = aliases })) s.store _ refl refl

run_collector-Keeps :
    (b : Builtins) (g : Gateway) (m : Moment) (cap : CapabilityStatus) (t : Target) (c : Collector)
    (a : Adapter) (max_rows : Option ℕ) (s : State)
    → Keeps b m t c s.session.session_id s.store (run_collector b g m cap t c a max_rows s)
unfolding run_collector count_call
run_collector-Keeps b g m cap t c a max_rows s =
    keep_rows-Keeps b m cap t c a (record s { session = count_call t s.session }) _

-- Every collector stands in the catalog under its own id.
abbrev pub HasOwnIds : Gateway → Type 0
HasOwnIds g = (id : String) (c : Collector) → lookup id g.collectors ≡ some c → c.collector_id ≡ id

retrieve_from-enabled :
    (b : Builtins) (g : Gateway) (m : Moment) (ref : String) (s : State) (t : Target)
    → t.enabled ≡ true
    → (retrieve_from b g m ref s (ok t)).0
      ≡ entry_found g ref
          (Store.get b.digest_stored m.now ref s.session.session_id t.alias s.store).0
retrieve_from-enabled b g m ref s t h =
    ap
      (λ e.
        (if not e
          then (err target_disabled (some CapabilityStatus.disabled), s)
          else retrieve g ref s
              (Store.get b.digest_stored m.now ref s.session.session_id t.alias s.store)).0)
      h

module _ (b : Builtins) (g : Gateway) (m later : Moment) (a id : String) (max_rows : Option ℕ)
    (s s' : State) (r : Collected) where
  -- What reading back gives, for a target and a collector of the catalogs.
  read_back :
      (t : Target) (c : Collector)
      → HasOwnIds g
      → HasDistinctRefs s.store
      → later.now ≤ m.stamp + s.store.ttl
      → lookup a g.targets ≡ some t
      → t.enabled ≡ true
      → lookup id g.collectors ≡ some c
      → Keeps b m t c s.session.session_id s.store (ok r, s')
      → (get_evidence b g later a r.evidence_ref s').0
        ≡ ok (record { collector_id = id; evidence_ref = r.evidence_ref; stored = r.stored })
  unfolding get_evidence target_of
  read_back t c own distinct live here enabled known kept =
      let session = s.session.session_id in
      let found =
        get-put b.digest_stored m.now m.stamp later.now m.ref session t.alias c.collector_id
          r.stored s.store s'.store distinct kept.1 live in
      let e = entry b.digest_stored m.stamp session t.alias c.collector_id r.stored in
      let asked : (Store.get b.digest_stored later.now r.evidence_ref s'.session.session_id t.alias
            s'.store).0
          ≡ ok e =
        subst
          (λ x. (Store.get b.digest_stored later.now r.evidence_ref x t.alias s'.store).0 ≡ ok e)
          (sym kept.2)
          (subst (λ x. (Store.get b.digest_stored later.now x session t.alias s'.store).0 ≡ ok e)
            (sym kept.0) found) in
      let name = own id c known in
      ap (λ o. (retrieve_from b g later r.evidence_ref s' (target_or_unknown o)).0) here
      ∙ retrieve_from-enabled b g later r.evidence_ref s' t enabled
      ∙ ap (entry_found g r.evidence_ref) asked
      ∙ subst
          (λ k.
            retrieved_of r.evidence_ref r.stored (lookup k g.collectors)
            ≡ ok (record { collector_id = id; evidence_ref = r.evidence_ref; stored = r.stored }))
          (sym name)
          (ap (retrieved_of r.evidence_ref r.stored) known
            ∙ ap
                (λ k.
                  ok
                    (record { collector_id = k; evidence_ref = r.evidence_ref; stored = r.stored }))
                name)

  -- What `diagnostics.collect` returned can be read back with `diagnostics.get_evidence` in the same
  -- session, under the returned reference and for the same target: unchanged, with the id of its
  -- collector, until the entry expires. The catalogs have their entries under their own names, and
  -- the store's references are distinct.
  pub collect-get_evidence :
      HasOwnIds g
      → HasDistinctRefs s.store
      → collect b g m a id max_rows s ≡ (ok r, s')
      → later.now ≤ m.stamp + s.store.ttl
      → (get_evidence b g later a r.evidence_ref s').0
        ≡ ok (record { collector_id = id; evidence_ref = r.evidence_ref; stored = r.stored })
  unfolding collect
  collect-get_evidence own distinct h live = go (authorized b g s.session a id) refl h
    where
      go :
          (o : Result (Target × Collector × CapabilityStatus × Adapter))
          → authorized b g s.session a id ≡ o
          → collect_with b g m max_rows s o ≡ (ok r, s')
          → (get_evidence b g later a r.evidence_ref s').0
            ≡ ok (record { collector_id = id; evidence_ref = r.evidence_ref; stored = r.stored })
      go (err code status) e f = absurd (ground (arith, f))
      go (ok (t, c, cap, adapter)) e f =
          let (here, known, _, passed) =
            authorized-IsAuthorized b g s.session a id t c cap adapter e in
          let (guards, _) = authorize-IsAuthorized b g s.session t c cap passed in
          read_back t c own distinct live here (guards.0) known (
            subst (Keeps b m t c s.session.session_id s.store) f
              (run_collector-Keeps b g m cap t c adapter max_rows s))
