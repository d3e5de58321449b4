-- ===== src/Tests/GatewayTests.antt =====
-- Runs of the gateway: one target with a budget of two calls, and an adapter that always returns
-- the same rows.
use oracle_diagnostic_estack.Prelude.{
  Option, ◌⊎◌, ◌+◌, ◌≡◌, refl, true, false, none, some, [], ◌∷◌, map, arith, length, eq_iff,
}
use oracle_diagnostic_estack.Prelude.Int.{pos}
use oracle_diagnostic_estack.Prelude.Dict.{lookup}
use oracle_diagnostic_estack.Text.{codes, lower_ascii, int_from, is_digit}
use oracle_diagnostic_estack.Schemas.{int, str, arr, obj, nil, cons, end, member}
use oracle_diagnostic_estack.Versions.{oracle_19c}
use oracle_diagnostic_estack.Common.{
  ErrorCode, CapabilityStatus, err, verified_fixture, raise, ok, budget_exceeded,
  evidence_not_found, supported, adapter_failed,
}
use oracle_diagnostic_estack.Catalog.{Target, Collector, one_text}
use oracle_diagnostic_estack.Adapters.{Adapter, returned, crashed}
use oracle_diagnostic_estack.Evidence.Sanitize.{same, FieldType, Policy}
use oracle_diagnostic_estack.Architecture.{Observed, compare, observed_target}
use oracle_diagnostic_estack.Architecture.View.{compare-observed_target}
use oracle_diagnostic_estack.Gateway.{Stored, Collected, Session, Gateway, State, Moment, Builtins}
use oracle_diagnostic_estack.Gateway.Collect.{authorized, collect}
use oracle_diagnostic_estack.Gateway.Counted.{collect_calls}
use oracle_diagnostic_estack.Gateway.Retrieve.{get_evidence}
use oracle_diagnostic_estack.Gateway.Roundtrip.{HasOwnIds, collect-get_evidence}
use oracle_diagnostic_estack.Gateway.Budget.{HasOwnAliases, WithinBudget, collect-WithinBudget}

abbrev builtins : Builtins
builtins = record {
  run = record {
    is_word = λ c. true;
    is_decimal = is_digit;
    mac = λ domain target value n. value;
    derive_signature_token = λ target raw. "SIG";
    to_utc = λ t. some t;
    certified_names = [];
  };
  lower = λ s. map lower_ascii s;
  isdigit = λ s. true;
  int_of = λ s. some (int_from 0 s);
  str_of = λ n. "19";
  digest_rows = λ p. "D";
  digest_stored = λ p. "D";
}

abbrev sessions : Collector
sessions = record {
  collector_id = "Q-SES-001";
  kind = "sql_query";
  row_limit = 50;
  output_fields =
      (
        "sessions",
        record {
          kind = FieldType.integer;
          policy = Policy.keep;
          least = none;
          most = none;
          values = [];
          alias_prefix = none;
        },
      )
      ∷ [];
  query_id = some "Q-SES-001";
  query_sha256 = some "ab";
  supported_oracle_versions = oracle_19c ∷ [];
  database_role_scope = none;
  container_scope = "NOT_APPLICABLE";
  license_requirements = one_text (codes "none");
}

abbrev prod : Target
prod = record {
  alias = "prod";
  adapter = "fixture";
  enabled = true;
  oracle_version = some oracle_19c;
  role = "PRIMARY";
  container = "CDB_ROOT";
  architecture = [];
  os = [];
  release_update = none;
  license_status = [];
  allowed_collectors = "Q-SES-001" ∷ [];
  missing_privileges = [];
  budget = record { max_calls = 2; max_rows = 100 };
}

abbrev fixture : Adapter
fixture = record {
  name = "fixture";
  status = verified_fixture;
  implemented_collectors = none;
  row_cap = none;
  fetch = λ target collector. returned (arr (cons (obj (member "sessions" (int (pos 7)) end)) nil));
}

abbrev gateway : Gateway
gateway = record {
  collectors = ("Q-SES-001", sessions) ∷ [];
  targets = ("prod", prod) ∷ [];
  adapters = ("fixture", fixture) ∷ [];
  max_session_calls = 200;
  max_rows = 200;
}

abbrev session : Session
session = record {
  session_id = "S1";
  aliases = [];
  calls = 0;
  target_calls = [];
  target_rows = [];
  observed_architecture = [];
}

abbrev start : State
start = record { session = session; store = record { items = []; ttl = 3600; max = 300 } }

abbrev moment : Moment
moment = record { now = 10; stamp = 11; ref = "EVR-a"; utc = "T"; epoch = pos 0 }

abbrev once : State
once = (collect builtins gateway moment "prod" "Q-SES-001" none start).1

counted :
    once.session
    ≡ record session { calls = 1; target_calls = ("prod", 1) ∷ []; target_rows = ("prod", 1) ∷ [] }
unfolding collect
counted = refl

-- A third call is refused, and changes nothing.
third_call :
    collect builtins gateway moment "prod" "Q-SES-001" none
      (collect builtins gateway moment "prod" "Q-SES-001" none once).1
    ≡ (raise budget_exceeded, (collect builtins gateway moment "prod" "Q-SES-001" none once).1)
unfolding collect
third_call = refl

-- A call counts even if the adapter crashes.
crashed_call :
    (collect builtins
      (record gateway { adapters = ("fixture", record fixture { fetch = λ t c. crashed }) ∷ [] })
      moment
      "prod"
      "Q-SES-001"
      none
      start)
    ≡ (
      raise adapter_failed,
      record start { session = record session { calls = 1; target_calls = ("prod", 1) ∷ [] } },
    )
unfolding collect
crashed_call = refl

own_aliases : HasOwnAliases gateway
unfolding lookup
own_aliases a t h = ground (arith, eq_iff "prod" a)

collect-WithinBudget_example :
    WithinBudget gateway (collect builtins gateway moment "prod" "Q-SES-001" none start).1.session
unfolding lookup
collect-WithinBudget_example =
    collect-WithinBudget gateway own_aliases builtins moment "prod" "Q-SES-001" none start
      (omega arith, λ a t h. (omega arith, omega arith))

abbrev seen : Observed
seen = record {
  rac = some true;
  asm = none;
  dataguard = some false;
  role = some "STANDBY";
  os_family = some "LINUX";
  release_update = none;
}

disagrees : length (compare seen (record prod { os = ("family", str "AIX") ∷ [] })) ≡ 2
unfolding compare
disagrees = refl

compare-observed_target_example : compare seen (observed_target prod seen) ≡ []
compare-observed_target_example = compare-observed_target seen prod

abbrev stored : Stored
stored = record {
  payload = record {
    columns = "sessions" ∷ [];
    rows = (("sessions", same (int (pos 7))) ∷ []) ∷ [];
    row_count = 1;
    limitations = [];
  };
  digest = "D";
  real = false;
  collected_at_utc = none;
}

abbrev response : Collected
response = record {
  degraded = false;
  capability_status = supported;
  evidence_ref = "EVR-a";
  stored = stored;
  limitations = [];
}

first_collect : collect builtins gateway moment "prod" "Q-SES-001" none start ≡ (ok response, once)
unfolding collect
first_collect = refl

own_ids : HasOwnIds gateway
unfolding lookup
own_ids id c h = ground (arith, eq_iff "Q-SES-001" id)

abbrev hour_later : Moment
hour_later = record moment { now = 3600 }

collect-get_evidence_example :
    (get_evidence builtins gateway hour_later "prod" "EVR-a" once).0
    ≡ ok (record { collector_id = "Q-SES-001"; evidence_ref = "EVR-a"; stored = stored })
collect-get_evidence_example =
    collect-get_evidence builtins gateway moment hour_later "prod" "Q-SES-001" none start once
      response own_ids tt first_collect (omega arith)

-- Another session does not see it.
other_session_blind :
    (get_evidence builtins gateway hour_later "prod" "EVR-a"
      (record once { session = record session { session_id = "S2" } })).0
    ≡ raise evidence_not_found
unfolding get_evidence collect
other_session_blind = refl

collect_calls_example :
    ((code : ErrorCode) × (status : Option CapabilityStatus) × (authorized builtins gateway session
          "prod" "Q-SES-001"
        ≡ err code status)
      × (collect builtins gateway moment "prod" "Q-SES-001" none start ≡ (err code status, start)))
    ⊎ ((x : Target × Collector × CapabilityStatus × Adapter) × (authorized builtins gateway session
            "prod" "Q-SES-001"
          ≡ ok x)
        × ((collect builtins gateway moment "prod" "Q-SES-001" none start).1.session.calls ≡ 0 + 1))
collect_calls_example = collect_calls builtins gateway moment "prod" "Q-SES-001" none start
