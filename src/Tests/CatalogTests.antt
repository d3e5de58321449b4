-- ===== src/Tests/CatalogTests.antt =====
-- Runs of the capability evaluation. `str.lower` is that of ASCII here.
use oracle_diagnostic_estack.Prelude.{◌≡◌, refl, ◌↔◌, true, false, none, some, [], ◌∷◌, map}
use oracle_diagnostic_estack.Prelude.Dict.{contains}
use oracle_diagnostic_estack.Text.{Text, codes, lower_ascii}
use oracle_diagnostic_estack.Schemas.{str}
use oracle_diagnostic_estack.Versions.{oracle_19c, oracle_21c}
use oracle_diagnostic_estack.Common.{verified_fixture, supported, license_restricted}
use oracle_diagnostic_estack.Catalog.{
  Target, Collector, one_text, evaluate_capability, may_run, query, effective_versions,
}
use oracle_diagnostic_estack.Catalog.Capability.{
  FitsVersion, FitsContainer, FitsRole, Licensed, evaluate_capability-supported,
}

abbrev lower : Text → Text
lower s = map lower_ascii s

abbrev sessions : Collector
sessions = record {
  collector_id = "Q-AWR-001";
  kind = "sql_query";
  row_limit = 50;
  output_fields = [];
  query_id = some "Q-AWR-001";
  query_sha256 = some "ab";
  supported_oracle_versions = oracle_19c ∷ oracle_21c ∷ [];
  database_role_scope = some "PRIMARY";
  container_scope = "CDB_ROOT_ONLY";
  license_requirements = one_text (codes "Diagnostics Pack");
}

abbrev prod : Target
prod = record {
  alias = "prod";
  adapter = "fixture";
  enabled = true;
  oracle_version = some oracle_19c;
  role = "PRIMARY";
  container = "CDB_ROOT";
  architecture = [];
  os = [];
  release_update = none;
  license_status = ("diagnostics_pack", str "CONFIRMED") ∷ [];
  allowed_collectors = "Q-AWR-001" ∷ [];
  missing_privileges = [];
  budget = record { max_calls = 5; max_rows = 100 };
}

licensed : evaluate_capability lower prod sessions verified_fixture ≡ supported
unfolding evaluate_capability
licensed = refl

unlicensed :
    evaluate_capability lower (record prod { license_status = [] }) sessions verified_fixture
    ≡ license_restricted
unfolding evaluate_capability
unlicensed = refl

narrowed :
    effective_versions
      (query (some (codes "19c" ∷ codes "21.3" ∷ codes "19" ∷ [])))
      (some (codes "21c" ∷ []))
    ≡ some (oracle_21c ∷ [])
unfolding effective_versions
narrowed = refl

evaluate_capability-supported_example :
    (evaluate_capability lower prod sessions verified_fixture ≡ supported) ↔ (
      (true ≡ true)
      × (may_run verified_fixture ≡ true)
      × (contains ("Q-AWR-001" ∷ []) "Q-AWR-001" ≡ true)
      × FitsVersion sessions (some oracle_19c)
      × FitsContainer prod sessions
      × FitsRole prod (some "PRIMARY")
      × (contains [] "Q-AWR-001" ≡ false)
      × Licensed lower prod sessions)
evaluate_capability-supported_example =
    evaluate_capability-supported lower prod sessions verified_fixture
