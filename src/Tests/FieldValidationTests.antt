-- ===== src/Tests/FieldValidationTests.antt =====
-- Runs of the assessment of field validation, with ASCII digits.
use oracle_diagnostic_estack.Prelude.{ℕ, ◌≡◌, refl, ◌↔◌, true, false, Option, none, some, [], ◌∷◌}
use oracle_diagnostic_estack.Prelude.Dict.{lookup}
use oracle_diagnostic_estack.Text.{Text, is_digit, int_from}
use oracle_diagnostic_estack.Schemas.{bool}
use oracle_diagnostic_estack.Versions.{oracle_19c}
use oracle_diagnostic_estack.Catalog.{Target, Collector, one_text}
use oracle_diagnostic_estack.FieldValidation.{
  Context, Validation, Registry, Assessment, field_validated, field_validated_other_context, assess,
  Dimension, Reason,
}
use oracle_diagnostic_estack.FieldValidation.Validated.{IsValidated, assess-IsValidated}

abbrev ascii_int : Text → Option ℕ
ascii_int t = some (int_from 0 t)

abbrev lab : Context
lab = record {
  oracle_version = "19c";
  release_update = "19.20";
  container = some "CDB_ROOT";
  role = some "PRIMARY";
  rac = false;
  asm = true;
  dataguard = false;
  os_family = "LINUX";
  os_distribution = "OEL";
}

abbrev recorded : Validation
recorded = record {
  query_id = some "Q-SES-001";
  query_sha256 = "ab";
  context_id = "lab";
  change_id = some "CHG-1";
  validated_at_utc = some "2024-01-01T00:00:00Z";
  evidence_refs = "EVR-a" ∷ [];
}

abbrev registry : Registry
registry = record { contexts = ("lab", lab) ∷ []; validations = recorded ∷ [] }

abbrev sessions : Collector
sessions = record {
  collector_id = "Q-SES-001";
  kind = "sql_query";
  row_limit = 50;
  output_fields = [];
  query_id = some "Q-SES-001";
  query_sha256 = some "ab";
  supported_oracle_versions = oracle_19c ∷ [];
  database_role_scope = none;
  container_scope = "NOT_APPLICABLE";
  license_requirements = one_text [];
}

abbrev prod : Target
prod = record {
  alias = "prod";
  adapter = "fixture";
  enabled = true;
  oracle_version = some oracle_19c;
  role = "PRIMARY";
  container = "CDB_ROOT";
  architecture = ("rac", bool false) ∷ ("asm", bool true) ∷ [];
  os = [];
  release_update = some "19.21";
  license_status = [];
  allowed_collectors = [];
  missing_privileges = [];
  budget = record { max_calls = 2; max_rows = 100 };
}

validated :
    assess is_digit ascii_int registry sessions prod
    ≡ some (record {
      level = field_validated;
      reason = Reason.context_matches;
      context_id = some "lab";
      differences = [];
      not_compared = Dimension.dataguard ∷ Dimension.os ∷ [];
    })
unfolding assess
validated = refl

older_release :
    assess is_digit ascii_int registry sessions (record prod { release_update = some "19.3" })
    ≡ some (record {
      level = field_validated_other_context;
      reason = Reason.context_differs;
      context_id = some "lab";
      differences = Dimension.release_update ∷ [];
      not_compared = Dimension.dataguard ∷ Dimension.os ∷ [];
    })
unfolding assess
older_release = refl

assess-IsValidated_example :
    (a : Assessment) × (assess is_digit ascii_int registry sessions prod ≡ some a)
    × ((a.level ≡ field_validated) ↔ IsValidated is_digit ascii_int registry prod sessions)
unfolding lookup
assess-IsValidated_example =
    assess-IsValidated is_digit ascii_int registry prod sessions
      (((("Q-SES-001", refl), refl, refl, (lab, refl, refl, refl))), tt)
