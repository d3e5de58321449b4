-- ===== src/Rca/Fixture.antt =====
-- rca_engine/engine.py: `run_rca` from the decoded fixture to the result and the map of tokens, with
-- the rules that were loaded.
use oracle_diagnostic_estack.Prelude.{String, Option, none, some, List}
use oracle_diagnostic_estack.Prelude.Int.{ℤ}
use oracle_diagnostic_estack.Prelude.Dict.{Dict}
use oracle_diagnostic_estack.Schemas.{Json}
use oracle_diagnostic_estack.Rca.Rules.{Rule}
use oracle_diagnostic_estack.Rca.Timeline.{Iso, Normalized, normalize_evidence}
use oracle_diagnostic_estack.Rca.Engine.{Policy, RcaResult, run_rca}
use oracle_diagnostic_estack.Rca.Intake.{Intake, refused, crashed, taken, then_}
use oracle_diagnostic_estack.Rca.Intake.Item.{Run, validate_and_sanitize}

-- RulesError is an error as IntakeError is; the OverflowError of a time out of range is not caught.
abbrev outcome_of :
    Option Normalized → Option RcaResult → Dict String → Intake (RcaResult × Dict String)
outcome_of none o d = crashed
outcome_of (some norm) none d = refused
outcome_of (some norm) (some x) d = taken (x, d)

module _ (iso : Iso) (bucket : String → ℤ) (run : Run) where
  unfoldable pub run_fixture : Policy → List Rule → Json → Intake (RcaResult × Dict String)
  unfolding normalize_evidence run_rca validate_and_sanitize
  run_fixture policy rs fixture = then_ (validate_and_sanitize run rs fixture) (λ v.
      outcome_of (normalize_evidence iso policy.clock_skew_threshold_seconds v.evidence)
        (run_rca iso bucket policy rs v.incident v.evidence) v.token_map)
