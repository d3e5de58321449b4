-- ===== src/Rca/Engine.antt =====
-- rca_engine/engine.py: an analysis, from sanitized evidence to a result. The versions and the time
-- of the run, which nothing reads, are left out of the result.
pub mod Safe
pub mod Total
use oracle_diagnostic_estack.Prelude.{
  ℕ, String, Bool, true, false, Option, none, some, List, [], ◌∷◌, ◌++◌, length, map, if◌then◌else◌,
}
use oracle_diagnostic_estack.Prelude.Int.{ℤ}
use oracle_diagnostic_estack.Text.{text_lt, str_lt}
use oracle_diagnostic_estack.Rca.Evidence.{Scalar, NormalizedEvidence}
use oracle_diagnostic_estack.Rca.Rules.{Rule}
use oracle_diagnostic_estack.Rca.Hypothesis.{Hypothesis, Generated, generate_hypotheses}
use oracle_diagnostic_estack.Rca.Timeline.{
  Sanitized, Iso, Normalized, ValidationIssue, normalize_evidence, Timeline, build_timeline,
}
use oracle_diagnostic_estack.Rca.Causality.{
  EvidenceManifest, EvidenceManifestCompleteness, complete, incomplete_refs,
  build_evidence_manifest, apply_evidence_completeness_gate, RootCauseResult, aggregate_root_cause,
  Recommendation, build_recommendations, cross_domain_domains_involved,
}

-- `policy`, with the defaults filled in
pub record Policy : Type 0 where
  pub max_hypotheses : ℕ
  pub clock_skew_threshold_seconds : Scalar

-- The incident as `validate_and_sanitize` returns it.
pub record Incident : Type 0 where
  pub id : String
  pub target_id : String
  pub declared_evidence_refs : List String

pub data Limitation : Type 0 where
  truncated : (rule_ids : List String) (most : ℕ) → Limitation
  excluded_items : (number : ℕ) → Limitation
  incomplete_manifest : Limitation
  degraded_timeline : Limitation
  synthetic : Limitation

pub record RcaResult : Type 0 where
  pub incident_id : String
  pub target_id : String
  pub analysis_origin : Option String
  pub timeline : Timeline
  pub evidence_manifest : EvidenceManifest
  pub hypotheses : List Hypothesis
  pub root_cause : RootCauseResult
  pub recommendations : List Recommendation
  pub cross_domain_domains_involved : List String
  pub validation_issues : List ValidationIssue
  pub limitations : List Limitation

-- `max(valid_timestamps)`; `none` is "UNKNOWN"
abbrev later_of : Option String → Option String → Option String
later_of none u = u
later_of (some t) none = some t
later_of (some t) (some u) = some (if str_lt t u then u else t)

unfoldable pub analysis_origin_of : List NormalizedEvidence → Option String
unfolding text_lt
analysis_origin_of [] = none
analysis_origin_of (e ∷ es) = later_of e.timestamp_utc (analysis_origin_of es)

abbrev of_truncated : List String → ℕ → List Limitation
of_truncated [] most = []
of_truncated (r ∷ rs) most = truncated (r ∷ rs) most ∷ []

abbrev of_issues : List ValidationIssue → List Limitation
of_issues [] = []
of_issues (i ∷ rest) = excluded_items (length (i ∷ rest)) ∷ []

abbrev of_manifest : EvidenceManifestCompleteness → List Limitation
of_manifest complete = []
of_manifest incomplete_refs = incomplete_manifest ∷ []

abbrev of_timeline : Bool → List Limitation
of_timeline true = degraded_timeline ∷ []
of_timeline false = []

abbrev pub ids_of : List Sanitized → List String
ids_of raw = map (λ i. i.evidence_id) raw

module _ (iso : Iso) (bucket : String → ℤ) where
  abbrev pub result_of :
      Policy → List Rule → Incident → Normalized → EvidenceManifest → Generated → RcaResult
  result_of policy rs incident norm manifest gen =
      let hs = apply_evidence_completeness_gate manifest.completeness gen.hypotheses in
      let root_cause = aggregate_root_cause incident.id hs in
      let timeline = build_timeline bucket norm.evidence in
      record {
        incident_id = incident.id;
        target_id = incident.target_id;
        analysis_origin = analysis_origin_of norm.evidence;
        timeline = timeline;
        evidence_manifest = manifest;
        hypotheses = hs;
        root_cause = root_cause;
        recommendations = build_recommendations rs hs root_cause;
        cross_domain_domains_involved = cross_domain_domains_involved hs norm.evidence;
        validation_issues = norm.issues;
        limitations =
            of_truncated gen.truncated_rule_ids policy.max_hypotheses
            ++ of_issues norm.issues
            ++ of_manifest manifest.completeness
            ++ of_timeline timeline.degraded
            ++ synthetic ∷ [];
      }

  -- the rest, from normalized evidence on
  abbrev pub run_on :
      Policy → List Rule → Incident → (raw : List Sanitized) → Option Normalized → Option RcaResult
  run_on policy rs incident raw none = none
  run_on policy rs incident raw (some norm) =
      let manifest = build_evidence_manifest incident.declared_evidence_refs (ids_of raw) in
      elim (generate_hypotheses incident.id rs norm.evidence policy.max_hypotheses) [
        | none ↦ none
        | some gen ↦ some (result_of policy rs incident norm manifest gen)
      ]

  -- `run_rca` after `validate_and_sanitize`; `none` is RulesError or OverflowError
  unfoldable pub run_rca : Policy → List Rule → Incident → List Sanitized → Option RcaResult
  unfolding normalize_evidence build_timeline build_evidence_manifest generate_hypotheses
      apply_evidence_completeness_gate aggregate_root_cause build_recommendations
      cross_domain_domains_involved analysis_origin_of
  run_rca policy rs incident raw =
      run_on policy rs incident raw (normalize_evidence iso policy.clock_skew_threshold_seconds raw)
