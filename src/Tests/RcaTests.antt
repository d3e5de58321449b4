-- ===== src/Tests/RcaTests.antt =====
-- Runs of the engine of root causes.
use mathlib.Core.List.{Perm}
use oracle_diagnostic_estack.Prelude.{
  ℕ, String, ◌≡◌, refl, Bool, true, false, Option, none, some, List, [], ◌∷◌, map, keep, any,
  length, take, drop, All, arith,
}
use oracle_diagnostic_estack.Prelude.Int.{ℤ, pos}
use oracle_diagnostic_estack.Prelude.Dict.{is_subset}
use oracle_diagnostic_estack.Schemas.{null, str}
use oracle_diagnostic_estack.Rca.Evidence.{number, certified, NormalizedEvidence}
use oracle_diagnostic_estack.Rca.Rules.{Rule, Condition, scalar, gt, evaluate_rule, is_eligible}
use oracle_diagnostic_estack.Rca.Rules.Eligible.{evaluate_rule-eligible}
use oracle_diagnostic_estack.Rca.Hypothesis.{Candidate, candidates, generate_hypotheses}
use oracle_diagnostic_estack.Rca.Hypothesis.Ranked.{IsRanked, generate_hypotheses-IsRanked}
use oracle_diagnostic_estack.Rca.Hypothesis.Earned.{IsEarned}
use oracle_diagnostic_estack.Rca.Timeline.{
  Sanitized, Iso, Normalized, parse_timestamp, normalize_evidence, timed, groups_of, build_timeline,
}
use oracle_diagnostic_estack.Rca.Timeline.Kept.{
  flat, groups_of-perm, total_count, build_timeline-count,
}
use oracle_diagnostic_estack.Rca.Timeline.Distinct.{
  HasDistinctKeys, HasOwnKey, build_timeline-HasDistinctKeys,
}
use oracle_diagnostic_estack.Rca.Causality.{
  is_confirmed, aggregate_root_cause, RootCauseCompleteness,
}
use oracle_diagnostic_estack.Rca.Causality.Competing.{
  verdict, strongest_supported, aggregate_root_cause-verdict,
}
use oracle_diagnostic_estack.Rca.Engine.{Policy, Incident, RcaResult, run_rca}
use oracle_diagnostic_estack.Rca.Rules.Total.{IsGiven}
use oracle_diagnostic_estack.Rca.Engine.Total.{IsInRange, run_rca-IsGiven}
use oracle_diagnostic_estack.Rca.Engine.Safe.{run_rca-IsEarned, run_rca-recommended}

-- Every text is a time with an offset, and all are the same time in UTC.
abbrev iso : Iso
iso = record { offset_of = λ t. some true; to_utc = λ t. some "2024-01-01T00:00:00+00:00" }

abbrev bucket : String → ℤ
bucket t = pos 0

abbrev sample : (id source event_type : String) → Sanitized
sample id source event_type = record {
  evidence_id = id;
  domain = "oracle";
  source_id = source;
  event_type = event_type;
  timestamp = str "2024-01-01T00:00:00+00:00";
  signature_status = certified;
  canonical_signature = some "ORA-00020";
  signature_token = none;
  summary = null;
  attributes = ("sessions", number (pos 95) 0) ∷ [];
}

abbrev samples : List Sanitized
samples =
    sample "EVD-1" "SRC-a" "SYMPTOM_OBSERVED"
    ∷ sample "EVD-2" "SRC-b" "ALERT_TRIGGERED"
    ∷ sample "EVD-3" "SRC-b" "RECOVERY"
    ∷ []

abbrev many_sessions : Condition
many_sessions = record {
  domain = some "oracle";
  attribute = "sessions";
  op = some gt;
  value = scalar (number (pos 90) 0);
  critical = true;
  description = none;
}

abbrev sessions_rule : (rule_id : String) → (sources : ℕ) → Rule
sessions_rule rule_id sources = record {
  rule_id = rule_id;
  domain = "oracle";
  statement = "the sessions are exhausted";
  causal_chain = [];
  symptom_match = record { signature_any = "ORA-00020" ∷ []; event_type_any = [] };
  supporting_conditions = many_sessions ∷ [];
  contradicting_conditions = [];
  temporal_proof_condition = none;
  min_independent_sources = sources;
  manual_actions =
      record {
        action_summary = "raise the limit of sessions";
        precheck = "";
        risk = "LOW";
        postcheck = "";
        requires_change = true;
      }
      ∷ [];
}

abbrev policy : Policy
policy = record { max_hypotheses = 1; clock_skew_threshold_seconds = number (pos 5) 0 }

abbrev incident : List String → Incident
incident declared = record { id = "INC-1"; target_id = "TGT-1"; declared_evidence_refs = declared }

abbrev sample_rules : List Rule
sample_rules = sessions_rule "R-2" 3 ∷ sessions_rule "R-1" 2 ∷ []

abbrev sample_evidence : List NormalizedEvidence
sample_evidence = elim (normalize_evidence iso (number (pos 5) 0) samples) [
  | none ↦ []
  | some norm ↦ norm.evidence
]

evaluate_rule-eligible_example :
    evaluate_rule (sessions_rule "R-1" 2) sample_evidence
    ≡ evaluate_rule (sessions_rule "R-1" 2) (keep is_eligible sample_evidence)
evaluate_rule-eligible_example = evaluate_rule-eligible (sessions_rule "R-1" 2) sample_evidence

build_timeline-count_example :
    total_count (build_timeline bucket sample_evidence).events ≡ length (timed sample_evidence)
build_timeline-count_example = build_timeline-count bucket sample_evidence

groups_of-perm_example : Perm (flat (groups_of bucket sample_evidence)) (timed sample_evidence)
groups_of-perm_example = groups_of-perm bucket sample_evidence

build_timeline-HasDistinctKeys_example :
    HasDistinctKeys (build_timeline bucket sample_evidence).events
    × All (HasOwnKey bucket) (build_timeline bucket sample_evidence).events
build_timeline-HasDistinctKeys_example = build_timeline-HasDistinctKeys bucket sample_evidence

count_run : total_count (build_timeline bucket sample_evidence).events ≡ 3
unfolding build_timeline normalize_evidence
count_run = refl

abbrev is_some : {A : Type 0} → Option A → Bool
is_some none = false
is_some (some a) = true

false≢true : false ≡ true → ⊥
false≢true h = ground (arith, h)

-- the result of a run that gives one
abbrev extract : {A : Type 0} → (o : Option A) → is_some o ≡ true → A
extract none h = absurd (false≢true h)
extract (some x) h = x

unfoldable sample_result : RcaResult
unfolding run_rca
sample_result =
    extract (run_rca iso bucket policy sample_rules (incident ("EVD-1" ∷ [])) samples) refl

sample_run :
    run_rca iso bucket policy sample_rules (incident ("EVD-1" ∷ [])) samples ≡ some sample_result
unfolding run_rca sample_result
sample_run = refl

-- The rule that asks for two sources confirms its hypothesis.
confirmed_run : any is_confirmed sample_result.hypotheses ≡ true
unfolding sample_result
confirmed_run = refl

recommendation_run : length sample_result.recommendations ≡ 1
unfolding sample_result
recommendation_run = refl

run_rca-IsEarned_example :
    (norm : Normalized) × (normalize_evidence iso (number (pos 5) 0) samples ≡ some norm)
    × All
        (λ h.
          is_confirmed h ≡ true
          → (is_subset ("EVD-1" ∷ []) (map (λ i. i.evidence_id) samples) ≡ true)
            × IsEarned sample_rules norm.evidence h)
        sample_result.hypotheses
run_rca-IsEarned_example =
    run_rca-IsEarned iso bucket policy sample_rules (incident ("EVD-1" ∷ [])) samples sample_result
      sample_run

run_rca-recommended_example : any is_confirmed sample_result.hypotheses ≡ true
run_rca-recommended_example =
    run_rca-recommended iso bucket policy sample_rules (incident ("EVD-1" ∷ [])) samples
      sample_result sample_run (omega (arith, recommendation_run))

unfoldable sample_candidates : List Candidate
unfolding candidates normalize_evidence
sample_candidates = extract (candidates "INC-1" sample_rules sample_evidence) refl

candidates_run : candidates "INC-1" sample_rules sample_evidence ≡ some sample_candidates
unfolding candidates sample_candidates normalize_evidence
candidates_run = refl

generate_hypotheses-IsRanked_example :
    (ranking : List Candidate) × IsRanked ranking
    × Perm ranking sample_candidates
    × (generate_hypotheses "INC-1" sample_rules sample_evidence 1
        ≡ some (record {
          hypotheses = map (λ c. c.2) (take 1 ranking);
          truncated_rule_ids = map (λ c. c.0.rule_id) (drop 1 ranking);
        }))
generate_hypotheses-IsRanked_example =
    generate_hypotheses-IsRanked "INC-1" sample_rules sample_evidence 1 sample_candidates
      candidates_run

-- With a declared evidence that is missing, the two hypotheses are only supported.
abbrev wide : Policy
wide = record policy { max_hypotheses = 10 }

unfoldable capped_result : RcaResult
unfolding run_rca
capped_result =
    extract (run_rca iso bucket wide sample_rules (incident ("EVD-9" ∷ [])) samples) refl

unconfirmed_run : any is_confirmed capped_result.hypotheses ≡ false
unfolding capped_result
unconfirmed_run = refl

inconclusive_run : capped_result.root_cause.completeness ≡ RootCauseCompleteness.inconclusive
unfolding capped_result
inconclusive_run = refl

aggregate_root_cause-verdict_example :
    (aggregate_root_cause "INC-1" capped_result.hypotheses).completeness
    ≡ verdict (length (strongest_supported capped_result.hypotheses))
aggregate_root_cause-verdict_example =
    aggregate_root_cause-verdict "INC-1" capped_result.hypotheses unconfirmed_run

samples-IsInRange : All (IsInRange iso) samples
unfolding parse_timestamp
samples-IsInRange = ((_, refl), ((_, refl), ((_, refl), tt)))

run_rca-IsGiven_example :
    IsGiven (run_rca iso bucket policy sample_rules (incident ("EVD-1" ∷ [])) samples)
run_rca-IsGiven_example =
    run_rca-IsGiven iso bucket policy sample_rules (incident ("EVD-1" ∷ [])) samples
      ((((gt, refl), tt), tt, tt), ((((gt, refl), tt), tt, tt), tt)) samples-IsInRange
