-- ===== src/Rca/Hypothesis.antt =====
-- rca_engine/hypothesis.py: the hypotheses that the rules of a catalog give, ranked and cut.
pub mod Ranked
pub mod Earned
use Prim.Native.String.{◌++◌ as append}
use oracle_diagnostic_estack.Prelude.{
  ℕ, ◌+◌, String, Bool, true, false, not, ◌&&◌, ◌||◌, Option, none, some, List, [], ◌∷◌, leb, ltb,
  ◌==◌, take, drop, map, if◌then◌else◌,
}
use oracle_diagnostic_estack.Prelude.Sort.{sort_by}
use oracle_diagnostic_estack.Text.{str_lt, text_lt, codes}
use oracle_diagnostic_estack.Rca.Evidence.{NormalizedEvidence}
use oracle_diagnostic_estack.Rca.Rules.{Rule, Evaluation, evaluate_rule}

-- `HypothesisStatus` and `ConfidenceLevel` of rca_engine/common.py
pub data HypothesisStatus : Type 0 where
  -- `opened` is OPEN.
  opened supported weakened rejected confirmed insufficient_evidence : HypothesisStatus

pub data ConfidenceLevel : Type 0 where
  high medium low insufficient : ConfidenceLevel

pub record Hypothesis : Type 0 where
  pub hypothesis_id : String
  pub rule_id : String
  pub domain : String
  pub statement : String
  pub causal_chain : List String
  pub status : HypothesisStatus
  pub supporting_evidence_ids : List String
  pub contradicting_evidence_ids : List String
  pub unresolved_critical_contradiction : Bool
  pub missing_evidence : List String
  pub independent_source_count : ℕ
  pub temporal_proof : Bool
  pub confidence : ConfidenceLevel

abbrev pub is_empty : List String → Bool
is_empty [] = true
is_empty (k ∷ ks) = false

-- `_status_and_confidence`
unfoldable pub status_and_confidence : Evaluation → ℕ → HypothesisStatus × ConfidenceLevel
status_and_confidence e min_sources =
    if e.unresolved_critical_contradiction
    then if is_empty e.supporting_evidence_ids then (rejected, insufficient) else (weakened, low)
    else if e.temporal_proof
    then (confirmed, high)
    else if leb min_sources e.independent_source_count
    then (confirmed, high)
    else if leb 1 e.independent_source_count
    then (supported, medium)
    else (insufficient_evidence, insufficient)

-- f"HYP-{incident_id}-{rule_id}"
abbrev hypothesis_id_of : String → String → String
hypothesis_id_of incident_id rule_id = append "HYP-" (append incident_id (append "-" rule_id))

unfoldable pub hypothesis_of : (incident_id : String) → Rule → Evaluation → Hypothesis
unfolding status_and_confidence
hypothesis_of incident_id r e =
    let status = status_and_confidence e r.min_independent_sources in
    record {
      hypothesis_id = hypothesis_id_of incident_id r.rule_id;
      rule_id = r.rule_id;
      domain = r.domain;
      statement = r.statement;
      causal_chain = r.causal_chain;
      status = status.0;
      supporting_evidence_ids = e.supporting_evidence_ids;
      contradicting_evidence_ids = e.contradicting_evidence_ids;
      unresolved_critical_contradiction = e.unresolved_critical_contradiction;
      missing_evidence = e.missing_evidence;
      independent_source_count = e.independent_source_count;
      temporal_proof = e.temporal_proof;
      confidence = status.1;
    }

abbrev pub Candidate : Type 0
Candidate = Rule × Evaluation × Hypothesis

-- `candidates.append`, unless no evidence shows the symptom
abbrev pub add_candidate :
    (incident_id : String) → Rule → Evaluation → List Candidate → List Candidate
add_candidate incident_id r e rest =
    if is_empty e.symptom_evidence_ids then rest else (r, e, hypothesis_of incident_id r e) ∷ rest

abbrev pub with_evaluation :
    (incident_id : String)
    → Rule
    → Option Evaluation
    → Option (List Candidate)
    → Option (List Candidate)
with_evaluation incident_id r none rest = none
with_evaluation incident_id r (some e) none = none
with_evaluation incident_id r (some e) (some rest) = some (add_candidate incident_id r e rest)

-- the loop over the rules; `none` is RulesError
unfoldable pub candidates :
    (incident_id : String) → List Rule → List NormalizedEvidence → Option (List Candidate)
unfolding evaluate_rule hypothesis_of
candidates incident_id [] es = some []
candidates incident_id (r ∷ rs) es =
    let rest = candidates incident_id rs es in
    with_evaluation incident_id r (evaluate_rule r es) rest

-- `<` on the keys (-independent_source_count, rule_id)
abbrev pub ranks_before : Candidate → Candidate → Bool
ranks_before (r, e, h) (s, f, k) =
    ltb f.independent_source_count e.independent_source_count
    || (e.independent_source_count == f.independent_source_count && str_lt r.rule_id s.rule_id)

pub record Generated : Type 0 where
  pub hypotheses : List Hypothesis
  pub truncated_rule_ids : List String

abbrev pub cut : ℕ → List Candidate → Generated
cut most cs = record {
  hypotheses = map (λ c. c.2) (take most cs);
  truncated_rule_ids = map (λ c. c.0.rule_id) (drop most cs);
}

-- `generate_hypotheses`, with `max_hypotheses` of the policy
unfoldable pub generate_hypotheses :
    (incident_id : String)
    → List Rule
    → List NormalizedEvidence
    → (max_hypotheses : ℕ) → Option Generated
unfolding candidates sort_by text_lt
generate_hypotheses incident_id rs es most = elim (candidates incident_id rs es) [
  | none ↦ none
  | some cs ↦ some (cut most (sort_by ranks_before cs))
]
