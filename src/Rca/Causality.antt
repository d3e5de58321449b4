-- ===== src/Rca/Causality.antt =====
-- rca_engine/causality.py: the gate on missing evidence, the root cause, and recommendations.
pub mod Confirmed
pub mod Competing
use Prim.Native.String.{◌++◌ as append}
use oracle_diagnostic_estack.Prelude.{
  ℕ, ◌+◌, max, String, Bool, true, false, not, ◌&&◌, ◌||◌, Option, none, some, List, [], ◌∷◌, ◌++◌,
  ◌==◌, str_eq, length, map, keep, if◌then◌else◌,
}
use oracle_diagnostic_estack.Prelude.Dict.{contains}
use oracle_diagnostic_estack.Prelude.Sort.{sort_by}
use oracle_diagnostic_estack.Text.{str_lt, text_lt, codes}
use oracle_diagnostic_estack.Rca.Common.{as_set, sorted_set}
use oracle_diagnostic_estack.Rca.Rules.{Rule, Action}
use oracle_diagnostic_estack.Rca.Evidence.{NormalizedEvidence}
use oracle_diagnostic_estack.Rca.Hypothesis.{
  Hypothesis, HypothesisStatus, supported, ConfidenceLevel,
}

pub data EvidenceManifestCompleteness : Type 0 where
  complete incomplete_refs : EvidenceManifestCompleteness

pub record EvidenceManifest : Type 0 where
  pub declared_refs : List String
  pub present_refs : List String
  pub missing_refs : List String
  pub completeness : EvidenceManifestCompleteness

abbrev completeness_of : List String → EvidenceManifestCompleteness
completeness_of [] = complete
completeness_of (r ∷ missing) = incomplete_refs

-- `build_evidence_manifest` of rca_engine/intake.py, on the declared references and the ids that are
-- there
unfoldable pub build_evidence_manifest : (declared present : List String) → EvidenceManifest
unfolding sort_by text_lt contains as_set
build_evidence_manifest declared present =
    let missing = sorted_set (keep (λ r. not (contains present r)) declared) in
    record {
      declared_refs = sort_by str_lt declared;
      present_refs = sorted_set present;
      missing_refs = missing;
      completeness = completeness_of missing;
    }

abbrev pub is_confirmed : Hypothesis → Bool
is_confirmed h = elim h.status [ HypothesisStatus.confirmed ↦ true | _ ↦ false ]

abbrev pub is_supported : Hypothesis → Bool
is_supported h = elim h.status [ supported ↦ true | _ ↦ false ]

abbrev pub lowered : Hypothesis → Hypothesis
lowered h = record h {
  status = supported;
  missing_evidence =
      h.missing_evidence ++ "declared evidence reference(s) missing — capped below CONFIRMED" ∷ [];
  confidence = ConfidenceLevel.medium;
}

-- A confirmed hypothesis is only supported while a declared reference is missing.
abbrev pub capped : Hypothesis → Hypothesis
capped h = if is_confirmed h then lowered h else h

-- `apply_evidence_completeness_gate`
unfoldable pub apply_evidence_completeness_gate :
    EvidenceManifestCompleteness → List Hypothesis → List Hypothesis
apply_evidence_completeness_gate complete hs = hs
apply_evidence_completeness_gate incomplete_refs hs = map capped hs

pub data RootCauseCompleteness : Type 0 where
  confirmed probable inconclusive insufficient_evidence : RootCauseCompleteness

-- The sentence that gives the reason, by what it says.
pub data Reasoning : Type 0 where
  confirmed_causes : (number : ℕ) → Reasoning
  no_support : Reasoning
  strongest : (hypothesis_id : String) → Reasoning
  equally_supported : (number score : ℕ) → Reasoning

pub record RootCauseResult : Type 0 where
  pub rca_id : String
  pub completeness : RootCauseCompleteness
  pub confirmed_hypothesis_ids : List String
  pub competing_hypothesis_ids : List String
  pub reasoning : Reasoning

abbrev ids : List Hypothesis → List String
ids hs = map (λ h. h.hypothesis_id) hs

-- `max(h.independent_source_count for h in hs)`, of a list that is not empty
abbrev pub max_score : List Hypothesis → ℕ
max_score [] = 0
max_score (h ∷ hs) = max h.independent_source_count (max_score hs)

-- f"RCA-{incident_id}-001"
abbrev rca_id_of : String → String
rca_id_of incident_id = append "RCA-" (append incident_id "-001")

-- the result for those of the supported hypotheses that have the highest score
abbrev pub among_top : (rca_id : String) → (score : ℕ) → List Hypothesis → RootCauseResult
among_top rca_id score (h ∷ []) = record {
  rca_id = rca_id;
  completeness = probable;
  confirmed_hypothesis_ids = [];
  competing_hypothesis_ids = [];
  reasoning = strongest h.hypothesis_id;
}
among_top rca_id score top = record {
  rca_id = rca_id;
  completeness = inconclusive;
  confirmed_hypothesis_ids = [];
  competing_hypothesis_ids = ids top;
  reasoning = equally_supported (length top) score;
}

abbrev pub top_of : List Hypothesis → List Hypothesis
top_of hs = keep (λ h. h.independent_source_count == max_score hs) hs

abbrev pub among_supported : (rca_id : String) → List Hypothesis → RootCauseResult
among_supported rca_id [] = record {
  rca_id = rca_id;
  completeness = RootCauseCompleteness.insufficient_evidence;
  confirmed_hypothesis_ids = [];
  competing_hypothesis_ids = [];
  reasoning = no_support;
}
among_supported rca_id (h ∷ hs) = among_top rca_id (max_score (h ∷ hs)) (top_of (h ∷ hs))

abbrev pub among_confirmed : (rca_id : String) → (every found : List Hypothesis) → RootCauseResult
among_confirmed rca_id hs [] = among_supported rca_id (keep is_supported hs)
among_confirmed rca_id hs (c ∷ cs) = record {
  rca_id = rca_id;
  completeness = RootCauseCompleteness.confirmed;
  confirmed_hypothesis_ids = ids (c ∷ cs);
  competing_hypothesis_ids = [];
  reasoning = confirmed_causes (length (c ∷ cs));
}

-- `aggregate_root_cause`
unfoldable pub aggregate_root_cause : (incident_id : String) → List Hypothesis → RootCauseResult
aggregate_root_cause incident_id hs =
    among_confirmed (rca_id_of incident_id) hs (keep is_confirmed hs)

-- A recommendation, with the number in its id. Its execution status is always NOT_EXECUTED.
pub record Recommendation : Type 0 where
  pub seq : ℕ
  pub linked_to : String
  pub action : Action

abbrev number_from : String → ℕ → List Action → List Recommendation
number_from rca_id n [] = []
number_from rca_id n (a ∷ rest) =
    record { seq = n; linked_to = rca_id; action = a } ∷ number_from rca_id (n + 1) rest

-- `rules_by_id.get(rule_id, {}).get("manual_actions", [])`; rule ids are pairwise different
unfoldable pub actions_of : List Rule → String → List Action
actions_of [] id = []
actions_of (r ∷ rs) id = if str_eq r.rule_id id then r.manual_actions else actions_of rs id

unfoldable pub actions_for : List Rule → List String → List Hypothesis → List Action
unfolding actions_of contains
actions_for rs chosen [] = []
actions_for rs chosen (h ∷ hs) =
    let rest = actions_for rs chosen hs in
    if contains chosen h.hypothesis_id then actions_of rs h.rule_id ++ rest else rest

abbrev pub recommended :
    RootCauseCompleteness → (rca_id : String) → List Action → List Recommendation
recommended RootCauseCompleteness.confirmed rca_id actions = number_from rca_id 1 actions
recommended _ rca_id actions = []

-- `build_recommendations`
unfoldable pub build_recommendations :
    List Rule → List Hypothesis → RootCauseResult → List Recommendation
unfolding actions_for
build_recommendations rs hs result =
    recommended result.completeness result.rca_id
      (actions_for rs result.confirmed_hypothesis_ids hs)

-- `evidence_by_id.get(eid)`, where ids are pairwise different
unfoldable pub evidence_by_id : List NormalizedEvidence → String → Option NormalizedEvidence
evidence_by_id [] id = none
evidence_by_id (e ∷ es) id = if str_eq e.evidence_id id then some e else evidence_by_id es id

abbrev domains_of : List NormalizedEvidence → List String → List String
domains_of es [] = []
domains_of es (id ∷ rest) = elim (evidence_by_id es id) [
  | none ↦ domains_of es rest
  | some e ↦ e.domain ∷ domains_of es rest
]

unfoldable pub domains_involved : List NormalizedEvidence → List Hypothesis → List String
unfolding evidence_by_id
domains_involved es [] = []
domains_involved es (h ∷ hs) =
    domains_of es (h.supporting_evidence_ids ++ h.contradicting_evidence_ids)
    ++ h.domain ∷ domains_involved es hs

-- `cross_domain_domains_involved`
unfoldable pub cross_domain_domains_involved :
    List Hypothesis → List NormalizedEvidence → List String
unfolding domains_involved sort_by text_lt contains as_set
cross_domain_domains_involved hs es = sorted_set (domains_involved es hs)
