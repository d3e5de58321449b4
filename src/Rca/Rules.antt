-- ===== src/Rca/Rules.antt =====
-- rca_engine/rules.py: the conditions of a rule on normalized evidence, and what a rule finds.
pub mod Eligible
pub mod Total
pub mod Grounded
use Prim.Native.String.{◌++◌ as append}
use oracle_diagnostic_estack.Prelude.{
  ℕ, ◌+◌, String, Bool, true, false, not, ◌&&◌, ◌||◌, Option, none, some, List, [], ◌∷◌, ◌++◌,
  str_eq, length, any, map, keep, if◌then◌else◌,
}
use oracle_diagnostic_estack.Prelude.Dict.{lookup, contains}
use oracle_diagnostic_estack.Rca.Common.{add_new}
use oracle_diagnostic_estack.Rca.Evidence.{
  Scalar, scalar_lt, scalar_le, scalar_eq, SignatureStatus, certified, NormalizedEvidence,
  causal_eligible_event_types,
}

-- The value of a condition, by what a comparison with a scalar can see of it: a scalar, a list (of
-- those of its elements that are scalars), or something else, such as a text.
pub data Operand : Type 0 where
  scalar : Scalar → Operand
  list : List Scalar → Operand
  other : Operand

-- the keys of `_OPS`
pub data Op : Type 0 where
  eq ne gt ge lt le is_in : Op

-- A condition. `op` is `none` if the text in the rule is no operator.
pub record Condition : Type 0 where
  pub domain : Option String
  pub attribute : String
  pub op : Option Op
  pub value : Operand
  pub critical : Bool
  pub description : Option String

pub record SymptomMatch : Type 0 where
  pub signature_any : List String
  pub event_type_any : List String

pub record Action : Type 0 where
  pub action_summary : String
  pub precheck : String
  pub risk : String
  pub postcheck : String
  pub requires_change : Bool

pub record Rule : Type 0 where
  pub rule_id : String
  pub domain : String
  pub statement : String
  pub causal_chain : List String
  pub symptom_match : SymptomMatch
  pub supporting_conditions : List Condition
  pub contradicting_conditions : List Condition
  pub temporal_proof_condition : Option Condition
  pub min_independent_sources : ℕ
  pub manual_actions : List Action

-- the functions of `_OPS`, with a TypeError as `false`
abbrev holds_scalar : Op → Scalar → Scalar → Bool
holds_scalar eq a b = scalar_eq a b
holds_scalar ne a b = not (scalar_eq a b)
holds_scalar gt a b = scalar_lt b a
holds_scalar ge a b = scalar_le b a
holds_scalar lt a b = scalar_lt a b
holds_scalar le a b = scalar_le a b
holds_scalar is_in a b = false

abbrev is_ne : Op → Bool
is_ne ne = true
is_ne _ = false

abbrev holds_list : Op → Scalar → List Scalar → Bool
holds_list is_in a bs = any (scalar_eq a) bs
holds_list op a bs = is_ne op

unfoldable pub holds : Op → Scalar → Operand → Bool
unfolding scalar_lt scalar_le scalar_eq
holds op a (scalar b) = holds_scalar op a b
holds op a (list bs) = holds_list op a bs
holds op a other = is_ne op

abbrev pub is_eligible : NormalizedEvidence → Bool
is_eligible e = contains causal_eligible_event_types e.event_type

abbrev fits_domain : Option String → NormalizedEvidence → Bool
fits_domain none e = true
fits_domain (some d) e = str_eq e.domain d

abbrev attribute_holds : Option Op → Operand → Option Scalar → Option Bool
attribute_holds op v none = some false
attribute_holds none v (some a) = none
attribute_holds (some op) v (some a) = some (holds op a v)

-- `_condition_matches`; `none` is RulesError, for an unknown operator
unfoldable pub condition_matches : NormalizedEvidence → Condition → Option Bool
unfolding holds lookup contains
condition_matches e c =
    if not (is_eligible e)
    then some false
    else if not (fits_domain c.domain e)
    then some false
    else attribute_holds c.op c.value (lookup c.attribute e.attributes)

abbrev is_among : List String → Option String → Bool
is_among ks none = false
is_among ks (some k) = contains ks k

abbrev is_certified : SignatureStatus → Bool
is_certified certified = true
is_certified _ = false

abbrev is_empty : List String → Bool
is_empty [] = true
is_empty (k ∷ ks) = false

-- `_symptom_matches`; a signature that is absent from an evidence is in no list of signatures
unfoldable pub symptom_matches : NormalizedEvidence → SymptomMatch → Bool
unfolding contains
symptom_matches e m =
    is_eligible e
    && ((is_certified e.signature_status && is_among m.signature_any e.canonical_signature)
        || (contains m.event_type_any e.event_type && is_empty m.signature_any))

-- `[e for e in evidence_items if _condition_matches(e, cond)]`
abbrev keep_if_matched :
    NormalizedEvidence
    → Option Bool
    → Option (List NormalizedEvidence)
    → Option (List NormalizedEvidence)
keep_if_matched e (some true) (some es) = some (e ∷ es)
keep_if_matched e (some false) (some es) = some es
keep_if_matched e _ _ = none

unfoldable pub matching : Condition → List NormalizedEvidence → Option (List NormalizedEvidence)
unfolding condition_matches
matching c [] = some []
matching c (e ∷ es) = let rest = matching c es in keep_if_matched e (condition_matches e c) rest

unfoldable pub add_ids : List NormalizedEvidence → List String → List String
unfolding contains
add_ids [] ids = ids
add_ids (e ∷ es) ids = add_ids es (add_new e.evidence_id ids)

unfoldable pub add_sources : List NormalizedEvidence → List String → List String
unfolding contains
add_sources [] sources = sources
add_sources (e ∷ es) sources = add_sources es (add_new e.source_id sources)

abbrev domain_text : Option String → String
domain_text none = "None"
domain_text (some d) = d

abbrev describe : Condition → String
describe c = elim c.description [
  | none ↦ append (append (domain_text c.domain) ".") c.attribute
  | some d ↦ d
]

pub record Support : Type 0 where
  pub ids : List String
  pub sources : List String
  pub missing : List String

abbrev add_support : Condition → List NormalizedEvidence → Support → Support
add_support c [] s = record s { missing = s.missing ++ describe c ∷ [] }
add_support c (e ∷ es) s = record s {
  ids = add_ids (e ∷ es) s.ids;
  sources = add_sources (e ∷ es) s.sources;
}

-- the loop over the supporting conditions
unfoldable pub support : List Condition → List NormalizedEvidence → Support → Option Support
unfolding matching add_ids add_sources
support [] es s = some s
support (c ∷ cs) es s = elim (matching c es) [
  | none ↦ none
  | some found ↦ support cs es (add_support c found s)
]

pub record Contradiction : Type 0 where
  pub ids : List String
  pub unresolved_critical : Bool

abbrev is_any : List NormalizedEvidence → Bool
is_any [] = false
is_any (e ∷ es) = true

abbrev add_contradiction : Condition → List NormalizedEvidence → Contradiction → Contradiction
add_contradiction c found x = record {
  ids = add_ids found x.ids;
  unresolved_critical = x.unresolved_critical || (is_any found && c.critical);
}

-- the loop over the contradicting conditions
unfoldable pub contradict :
    List Condition → List NormalizedEvidence → Contradiction → Option Contradiction
unfolding matching add_ids
contradict [] es x = some x
contradict (c ∷ cs) es x = elim (matching c es) [
  | none ↦ none
  | some found ↦ contradict cs es (add_contradiction c found x)
]

-- `any(_condition_matches(e, tp_cond) for e in evidence_items)`, which stops at the first match
abbrev or_later : Option Bool → Option Bool → Option Bool
or_later none later = none
or_later (some true) later = some true
or_later (some false) later = later

unfoldable pub any_matches : Condition → List NormalizedEvidence → Option Bool
unfolding condition_matches
any_matches c [] = some false
any_matches c (e ∷ es) = let rest = any_matches c es in or_later (condition_matches e c) rest

abbrev proof_of : Option Condition → List NormalizedEvidence → Option Bool
proof_of none es = some false
proof_of (some c) es = any_matches c es

pub record Evaluation : Type 0 where
  pub symptom_evidence_ids : List String
  pub supporting_evidence_ids : List String
  pub contradicting_evidence_ids : List String
  pub unresolved_critical_contradiction : Bool
  pub missing_evidence : List String
  pub temporal_proof : Bool
  pub independent_source_count : ℕ

abbrev pub no_support : Support
no_support = record { ids = []; sources = []; missing = [] }

abbrev pub no_contradiction : Contradiction
no_contradiction = record { ids = []; unresolved_critical = false }

abbrev pub symptom_ids : Rule → List NormalizedEvidence → List String
symptom_ids r es = map (λ e. e.evidence_id) (keep (λ e. symptom_matches e r.symptom_match) es)

abbrev pub evaluation_of :
    List String → Option Support → Option Contradiction → Option Bool → Option Evaluation
evaluation_of symptoms (some s) (some x) (some proof) = some (record {
  symptom_evidence_ids = symptoms;
  supporting_evidence_ids = s.ids;
  contradicting_evidence_ids = x.ids;
  unresolved_critical_contradiction = x.unresolved_critical;
  missing_evidence = s.missing;
  temporal_proof = proof;
  independent_source_count = length s.sources;
})
evaluation_of symptoms _ _ _ = none

-- `evaluate_rule`
unfoldable pub evaluate_rule : Rule → List NormalizedEvidence → Option Evaluation
unfolding symptom_matches support contradict any_matches
evaluate_rule r es =
    evaluation_of (symptom_ids r es) (support r.supporting_conditions es no_support)
      (contradict r.contradicting_conditions es no_contradiction)
      (proof_of r.temporal_proof_condition es)
