-- ===== src/Knowledge/Article.antt =====
-- The articles of the knowledge base, and `quality_gate` of change_documentation_knowledge/
-- knowledge.py.
use oracle_diagnostic_estack.Prelude.{
  ℕ, String, Bool, true, false, not, ◌||◌, Option, none, some, List, [], ◌∷◌, str_eq, any,
  if◌then◌else◌,
}
use oracle_diagnostic_estack.Prelude.Dict.{Dict}
use oracle_diagnostic_estack.Knowledge.State.{KbState}

pub record Scope : Type 0 where
  pub oracle_versions : List String
  pub release_update : String
  pub platform : String
  pub architecture : Dict String
  pub license_dependent : Bool

-- The dict of `dedup_key`; `scope` is what `_scope_key` reads of it.
pub record DedupKey : Type 0 where
  pub family : String
  pub rule_id : String
  pub error_codes : List String
  pub scope : Scope

pub record ManualRecommendation : Type 0 where
  pub rec_id : String
  pub action : String
  pub risk : String
  pub postcheck : String
  pub execution_status : String
  pub universal_solution : Bool

-- "article" of an article, the parts of it that the store reads
pub record Content : Type 0 where
  pub title : String
  pub article_type : String
  pub cause : String
  pub publishable_as_fact : Bool
  pub evidence_ids : List String
  pub rca_state_at_extraction : String
  pub manual_recommendations : List ManualRecommendation
  pub applies_only_within_scope : Bool
  pub review_due_utc : String
  pub supersedes : Option String

-- An article without its digest; `incident_id` is that of its sources.
pub record Article : Type 0 where
  pub kb_id : String
  pub version : ℕ
  pub incident_id : Option String
  pub proposer_ids : List String
  pub dedup_key : DedupKey
  pub content : Content

-- A candidate, as `build_kb_candidate` returns it, with the digest that it declares.
pub record Candidate : Type 0 where
  pub kb_candidate_id : String
  pub article : Article
  pub lifecycle_state : KbState
  pub content_digest : String

-- An article as its file has it.
pub record Stored : Type 0 where
  pub article : Article
  pub content_digest : String

pub data Reason : Type 0 where
  no_supporting_evidence rca_not_confirmed no_recommendation_to_curate
        workaround_presented_as_universal execution_status_not_not_executed :
      Reason

abbrev is_none : {A : Type 0} → Option A → Bool
is_none none = true
is_none (some a) = false

abbrev pub is_empty : {A : Type 0} → List A → Bool
is_empty [] = true
is_empty (x ∷ xs) = false

abbrev reason_if : Bool → Reason → List Reason → List Reason
reason_if b r rest = if b then r ∷ rest else rest

-- `quality_gate`: the reasons that block an article, none if it passes
unfoldable pub quality_gate : Article → List Reason
quality_gate a =
    reason_if (is_none a.incident_id || is_empty a.content.evidence_ids) no_supporting_evidence (
      reason_if
        (not (str_eq a.content.rca_state_at_extraction "CONFIRMED")
          || not a.content.publishable_as_fact)
        rca_not_confirmed
        (reason_if (is_empty a.content.manual_recommendations) no_recommendation_to_curate (
          reason_if
            (any (λ m. m.universal_solution) a.content.manual_recommendations
              || not a.content.applies_only_within_scope)
            workaround_presented_as_universal
            (reason_if
              (any (λ m. not (str_eq m.execution_status "NOT_EXECUTED"))
                a.content.manual_recommendations)
              execution_status_not_not_executed []))))
