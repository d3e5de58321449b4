-- ===== src/Knowledge/Store.antt =====
-- change_documentation_knowledge/kb_store.py: the manifest of the knowledge base, the files of its
-- articles, and `add_candidate`. A version is a number, whose decimal text the manifest has. An
-- operation returns what it writes; `audit_strings`, which may refuse to write it, is left out.
use oracle_diagnostic_estack.Prelude.{
  ℕ, ◌+◌, max, String, Bool, true, false, not, ◌&&◌, Option, none, some, List, [], ◌∷◌, ◌++◌, ◌==◌,
  ltb, length, str_eq, if◌then◌else◌,
}
use oracle_diagnostic_estack.Prelude.Dict.{Dict, lookup, insert}
use oracle_diagnostic_estack.Knowledge.Ids.{is_safe_id}
use oracle_diagnostic_estack.Knowledge.State.{
  KbState, candidate, draft, pending_human_review, approved_by_human, published, review_due,
  is_among, e_input_invalid, e_quality_gate, e_kb_integrity, e_output_exists, Outcome, done, unless,
}
use oracle_diagnostic_estack.Knowledge.Article.{
  DedupKey, ManualRecommendation, Content, Article, Candidate, Stored,
}
use oracle_diagnostic_estack.Knowledge.Review.{
  Existing, Compared, Verdict, duplicate, conflict, review_duplicates,
}
use oracle_diagnostic_estack.Knowledge.Authorization.{Declaration}

abbrev pub max_entries : ℕ
max_entries = 2000

abbrev pub gated : List KbState
gated = pending_human_review ∷ approved_by_human ∷ published ∷ []

abbrev pub open_states : List KbState
open_states =
    candidate ∷ draft ∷ pending_human_review ∷ approved_by_human ∷ published ∷ review_due ∷ []

-- An event of a history. `declaration` is what `verify_authorization` returned for it, `none` if there
-- was nothing to verify; the source's event has its fields but "decision" and "version", which the
-- model keeps so that one can say of an event what was approved. Nothing that is modelled reads them.
pub record Event : Type 0 where
  pub seq : ℕ
  pub from_state : Option KbState
  pub to_state : KbState
  pub at_utc : String
  pub declaration : Option Declaration

pub record VersionRecord : Type 0 where
  pub state : KbState
  pub digest : String
  pub recommendation_digest : String
  pub dedup_key : DedupKey
  pub title : String
  pub article_type : String
  pub review_due_utc : String
  pub supersedes : Option String
  pub superseded_by_version : Option ℕ
  pub proposer_ids : List String
  pub origin_incident_id : Option String
  pub history : List Event

-- "versions" of an entry, and "entries" of the manifest
abbrev pub Entry : Type 0
Entry = List (ℕ × VersionRecord)

abbrev pub Manifest : Type 0
Manifest = Dict Entry

abbrev pub versions_of : Manifest → String → Entry
versions_of m id = elim (lookup id m) [ none ↦ [] | some e ↦ e ]

unfoldable pub find_version : ℕ → Entry → Option VersionRecord
find_version v [] = none
find_version v ((w, r) ∷ e) = if w == v then some r else find_version v e

unfoldable pub set_version : ℕ → VersionRecord → Entry → Entry
set_version v r [] = (v, r) ∷ []
set_version v r ((w, s) ∷ e) = if w == v then (w, r) ∷ e else (w, s) ∷ set_version v r e

abbrev existing_of : String → Entry → List Existing
existing_of id [] = []
existing_of id ((v, r) ∷ e) =
    record {
      kb_id = id;
      version = v;
      state = r.state;
      dedup_key = r.dedup_key;
      recommendation_digest = r.recommendation_digest;
    }
    ∷ existing_of id e

-- `_existing_for_review`
unfoldable pub existing_for_review : Manifest → List Existing
existing_for_review [] = []
existing_for_review ((id, e) ∷ m) = existing_of id e ++ existing_for_review m

-- `max([int(v) for v in entry["versions"]] or [0])`
abbrev pub last_version : Entry → ℕ
last_version [] = 0
last_version ((v, r) ∷ e) = max v (last_version e)

-- The manifest, and the files of articles by id and version; `none` if there is no file.
pub record Library : Type 0 where
  pub manifest : Manifest
  pub articles : List ((String × ℕ) × Stored)

unfoldable pub find_article : String → ℕ → List ((String × ℕ) × Stored) → Option Stored
find_article id v [] = none
find_article id v (((j, w), a) ∷ rest) =
    if str_eq j id && w == v then some a else find_article id v rest

pub data AddResult : Type 0 where
  duplicate_not_added : AddResult
  added_conflict_open added : (version : ℕ) → AddResult

-- The digests that are in `hashlib`, on the texts of a candidate, of an article, and of a cause with
-- its recommendations.
pub record Hashes : Type 0 where
  pub of_candidate : Candidate → String
  pub of_article : Article → String
  pub of_recommendation : String → List ManualRecommendation → String

abbrev pub recommendation_digest : Hashes → Content → String
recommendation_digest h c = h.of_recommendation c.cause c.manual_recommendations

abbrev is_some : Option Stored → Bool
is_some none = false
is_some (some a) = true

abbrev is_other : Option String → String → Bool
is_other none id = false
is_other (some k) id = not (str_eq k id)

-- the event that a record begins with
abbrev first_event : KbState → String → Event
first_event s at = record {
  seq = 1;
  from_state = none;
  to_state = s;
  at_utc = at;
  declaration = none;
}

abbrev first_record : Hashes → Candidate → Article → String → VersionRecord
first_record h c a at = record {
  state = c.lifecycle_state;
  digest = h.of_article a;
  recommendation_digest = recommendation_digest h c.article.content;
  dedup_key = c.article.dedup_key;
  title = c.article.content.title;
  article_type = c.article.content.article_type;
  review_due_utc = c.article.content.review_due_utc;
  supersedes = c.article.content.supersedes;
  superseded_by_version = none;
  proposer_ids = c.article.proposer_ids;
  origin_incident_id = c.article.incident_id;
  history = first_event c.lifecycle_state at ∷ [];
}

abbrev add_result : Verdict → ℕ → AddResult
add_result conflict v = added_conflict_open v
add_result _ v = added v

-- what is added, with the version that the candidate gets
abbrev pub with_added : Hashes → Candidate → String → Library → ℕ → Library
with_added h c at lib v =
    let id = c.article.kb_id in
    let a = record c.article { version = v } in
    record {
      manifest =
          insert id (set_version v (first_record h c a at) (versions_of lib.manifest id))
            lib.manifest;
      articles = ((id, v), record { article = a; content_digest = h.of_article a }) ∷ lib.articles;
    }

-- the number of the entries after `setdefault`
abbrev entry_count : String → Manifest → ℕ
entry_count id m = length (insert id (versions_of m id) m)

unfoldable pub add_new_version :
    Hashes → Candidate → String → Library → Verdict → Outcome (AddResult × Library)
unfolding lookup insert set_version find_article
add_new_version h c at lib verdict =
    let v = last_version (versions_of lib.manifest c.article.kb_id) + 1 in
    unless (is_other c.article.content.supersedes c.article.kb_id) e_input_invalid (
      unless (ltb max_entries (entry_count c.article.kb_id lib.manifest)) e_kb_integrity (
        unless (is_some (find_article c.article.kb_id v lib.articles)) e_output_exists
          (done (add_result verdict v, with_added h c at lib v))))

abbrev pub add_reviewed :
    Hashes → Candidate → String → Library → Verdict → Outcome (AddResult × Library)
add_reviewed h c at lib duplicate = done (duplicate_not_added, lib)
add_reviewed h c at lib verdict = add_new_version h c at lib verdict

abbrev compared_of : Hashes → Candidate → Compared
compared_of h c = record {
  dedup_key = c.article.dedup_key;
  recommendation_digest = recommendation_digest h c.article.content;
  supersedes = c.article.content.supersedes;
}

-- `add_candidate`
unfoldable pub add_candidate :
    (is_word is_decimal : ℕ → Bool)
    → Hashes
    → Candidate
    → (generated_at : String) → Library
    → Outcome (AddResult × Library)
unfolding lookup insert existing_for_review review_duplicates is_safe_id add_new_version
add_candidate is_word is_decimal h c at lib =
    unless (not (str_eq (h.of_candidate c) c.content_digest)) e_input_invalid (
      unless (not (is_among (candidate ∷ draft ∷ []) c.lifecycle_state)) e_quality_gate (
        unless (not (is_safe_id is_word is_decimal ("KB" ∷ []) c.article.kb_id)) e_input_invalid (
          add_reviewed h c at lib
            (review_duplicates (compared_of h c) (existing_for_review lib.manifest)))))
