-- ===== src/Tests/KnowledgeTests.antt =====
-- Runs of the knowledge base.
use oracle_diagnostic_estack.Prelude.{
  ℕ, leb, ◌==◌, ◌&&◌, ◌||◌, String, ◌≡◌, refl, Bool, true, false, Option, none, some, List, [], ◌∷◌,
  ◌++◌,
}
use oracle_diagnostic_estack.Prelude.Any.{Any}
use oracle_diagnostic_estack.Prelude.Dict.{lookup}
use oracle_diagnostic_estack.Knowledge.State.{
  KbState, draft, pending_human_review, approved_by_human, published, Outcome, failed, done,
  e_transition_denied, e_auth_missing, e_auth_invalid,
}
use oracle_diagnostic_estack.Knowledge.Article.{Article, Candidate}
use oracle_diagnostic_estack.Knowledge.Authorization.{External, missing, parsed, Declaration}
use oracle_diagnostic_estack.Knowledge.Store.{
  Event, VersionRecord, Manifest, versions_of, find_version, Library, Hashes, added, add_candidate,
}
use oracle_diagnostic_estack.Knowledge.Lifecycle.{Moved, transition}
use oracle_diagnostic_estack.Knowledge.Lifecycle.Extended.{Extends, transition-Extends}
use oracle_diagnostic_estack.Knowledge.Lifecycle.Refined.{
  IsAbstractStep, states_of, transition-IsAbstractStep,
}
use oracle_diagnostic_estack.Knowledge.Reached.{
  IsReached, begin, add, move, IsPublication, IsReached-published,
}

abbrev digit : ℕ → Bool
digit c = leb b'0' c && leb c b'9'

abbrev word : ℕ → Bool
word c = digit c || (leb b'A' c && leb c b'Z') || (leb b'a' c && leb c b'z') || c == b'_'

abbrev takes : String → Bool
takes t = true

abbrev hashes : Hashes
hashes = record {
  of_candidate = λ c. c.kb_candidate_id;
  of_article = λ a. "d1";
  of_recommendation = λ cause recs. cause;
}

abbrev sample_id : String
sample_id = "KB-0123456789abcdef"

abbrev sample : Candidate
sample = record {
  kb_candidate_id = "KBC-1";
  article = record {
    kb_id = sample_id;
    version = 1;
    incident_id = some "INC-1";
    proposer_ids = "REV-000001" ∷ [];
    dedup_key = record {
      family = "oracle";
      rule_id = "R-1";
      error_codes = [];
      scope = record {
        oracle_versions = [];
        release_update = "UNKNOWN";
        platform = "UNKNOWN";
        architecture = [];
        license_dependent = false;
      };
    };
    content = record {
      title = "sessions";
      article_type = "KNOWN_ISSUE";
      cause = "the sessions are exhausted";
      publishable_as_fact = true;
      evidence_ids = "EVD-1" ∷ [];
      rca_state_at_extraction = "CONFIRMED";
      manual_recommendations =
          record {
            rec_id = "REC-1";
            action = "raise the limit";
            risk = "LOW";
            postcheck = "";
            execution_status = "NOT_EXECUTED";
            universal_solution = false;
          }
          ∷ [];
      applies_only_within_scope = true;
      review_due_utc = "2025-01-01T00:00:00Z";
      supersedes = none;
    };
  };
  lifecycle_state = draft;
  content_digest = "KBC-1";
}

abbrev approval : (id at : String) → External
approval id at = parsed (record {
  authorization_id = id;
  artifact_id = sample_id;
  decision = "APPROVED";
  reviewer_id = "REV-000002";
  decision_at_utc = at;
  artifact_digest = "d1";
  version = some 1;
  review_notes_sanitized = "";
})

abbrev start : Library
start = record { manifest = []; articles = [] }

abbrev on : Library → KbState → External → Outcome (Moved × Manifest)
on lib to external =
    transition digit takes hashes sample_id 1 to "2024-01-02T00:00:00Z" external lib

abbrev event : ℕ → Option KbState → KbState → String → Option Declaration → Event
event n from to at d = record {
  seq = n;
  from_state = from;
  to_state = to;
  at_utc = at;
  declaration = d;
}

abbrev declaration : (id at : String) → Option Declaration
declaration id at = some (record {
  authorization_id = id;
  reviewer_id = "REV-000002";
  decision = "APPROVED";
  decision_at_utc = at;
  artifact_digest = "d1";
  version = some 1;
  review_notes_sanitized = "";
})

abbrev record_of : KbState → List Event → VersionRecord
record_of s events = record {
  state = s;
  digest = "d1";
  recommendation_digest = "the sessions are exhausted";
  dedup_key = sample.article.dedup_key;
  title = "sessions";
  article_type = "KNOWN_ISSUE";
  review_due_utc = "2025-01-01T00:00:00Z";
  supersedes = none;
  superseded_by_version = none;
  proposer_ids = "REV-000001" ∷ [];
  origin_incident_id = some "INC-1";
  history = events;
}

abbrev library : KbState → List Event → Library
library s events = record {
  manifest = (sample_id, (1, record_of s events) ∷ []) ∷ [];
  articles = ((sample_id, 1), record { article = sample.article; content_digest = "d1" }) ∷ [];
}

abbrev time : String
time = "2024-01-02T00:00:00Z"

abbrev events_1 : List Event
events_1 = event 1 none draft "2024-01-01T00:00:00Z" none ∷ []

abbrev events_2 : List Event
events_2 = events_1 ++ event 2 (some draft) pending_human_review time none ∷ []

abbrev events_3 : List Event
events_3 =
    events_2
    ++ event 3 (some pending_human_review) approved_by_human time
        (declaration "AUTH-1" "2024-01-02T00:00:00Z")
      ∷ []

abbrev events_4 : List Event
events_4 =
    events_3
    ++ event 4 (some approved_by_human) published time (declaration "AUTH-2" "2024-01-03T00:00:00Z")
      ∷ []

abbrev lib_1 : Library
lib_1 = library draft events_1

abbrev lib_2 : Library
lib_2 = library pending_human_review events_2

abbrev lib_3 : Library
lib_3 = library approved_by_human events_3

abbrev lib_4 : Library
lib_4 = library published events_4

-- A transition that is not listed, one without the record that it needs, and one with a record that
-- was used before, are refused.
skipped_run : on lib_1 published missing ≡ failed e_transition_denied
unfolding transition
skipped_run = refl

undecided_run : on lib_2 approved_by_human missing ≡ failed e_auth_missing
unfolding transition
undecided_run = refl

reused_run : on lib_3 published (approval "AUTH-1" "2024-01-03T00:00:00Z") ≡ failed e_auth_invalid
unfolding transition
reused_run = refl

-- A later decision with a fraction of a second has a smaller text, and is refused.
fraction_run :
    on lib_3 published (approval "AUTH-2" "2024-01-02T00:00:00.5Z") ≡ failed e_auth_invalid
unfolding transition
fraction_run = refl

abbrev published_record : VersionRecord
published_record = record_of published events_4

abbrev moved_of : (from to : KbState) → Bool → Moved
moved_of from to b = record {
  from_state = from;
  to_state = to;
  superseded_version = none;
  is_authorized = b;
}

add_run :
    add_candidate word digit hashes sample "2024-01-01T00:00:00Z" start ≡ done (added 1, lib_1)
unfolding add_candidate
add_run = refl

review_run :
    on lib_1 pending_human_review missing
    ≡ done (moved_of draft pending_human_review false, lib_2.manifest)
unfolding transition
review_run = refl

approval_run :
    on lib_2 approved_by_human (approval "AUTH-1" "2024-01-02T00:00:00Z")
    ≡ done (moved_of pending_human_review approved_by_human true, lib_3.manifest)
unfolding transition
approval_run = refl

publication_run :
    on lib_3 published (approval "AUTH-2" "2024-01-03T00:00:00Z")
    ≡ done (moved_of approved_by_human published true, lib_4.manifest)
unfolding transition
publication_run = refl

IsReached-lib_1 : IsReached word digit takes hashes lib_1
IsReached-lib_1 = add sample "2024-01-01T00:00:00Z" start (added 1) lib_1 begin add_run

IsReached-lib_2 : IsReached word digit takes hashes lib_2
IsReached-lib_2 =
    move sample_id 1 pending_human_review "2024-01-02T00:00:00Z" missing lib_1
      (moved_of draft pending_human_review false) lib_2.manifest IsReached-lib_1 review_run

IsReached-lib_3 : IsReached word digit takes hashes lib_3
IsReached-lib_3 =
    move sample_id 1 approved_by_human "2024-01-02T00:00:00Z"
      (approval "AUTH-1" "2024-01-02T00:00:00Z") lib_2
      (moved_of pending_human_review approved_by_human true) lib_3.manifest IsReached-lib_2
      approval_run

IsReached-lib_4 : IsReached word digit takes hashes lib_4
IsReached-lib_4 =
    move sample_id 1 published "2024-01-02T00:00:00Z" (approval "AUTH-2" "2024-01-03T00:00:00Z")
      lib_3 (moved_of approved_by_human published true) lib_4.manifest IsReached-lib_3
      publication_run

published_run : find_version 1 (versions_of lib_4.manifest sample_id) ≡ some published_record
unfolding find_version lookup
published_run = refl

published_state_run : published_record.state ≡ published
published_state_run = refl

IsReached-published_example : Any (IsPublication published_record.digest) published_record.history
IsReached-published_example =
    IsReached-published word digit takes hashes lib_4 sample_id 1 published_record IsReached-lib_4
      published_run published_state_run

reviewed_run :
    find_version 1 (versions_of lib_3.manifest sample_id)
    ≡ some (record_of approved_by_human events_3)
unfolding find_version lookup
reviewed_run = refl

transition-Extends_example :
    (q' : VersionRecord) × (find_version 1 (versions_of lib_4.manifest sample_id) ≡ some q')
    × Extends (record_of approved_by_human events_3) q'
transition-Extends_example =
    transition-Extends digit takes hashes sample_id 1 published "2024-01-02T00:00:00Z"
      (approval "AUTH-2" "2024-01-03T00:00:00Z") lib_3 (moved_of approved_by_human published true)
      lib_4.manifest sample_id 1 (record_of approved_by_human events_3) publication_run reviewed_run

transition-IsAbstractStep_example :
    IsAbstractStep sample_id 1 published (states_of lib_3.manifest) (states_of lib_4.manifest)
transition-IsAbstractStep_example =
    transition-IsAbstractStep digit takes hashes sample_id 1 published "2024-01-02T00:00:00Z"
      (approval "AUTH-2" "2024-01-03T00:00:00Z") lib_3 (moved_of approved_by_human published true)
      lib_4.manifest publication_run
