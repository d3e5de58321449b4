-- ===== src/Knowledge/Lifecycle.antt =====
-- change_documentation_knowledge/kb_store.py: `transition`, which moves a version of an article to
-- another state, with the human decision that it may need.
pub mod Sound
pub mod Performed
pub mod Preserved
pub mod Gated
pub mod Extended
pub mod Refined
use oracle_diagnostic_estack.Prelude.{
  ℕ, ◌+◌, ◌^◌, String, Bool, true, false, not, ◌&&◌, ◌||◌, Option, none, some, List, [], ◌∷◌, ◌++◌,
  ◌==◌, leb, any, length, map, str_eq, if◌then◌else◌,
}
use oracle_diagnostic_estack.Prelude.Dict.{lookup, insert, contains}
use oracle_diagnostic_estack.Text.{str_lt, text_lt, codes}
use oracle_diagnostic_estack.Text.Regex.{
  Regex, empty, class, seq, alt, repeat, char, literal, range, match_dollar,
}
use oracle_diagnostic_estack.Knowledge.State.{
  KbState, published, review_due, superseded, is_among, is_allowed, is_human_decision, eq_state,
  Code, e_usage, e_transition_denied, e_quality_gate, e_conflict, e_kb_not_found, e_kb_integrity,
  e_auth_invalid, Outcome, failed, done, unless,
}
use oracle_diagnostic_estack.Knowledge.Article.{Content, Article, Stored, quality_gate, is_empty}
use oracle_diagnostic_estack.Knowledge.Authorization.{External, Declaration, verify_authorization}
use oracle_diagnostic_estack.Knowledge.Store.{
  Event, VersionRecord, Entry, Manifest, versions_of, find_version, set_version, gated, open_states,
  Library, find_article, Hashes, recommendation_digest,
}

-- `_KB_ID`
abbrev kb_id_shape : Regex
kb_id_shape =
    seq (literal (codes "KB-")) (repeat 16 16 (class (λ c. range b'0' b'9' c || range b'a' b'f' c)))

-- the numbers whose decimal text `_VERSION` matches
abbrev is_version : ℕ → Bool
is_version v = leb 1 v && leb v 9999

-- `_UTC_RE`, where `is_decimal` is \d
abbrev utc_shape : (is_decimal : ℕ → Bool) → Regex
utc_shape is_decimal =
    let digits : ℕ → Regex = λ n. repeat n n (class is_decimal) in
    seq (digits 4) (
      seq (char b'-') (
        seq (digits 2) (
          seq (char b'-') (
            seq (digits 2) (
              seq (char b'T') (
                seq (digits 2) (
                  seq (char b':') (
                    seq (digits 2) (
                      seq (char b':') (
                        seq (digits 2) (
                          seq (alt empty (seq (char b'.') (repeat 1 6 (class is_decimal))))
                            (alt (char b'Z') (literal (codes "+00:00"))))))))))))))

-- `is_utc_timestamp`, where `is_iso` is whether `datetime.fromisoformat` takes the text with its Z
-- replaced
unfoldable pub is_utc_timestamp : (is_decimal : ℕ → Bool) → (is_iso : String → Bool) → String → Bool
unfolding match_dollar
is_utc_timestamp is_decimal is_iso t = match_dollar (utc_shape is_decimal) (codes t) && is_iso t

-- `load_article`
abbrev pub checked_article : Hashes → String → ℕ → VersionRecord → Option Stored → Outcome Article
checked_article h id v r none = failed e_kb_integrity
checked_article h id v r (some a) =
    unless
      (not (str_eq (h.of_article a.article) a.content_digest)
        || not (str_eq a.content_digest r.digest))
      e_kb_integrity
      (unless (not (str_eq a.article.kb_id id) || not (a.article.version == v)) e_kb_integrity
        (done a.article))

abbrev pub supersedes_itself : Content → String → Bool
supersedes_itself c id = elim c.supersedes [ none ↦ false | some k ↦ str_eq k id ]

-- `_open_conflicts`, as whether there is any
unfoldable pub has_open_conflicts : Hashes → String → ℕ → Content → Entry → Bool
has_open_conflicts h id v c [] = false
has_open_conflicts h id v c ((w, r) ∷ e) =
    (not (w == v)
      && is_among open_states r.state
      && not (str_eq r.recommendation_digest (recommendation_digest h c))
      && not (supersedes_itself c id))
    || has_open_conflicts h id v c e

-- the ids of authorizations in the events of an entry
abbrev pub ids_of_events : List Event → List String
ids_of_events [] = []
ids_of_events (x ∷ xs) = elim x.declaration [
  | none ↦ ids_of_events xs
  | some d ↦ d.authorization_id ∷ ids_of_events xs
]

unfoldable pub used_ids : Entry → List String
used_ids [] = []
used_ids ((v, r) ∷ e) = ids_of_events r.history ++ used_ids e

-- `prev and decision_at_utc < max(prev)`: an earlier decision has a greater text
unfoldable pub is_before_any : String → List Event → Bool
unfolding text_lt
is_before_any t [] = false
is_before_any t (x ∷ xs) = elim x.declaration [
  | none ↦ is_before_any t xs
  | some d ↦ str_lt t d.decision_at_utc || is_before_any t xs
]

-- the checks of an authorization against what went before
abbrev pub first_use : Entry → VersionRecord → Outcome Declaration → Outcome (Option Declaration)
first_use e r (failed code) = failed code
first_use e r (done d) =
    unless (contains (used_ids e) d.authorization_id) e_auth_invalid
      (unless (is_before_any d.decision_at_utc r.history) e_auth_invalid (done (some d)))

-- the decision that a transition needs, if it needs one
unfoldable pub decision_for :
    String → ℕ → Entry → VersionRecord → KbState → External → Outcome (Option Declaration)
unfolding verify_authorization contains used_ids is_before_any
decision_for id v e r to external =
    if is_human_decision r.state to
    then first_use e r (verify_authorization external id r.digest v r.proposer_ids)
    else done none

abbrev pub event_after :
    VersionRecord → Option KbState → KbState → String → Option Declaration → Event
event_after r from to at d = record {
  seq = length r.history + 1;
  from_state = from;
  to_state = to;
  at_utc = at;
  declaration = d;
}

abbrev pub moved : KbState → String → Option Declaration → VersionRecord → VersionRecord
moved to at d r = record r {
  state = to;
  history = r.history ++ event_after r (some r.state) to at d ∷ [];
}

-- the declaration in the event of a version that another one supersedes
abbrev for_superseded : VersionRecord → Declaration → Declaration
for_superseded r d = record d {
  artifact_digest = r.digest;
  review_notes_sanitized = "superseded by publication of a newer authorized version";
}

abbrev superseding : VersionRecord → Option Declaration → Option Declaration
superseding r none = none
superseding r (some d) = some (for_superseded r d)

-- a version that the publication of `v` supersedes: its event is from PUBLISHED, as the code has it
abbrev pub superseded_by : ℕ → String → Option Declaration → VersionRecord → VersionRecord
superseded_by v at d r = record r {
  state = superseded;
  superseded_by_version = some v;
  history = r.history ++ event_after r (some published) superseded at (superseding r d) ∷ [];
}

abbrev pub is_current : KbState → Bool
is_current s = is_among (published ∷ review_due ∷ []) s

abbrev pub supersede_one : ℕ → String → Option Declaration → ℕ → VersionRecord → VersionRecord
supersede_one v at d w r = if not (w == v) && is_current r.state then superseded_by v at d r else r

unfoldable pub supersede_others : ℕ → String → Option Declaration → Entry → Entry
supersede_others v at d [] = []
supersede_others v at d ((w, r) ∷ e) = (w, supersede_one v at d w r) ∷ supersede_others v at d e

-- the last version that is superseded
unfoldable pub last_superseded : ℕ → Entry → Option ℕ
last_superseded v [] = none
last_superseded v ((w, r) ∷ e) =
    let rest = last_superseded v e in
    elim rest [
      | none ↦ if not (w == v) && is_current r.state then some w else none
      | some u ↦ some u
    ]

pub record Moved : Type 0 where
  pub from_state : KbState
  pub to_state : KbState
  pub superseded_version : Option ℕ
  pub is_authorized : Bool

abbrev is_some : Option Declaration → Bool
is_some none = false
is_some (some d) = true

-- whether the publication of an article supersedes the other versions
abbrev pub supersedes_now : String → Article → KbState → Bool
supersedes_now id a to = eq_state to published && supersedes_itself a.content id

abbrev pub entry_after :
    String → ℕ → Entry → VersionRecord → Article → KbState → String → Option Declaration → Entry
entry_after id v e r a to at d =
    let e' = set_version v (moved to at d r) e in
    if supersedes_now id a to then supersede_others v at d e' else e'

abbrev pub result_of :
    String → ℕ → Entry → VersionRecord → Article → KbState → Option Declaration → Moved
result_of id v e r a to d = record {
  from_state = r.state;
  to_state = to;
  superseded_version = if supersedes_now id a to then last_superseded v e else none;
  is_authorized = is_some d;
}

abbrev pub with_decision :
    String
    → ℕ
    → Manifest
    → VersionRecord
    → Article
    → KbState
    → String
    → Outcome (Option Declaration)
    → Outcome (Moved × Manifest)
with_decision id v m r a to at (failed code) = failed code
with_decision id v m r a to at (done d) =
    let e = versions_of m id in
    done (result_of id v e r a to d, insert id (entry_after id v e r a to at d) m)

-- the checks of a transition to a state that is gated
abbrev pub gate_failure : Hashes → String → ℕ → Entry → Article → KbState → Option Code
gate_failure h id v e a to =
    if is_among gated to
    then if not (is_empty (quality_gate a))
      then some e_quality_gate
      else if has_open_conflicts h id v a.content e
      then some e_conflict
      else none
    else none

abbrev pub with_article :
    Hashes
    → String
    → ℕ
    → Manifest
    → VersionRecord
    → KbState
    → String
    → External
    → Outcome Article
    → Outcome (Moved × Manifest)
with_article h id v m r to at external (failed code) = failed code
with_article h id v m r to at external (done a) =
    unless (not (is_allowed r.state to)) e_transition_denied
      (elim (gate_failure h id v (versions_of m id) a to) [
        | some code ↦ failed code
        | none ↦ with_decision id v m r a to at (decision_for id v (versions_of m id) r to external)
      ])

abbrev pub with_version :
    Hashes
    → String
    → ℕ
    → Library
    → KbState
    → String
    → External
    → Option VersionRecord
    → Outcome (Moved × Manifest)
with_version h id v lib to at external none = failed e_kb_not_found
with_version h id v lib to at external (some r) =
    with_article h id v lib.manifest r to at external
      (checked_article h id v r (find_article id v lib.articles))

-- `transition`
unfoldable pub transition :
    (is_decimal : ℕ → Bool)
    → (is_iso : String → Bool) → Hashes
    → (kb_id : String) → (version : ℕ) → (to_state : KbState) → (at_utc : String) → External
    → Library
    → Outcome (Moved × Manifest)
unfolding match_dollar lookup insert find_version find_article set_version quality_gate
    has_open_conflicts decision_for supersede_others last_superseded is_utc_timestamp
transition is_decimal is_iso h id v to at external lib =
    unless (not (match_dollar kb_id_shape (codes id)) || not (is_version v)) e_usage (
      unless (not (is_utc_timestamp is_decimal is_iso at)) e_usage
        (with_version h id v lib to at external (find_version v (versions_of lib.manifest id))))
