-- ===== src/Knowledge/Authorization.antt =====
-- `verify_authorization` of change_documentation_knowledge/authorization.py, from what
-- `parse_authorization` makes of the external record.
use oracle_diagnostic_estack.Prelude.{
  ℕ, String, Bool, false, not, ◌||◌, Option, none, some, List, ◌==◌, str_eq,
}
use oracle_diagnostic_estack.Prelude.Dict.{contains}
use oracle_diagnostic_estack.Knowledge.State.{
  Code, e_auth_missing, e_auth_invalid, e_auth_digest_mismatch, e_auth_self_approval, Outcome,
  failed, done, unless,
}

-- The dict that `parse_authorization` returns. `version` is the number whose decimal text it is,
-- `none` for a text with a zero in front.
pub record Authorization : Type 0 where
  pub authorization_id : String
  pub artifact_id : String
  pub decision : String
  pub reviewer_id : String
  pub decision_at_utc : String
  pub artifact_digest : String
  pub version : Option ℕ
  pub review_notes_sanitized : String

-- No record, a record that is refused with a code, or the dict of one that is accepted.
pub data External : Type 0 where
  missing : External
  refused : Code → External
  parsed : Authorization → External

-- The declaration that an event holds. Its verification is always
-- STRUCTURAL_ONLY_IDENTITY_NOT_VERIFIED.
pub record Declaration : Type 0 where
  pub authorization_id : String
  pub reviewer_id : String
  pub decision : String
  pub decision_at_utc : String
  pub artifact_digest : String
  pub version : Option ℕ
  pub review_notes_sanitized : String

abbrev pub declaration_of : Authorization → Declaration
declaration_of r = record {
  authorization_id = r.authorization_id;
  reviewer_id = r.reviewer_id;
  decision = r.decision;
  decision_at_utc = r.decision_at_utc;
  artifact_digest = r.artifact_digest;
  version = r.version;
  review_notes_sanitized = r.review_notes_sanitized;
}

abbrev pub is_version : ℕ → Option ℕ → Bool
is_version v none = false
is_version v (some w) = w == v

-- `verify_authorization`, where the decision that is required is "APPROVED"
unfoldable pub verify_authorization :
    External
    → (artifact_id artifact_digest : String) → (version : ℕ) → (proposer_ids : List String)
    → Outcome Declaration
unfolding contains
verify_authorization missing id digest version proposers = failed e_auth_missing
verify_authorization (refused code) id digest version proposers = failed code
verify_authorization (parsed r) id digest version proposers =
    unless (not (str_eq r.decision "APPROVED")) e_auth_invalid (
      unless
        (not (str_eq r.artifact_id id)
          || not (str_eq r.artifact_digest digest)
          || not (is_version version r.version))
        e_auth_digest_mismatch
        (unless (contains proposers r.reviewer_id) e_auth_self_approval (done (declaration_of r))))
