-- ===== src/Knowledge/Review.antt =====
-- `review_duplicates` of change_documentation_knowledge/knowledge.py: how a candidate compares with
-- what the knowledge base holds.
use oracle_diagnostic_estack.Prelude.{
  ℕ, String, Bool, true, false, not, ◌&&◌, ◌||◌, Option, none, some, List, [], ◌∷◌, ltb, str_eq,
  if◌then◌else◌,
}
use oracle_diagnostic_estack.Prelude.Dict.{Dict}
use oracle_diagnostic_estack.Prelude.Sort.{sort_by}
use oracle_diagnostic_estack.Text.{str_lt, text_lt}
use oracle_diagnostic_estack.Knowledge.State.{KbState, retired, rejected, is_among}
use oracle_diagnostic_estack.Knowledge.Article.{Scope, DedupKey}

abbrev eq_texts : List String → List String → Bool
eq_texts [] [] = true
eq_texts (a ∷ more) (b ∷ bs) = str_eq a b && eq_texts more bs
eq_texts _ _ = false

abbrev eq_flag : Bool → Bool → Bool
eq_flag true b = b
eq_flag false b = not b

-- of two dicts whose keys are sorted
abbrev eq_dict : Dict String → Dict String → Bool
eq_dict [] [] = true
eq_dict ((k, a) ∷ d) ((j, b) ∷ e) = str_eq k j && str_eq a b && eq_dict d e
eq_dict _ _ = false

-- `_scope_key(a) == _scope_key(b)`
abbrev pub same_scope : Scope → Scope → Bool
same_scope a b =
    eq_texts a.oracle_versions b.oracle_versions
    && str_eq a.release_update b.release_update
    && str_eq a.platform b.platform
    && eq_dict a.architecture b.architecture
    && eq_flag a.license_dependent b.license_dependent

abbrev pub same_family : DedupKey → DedupKey → Bool
same_family a b =
    str_eq a.family b.family && str_eq a.rule_id b.rule_id && eq_texts a.error_codes b.error_codes

-- A row of `_existing_for_review`.
pub record Existing : Type 0 where
  pub kb_id : String
  pub version : ℕ
  pub state : KbState
  pub dedup_key : DedupKey
  pub recommendation_digest : String

pub data Verdict : Type 0 where
  new_entry duplicate scope_difference conflict supersession_proposed : Verdict

-- what a row of the same family makes of the verdict
abbrev pub next_verdict : (in_scope same_recommendation supersedes : Bool) → Verdict → Verdict
next_verdict false same sup new_entry = scope_difference
next_verdict false same sup v = v
next_verdict true true sup v = duplicate
next_verdict true false true duplicate = duplicate
next_verdict true false true conflict = conflict
next_verdict true false true v = supersession_proposed
next_verdict true false false duplicate = duplicate
next_verdict true false false v = conflict

-- What is compared: the candidate's key, its recommendation's digest, and what it supersedes.
pub record Compared : Type 0 where
  pub dedup_key : DedupKey
  pub recommendation_digest : String
  pub supersedes : Option String

abbrev is_id : Option String → String → Bool
is_id none id = false
is_id (some k) id = str_eq k id

-- the rows that are not passed over
abbrev pub is_compared : Compared → Existing → Bool
is_compared c e =
    not (is_among (retired ∷ rejected ∷ []) e.state) && same_family e.dedup_key c.dedup_key

abbrev pub verdict_after : Compared → Existing → Verdict → Verdict
verdict_after c e v =
    if is_compared c e
    then next_verdict (same_scope e.dedup_key.scope c.dedup_key.scope)
        (str_eq e.recommendation_digest c.recommendation_digest) (is_id c.supersedes e.kb_id) v
    else v

unfoldable pub review_from : Compared → List Existing → Verdict → Verdict
review_from c [] v = v
review_from c (e ∷ es) v = review_from c es (verdict_after c e v)

-- `<` on the keys (kb_id, int(version))
abbrev comes_before : Existing → Existing → Bool
comes_before a b = str_lt a.kb_id b.kb_id || (str_eq a.kb_id b.kb_id && ltb a.version b.version)

-- "result" of `review_duplicates`
unfoldable pub review_duplicates : Compared → List Existing → Verdict
unfolding sort_by text_lt review_from
review_duplicates c existing = review_from c (sort_by comes_before existing) new_entry
