-- ===== src/FieldValidation.antt =====
-- mcp_gateway/field_validation.py: the level of field validation of a collector's certified SQL for
-- one target, from a valid registry.
-- Parameters: Python's class \d, and `int` on a text.
pub mod Validated
use oracle_diagnostic_estack.Prelude.{
  ℕ, ◌+◌, String, Bool, true, false, not, ◌&&◌, ◌||◌, Option, none, some, List, [], ◌∷◌, ◌++◌, ltb,
  ◌==◌, str_eq, length, keep, map, all, if◌then◌else◌,
}
use oracle_diagnostic_estack.Prelude.Dict.{Dict, lookup}
use oracle_diagnostic_estack.Text.{Text, codes, split}
use oracle_diagnostic_estack.Text.Regex.{Regex, seq, class, char, repeat, match_dollar}
use oracle_diagnostic_estack.Schemas.{Json, bool, str}
use oracle_diagnostic_estack.Versions.{Family, family_of, tuple_lt}
use oracle_diagnostic_estack.Catalog.{Target, Collector, family_number}
use oracle_diagnostic_estack.Architecture.{is_true, is_same_text}

pub data Dimension : Type 0 where
  oracle_version release_update container role rac asm dataguard os : Dimension

-- A context of the registry, as `_valid` lets it through, which does not look at the keys container
-- and role: `none` if there is no such key.
pub record Context : Type 0 where
  pub oracle_version : String
  pub release_update : String
  pub container : Option String
  pub role : Option String
  pub rac : Bool
  pub asm : Bool
  pub dataguard : Bool
  pub os_family : String
  pub os_distribution : String

-- A validation, of which `_valid` does not look at the keys query_id, change_id and
-- validated_at_utc.
pub record Validation : Type 0 where
  pub query_id : Option String
  pub query_sha256 : String
  pub context_id : String
  pub change_id : Option String
  pub validated_at_utc : Option String
  pub evidence_refs : List String

pub record Registry : Type 0 where
  pub contexts : Dict Context
  pub validations : List Validation

-- The registry that stands for one that cannot be read or is not valid.
abbrev pub empty_registry : Registry
empty_registry = record { contexts = []; validations = [] }

-- What a comparison found for a dimension: nothing, a difference, or no value to compare.
pub data Finding : Type 0 where
  same differs unknown : Finding

abbrev same_version : Option Family → Family → Bool
same_version none v = false
same_version (some w) v = family_number w == family_number v

abbrev find_version : Option Family → Option Family → Finding
find_version validated none = unknown
find_version validated (some v) = if same_version validated v then same else differs

-- `_ru_tuple(t_ru) < _ru_tuple(ctx["release_update"])`; the context's is well-formed
abbrev find_release_tuple : Option (List ℕ) → Option (List ℕ) → Finding
find_release_tuple validated none = unknown
find_release_tuple none (some t) = same
find_release_tuple (some v) (some t) = if tuple_lt t v then differs else same

-- The release update is compared only where the version is the same.
abbrev find_release : Finding → Finding → Finding
find_release same f = f
find_release _ f = same

-- `none` is KeyError, where the context has no such key; it is not read for an unknown target.
abbrev pub find_text : Option String → String → Option Finding
find_text validated target =
    if str_eq target "UNKNOWN"
    then some unknown
    else elim validated [ none ↦ none | some s ↦ some (if str_eq target s then same else differs) ]

abbrev bool_eq : Bool → Bool → Bool
bool_eq true b = b
bool_eq false b = not b

abbrev find_bool : Bool → Option Json → Finding
find_bool validated (some (bool b)) = if bool_eq b validated then same else differs
find_bool validated _ = unknown

abbrev is_text : String → Option Json → Bool
is_text t none = false
is_text t (some j) = is_same_text t j

abbrev find_os : Context → Option Json → Option Json → Finding
find_os ctx none distribution = unknown
find_os ctx (some family) distribution =
    if not (is_true family)
    then unknown
    else if is_same_text ctx.os_family family && is_text ctx.os_distribution distribution
    then same
    else differs

abbrev pub Findings : Type 0
Findings = List (Dimension × Finding)

abbrev pub is_differs : Finding → Bool
is_differs differs = true
is_differs _ = false

abbrev is_unknown : Finding → Bool
is_unknown unknown = true
is_unknown _ = false

-- The two lists of `_compare`, without the values they repeat.
abbrev pub differences : Findings → List Dimension
differences fs = map (λ f. f.0) (keep (λ f. is_differs f.1) fs)

abbrev pub not_compared : Findings → List Dimension
not_compared fs = map (λ f. f.0) (keep (λ f. is_unknown f.1) fs)

pub data Level : Type 0 where
  field_validated field_validated_other_context documentation_only : Level

pub data Reason : Type 0 where
  no_field_validation_recorded not_a_certified_query sql_changed : Reason
  context_matches context_differs : Reason

pub record Assessment : Type 0 where
  pub level : Level
  pub reason : Reason
  pub context_id : Option String
  pub differences : List Dimension
  pub not_compared : List Dimension

abbrev pub unassessed : Reason → Assessment
unassessed reason = record {
  level = documentation_only;
  reason = reason;
  context_id = none;
  differences = [];
  not_compared = [];
}

-- `rank < best[0]` on the two lengths
abbrev pub ranks_before : Findings → Findings → Bool
ranks_before f best =
    ltb (length (differences f)) (length (differences best))
    || (length (differences f) == length (differences best)
        && ltb (length (not_compared f)) (length (not_compared best)))

abbrev pub has_difference : Findings → Bool
has_difference f = elim (differences f) [ [] ↦ false | d ∷ ds ↦ true ]

abbrev pub assessed : Validation × Findings → Assessment
assessed (v, f) = record {
  level = if has_difference f then field_validated_other_context else field_validated;
  reason = if has_difference f then context_differs else context_matches;
  context_id = some v.context_id;
  differences = differences f;
  not_compared = not_compared f;
}

-- `query_id`, or else `collector_id`
abbrev pub query_of : Collector → String
query_of c = elim c.query_id [ none ↦ c.collector_id | some q ↦ q ]

-- `[v for v in validations if v["query_id"] == qid]`; `none` is KeyError
abbrev pub add_mine : String → Validation → Option (List Validation) → Option (List Validation)
add_mine qid v none = none
add_mine qid v (some vs) = elim v.query_id [
  | none ↦ none
  | some q ↦ some (if str_eq q qid then v ∷ vs else vs)
]

unfoldable pub mine_of : String → List Validation → Option (List Validation)
mine_of qid [] = some []
mine_of qid (v ∷ vs) = let rest = mine_of qid vs in add_mine qid v rest

abbrev pub is_some : Option String → Bool
is_some none = false
is_some (some s) = true

-- `x["change_id"] for x in current`
abbrev pub have_changes : List Validation → Bool
have_changes vs = all (λ v. is_some v.change_id) vs

-- The result with the keys that are read of the best context, and of the validations.
abbrev pub finish : Option Context → (have_ids : Bool) → Validation × Findings → Option Assessment
finish none have_ids best = none
finish (some ctx) have_ids best =
    if is_some ctx.container && is_some ctx.role && is_some best.0.validated_at_utc && have_ids
    then some (assessed best)
    else none

-- the integers of a tuple, if `int` takes all the parts
abbrev both : Option ℕ → Option (List ℕ) → Option (List ℕ)
both (some n) (some ns) = some (n ∷ ns)
both _ _ = none

module _ (is_decimal : ℕ → Bool) (int_of : Text → Option ℕ) where
  -- `_RU`
  abbrev release_pattern : Regex
  release_pattern =
      seq (repeat 1 2 (class is_decimal)) (seq (char b'.') (repeat 1 3 (class is_decimal)))

  abbrev ints : List Text → Option (List ℕ)
  ints [] = some []
  ints (t ∷ ts) = both (int_of t) (ints ts)

  -- `_ru_tuple`
  unfoldable pub release_tuple : String → Option (List ℕ)
  unfolding match_dollar split
  release_tuple text =
      if match_dollar release_pattern (codes text) then ints (split b'.' (codes text)) else none

  abbrev release_finding : Context → Option String → Finding
  release_finding ctx none = unknown
  release_finding ctx (some target) =
      find_release_tuple (release_tuple ctx.release_update) (release_tuple target)

  abbrev pub findings : Context → Target → (c r : Finding) → Findings
  findings ctx t c r =
      let version = find_version (family_of (codes ctx.oracle_version)) t.oracle_version in
      (Dimension.oracle_version, version)
      ∷ (Dimension.release_update, find_release version (release_finding ctx t.release_update))
      ∷ (Dimension.container, c)
      ∷ (Dimension.role, r)
      ∷ (Dimension.rac, find_bool ctx.rac (lookup "rac" t.architecture))
      ∷ (Dimension.asm, find_bool ctx.asm (lookup "asm" t.architecture))
      ∷ (Dimension.dataguard, find_bool ctx.dataguard (lookup "dataguard" t.architecture))
      ∷ (Dimension.os, find_os ctx (lookup "family" t.os) (lookup "distribution" t.os))
      ∷ []

  -- `_compare`, dimension by dimension in the order of the code; `none` is KeyError
  unfoldable pub compare : Context → Target → Option Findings
  unfolding family_of lookup tuple_lt is_true release_tuple
  compare ctx t = elim (find_text ctx.container t.container) [
    | none ↦ none
    | some c ↦ elim (find_text ctx.role t.role) [ none ↦ none | some r ↦ some (findings ctx t c r) ]
  ]

  -- A validation with what its context compares to; `none` is KeyError, for an unknown context, which
  -- `_valid` excludes, or a missing key
  abbrev pub compared : Registry → Target → Validation → Option (Validation × Findings)
  compared reg t v = elim (lookup v.context_id reg.contexts) [
    | none ↦ none
    | some ctx ↦ elim (compare ctx t) [ none ↦ none | some f ↦ some (v, f) ]
  ]

  -- The loop for the best context: the first of those that rank lowest.
  unfoldable pub best_from :
      Registry → Target → Validation × Findings → List Validation → Option (Validation × Findings)
  unfolding lookup compare
  best_from reg t best [] = some best
  best_from reg t best (v ∷ vs) = elim (compared reg t v) [
    | none ↦ none
    | some next ↦ best_from reg t (if ranks_before next.1 best.1 then next else best) vs
  ]

  unfoldable pub best_of : Registry → Target → List Validation → Option (Validation × Findings)
  unfolding lookup compare best_from
  best_of reg t [] = none
  best_of reg t (v ∷ vs) = elim (compared reg t v) [
    | none ↦ none
    | some first ↦ best_from reg t first vs
  ]

  -- The level from the validations of the collector's query, and those of its current SQL.
  abbrev pub assess_current : Registry → Target → List Validation → Option Assessment
  assess_current reg t [] = some (unassessed sql_changed)
  assess_current reg t (v ∷ vs) = elim (best_of reg t (v ∷ vs)) [
    | none ↦ none
    | some best ↦ finish (lookup best.0.context_id reg.contexts) (have_changes (v ∷ vs)) best
  ]

  abbrev pub assess_mine : Registry → Target → String → List Validation → Option Assessment
  assess_mine reg t sha [] = some (unassessed no_field_validation_recorded)
  assess_mine reg t sha (v ∷ vs) =
      assess_current reg t (keep (λ w. str_eq w.query_sha256 sha) (v ∷ vs))

  abbrev pub assess_query : Registry → Collector → Target → String → Option Assessment
  assess_query reg c t sha =
      if str_eq sha ""
      then some (unassessed not_a_certified_query)
      else elim (mine_of (query_of c) reg.validations) [
        | none ↦ none
        | some mine ↦ assess_mine reg t sha mine
      ]

  -- `assess`, without the lists of changes and evidence that it adds; `none` is KeyError
  unfoldable pub assess : Registry → Collector → Target → Option Assessment
  unfolding best_of mine_of lookup
  assess reg c t =
      if not (str_eq c.kind "sql_query")
      then some (unassessed not_a_certified_query)
      else elim c.query_sha256 [
        | none ↦ some (unassessed not_a_certified_query)
        | some sha ↦ assess_query reg c t sha
      ]
