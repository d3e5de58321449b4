-- ===== src/Rca/Sanitize.antt =====
-- rca_engine/sanitize.py: the redaction of values from outside, `deep_sanitize` and
-- `sanitize_attributes`. A decoded value has no cycles, and its keys are texts. `re.sub` of the
-- patterns, with the replacement that `sanitize_text` gives, is a parameter, and so is what Python
-- takes from its Unicode tables: \w and \d.
pub mod Limited
use Prim.Native.String
use oracle_diagnostic_estack.Prelude.{
  ℕ, zero, suc, ◌+◌, ◌-◌, String, Bool, true, false, not, ◌&&◌, ◌||◌, Option, none, some, List, [],
  ◌∷◌, ◌==◌, ltb, leb, str_eq, length, if◌then◌else◌,
}
use oracle_diagnostic_estack.Prelude.Dict.{Dict, contains}
use oracle_diagnostic_estack.Text.{codes}
use oracle_diagnostic_estack.Schemas.{
  Float, nan, infinite, finite, Json, null, bool, int, float, str, arr, obj, Items, nil, cons,
  Members, end, member, member_keys,
}
use oracle_diagnostic_estack.Evidence.Grammar.{has_structured_secret}
use oracle_diagnostic_estack.Rca.Evidence.{Scalar, truth, number}

abbrev pub max_depth : ℕ
max_depth = 6

abbrev pub max_string_len : ℕ
max_string_len = 2000

abbrev pub max_list_len : ℕ
max_list_len = 200

abbrev pub max_dict_keys : ℕ
max_dict_keys = 200

abbrev pub max_total_nodes : ℕ
max_total_nodes = 5000

-- `text[:n]`
abbrev pub prefix : ℕ → String → String
prefix zero s = ""
prefix (suc n) String.[] = ""
prefix (suc n) (String.◌∷◌ c s) = String.◌∷◌ c (prefix n s)

-- the patterns that `sanitize_text` replaces, in its order
pub data Pattern : Type 0 where
  key_value_secret bearer_token aws_access_key pem_private_key long_hex_hash bare_token_word :
      Pattern

-- `sanitize_text`
unfoldable pub sanitize_text : (sub : Pattern → String → String) → String → String
sanitize_text sub s =
    if str_eq s ""
    then s
    else sub bare_token_word (
        sub long_hex_hash
          (sub pem_private_key (sub aws_access_key (sub bearer_token (sub key_value_secret s)))))

-- `math.isfinite`, or None
abbrev pub finite_or_null : Float → Json
finite_or_null (finite m k) = float (finite m k)
finite_or_null f = null

abbrev pub count_members : Members → ℕ
count_members ms = length (member_keys ms)

-- `out[k] = v`
unfoldable pub set_member : String → Json → Members → Members
set_member k v end = member k v end
set_member k v (member j w ms) =
    if str_eq j k then member j v ms else member j w (set_member k v ms)

-- the checks at a node: the depth, and that a node is left
abbrev pub enter : (depth budget : ℕ) → Option (Json × ℕ) → Option (Json × ℕ)
enter depth budget rest = if ltb max_depth depth then none else if budget == 0 then none else rest

abbrev pub as_arr : Option (Items × ℕ) → Option (Json × ℕ)
as_arr none = none
as_arr (some (vs, b)) = some (arr vs, b)

abbrev pub as_obj : Option (Members × ℕ) → Option (Json × ℕ)
as_obj none = none
as_obj (some (ms, b)) = some (obj ms, b)

module _ (sub : Pattern → String → String) (is_word is_decimal : ℕ → Bool) where
  -- `deep_sanitize` at a depth, with the nodes that are left: the value, and the nodes that are left
  -- after it; `none` is SanitizationError. Lists have `room` more elements, and objects the members
  -- `out` so far.
  unfoldable mutual
    unfolding sanitize_text set_member has_structured_secret

    pub deep_sanitize : (depth budget : ℕ) → Json → Option (Json × ℕ)
    deep_sanitize depth budget null = enter depth budget (some (null, budget - 1))
    deep_sanitize depth budget (bool b) = enter depth budget (some (bool b, budget - 1))
    deep_sanitize depth budget (int i) = enter depth budget (some (int i, budget - 1))
    deep_sanitize depth budget (float f) = enter depth budget (some (finite_or_null f, budget - 1))
    deep_sanitize depth budget (str s) =
        enter depth budget (some (str (prefix max_string_len (sanitize_text sub s)), budget - 1))
    deep_sanitize depth budget (arr vs) =
        enter depth budget (as_arr (deep_items (suc depth) max_list_len (budget - 1) vs))
    deep_sanitize depth budget (obj ms) = enter depth budget (
        if ltb max_dict_keys (count_members ms)
        then none
        else as_obj (deep_members (suc depth) (budget - 1) end ms))

    pub deep_items : (depth room budget : ℕ) → Items → Option (Items × ℕ)
    deep_items depth room budget nil = some (nil, budget)
    deep_items depth zero budget (cons v vs) = some (nil, budget)
    deep_items depth (suc room) budget (cons v vs) = elim (deep_sanitize depth budget v) [
      | none ↦ none
      | some (w, b) ↦ elim (deep_items depth room b vs) [
        | none ↦ none
        | some (ws, c) ↦ some (cons w ws, c)
      ]
    ]

    pub deep_members : (depth budget : ℕ) → (out : Members) → Members → Option (Members × ℕ)
    deep_members depth budget out end = some (out, budget)
    deep_members depth budget out (member k v ms) =
        if has_structured_secret is_word is_decimal (codes k)
        then deep_members depth budget out ms
        else elim (deep_sanitize depth budget v) [
          | none ↦ none
          | some (w, b) ↦ deep_members depth b (set_member (prefix 200 k) w out) ms
        ]

  -- the members that `sanitize_attributes` keeps: those of an allowed key with a scalar
  abbrev pub scalar_of : Json → Option Scalar
  scalar_of (bool b) = some (truth b)
  scalar_of (int i) = some (number i 0)
  scalar_of (float (finite m k)) = some (number m k)
  scalar_of _ = none

  unfoldable pub keep_allowed : (allowed : List String) → Members → Dict Scalar
  unfolding contains
  keep_allowed allowed end = []
  keep_allowed allowed (member k v ms) =
      let rest = keep_allowed allowed ms in
      if contains allowed k
      then elim (scalar_of v) [ none ↦ rest | some x ↦ (k, x) ∷ rest ]
      else rest

  abbrev pub allowed_of : (allowed : List String) → Option (Json × ℕ) → Option (Dict Scalar)
  allowed_of allowed (some (obj ms, b)) = some (keep_allowed allowed ms)
  allowed_of allowed _ = none

  -- `sanitize_attributes`
  unfoldable pub sanitize_attributes : Json → (allowed : List String) → Option (Dict Scalar)
  unfolding deep_sanitize keep_allowed
  sanitize_attributes (obj ms) allowed =
      allowed_of allowed (deep_sanitize 0 max_total_nodes (obj ms))
  sanitize_attributes _ allowed = none
