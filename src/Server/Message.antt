-- ===== src/Server/Message.antt =====
-- mcp_gateway/server.py: the checks on a decoded line, `_measure` and `_no_dupes`, and the
-- shape of a JSON-RPC message.
use oracle_diagnostic_estack.Prelude.{
  ℕ, suc, String, Bool, true, false, not, ◌&&◌, ◌||◌, Option, none, some, [], ◌∷◌, ltb, str_eq,
  length, if◌then◌else◌,
}
use oracle_diagnostic_estack.Prelude.Dict.{contains, is_subset}
use oracle_diagnostic_estack.Text.{codes}
use oracle_diagnostic_estack.Schemas.{
  Json, null, int, str, arr, obj, Items, nil, cons, Members, end, member, member_keys,
}

abbrev pub max_json_depth : ℕ
max_json_depth = 24

abbrev pub max_json_items : ℕ
max_json_items = 2_000

-- `_measure`: the count of nodes so far, after the value; `none` is "too complex".
unfoldable mutual
  pub measure : Json → (depth budget : ℕ) → Option ℕ
  measure (arr vs) d n =
      let below = measure_items vs (suc d) (suc n) in
      if ltb max_json_depth d || ltb max_json_items (suc n) then none else below
  measure (obj ms) d n =
      let below = measure_members ms (suc d) (suc n) in
      if ltb max_json_depth d || ltb max_json_items (suc n) then none else below
  measure _ d n = if ltb max_json_depth d || ltb max_json_items (suc n) then none else some (suc n)

  pub measure_items : Items → (depth budget : ℕ) → Option ℕ
  measure_items nil d n = some n
  measure_items (cons v vs) d n = elim (measure v d n) [
    | none ↦ none
    | some m ↦ measure_items vs d m
  ]

  pub measure_members : Members → (depth budget : ℕ) → Option ℕ
  measure_members end d n = some n
  measure_members (member k v ms) d n = elim (measure v d n) [
    | none ↦ none
    | some m ↦ measure_members ms d m
  ]

-- `_no_dupes` accepts every object of the value.
unfoldable mutual
  pub no_dupes : Json → Bool
  no_dupes (arr vs) = no_dupes_items vs
  no_dupes (obj ms) = no_dupes_members ms
  no_dupes _ = true

  pub no_dupes_items : Items → Bool
  no_dupes_items nil = true
  no_dupes_items (cons v vs) = no_dupes v && no_dupes_items vs

  pub no_dupes_members : Members → Bool
  no_dupes_members end = true
  no_dupes_members (member k v ms) =
      not (contains (member_keys ms) k) && no_dupes v && no_dupes_members ms

-- `obj.get(key)`, where the keys are pairwise different
unfoldable pub get_member : String → Members → Option Json
get_member k end = none
get_member k (member j v ms) = if str_eq j k then some v else get_member k ms

-- `isinstance(v, (int, str)) and not isinstance(v, bool)`
abbrev is_id : Json → Bool
is_id (int n) = true
is_id (str s) = true
is_id _ = false

abbrev fits_id : Json → Bool
fits_id (int n) = true
fits_id (str s) = not (ltb 64 (length (codes s)))
fits_id _ = false

-- The id that the answer to a message of the wrong shape carries.
abbrev pub salvaged_id : Option Json → Json
salvaged_id none = null
salvaged_id (some v) = if is_id v then v else null

abbrev pub text_of : Option Json → Option String
text_of (some (str s)) = some s
text_of _ = none

-- `isinstance(obj.get(key, {}), dict)`
abbrev pub is_object_or_absent : Option Json → Bool
is_object_or_absent none = true
is_object_or_absent (some (obj ms)) = true
is_object_or_absent _ = false

abbrev is_version_2 : Option Json → Bool
is_version_2 (some (str s)) = str_eq s "2.0"
is_version_2 _ = false

-- `params or {}`; `none`, if there are parameters that are no object
abbrev pub params_of : Option Json → Option Members
params_of none = some end
params_of (some null) = some end
params_of (some (obj ms)) = some ms
params_of _ = none

-- What a line is: malformed, with the id to answer to; a notification; or a request.
pub data Incoming : Type 0 where
  misshapen bad_id : Json → Incoming
  bad_params : Json → Incoming
  notification : (method : String) (params : Members) → Incoming
  request : (id : Json) (method : String) (params : Members) → Incoming

abbrev pub with_params : Option Json → String → Option Members → Incoming
with_params none method none = bad_params null
with_params (some id) method none = bad_params id
with_params none method (some params) = notification method params
with_params (some id) method (some params) = request id method params

abbrev pub good_id : Option Json → Bool
good_id none = true
good_id (some v) = fits_id v

abbrev pub has_shape : Members → Bool
has_shape ms =
    is_version_2 (get_member "jsonrpc" ms)
    && is_subset (member_keys ms) ("jsonrpc" ∷ "id" ∷ "method" ∷ "params" ∷ [])

abbrev pub with_method : Members → Option Json → Option String → Incoming
with_method ms id none = misshapen (salvaged_id id)
with_method ms id (some method) =
    if not (has_shape ms)
    then misshapen (salvaged_id id)
    else if not (good_id id)
    then bad_id null
    else with_params id method (params_of (get_member "params" ms))

unfoldable pub message_of : Json → Incoming
unfolding get_member is_subset
message_of (obj ms) = with_method ms (get_member "id" ms) (text_of (get_member "method" ms))
message_of _ = misshapen null
