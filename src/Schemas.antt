-- ===== src/Schemas.antt =====
-- mcp_gateway/schemas.py: the validation of tool arguments, and mcp_gateway/gateway.py's TOOLS.
pub mod Accepted
pub mod Tools
pub mod Arguments
use oracle_diagnostic_estack.Prelude.{
  ℕ, suc, ◌+◌, ◌-◌, ◌*◌, ◌^◌, min, String, Bool, true, false, not, ◌&&◌, ◌||◌, Option, none, some,
  List, [], ◌∷◌, ltb, leb, ◌==◌, str_eq, length, any, if◌then◌else◌,
}
use oracle_diagnostic_estack.Prelude.Int.{ℤ, pos, negsuc, leb_ℤ}
use oracle_diagnostic_estack.Prelude.Dict.{contains, is_subset}
use oracle_diagnostic_estack.Text.{Text, codes}
use oracle_diagnostic_estack.Text.Regex.{Regex, full_match}

-- A float: not a number, an infinity, or the dyadic fraction mantissa / 2 ^ scale, which every
-- finite double is.
pub data Float : Type 0 where
  nan infinite : Float
  finite : (mantissa : ℤ) (scale : ℕ) → Float

-- A decoded JSON value. An object's keys are pairwise different: the decoder rejects others.
mutual
  pub data Json : Type 0 where
    null : Json
    bool : Bool → Json
    int : ℤ → Json
    float : Float → Json
    str : String → Json
    arr : Items → Json
    obj : Members → Json

  pub data Items : Type 0 where
    nil : Items
    cons : Json → Items → Items

  pub data Members : Type 0 where
    end : Members
    member : String → Json → Members → Members

abbrev pub member_keys : Members → List String
member_keys end = []
member_keys (member k v ms) = k ∷ member_keys ms

abbrev pub count_items : Items → ℕ
count_items nil = 0
count_items (cons v vs) = suc (count_items vs)

pub record StringRules : Type 0 where
  pub max_length : Option ℕ
  pub min_length : Option ℕ
  pub enum : Option (List String)
  pub pattern : Option Regex

pub record NumberRules : Type 0 where
  pub minimum : Option ℤ
  pub maximum : Option ℤ
  pub enum : Option (List ℤ)

-- A schema by its `type`, with the keywords that `validate` reads for that type.
mutual
  pub data Schema : Type 0 where
    object_of : Properties → (required : List String) → Schema
    string_of : StringRules → Schema
    integer_of number_of : NumberRules → Schema
    boolean : Schema
    array_of : (items : Schema) (max_items : ℕ) → Schema

  pub data Properties : Type 0 where
    end : Properties
    property : String → Schema → Properties → Properties

abbrev pub property_names : Properties → List String
property_names Properties.end = []
property_names (property k s ps) = k ∷ property_names ps

unfoldable pub find_property : String → Properties → Option Schema
find_property k Properties.end = none
find_property k (property j s ps) = if str_eq j k then some s else find_property k ps

abbrev pub max_arg_string : ℕ
max_arg_string = 256

-- `_CONTROL`: control characters, line separators, zero-width and bidirectional marks
unfoldable pub is_control : ℕ → Bool
is_control c =
    leb c 0x1f
    || (leb 0x7f c && leb c 0x9f)
    || c == 0x2028
    || c == 0x2029
    || (leb 0x200b c && leb c 0x200f)
    || (leb 0x202a c && leb c 0x202e)
    || (leb 0x2066 c && leb c 0x2069)
    || c == 0xfeff

abbrev or_default : Option ℕ → ℕ → ℕ
or_default none d = d
or_default (some n) d = n

abbrev in_enum : Option (List String) → String → Bool
in_enum none s = true
in_enum (some values) s = contains values s

abbrev fits_pattern : Option Regex → Text → Bool
fits_pattern none text = true
fits_pattern (some r) text = full_match r text

unfoldable pub string_ok : StringRules → String → Bool
unfolding is_control contains full_match
string_ok rules s =
    let text = codes s in
    leb (length text) (min (or_default rules.max_length max_arg_string) max_arg_string)
    && leb (or_default rules.min_length 0) (length text)
    && not (any is_control text)
    && in_enum rules.enum s
    && fits_pattern rules.pattern text

-- `lo <= v`, `v <= hi` and `v == k` for an integer, and for a finite float by cross-multiplication
abbrev pub scale_by : ℤ → ℕ → ℤ
scale_by (pos n) k = pos (n * 2 ^ k)
scale_by (negsuc n) k = negsuc (suc n * 2 ^ k - 1)

abbrev pub float_le : Float → ℤ → Bool
float_le (finite m k) v = leb_ℤ m (scale_by v k)
float_le _ v = false

abbrev pub float_ge : Float → ℤ → Bool
float_ge (finite m k) v = leb_ℤ (scale_by v k) m
float_ge _ v = false

abbrev at_least : (ℤ → Bool) → Option ℤ → Bool
at_least ge none = true
at_least ge (some lo) = ge lo

-- `minimum`, `maximum` and `enum` of a number, by its comparisons with an integer
unfoldable pub number_ok : NumberRules → (ge le : ℤ → Bool) → Bool
number_ok rules ge le =
    at_least ge rules.minimum
    && at_least le rules.maximum
    && elim rules.enum [ none ↦ true | some values ↦ any (λ k. ge k && le k) values ]

abbrev pub is_finite : Float → Bool
is_finite (finite m k) = true
is_finite _ = false

abbrev pub max_depth : ℕ
max_depth = 6

abbrev cons_valid : Option Json → Option Items → Option Items
cons_valid none rest = none
cons_valid (some v) none = none
cons_valid (some v) (some vs) = some (cons v vs)

abbrev member_valid : String → Option Json → Option Members → Option Members
member_valid k none rest = none
member_valid k (some v) none = none
member_valid k (some v) (some ms) = some (member k v ms)

abbrev as_array : Option Items → Option Json
as_array none = none
as_array (some vs) = some (arr vs)

abbrev as_object : Option Members → Option Json
as_object none = none
as_object (some ms) = some (obj ms)

abbrev int_valid : NumberRules → ℤ → Option Json
int_valid rules n = if number_ok rules (λ k. leb_ℤ k n) (λ k. leb_ℤ n k) then some (int n) else none

abbrev float_valid : NumberRules → Float → Option Json
float_valid rules x =
    if is_finite x && number_ok rules (float_ge x) (float_le x) then some (float x) else none

-- `none` stands for `GatewayError("E_ARGS_INVALID")`, the only error of `validate`.
unfoldable mutual
  unfolding string_ok number_ok is_subset find_property

  pub validate : Json → Schema → ℕ → Option Json
  validate (obj ms) (object_of props required) depth =
      let members = validate_members ms props (depth + 1) in
      if ltb max_depth depth
      then none
      else if not (is_subset (member_keys ms) (property_names props))
      then none
      else if not (is_subset required (member_keys ms))
      then none
      else as_object members
  validate (str s) (string_of rules) depth =
      if ltb max_depth depth then none else if string_ok rules s then some (str s) else none
  validate (int n) (integer_of rules) depth =
      if ltb max_depth depth then none else int_valid rules n
  validate (int n) (number_of rules) depth = if ltb max_depth depth then none else int_valid rules n
  validate (float x) (number_of rules) depth =
      if ltb max_depth depth then none else float_valid rules x
  validate (bool b) boolean depth = if ltb max_depth depth then none else some (bool b)
  validate (arr vs) (array_of items most) depth =
      let elements = validate_items vs items (depth + 1) in
      if ltb max_depth depth
      then none
      else if ltb most (count_items vs)
      then none
      else as_array elements
  validate _ _ depth = none

  pub validate_items : Items → Schema → ℕ → Option Items
  validate_items nil s depth = some nil
  validate_items (cons v vs) s depth = cons_valid (validate v s depth) (validate_items vs s depth)

  -- `props[k]` is there: undeclared keys have been refused.
  pub validate_members : Members → Properties → ℕ → Option Members
  validate_members end props depth = some end
  validate_members (member k v ms) props depth =
      let rest = validate_members ms props depth in
      elim (find_property k props) [
        | none ↦ none
        | some s ↦ member_valid k (validate v s depth) rest
      ]

-- `args.get(k)`
unfoldable pub find_member : String → Members → Option Json
find_member k end = none
find_member k (member j v ms) = if str_eq j k then some v else find_member k ms
