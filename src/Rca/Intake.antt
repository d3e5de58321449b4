-- ===== src/Rca/Intake.antt =====
-- rca_engine/intake.py: `validate_and_sanitize`, which reads an incident and its evidence from a
-- decoded value; the two `collect_` functions of rca_engine/rules.py; and `classify_signature` and
-- `substitute_literal` of rca_engine/sanitize.py. The digests in tokens are a parameter.
pub mod Item
pub mod Clean
pub mod Valid
use Prim.Native.String.{◌++◌ as append}
use Prim.Native.String
use oracle_diagnostic_estack.Prelude.{
  ℕ, zero, suc, ◌-◌, String, Bool, true, false, not, ◌&&◌, ◌||◌, Option, none, some, List, [], ◌∷◌,
  ◌++◌, ◌==◌, any, str_eq, length, if◌then◌else◌,
}
use oracle_diagnostic_estack.Prelude.Int.{ℤ, pos, negsuc}
use oracle_diagnostic_estack.Prelude.Dict.{Dict, contains, insert, keys}
use oracle_diagnostic_estack.Text.{codes, is_space}
use oracle_diagnostic_estack.Text.Regex.{Regex, class, seq, repeat, range, one_of, match_dollar}
use oracle_diagnostic_estack.Schemas.{
  Float, nan, infinite, finite, Json, null, bool, int, float, str, arr, obj, Items, nil, cons,
  Members, end, member, find_member,
}
use oracle_diagnostic_estack.Evidence.Grammar.{certified_code}
use oracle_diagnostic_estack.Knowledge.Ids.{contains_secret_pattern}
use oracle_diagnostic_estack.Rca.Common.{add_new}
use oracle_diagnostic_estack.Rca.Evidence.{
  Scalar, SignatureStatus, certified, unrecognized_signature, insufficient_evidence,
  causal_eligible_event_types,
}
use oracle_diagnostic_estack.Rca.Rules.{Rule, Condition}
use oracle_diagnostic_estack.Rca.Sanitize.{Pattern, sanitize_text, sanitize_attributes}
use oracle_diagnostic_estack.Rca.Timeline.{Sanitized}
use oracle_diagnostic_estack.Rca.Engine.{Incident}

-- A result, an IntakeError, or a TypeError that the code does not expect.
pub data Intake (A : Type 0) : Type 0 where
  refused crashed : Intake A
  taken : A → Intake A

abbrev pub require : {A : Type 0} → Bool → Intake A → Intake A
require b rest = if b then rest else refused

abbrev pub then_ : {A B : Type 0} → Intake A → (A → Intake B) → Intake B
then_ refused f = refused
then_ crashed f = crashed
then_ (taken a) f = f a

-- `ALL_EVENT_TYPES` and `ALLOWED_DOMAINS`
abbrev pub all_event_types : List String
all_event_types = "RECOVERY" ∷ causal_eligible_event_types

abbrev pub allowed_domains : List String
allowed_domains =
    "oracle" ∷ "os" ∷ "rac" ∷ "asm" ∷ "dataguard" ∷ "multitenant" ∷ "rman" ∷ "network" ∷ "security"
    ∷ "capacity" ∷ "performance" ∷ []

-- `SAFE_IDENTIFIER_SHAPE`
abbrev pub safe_identifier_shape : Regex
safe_identifier_shape =
    let letter : ℕ → Bool = λ c. range b'A' b'Z' c || range b'a' b'z' c in
    seq (class letter)
      (repeat 0 63 (class (λ c. letter c || range b'0' b'9' c || one_of (codes "._-") c)))

-- `_CROSS_CUTTING_ATTRIBUTE_KEYS`, and the attributes of a rule's conditions
abbrev add_attributes : List Condition → List String → List String
add_attributes [] ks = ks
add_attributes (c ∷ cs) ks = add_attributes cs (add_new c.attribute ks)

abbrev add_proof : Option Condition → List String → List String
add_proof none ks = ks
add_proof (some c) ks = add_new c.attribute ks

unfoldable pub collect_allowed_attribute_keys : List Rule → List String
unfolding contains
collect_allowed_attribute_keys [] = "source_clock_offset_seconds" ∷ []
collect_allowed_attribute_keys (r ∷ rs) = add_proof r.temporal_proof_condition (
    add_attributes r.contradicting_conditions
      (add_attributes r.supporting_conditions (collect_allowed_attribute_keys rs)))

unfoldable pub collect_certified_signatures : List Rule → List String
collect_certified_signatures [] = []
collect_certified_signatures (r ∷ rs) =
    r.symptom_match.signature_any ++ collect_certified_signatures rs

-- what `not value` reads
abbrev is_zero : ℤ → Bool
is_zero (pos n) = n == 0
is_zero (negsuc n) = false

abbrev is_zero_float : Float → Bool
is_zero_float (finite m k) = is_zero m
is_zero_float f = false

abbrev pub is_truthy : Json → Bool
is_truthy null = false
is_truthy (bool b) = b
is_truthy (int i) = not (is_zero i)
is_truthy (float f) = not (is_zero_float f)
is_truthy (str s) = not (str_eq s "")
is_truthy (arr nil) = false
is_truthy (arr (cons v vs)) = true
is_truthy (obj end) = false
is_truthy (obj (member k v ms)) = true

-- `d.get(k)`, where a missing value is None
abbrev pub field : String → Members → Json
field k ms = elim (find_member k ms) [ none ↦ null | some v ↦ v ]

abbrev pub has_fields : List String → Members → Bool
has_fields [] ms = true
has_fields (k ∷ ks) ms = is_truthy (field k ms) && has_fields ks ms

-- `value in a_set_of_texts`: a list or an object has no hash
abbrev pub in_set : List String → Json → Intake Bool
in_set ks (str s) = taken (contains ks s)
in_set ks (arr vs) = crashed
in_set ks (obj ms) = crashed
in_set ks v = taken false

abbrev pub is_blank : String → Bool
is_blank s = not (any (λ c. not (is_space c)) (codes s))

-- `text.replace(raw, token)`: at each place the first part of the text, then the rest
abbrev strip_prefix : String → String → Option String
strip_prefix String.[] s = some s
strip_prefix (String.◌∷◌ c p) String.[] = none
strip_prefix (String.◌∷◌ c p) (String.◌∷◌ d s) =
    let rest = strip_prefix p s in if str_eq (String.◌∷◌ c "") (String.◌∷◌ d "") then rest else none

-- `skip` is the number of characters of the last place that are still to be passed over.
abbrev replace_from : (raw token : String) → (skip : ℕ) → String → String
replace_from raw token skip String.[] = ""
replace_from raw token (suc skip) (String.◌∷◌ c s) = replace_from raw token skip s
replace_from raw token zero (String.◌∷◌ c s) = elim (strip_prefix raw (String.◌∷◌ c s)) [
  | none ↦ String.◌∷◌ c (replace_from raw token zero s)
  | some rest ↦ append token (replace_from raw token (length (codes raw) - 1) s)
]

-- `substitute_literal`
unfoldable pub substitute_literal : Json → (raw token : String) → Json
substitute_literal (str s) raw token =
    if str_eq raw "" then str s else str (replace_from raw token zero s)
substitute_literal v raw token = v
