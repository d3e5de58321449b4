-- ===== src/Schemas/Tools.antt =====
-- mcp_gateway/gateway.py: the tools and their argument schemas (`TOOLS`, without descriptions).
use oracle_diagnostic_estack.Prelude.{
  ℕ, String, Bool, ◌||◌, Option, none, some, List, [], ◌∷◌, ◌==◌, str_eq, if◌then◌else◌,
}
use oracle_diagnostic_estack.Prelude.Int.{ℤ, pos}
use oracle_diagnostic_estack.Text.{codes}
use oracle_diagnostic_estack.Text.Regex.{Regex, class, seq, repeat, literal, range, one_of}
use oracle_diagnostic_estack.Schemas.{
  Json, int, str, arr, Items, nil, cons, Members, Schema, object_of, string_of, integer_of,
  array_of, Properties, property, StringRules, NumberRules, find_member,
}

abbrev pub lower_letter : ℕ → Bool
lower_letter = range b'a' b'z'

abbrev letter : ℕ → Bool
letter c = range b'a' b'z' c || range b'A' b'Z' c

abbrev digit : ℕ → Bool
digit = range b'0' b'9'

-- [a-z][a-z0-9-]{2,40}
abbrev pub alias_pattern : Regex
alias_pattern =
    seq (class lower_letter) (repeat 2 40 (class (λ c. lower_letter c || digit c || c == b'-')))

-- [A-Za-z][A-Za-z0-9_.-]{2,64}
abbrev pub collector_pattern : Regex
collector_pattern =
    seq (class letter)
      (repeat 2 64 (class (λ c. letter c || digit c || one_of (b'_' ∷ b'.' ∷ b'-' ∷ []) c)))

-- EVR-[0-9a-f]{24}
abbrev pub ref_pattern : Regex
ref_pattern =
    seq (literal (codes "EVR-")) (repeat 24 24 (class (λ c. digit c || range b'a' b'f' c)))

abbrev pub text_rules : ℕ → Regex → StringRules
text_rules most r = record {
  max_length = some most;
  min_length = none;
  enum = none;
  pattern = some r;
}

abbrev pub collector_id_schema : Schema
collector_id_schema = string_of (text_rules 64 collector_pattern)

abbrev pub target_alias_schema : Schema
target_alias_schema = string_of (text_rules 41 alias_pattern)

abbrev pub evidence_ref_schema : Schema
evidence_ref_schema = string_of (text_rules 28 ref_pattern)

abbrev pub max_rows_rules : NumberRules
max_rows_rules = record { minimum = some (pos 1); maximum = some (pos 200); enum = none }

pub data Tool : Type 0 where
  list_capabilities describe_collector collect get_evidence analyze_incident : Tool

-- `TOOLS.get(name)`
unfoldable pub find_tool : String → Option Tool
find_tool name =
    if str_eq name "diagnostics.list_capabilities"
    then some list_capabilities
    else if str_eq name "diagnostics.describe_collector"
    then some describe_collector
    else if str_eq name "diagnostics.collect"
    then some collect
    else if str_eq name "diagnostics.get_evidence"
    then some get_evidence
    else if str_eq name "diagnostics.analyze_incident"
    then some analyze_incident
    else none

abbrev pub properties : Tool → Properties
properties list_capabilities = Properties.end
properties describe_collector = property "collector_id" collector_id_schema Properties.end
properties collect = property "collector_id" collector_id_schema (
    property "target_alias" target_alias_schema
      (property "max_rows" (integer_of max_rows_rules) Properties.end))
properties get_evidence =
    property "evidence_ref" evidence_ref_schema
      (property "target_alias" target_alias_schema Properties.end)
properties analyze_incident =
    property "target_alias" target_alias_schema
      (property "evidence_refs" (array_of evidence_ref_schema 10) Properties.end)

abbrev pub required : Tool → List String
required list_capabilities = []
required describe_collector = "collector_id" ∷ []
required collect = "collector_id" ∷ "target_alias" ∷ []
required get_evidence = "evidence_ref" ∷ "target_alias" ∷ []
required analyze_incident = "target_alias" ∷ "evidence_refs" ∷ []

abbrev pub input_schema : Tool → Schema
input_schema t = object_of (properties t) (required t)

-- What a handler reads from its validated arguments: `args[k]` of a text, and `args.get(k)` of an integer.
abbrev pub as_text : Option Json → Option String
as_text (some (str s)) = some s
as_text _ = none

abbrev pub as_int : Option Json → Option ℤ
as_int (some (int n)) = some n
as_int _ = none

abbrev pub texts_of : Items → List String
texts_of nil = []
texts_of (cons (str s) vs) = s ∷ texts_of vs
texts_of (cons _ vs) = texts_of vs

abbrev pub as_texts : Option Json → Option (List String)
as_texts (some (arr vs)) = some (texts_of vs)
as_texts _ = none

unfoldable pub text_arg : String → Members → Option String
unfolding find_member
text_arg k args = as_text (find_member k args)

unfoldable pub int_arg : String → Members → Option ℤ
unfolding find_member
int_arg k args = as_int (find_member k args)

unfoldable pub texts_arg : String → Members → Option (List String)
unfolding find_member
texts_arg k args = as_texts (find_member k args)
