-- ===== src/Evidence/Sanitize.antt =====
-- mcp_gateway/evidence.py: `_sanitize_value` and `sanitize_rows`, with `SessionScope`.
-- Parameters: Python's classes \w and \d, the keyed hash of a session (`SessionScope._mac`, over
-- hmac and sha256), the signature token (over sha256), the normal form of a timestamp
-- (datetime.fromisoformat, then UTC without microseconds), and the certified names of the rules.
pub mod Forms
pub mod Deny
use oracle_diagnostic_estack.Prelude.{
  ℕ, suc, ◌+◌, ◌-◌, ◌++◌, min, String, Bool, true, false, not, ◌&&◌, ◌||◌, Option, none, some, List,
  [], ◌∷◌, ◌==◌, leb, ltb, str_eq, length, take, if◌then◌else◌,
}
use oracle_diagnostic_estack.Prelude.Int.{ℤ, pos, abs, leb_ℤ}
use oracle_diagnostic_estack.Prelude.Dict.{Dict, lookup, insert, contains}
use oracle_diagnostic_estack.Text.{codes}
use oracle_diagnostic_estack.Text.Regex.{match_dollar}
use oracle_diagnostic_estack.Common.{Result, ok, raise, result_invalid, max_rows_hard}
use oracle_diagnostic_estack.Schemas.{
  Float, finite, Json, bool, int, float, str, arr, obj, Items, nil, cons, Members, end, member,
  is_finite, float_le, float_ge,
}
use oracle_diagnostic_estack.Evidence.Grammar
use oracle_diagnostic_estack.Evidence.Grammar.{
  version, timestamp, interval, certified_code, is_secret_shaped,
}

-- `FIELD_TYPES` and `POLICIES` of mcp_gateway/catalog.py
pub data FieldType : Type 0 where
  identifier version_string enum integer integer_or_unlimited number boolean : FieldType
  timestamp_utc signature text interval_string parameter_name oracle_term sql_id : FieldType

pub data Policy : Type 0 where
  keep mask hash tokenize drop signature : Policy

pub record Field : Type 0 where
  pub kind : FieldType
  pub policy : Policy
  pub least : Option ℤ
  pub most : Option ℤ
  pub values : List String
  pub alias_prefix : Option String

-- A value that may leave: as it came, or in place of what came a per-session alias, hash or token,
-- a certified name, a signature token, or a time in UTC.
pub data Released : Type 0 where
  same : Json → Released
  alias : (prefix : String) (number : ℕ) → Released
  hashed token certified signature_token utc : String → Released

pub record Runtime : Type 0 where
  pub is_word : ℕ → Bool
  pub is_decimal : ℕ → Bool
  pub mac : (domain target value : String) → ℕ → String
  pub derive_signature_token : (target raw : String) → String
  pub to_utc : String → Option String
  pub certified_names : List String

-- The alias tables of a `SessionScope`: one for each target and prefix, from a value to its number.
abbrev pub Aliases : Type 0
Aliases = List (String × String × Dict ℕ)

unfoldable pub table_of : String → String → Aliases → Dict ℕ
table_of target prefix [] = []
table_of target prefix ((t, p, table) ∷ rest) =
    if str_eq t target && str_eq p prefix then table else table_of target prefix rest

unfoldable pub set_table : String → String → Dict ℕ → Aliases → Aliases
set_table target prefix new [] = (target, prefix, new) ∷ []
set_table target prefix new ((t, p, table) ∷ rest) =
    if str_eq t target && str_eq p prefix
    then (t, p, new) ∷ rest
    else (t, p, table) ∷ set_table target prefix new rest

abbrev number_in : Option ℕ → Dict ℕ → ℕ
number_in none table = length table + 1
number_in (some n) table = n

-- `SessionScope.alias`: the number in f"{prefix}-A{number}", and the tables after it
unfoldable pub alias_of : (target prefix value : String) → Aliases → ℕ × Aliases
unfolding table_of set_table lookup insert
alias_of target prefix value aliases =
    let table = table_of target prefix aliases in
    let n = number_in (lookup value table) table in
    (n, set_table target prefix (insert value n table) aliases)

abbrev pub number_limit : ℕ
number_limit = 1_000_000_000_000_000

abbrev pub or_limit : Option ℤ → ℤ → ℤ
or_limit none d = d
or_limit (some n) d = n

-- `_clean_number` on an integer, and on a float
abbrev pub clean_int : Field → ℤ → Bool
clean_int f n =
    leb (abs n) number_limit
    && leb_ℤ (or_limit f.least (ℤ.negsuc (number_limit - 1))) n
    && leb_ℤ n (or_limit f.most (pos number_limit))

abbrev pub clean_float : Field → Float → Bool
clean_float f x =
    is_finite x
    && float_ge x (ℤ.negsuc (number_limit - 1))
    && float_le x (pos number_limit)
    && float_ge x (or_limit f.least (ℤ.negsuc (number_limit - 1)))
    && float_le x (or_limit f.most (pos number_limit))

abbrev pub keep_if : Bool → Json → Option Released
keep_if b v = if b then some (same v) else none

abbrev pub prefix_of : Field → String
prefix_of f = elim f.alias_prefix [ none ↦ "obj" | some p ↦ p ]

abbrev pub is_drop : Policy → Bool
is_drop Policy.drop = true
is_drop _ = false

pub record Counts : Type 0 where
  pub dropped_fields : ℕ
  pub invalid_values : ℕ

abbrev count_dropped : Counts → Counts
count_dropped c = record c { dropped_fields = c.dropped_fields + 1 }

abbrev count_invalid : Counts → Counts
count_invalid c = record c { invalid_values = c.invalid_values + 1 }

-- The state of the two loops: the alias tables and the counts.
pub record Progress : Type 0 where
  pub aliases : Aliases
  pub counts : Counts

-- `clean[k] = value`, or one of the counts
abbrev pub add_field :
    Field → String → Option Released × Aliases → Counts → Dict Released → Dict Released × Progress
add_field f k (some v, aliases) c clean =
    (insert k v clean, record { aliases = aliases; counts = c })
add_field f k (none, aliases) c clean = (
  clean,
  record {
    aliases = aliases;
    counts = if is_drop f.policy then count_dropped c else count_invalid c;
  },
)

-- `if clean: rows.append(clean)`
abbrev pub append_row : Dict Released → List (Dict Released) → List (Dict Released)
append_row [] rows = rows
append_row (f ∷ row) rows = (f ∷ row) ∷ rows

-- `isinstance(raw_rows, list) and all(isinstance(r, dict) for r in raw_rows)`
unfoldable pub as_rows : Items → Option (List Members)
as_rows nil = some []
as_rows (cons (obj ms) vs) =
    let rest = as_rows vs in elim rest [ none ↦ none | some rows ↦ some (ms ∷ rows) ]
as_rows (cons _ vs) = none

pub data Limitation : Type 0 where
  rows_truncated_to_limit : Limitation
  fields_dropped_by_policy invalid_values_dropped : ℕ → Limitation

abbrev note_count : ℕ → (ℕ → Limitation) → List Limitation
note_count n limitation = if n == 0 then [] else limitation n ∷ []

pub record Payload : Type 0 where
  pub columns : List String
  pub rows : List (Dict Released)
  pub row_count : ℕ
  pub limitations : List Limitation

abbrev pub columns_of : Dict Field → List String
columns_of [] = []
columns_of ((k, f) ∷ fields) =
    let rest = columns_of fields in if is_drop f.policy then rest else k ∷ rest

-- `cap = max(0, min(row_cap, collector.row_limit, MAX_ROWS_HARD))`, over natural numbers
abbrev pub cap_of : ℕ → ℕ → ℕ
cap_of row_cap row_limit = min row_cap (min row_limit max_rows_hard)

abbrev pub no_counts : Counts
no_counts = record { dropped_fields = 0; invalid_values = 0 }

module _ (run : Runtime) where
  -- A text of one of the kept kinds.
  unfoldable pub plain_text : FieldType → Field → String → Bool
  unfolding match_dollar contains is_secret_shaped
  plain_text FieldType.enum f s = contains f.values s
  plain_text version_string f s = match_dollar (version run.is_word run.is_decimal) (codes s)
  plain_text interval_string f s = match_dollar (interval run.is_word run.is_decimal) (codes s)
  plain_text FieldType.parameter_name f s = match_dollar Grammar.parameter_name (codes s)
  plain_text FieldType.oracle_term f s =
      match_dollar Grammar.oracle_term (codes s)
      && not (is_secret_shaped run.is_word run.is_decimal (codes s))
  plain_text FieldType.sql_id f s = match_dollar Grammar.sql_id (codes s)
  plain_text _ f s = false

  unfoldable pub is_identifier : String → Bool
  unfolding match_dollar is_secret_shaped
  is_identifier s =
      match_dollar Grammar.identifier (codes s)
      && not (is_secret_shaped run.is_word run.is_decimal (codes s))

  -- `_CERTIFIED_CODE_PATTERN.match`
  unfoldable pub is_certified_code : String → Bool
  unfolding match_dollar
  is_certified_code s = match_dollar (certified_code run.is_word run.is_decimal) (codes s)

  -- `classify_signature` and what `_sanitize_value` makes of it
  unfoldable pub signature_value : (target : String) → String → Option Released
  signature_value target s =
      if length (codes s) == 0 || ltb 96 (length (codes s))
      then none
      else if is_certified_code s
      then some (certified s)
      else if contains run.certified_names s
      then some (certified s)
      else some (signature_token (run.derive_signature_token target s))

  abbrev pub utc_value : String → Option Released
  utc_value s =
      if match_dollar (timestamp run.is_word run.is_decimal) (codes s)
      then elim (run.to_utc s) [ none ↦ none | some t ↦ some (utc t) ]
      else none

  -- the branch of an identifier, on its policy
  abbrev pub identifier_value : Field → String → String → Aliases → Option Released × Aliases
  identifier_value f target s aliases = elim f.policy [
    | Policy.mask ↦
        let (n, after) = alias_of target (prefix_of f) s aliases in
        (some (alias (prefix_of f) n), after)
    | Policy.hash ↦ (some (hashed (run.mac "hash" target s 12)), aliases)
    | Policy.tokenize ↦ (some (token (run.mac "token" target s 16)), aliases)
    | _ ↦ (none, aliases)
  ]

  abbrev text_value : FieldType → Field → String → String → Aliases → Option Released × Aliases
  text_value FieldType.integer_or_unlimited f target s aliases =
      (keep_if (str_eq s "UNLIMITED") (str s), aliases)
  text_value FieldType.timestamp_utc f target s aliases = (utc_value s, aliases)
  text_value FieldType.signature f target s aliases = (signature_value target s, aliases)
  text_value FieldType.identifier f target s aliases =
      if is_identifier s then identifier_value f target s aliases else (none, aliases)
  text_value kind f target s aliases = (keep_if (plain_text kind f s) (str s), aliases)

  abbrev int_value : FieldType → Field → ℤ → Option Released
  int_value FieldType.integer f n = keep_if (clean_int f n) (int n)
  int_value FieldType.integer_or_unlimited f n = keep_if (clean_int f n) (int n)
  int_value FieldType.number f n = keep_if (clean_int f n) (int n)
  int_value _ f n = none

  abbrev float_value : FieldType → Field → Float → Option Released
  float_value FieldType.number f x = keep_if (clean_float f x) (float x)
  float_value _ f x = none

  abbrev bool_value : FieldType → Bool → Option Released
  bool_value FieldType.boolean b = some (same (bool b))
  bool_value _ b = none

  -- `_sanitize_value`, apart from the policy DROP
  abbrev typed_value : Field → String → Json → Aliases → Option Released × Aliases
  typed_value f target (bool b) aliases = (bool_value f.kind b, aliases)
  typed_value f target (int n) aliases = (int_value f.kind f n, aliases)
  typed_value f target (float x) aliases = (float_value f.kind f x, aliases)
  typed_value f target (str s) aliases = text_value f.kind f target s aliases
  typed_value f target _ aliases = (none, aliases)

  -- `none` stands for `kept = False`.
  unfoldable pub sanitize_value : Field → String → Json → Aliases → Option Released × Aliases
  unfolding plain_text is_identifier is_certified_code contains signature_value alias_of
  sanitize_value f target raw aliases =
      if is_drop f.policy then (none, aliases) else typed_value f target raw aliases

  abbrev pub take_field :
      Option Field → String → String → Json → Progress → Dict Released → Dict Released × Progress
  take_field none target k v p clean = (clean, record p { counts = count_dropped p.counts })
  take_field (some f) target k v p clean =
      add_field f k (sanitize_value f target v p.aliases) p.counts clean

  -- one raw row, in `for k, v in raw.items()`
  unfoldable pub clean_row :
      Dict Field → String → Members → Progress → Dict Released → Dict Released × Progress
  unfolding sanitize_value lookup insert
  clean_row fields target end p clean = (clean, p)
  clean_row fields target (member k v ms) p clean =
      let (clean', p') = take_field (lookup k fields) target k v p clean in
      clean_row fields target ms p' clean'

  unfoldable pub clean_rows :
      Dict Field → String → List Members → Progress → List (Dict Released) × Progress
  unfolding clean_row
  clean_rows fields target [] p = ([], p)
  clean_rows fields target (raw ∷ raws) p =
      let (row, p') = clean_row fields target raw p [] in
      let (rows, p'') = clean_rows fields target raws p' in (append_row row rows, p'')

  unfoldable pub payload_of :
      Dict Field → ℕ → String → ℕ → Aliases → Option (List Members) → Result (Payload × Aliases)
  unfolding clean_rows
  payload_of fields row_limit target row_cap aliases none = raise result_invalid
  payload_of fields row_limit target row_cap aliases (some raws) =
      let cap = cap_of row_cap row_limit in
      let (rows, p) =
        clean_rows fields target (take cap raws)
          (record { aliases = aliases; counts = no_counts }) in
      ok (
        record {
          columns = columns_of fields;
          rows = rows;
          row_count = length rows;
          limitations =
              (if ltb cap (length raws) then rows_truncated_to_limit ∷ [] else [])
              ++ note_count p.counts.dropped_fields fields_dropped_by_policy
              ++ note_count p.counts.invalid_values invalid_values_dropped;
        },
        p.aliases,
      )

  -- `sanitize_rows`: it fails on the shape, and otherwise gives the payload and the alias tables.
  unfoldable pub sanitize_rows :
      (fields : Dict Field) (row_limit : ℕ) (raw : Items) (target : String) (row_cap : ℕ)
      → Aliases
      → Result (Payload × Aliases)
  unfolding as_rows payload_of
  sanitize_rows fields row_limit raw target row_cap aliases =
      payload_of fields row_limit target row_cap aliases (as_rows raw)
