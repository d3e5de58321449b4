-- ===== src/Rca/Timeline.antt =====
-- rca_engine/timeline.py: the events of an incident in the order of time, without repetitions.
-- `bucket` is `int(datetime.fromisoformat(t).timestamp() // window)`.
pub mod Kept
pub mod Distinct
use Prim.Native.String.{◌++◌ as append}
use oracle_diagnostic_estack.Prelude.{
  ℕ, ◌+◌, String, Bool, true, false, not, ◌&&◌, ◌||◌, Option, none, some, List, [], ◌∷◌, ◌++◌, ◌==◌,
  ltb, str_eq, length, any, map, keep, if◌then◌else◌,
}
use oracle_diagnostic_estack.Prelude.Int.{ℤ, pos, ◌-ℤ◌, leb_ℤ}
use oracle_diagnostic_estack.Prelude.Dict.{Dict, lookup, contains}
use oracle_diagnostic_estack.Prelude.Sort.{sort_by}
use oracle_diagnostic_estack.Text.{Text, text_eq, str_lt, text_lt, strip, codes}
use oracle_diagnostic_estack.Schemas.{Json, str}
use oracle_diagnostic_estack.Rca.Common.{add_new, as_set, sorted_set}
use oracle_diagnostic_estack.Rca.Evidence.{
  Scalar, truth, number, scalar_lt, SignatureStatus, certified, NormalizedEvidence,
}

-- An evidence as `validate_and_sanitize` of rca_engine/intake.py returns it.
pub record Sanitized : Type 0 where
  pub evidence_id : String
  pub domain : String
  pub source_id : String
  pub event_type : String
  pub timestamp : Json
  pub signature_status : SignatureStatus
  pub canonical_signature : Option String
  pub signature_token : Option String
  pub summary : Json
  pub attributes : Dict Scalar

-- `abs(skew) > threshold`, of a Boolean or a number
abbrev negated : Scalar → Scalar
negated (truth b) = truth b
negated (number m k) = number (pos 0 -ℤ m) k

abbrev exceeds : (threshold : Scalar) → Option Scalar → Bool
exceeds threshold none = false
exceeds threshold (some skew) = scalar_lt threshold skew || scalar_lt threshold (negated skew)

-- the first pass: the sources whose clock is off
unfoldable pub skewed_sources : (threshold : Scalar) → List Sanitized → List String
unfolding lookup contains scalar_lt ◌-ℤ◌
skewed_sources threshold [] = []
skewed_sources threshold (i ∷ rest) =
    let later = skewed_sources threshold rest in
    if exceeds threshold (lookup "source_clock_offset_seconds" i.attributes)
    then add_new i.source_id later
    else later

abbrev pub naive_reason : String
naive_reason = "naive timestamp without explicit UTC offset — normalized as UTC but degraded"

abbrev pub skew_reason : String
skew_reason =
    append "clock skew detected for this source beyond threshold — timeline confidence "
      "degraded, timestamp never silently corrected"

-- why an evidence is degraded, if it is: by whether it had an offset, and whether its source is off
abbrev pub reason_of : (had_offset skewed : Bool) → Option String
reason_of true true = some skew_reason
reason_of true false = none
reason_of false true = some (append naive_reason "; source clock skew also detected")
reason_of false false = some naive_reason

abbrev is_some : {A : Type 0} → Option A → Bool
is_some none = false
is_some (some a) = true

abbrev normalized :
    Sanitized → ℕ → (utc : Option String) → (reason : Option String) → NormalizedEvidence
normalized i n utc reason = record {
  evidence_id = i.evidence_id;
  domain = i.domain;
  source_id = i.source_id;
  event_type = i.event_type;
  timestamp_utc = utc;
  source_timestamp = i.timestamp;
  signature_status = i.signature_status;
  canonical_signature = i.canonical_signature;
  signature_token = i.signature_token;
  summary = i.summary;
  attributes = i.attributes;
  timeline_degraded = is_some reason;
  degradation_reason = reason;
  raw_index = n;
}

-- INVALID_TIMESTAMP, with the index and the text
pub record ValidationIssue : Type 0 where
  pub index : ℕ
  pub text : Json

pub record Normalized : Type 0 where
  pub evidence : List NormalizedEvidence
  pub issues : List ValidationIssue

abbrev pub add_normalized :
    Sanitized → ℕ → (skewed : Bool) → Option (String × Bool) → Normalized → Normalized
add_normalized i n skewed none rest = record {
  evidence = normalized i n none none ∷ rest.evidence;
  issues = record { index = n; text = i.timestamp } ∷ rest.issues;
}
add_normalized i n skewed (some (utc, had_offset)) rest = record {
  evidence = normalized i n (some utc) (reason_of had_offset skewed) ∷ rest.evidence;
  issues = rest.issues;
}

-- What the code takes from `datetime`: `fromisoformat`, as whether it accepts a text (`none` for
-- ValueError) and whether the time then has an offset; and the text in UTC of the time that a text
-- stands for, without an offset as if it had that of UTC (`none` for the OverflowError of
-- `astimezone`, of a time that is out of range in UTC).
pub record Iso : Type 0 where
  pub offset_of : Text → Option Bool
  pub to_utc : Text → Option String

-- `text[:-1] + "+00:00"`, of a text that ends with "Z"
abbrev with_offset : Text → Text
with_offset [] = []
with_offset (c ∷ []) = if c == b'Z' then codes "+00:00" else c ∷ []
with_offset (c ∷ d ∷ t) = c ∷ with_offset (d ∷ t)

-- `_parse_timestamp`: the text of the time in UTC and whether it had an offset, `some none` for None;
-- `none` is OverflowError, which the code does not catch.
abbrev parsed_text : Iso → Text → Option (Option (String × Bool))
parsed_text iso t = elim (iso.offset_of t) [
  | none ↦ some none
  | some had_offset ↦ elim (iso.to_utc t) [ none ↦ none | some utc ↦ some (some (utc, had_offset)) ]
]

unfoldable pub parse_timestamp : Iso → Json → Option (Option (String × Bool))
unfolding strip
parse_timestamp iso (str s) =
    if str_eq s "" then some none else parsed_text iso (with_offset (strip (codes s)))
parse_timestamp iso _ = some none

abbrev pub add_parsed :
    Sanitized
    → ℕ
    → (skewed : Bool) → Option (Option (String × Bool))
    → Option Normalized
    → Option Normalized
add_parsed i n skewed none rest = none
add_parsed i n skewed (some p) none = none
add_parsed i n skewed (some p) (some rest) = some (add_normalized i n skewed p rest)

module _ (iso : Iso) where
  -- the second pass, from the index `n`; `none` is OverflowError
  unfoldable pub normalize_from : (skewed : List String) → ℕ → List Sanitized → Option Normalized
  unfolding contains parse_timestamp
  normalize_from skewed n [] = some (record { evidence = []; issues = [] })
  normalize_from skewed n (i ∷ rest) =
      add_parsed i n (contains skewed i.source_id) (parse_timestamp iso i.timestamp)
        (normalize_from skewed (n + 1) rest)

  -- `normalize_evidence`
  unfoldable pub normalize_evidence : (threshold : Scalar) → List Sanitized → Option Normalized
  unfolding skewed_sources normalize_from
  normalize_evidence threshold raw = normalize_from (skewed_sources threshold raw) 0 raw

-- an evidence with its timestamp
abbrev pub Timed : Type 0
Timed = String × NormalizedEvidence

unfoldable pub timed : List NormalizedEvidence → List Timed
timed [] = []
timed (e ∷ es) = elim e.timestamp_utc [ none ↦ timed es | some t ↦ (t, e) ∷ timed es ]

-- `<` on the keys (timestamp_utc, raw_index)
abbrev pub earlier : Timed → Timed → Bool
earlier (t, e) (u, f) = str_lt t u || (str_eq t u && ltb e.raw_index f.raw_index)

-- `_signature_group_key`
abbrev pub signature_group_key : NormalizedEvidence → Option String
signature_group_key e = elim e.signature_status [
  | certified ↦ e.canonical_signature
  | _ ↦ e.signature_token
]

-- The tuple that `_dedup_key` returns.
pub record DedupKey : Type 0 where
  pub source_id : String
  pub domain : String
  pub event_type : String
  pub signature : Option String
  pub bucket : ℤ

abbrev pub eq_option : Option String → Option String → Bool
eq_option none none = true
eq_option (some a) (some b) = str_eq a b
eq_option _ _ = false

abbrev pub eq_key : DedupKey → DedupKey → Bool
eq_key j k =
    str_eq j.source_id k.source_id
    && str_eq j.domain k.domain
    && str_eq j.event_type k.event_type
    && eq_option j.signature k.signature
    && leb_ℤ j.bucket k.bucket
    && leb_ℤ k.bucket j.bucket

-- `_dedup_key`, with `bucket` for the number of the window that the timestamp is in
abbrev pub dedup_key : (bucket : String → ℤ) → Timed → DedupKey
dedup_key bucket (t, e) = record {
  source_id = e.source_id;
  domain = e.domain;
  event_type = e.event_type;
  signature = signature_group_key e;
  bucket = bucket t;
}

-- A key of `groups` with its members, of which there is one at least.
pub record Group : Type 0 where
  pub key : DedupKey
  pub first : Timed
  pub others : List Timed

abbrev pub members : Group → List Timed
members g = g.first ∷ g.others

-- one step of the loop over the evidence; the list of groups has the order of `order`
unfoldable pub add_member : DedupKey → Timed → List Group → List Group
add_member k e [] = record { key = k; first = e; others = [] } ∷ []
add_member k e (g ∷ gs) =
    let rest = add_member k e gs in
    if eq_key g.key k then record g { others = g.others ++ e ∷ [] } ∷ gs else g ∷ rest

unfoldable pub group_all : (bucket : String → ℤ) → List Timed → List Group → List Group
unfolding add_member
group_all bucket [] gs = gs
group_all bucket (e ∷ es) gs = group_all bucket es (add_member (dedup_key bucket e) e gs)

abbrev earliest : String → List Timed → String
earliest t [] = t
earliest t ((u, e) ∷ es) = earliest (if str_lt u t then u else t) es

abbrev latest : String → List Timed → String
latest t [] = t
latest t ((u, e) ∷ es) = latest (if str_lt t u then u else t) es

-- `event_key` is the text of the five parts of the key.
pub record TimelineEvent : Type 0 where
  pub event_key : DedupKey
  pub domain : String
  pub event_type : String
  pub signature_status : SignatureStatus
  pub canonical_signature : Option String
  pub signature_token : Option String
  pub timestamp_utc : String
  pub count : ℕ
  pub first_seen : String
  pub last_seen : String
  pub evidence_ids : List String
  pub source_ids : List String
  pub timeline_degraded : Bool

unfoldable pub event_of : Group → TimelineEvent
unfolding sort_by text_lt contains as_set
event_of g = record {
  event_key = g.key;
  domain = g.first.1.domain;
  event_type = g.first.1.event_type;
  signature_status = g.first.1.signature_status;
  canonical_signature = g.first.1.canonical_signature;
  signature_token = g.first.1.signature_token;
  timestamp_utc = g.first.0;
  count = length (members g);
  first_seen = earliest g.first.0 g.others;
  last_seen = latest g.first.0 g.others;
  evidence_ids = sorted_set (map (λ m. m.1.evidence_id) (members g));
  source_ids = sorted_set (map (λ m. m.1.source_id) (members g));
  timeline_degraded = any (λ m. m.1.timeline_degraded) (members g);
}

unfoldable pub reasons : List NormalizedEvidence → List String
reasons [] = []
reasons (e ∷ es) = elim e.degradation_reason [
  | none ↦ reasons es
  | some r ↦ if str_eq r "" then reasons es else r ∷ reasons es
]

pub record Timeline : Type 0 where
  pub events : List TimelineEvent
  pub degraded : Bool
  pub degradation_reasons : List String

abbrev pub groups_of : (bucket : String → ℤ) → List NormalizedEvidence → List Group
groups_of bucket es = group_all bucket (sort_by earlier (timed es)) []

-- `build_timeline`
unfoldable pub build_timeline : (bucket : String → ℤ) → List NormalizedEvidence → Timeline
unfolding sort_by text_lt contains as_set timed group_all event_of reasons
build_timeline bucket es = record {
  events = map event_of (groups_of bucket es);
  degraded = any (λ e. e.timeline_degraded) es;
  degradation_reasons = sorted_set (reasons es);
}
