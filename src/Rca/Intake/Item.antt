-- ===== src/Rca/Intake/Item.antt =====
-- rca_engine/intake.py: each evidence of an incident, and `validate_and_sanitize`.
use Prim.Native.String.{◌++◌ as append}
use oracle_diagnostic_estack.Prelude.{
  ℕ, String, Bool, not, ◌&&◌, ◌||◌, Option, none, some, List, [], ◌∷◌, if◌then◌else◌,
}
use oracle_diagnostic_estack.Prelude.Dict.{Dict, contains, insert, keys}
use oracle_diagnostic_estack.Text.{codes, is_space}
use oracle_diagnostic_estack.Text.Regex.{match_dollar}
use oracle_diagnostic_estack.Schemas.{
  Json, null, str, arr, obj, Items, nil, cons, Members, end, member, find_member,
}
use oracle_diagnostic_estack.Evidence.Grammar.{certified_code}
use oracle_diagnostic_estack.Knowledge.Ids.{contains_secret_pattern}
use oracle_diagnostic_estack.Rca.Evidence.{
  Scalar, SignatureStatus, certified, unrecognized_signature, insufficient_evidence,
}
use oracle_diagnostic_estack.Rca.Rules.{Rule}
use oracle_diagnostic_estack.Rca.Sanitize.{Pattern, sanitize_text, sanitize_attributes}
use oracle_diagnostic_estack.Rca.Timeline.{Sanitized}
use oracle_diagnostic_estack.Rca.Engine.{Incident}
use oracle_diagnostic_estack.Rca.Intake.{
  Intake, refused, crashed, taken, require, then_, all_event_types, allowed_domains,
  safe_identifier_shape, collect_allowed_attribute_keys, collect_certified_signatures, is_truthy,
  field, has_fields, in_set, is_blank, substitute_literal,
}

-- What the code takes from Python's library: `re.sub` of the patterns, the classes \\w and \\d, and
-- the digest of `_derive` in rca_engine/tokenization.py.
pub record Run : Type 0 where
  pub sub : Pattern → String → String
  pub is_word : ℕ → Bool
  pub is_decimal : ℕ → Bool
  pub derive : (namespace incident_id raw_value : String) → String

pub record Classified : Type 0 where
  pub status : SignatureStatus
  pub canonical_signature : Option String
  pub token : Option String

-- the lists that the catalog of rules gives
pub record Allowed : Type 0 where
  pub attribute_keys : List String
  pub signatures : List String

-- What the loop over the evidence keeps: the ids that it has seen, and the map of tokens.
pub record Seen : Type 0 where
  pub ids : List String
  pub token_map : Dict String

-- `token_map.setdefault(token, raw)`
abbrev pub set_default : String → String → Dict String → Dict String
set_default token raw d = if contains (keys d) token then d else insert token raw d

-- the target of the incident: its raw id and its token
abbrev pub Target : Type 0
Target = String × String

-- What `validate_and_sanitize` returns; the incident's description of the symptom is apart.
pub record Validated : Type 0 where
  pub incident : Incident
  pub symptom_description : Json
  pub evidence : List Sanitized
  pub token_map : Dict String

module _ (run : Run) where
  -- `sanitize_text` of a value, which returns it if it is not true
  abbrev pub sanitized_text : Json → Intake Json
  sanitized_text (str s) = taken (str (sanitize_text run.sub s))
  sanitized_text v = if is_truthy v then crashed else taken v

  unfoldable pub is_safe_identifier : String → Bool
  unfolding match_dollar
  is_safe_identifier s = match_dollar safe_identifier_shape (codes s)

  abbrev pub is_secret : String → Bool
  is_secret s = contains_secret_pattern run.is_word run.is_decimal (codes s)

  -- "SIG-", "SRC-" and "TGT-", and the digest
  abbrev pub derive_token : (prefix namespace incident_id raw_value : String) → String
  derive_token prefix namespace id raw = append prefix (run.derive namespace id raw)

  -- whether a signature is certified, by its grammar or by the catalog
  unfoldable pub is_certified_signature : (signatures : List String) → String → Bool
  unfolding match_dollar contains
  is_certified_signature signatures s =
      match_dollar (certified_code run.is_word run.is_decimal) (codes s) || contains signatures s

  -- `classify_signature`
  unfoldable pub classify_signature :
      Json → (incident_id : String) → (signatures : List String) → Intake Classified
  unfolding is_certified_signature
  classify_signature null id signatures =
      taken (record { status = insufficient_evidence; canonical_signature = none; token = none })
  classify_signature (str s) id signatures =
      if is_certified_signature signatures s
      then taken (record { status = certified; canonical_signature = some s; token = none })
      else taken (record {
        status = unrecognized_signature;
        canonical_signature = none;
        token = some (derive_token "SIG-" "signature" id s);
      })
  classify_signature v id signatures = crashed

  -- the raw signature goes to the map of tokens if it is not certified
  abbrev add_signature : Json → Classified → Dict String → Dict String
  add_signature (str s) c d = elim c.token [ none ↦ d | some t ↦ set_default t s d ]
  add_signature v c d = d

  abbrev pub attributes_of : Json → (keys : List String) → Intake (Dict Scalar)
  attributes_of v ks = elim (sanitize_attributes run.sub run.is_word run.is_decimal v ks) [
    | none ↦ refused
    | some d ↦ taken d
  ]

  -- `item.get("attributes", {})`
  abbrev pub attributes_field : Members → Json
  attributes_field ms = elim (find_member "attributes" ms) [ none ↦ obj end | some v ↦ v ]

  -- `item[k]` of a value that is a text
  abbrev pub as_text : Json → Intake String
  as_text (str s) = taken s
  as_text v = refused

  abbrev pub required_fields : List String
  required_fields = "evidence_id" ∷ "domain" ∷ "source_id" ∷ "timestamp" ∷ "event_type" ∷ []

  abbrev pub item_of :
      Members
      → (event_type domain id source_token : String) → Classified
      → (summary : Json) → Dict Scalar
      → Sanitized
  item_of ms event_type domain id source_token c summary attributes = record {
    evidence_id = id;
    domain = domain;
    source_id = source_token;
    event_type = event_type;
    timestamp = field "timestamp" ms;
    signature_status = c.status;
    canonical_signature = c.canonical_signature;
    signature_token = c.token;
    summary = summary;
    attributes = attributes;
  }

  -- the part of the loop after the checks of the identifiers
  unfoldable pub take_item :
      Allowed
      → (incident_id : String) → Target
      → Seen
      → Members
      → (event_type domain id source : String) → Intake (Sanitized × Seen)
  unfolding classify_signature substitute_literal sanitize_attributes find_member insert contains
      sanitize_text
  take_item allowed incident_id target seen ms event_type domain id source =
      let token = derive_token "SRC-" "source_id" incident_id source in
      then_ (classify_signature (field "signature" ms) incident_id allowed.signatures) (λ c.
        then_ (sanitized_text (field "summary" ms)) (λ text.
          then_ (attributes_of (attributes_field ms) allowed.attribute_keys) (λ attributes. taken (
            item_of ms event_type domain id token c
                (substitute_literal (substitute_literal text target.0 target.1) source token)
                attributes,
            record {
              ids = id ∷ seen.ids;
              token_map =
                  add_signature (field "signature" ms) c (set_default token source seen.token_map);
            },
          ))))

  -- one step of the loop over the evidence
  unfoldable pub read_item :
      Allowed → (incident_id : String) → Target → Seen → Json → Intake (Sanitized × Seen)
  unfolding find_member contains is_safe_identifier contains_secret_pattern is_space take_item
  read_item allowed incident_id target seen (obj ms) = require (has_fields required_fields ms) (
      then_ (in_set all_event_types (field "event_type" ms)) (λ is_type. require is_type (
        then_ (in_set allowed_domains (field "domain" ms)) (λ is_domain. require is_domain (
          then_ (as_text (field "event_type" ms)) (λ event_type.
            then_ (as_text (field "domain" ms)) (λ domain.
              then_ (as_text (field "evidence_id" ms)) (λ id.
                require (is_safe_identifier id && not (is_secret id) && not (contains seen.ids id))
                  (then_ (as_text (field "source_id" ms)) (λ source.
                    require (not (is_blank source)) (
                      take_item allowed incident_id target seen ms event_type domain id
                        source)))))))))))
  read_item allowed incident_id target seen v = refused

  abbrev pub read_rest : Sanitized → Intake (List Sanitized × Seen) → Intake (List Sanitized × Seen)
  read_rest i o = then_ o (λ r. taken (i ∷ r.0, r.1))

  -- the loop over the evidence
  unfoldable pub read_items :
      Allowed → (incident_id : String) → Target → Seen → Items → Intake (List Sanitized × Seen)
  unfolding read_item
  read_items allowed incident_id target seen nil = taken ([], seen)
  read_items allowed incident_id target seen (cons v vs) =
      elim (read_item allowed incident_id target seen v) [
        | refused ↦ refused
        | crashed ↦ crashed
        | taken (i, later) ↦ read_rest i (read_items allowed incident_id target later vs)
      ]

  -- a declared reference that is kept
  abbrev keep_ref : String → List String → List String
  keep_ref s rest = if is_safe_identifier s && not (is_secret s) then s ∷ rest else rest

  unfoldable pub refs_of_items : Items → List String
  unfolding is_safe_identifier contains_secret_pattern
  refs_of_items nil = []
  refs_of_items (cons (str s) vs) = keep_ref s (refs_of_items vs)
  refs_of_items (cons v vs) = refs_of_items vs

  unfoldable pub refs_of_keys : Members → List String
  unfolding is_safe_identifier contains_secret_pattern
  refs_of_keys end = []
  refs_of_keys (member k v ms) = keep_ref k (refs_of_keys ms)

  unfoldable pub refs_of_characters : String → List String
  unfolding is_safe_identifier contains_secret_pattern
  refs_of_characters String.[] = []
  refs_of_characters (String.◌∷◌ c s) = keep_ref (String.◌∷◌ c "") (refs_of_characters s)

  -- the loop over `raw_incident.get("declared_evidence_refs", [])`, of whatever can be looped over
  abbrev pub declared_refs : Option Json → Intake (List String)
  declared_refs none = taken []
  declared_refs (some (arr vs)) = taken (refs_of_items vs)
  declared_refs (some (obj ms)) = taken (refs_of_keys ms)
  declared_refs (some (str s)) = taken (refs_of_characters s)
  declared_refs (some v) = crashed

  abbrev required_incident_fields : List String
  required_incident_fields = "id" ∷ "target_id" ∷ "symptom_description" ∷ []

  abbrev pub allowed_by : List Rule → Allowed
  allowed_by rs = record {
    attribute_keys = collect_allowed_attribute_keys rs;
    signatures = collect_certified_signatures rs;
  }

  abbrev pub first_seen : Target → Seen
  first_seen target = record { ids = []; token_map = (target.1, target.0) ∷ [] }

  -- the rest, from the incident's id and target on
  abbrev pub read_evidence :
      List Rule → Members → Items → (id raw_target : String) → Intake Validated
  read_evidence rs incident items id raw_target =
      let target : Target = (raw_target, derive_token "TGT-" "target_id" id raw_target) in
      then_ (sanitized_text (field "symptom_description" incident)) (λ symptom.
        then_ (declared_refs (find_member "declared_evidence_refs" incident)) (λ refs.
          then_ (read_items (allowed_by rs) id target (first_seen target) items) (λ r.
            taken (record {
              incident = record { id = id; target_id = target.1; declared_evidence_refs = refs };
              symptom_description = substitute_literal symptom raw_target target.1;
              evidence = r.0;
              token_map = r.1.token_map;
            }))))

  abbrev pub read_incident : List Rule → Json → Json → Intake Validated
  read_incident rs (obj incident) (arr items) =
      require (has_fields required_incident_fields incident) (
        then_ (as_text (field "id" incident)) (λ id. require (is_safe_identifier id) (
          then_ (as_text (field "target_id" incident)) (λ target.
            require (not (is_blank target)) (read_evidence rs incident items id target)))))
  read_incident rs incident items = refused

  -- `validate_and_sanitize`
  unfoldable pub validate_and_sanitize : List Rule → Json → Intake Validated
  unfolding find_member collect_allowed_attribute_keys collect_certified_signatures
      is_safe_identifier is_space sanitize_text substitute_literal read_items refs_of_items
      refs_of_keys refs_of_characters
  validate_and_sanitize rs (obj fixture) =
      read_incident rs (field "incident" fixture) (field "evidence" fixture)
  validate_and_sanitize rs v = refused
