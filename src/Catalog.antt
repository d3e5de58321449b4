-- ===== src/Catalog.antt =====
-- mcp_gateway/catalog.py: collectors, targets, and the capability of a target for a collector.
-- Parameter: `str.lower` on a text, which reads Unicode's tables.
pub mod Capability
use oracle_diagnostic_estack.Prelude.{
  ℕ, ◌+◌, String, Bool, true, false, not, ◌&&◌, ◌||◌, Option, none, some, List, [], ◌∷◌, ◌++◌, ◌==◌,
  str_eq, any, keep, if◌then◌else◌,
}
use oracle_diagnostic_estack.Prelude.Dict.{Dict, lookup, contains}
use oracle_diagnostic_estack.Text.{Text, text_eq, codes, is_within, join_words}
use oracle_diagnostic_estack.Versions.{
  Family, oracle_10g, oracle_11g, oracle_12c, oracle_18c, oracle_19c, oracle_21c, oracle_23ai,
  family_of,
}
use oracle_diagnostic_estack.Schemas.{Json, str}
use oracle_diagnostic_estack.Common.{
  AdapterStatus, verified_fixture, verified_lab, lab_enabled, CapabilityStatus, supported,
  environment_unknown, license_restricted, insufficient_privileges, not_applicable,
}
use oracle_diagnostic_estack.Evidence.Sanitize.{Field}

abbrev pub family_number : Family → ℕ
family_number oracle_10g = 10
family_number oracle_11g = 11
family_number oracle_12c = 12
family_number oracle_18c = 18
family_number oracle_19c = 19
family_number oracle_21c = 21
family_number oracle_23ai = 23

-- `version in versions`
unfoldable pub has_family : List Family → Family → Bool
has_family [] v = false
has_family (w ∷ ws) v = family_number w == family_number v || has_family ws v

abbrev pub oracle_versions : List Family
oracle_versions =
    oracle_10g ∷ oracle_11g ∷ oracle_12c ∷ oracle_18c ∷ oracle_19c ∷ oracle_21c ∷ oracle_23ai ∷ []

-- `license_requirements` of a query: a text, or a list of texts. Absent is the text "none".
pub data License : Type 0 where
  one_text : Text → License
  texts : List Text → License

-- A collector, as far as the gateway reads it. `database_role_scope` is `None` or a text.
pub record Collector : Type 0 where
  pub collector_id : String
  pub kind : String
  pub row_limit : ℕ
  pub output_fields : Dict Field
  pub query_id : Option String
  pub query_sha256 : Option String
  pub supported_oracle_versions : List Family
  pub database_role_scope : Option String
  pub container_scope : String
  pub license_requirements : License

-- `target.budget`, in which a negative limit acts as 0
pub record Budget : Type 0 where
  pub max_calls : ℕ
  pub max_rows : ℕ

pub record Target : Type 0 where
  pub alias : String
  pub adapter : String
  pub enabled : Bool
  pub oracle_version : Option Family
  pub role : String
  pub container : String
  pub architecture : Dict Json
  pub os : Dict Json
  pub release_update : Option String
  pub license_status : Dict Json
  pub allowed_collectors : List String
  pub missing_privileges : List String
  pub budget : Budget

-- `_families` on the texts of the metadata: `none` is "invalid version metadata".
abbrev add_family : Option Family → List Family → Option (List Family)
add_family none out = none
add_family (some f) out = some (if has_family out f then out else out ++ f ∷ [])

unfoldable pub families_onto : List Family → List Text → Option (List Family)
unfolding has_family family_of
families_onto out [] = some out
families_onto out (v ∷ vs) = elim (add_family (family_of v) out) [
  | none ↦ none
  | some next ↦ families_onto next vs
]

unfoldable pub families : List Text → Option (List Family)
unfolding families_onto
families [] = none
families (v ∷ vs) = families_onto [] (v ∷ vs)

-- The metadata of a query, `supported_oracle_versions`: what is no list counts as absent.
pub data Metadata : Type 0 where
  query : Option (List Text) → Metadata
  semantic : (scope : Option String) → Metadata

abbrev is_any : Option String → Bool
is_any none = false
is_any (some s) = str_eq s "ANY"

unfoldable pub base_versions : Metadata → Option (List Family)
unfolding families
base_versions (query none) = some []
base_versions (query (some [])) = some []
base_versions (query (some (v ∷ vs))) = families (v ∷ vs)
base_versions (semantic scope) = some (if is_any scope then oracle_versions else [])

-- `[v for v in base if v in _families(declared, "collector")]`, which reads `declared` for each `v`:
-- not at all, if there is none
unfoldable pub narrow : Option (List Text) → List Family → Option (List Family)
unfolding families has_family
narrow none base = some base
narrow (some declared) [] = some []
narrow (some declared) (b ∷ base) = elim (families declared) [
  | none ↦ none
  | some fs ↦ some (keep (has_family fs) (b ∷ base))
]

unfoldable pub effective_versions : Metadata → Option (List Text) → Option (List Family)
unfolding base_versions narrow
effective_versions meta declared = elim (base_versions meta) [
  | none ↦ none
  | some base ↦ narrow declared base
]

-- `adapter_status in (VERIFIED_FIXTURE, VERIFIED_LAB, LAB_ENABLED)`
abbrev pub may_run : AdapterStatus → Bool
may_run verified_fixture = true
may_run verified_lab = true
may_run lab_enabled = true
may_run _ = false

-- `target.license_status.get(k) == "CONFIRMED"`
abbrev is_confirmed : Option Json → Bool
is_confirmed (some (str s)) = str_eq s "CONFIRMED"
is_confirmed _ = false

-- `lic or "none"`
abbrev or_none : Text → Text
or_none [] = codes "none"
or_none (c ∷ s) = c ∷ s

abbrev license_text : License → Text
license_text (one_text t) = or_none t
license_text (texts ts) = or_none (join_words ts)

abbrev needs_no_license : Text → Bool
needs_no_license lic =
    text_eq lic (codes "none") || text_eq lic (codes "n/a") || text_eq lic (codes "")

abbrev pub mentions : String → Text → Bool
mentions word lic = is_within (codes word) lic

abbrev or_other : List String → List String
or_other [] = "other_option" ∷ []
or_other (k ∷ ks) = k ∷ ks

-- The keys of a license, in the order of the code and perhaps with a repetition.
unfoldable pub keys_of : Text → List String
unfolding is_within
keys_of lic = or_other (
    (if mentions "tuning" lic then "tuning_pack" ∷ "diagnostics_pack" ∷ [] else [])
    ++ (if mentions "diagnostic" lic || mentions "awr" lic || mentions "ash" lic
        then "diagnostics_pack" ∷ []
        else [])
    ++ (if mentions "active data guard" lic then "active_data_guard" ∷ [] else []))

-- A test of a scope: the status that it makes, if it fails.
abbrev container_status : Target → Collector → Option CapabilityStatus
container_status t c =
    if not (str_eq c.container_scope "CDB_ROOT_ONLY")
    then none
    else if str_eq t.container "UNKNOWN"
    then some environment_unknown
    else if not (str_eq t.container "CDB_ROOT")
    then some not_applicable
    else none

abbrev role_in : String → String → Option CapabilityStatus
role_in role scope =
    if str_eq scope "ANY"
    then none
    else if str_eq role "UNKNOWN"
    then some environment_unknown
    else if not (str_eq role scope)
    then some not_applicable
    else none

abbrev role_status : Target → Collector → Option CapabilityStatus
role_status t c = elim c.database_role_scope [ none ↦ none | some scope ↦ role_in t.role scope ]

abbrev version_status : Target → Collector → Option CapabilityStatus
version_status t c = elim t.oracle_version [
  | none ↦ some environment_unknown
  | some v ↦
      if has_family c.supported_oracle_versions v then none else some CapabilityStatus.unsupported
]

-- `if failed: return status`, and then the rest
abbrev or_else : Option CapabilityStatus → CapabilityStatus → CapabilityStatus
or_else none rest = rest
or_else (some s) rest = s

module _ (lower : Text → Text) where
  unfoldable pub license_keys : Text → List String
  unfolding keys_of
  license_keys lic = keys_of (lower lic)

  abbrev license_status : Target → Collector → CapabilityStatus
  license_status t c =
      let lic = lower (license_text c.license_requirements) in
      if needs_no_license lic
      then supported
      else if any (λ k. not (is_confirmed (lookup k t.license_status))) (license_keys lic)
      then license_restricted
      else supported

  unfoldable pub evaluate_capability : Target → Collector → AdapterStatus → CapabilityStatus
  unfolding has_family contains lookup license_keys text_eq
  evaluate_capability t c status =
      if not t.enabled || not (may_run status)
      then CapabilityStatus.disabled
      else if not (contains t.allowed_collectors c.collector_id)
      then CapabilityStatus.unsupported
      else or_else (version_status t c) (
          or_else (container_status t c) (
            or_else (role_status t c) (
              if contains t.missing_privileges c.collector_id
              then insufficient_privileges
              else license_status t c)))
