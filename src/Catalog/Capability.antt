-- ===== src/Catalog/Capability.antt =====
-- What it takes for a target to be SUPPORTED for a collector.
use oracle_diagnostic_estack.Prelude.{
  String, ◌≡◌, refl, ◌≢◌, ◌↔◌, ◌⊎◌, true, false, not, Option, none, some, List, [], ◌∷◌, arith,
  eq_iff, any, All,
}
use oracle_diagnostic_estack.Prelude.Dict.{lookup, contains}
use oracle_diagnostic_estack.Text.{Text}
use oracle_diagnostic_estack.Schemas.{Json, str}
use oracle_diagnostic_estack.Versions.{Family}
use oracle_diagnostic_estack.Common.{AdapterStatus, supported}
use oracle_diagnostic_estack.Catalog.{
  Target, Collector, has_family, may_run, evaluate_capability, container_status, role_status,
  version_status, license_text, license_keys, needs_no_license, is_confirmed, license_status,
}

-- The collector's container scope, its role scope and its versions admit the target.
abbrev pub FitsContainer : Target → Collector → Type 0
FitsContainer t c = (c.container_scope ≢ "CDB_ROOT_ONLY") ⊎ (t.container ≡ "CDB_ROOT")

abbrev pub FitsRole : Target → Option String → Type 0
FitsRole t none = Unit
FitsRole t (some scope) = (scope ≡ "ANY") ⊎ ((t.role ≡ scope) × (t.role ≢ "UNKNOWN"))

abbrev pub FitsVersion : Collector → Option Family → Type 0
FitsVersion c none = ⊥
FitsVersion c (some v) = has_family c.supported_oracle_versions v ≡ true

-- The administrator has confirmed the key.
abbrev pub Confirmed : Target → String → Type 0
Confirmed t k = lookup k t.license_status ≡ some (str "CONFIRMED")

container_iff : (t : Target) (c : Collector) → (container_status t c ≡ none) ↔ FitsContainer t c
container_iff t c = ground (
  arith,
  eq_iff c.container_scope "CDB_ROOT_ONLY",
  eq_iff t.container "UNKNOWN",
  eq_iff t.container "CDB_ROOT",
  eq_iff "CDB_ROOT" "UNKNOWN",
)

role_iff :
    (t : Target) (scope : Option String) (c : Collector)
    → c.database_role_scope ≡ scope
    → (role_status t c ≡ none) ↔ FitsRole t scope
role_iff t none c h = ground (arith, h)
role_iff t (some scope) c h =
    ground (arith, h, eq_iff scope "ANY", eq_iff t.role "UNKNOWN", eq_iff t.role scope)

version_iff :
    (t : Target) (v : Option Family) (c : Collector)
    → t.oracle_version ≡ v
    → (version_status t c ≡ none) ↔ FitsVersion c v
version_iff t none c h = ground (arith, h)
version_iff t (some v) c h = ground (arith, h)

confirmed_iff : (o : Option Json) → (is_confirmed o ≡ true) ↔ (o ≡ some (str "CONFIRMED"))
confirmed_iff (some (str s)) = ground (arith, eq_iff s "CONFIRMED")
confirmed_iff none = ground arith
confirmed_iff (some _) = ground arith

module _ (t : Target) where
  All-Confirmed :
      (ks : List String)
      → (any (λ k. not (is_confirmed (lookup k t.license_status))) ks ≡ false)
        ↔ All (Confirmed t) ks
  All-Confirmed [] = ground arith
  All-Confirmed (k ∷ ks) =
      ground (arith, confirmed_iff (lookup k t.license_status), All-Confirmed ks)

module _ (lower : Text → Text) where
  -- No license is needed, or each of its keys is confirmed.
  abbrev pub Licensed : Target → Collector → Type 0
  Licensed t c =
      (needs_no_license (lower (license_text c.license_requirements)) ≡ true)
      ⊎ All (Confirmed t) (license_keys lower (lower (license_text c.license_requirements)))

  license_iff : (t : Target) (c : Collector) → (license_status lower t c ≡ supported) ↔ Licensed t c
  license_iff t c =
      ground
        (arith, All-Confirmed t (license_keys lower (lower (license_text c.license_requirements))))

  -- A collector is SUPPORTED for a target exactly if the target is enabled and its adapter may run,
  -- the collector is on its allowlist and not among those that lack a privilege, its version is
  -- known and among the collector's, its container and its role are in the collector's scopes, and
  -- every key of the license is confirmed; if any one of these fails, the status is another.
  pub evaluate_capability-supported :
      (t : Target) (c : Collector) (status : AdapterStatus)
      → (evaluate_capability lower t c status ≡ supported) ↔ (
          (t.enabled ≡ true)
          × (may_run status ≡ true)
          × (contains t.allowed_collectors c.collector_id ≡ true)
          × FitsVersion c t.oracle_version
          × FitsContainer t c
          × FitsRole t c.database_role_scope
          × (contains t.missing_privileges c.collector_id ≡ false)
          × Licensed t c)
  unfolding evaluate_capability
  evaluate_capability-supported t c status = ground (
    arith,
    version_iff t t.oracle_version c refl,
    container_iff t c,
    role_iff t c.database_role_scope c refl,
    license_iff t c,
  )
