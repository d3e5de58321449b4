-- ===== src/Architecture/View.antt =====
-- The view of a target for field validation agrees with what was observed.
use oracle_diagnostic_estack.Prelude.{
  String, ◌≡◌, refl, ap, ◌∙◌, Bool, true, false, Option, none, some, [], ◌∷◌, arith, str_eq, eq_iff,
  if◌then◌else◌,
}
use oracle_diagnostic_estack.Prelude.Dict.{Dict, lookup, lookup-insert}
use oracle_diagnostic_estack.Schemas.{Json, bool, str}
use oracle_diagnostic_estack.Catalog.{Target}
use oracle_diagnostic_estack.Architecture.{
  Observed, compare, compare_bool, compare_role, compare_os, observed_target, declare, declare_os,
  or_declared, same_family,
}

str_eq_refl : (s : String) → str_eq s s ≡ true
str_eq_refl s = ground (arith, eq_iff s s)

declare_other :
    (k dim : String) (o : Option Bool) (arch : Dict Json)
    → str_eq dim k ≡ false
    → lookup k (declare dim o arch) ≡ lookup k arch
declare_other k dim none arch h = refl
declare_other k dim (some b) arch h =
    lookup-insert dim k (bool b) arch ∙ ap (λ c. if c then some (bool b) else lookup k arch) h

compare_bool-same : (dim : String) (b : Bool) → compare_bool dim (some b) (some (bool b)) ≡ []
compare_bool-same dim true = refl
compare_bool-same dim false = refl

compare_bool-declare :
    (dim : String) (o : Option Bool) (arch : Dict Json)
    → compare_bool dim o (lookup dim (declare dim o arch)) ≡ []
compare_bool-declare dim none arch = refl
compare_bool-declare dim (some b) arch =
    ap (compare_bool dim (some b)) (
      lookup-insert dim dim (bool b) arch
      ∙ ap (λ c. if c then some (bool b) else lookup dim arch) (str_eq_refl dim))
    ∙ compare_bool-same dim b

compare_role-declared :
    (o : Option String) (role : String) → compare_role o (or_declared o role) ≡ []
compare_role-declared none role = refl
compare_role-declared (some o) role = ground (arith, str_eq_refl o)

compare_os-same :
    (o : String) (d : Option Json) → same_family o d ≡ true → compare_os (some o) d ≡ []
compare_os-same o none h = refl
compare_os-same o (some d) h = ground (arith, h)

compare_os-declare :
    (o : Option String) (os : Dict Json) → compare_os o (lookup "family" (declare_os o os)) ≡ []
unfolding lookup
compare_os-declare none os = refl
compare_os-declare (some o) os = go (same_family o (lookup "family" os)) refl
  where
    go :
        (b : Bool)
        → same_family o (lookup "family" os) ≡ b
        → compare_os (some o) (lookup "family" (if b then os else ("family", str o) ∷ [])) ≡ []
    go true h = compare_os-same o (lookup "family" os) h
    go false h = compare_os-same o (some (str o)) (str_eq_refl o)

-- Once the observed dimensions have replaced the declared ones, nothing disagrees with the
-- observation any more, whatever the target declared and whatever is unknown.
pub compare-observed_target : (o : Observed) (t : Target) → compare o (observed_target t o) ≡ []
unfolding compare observed_target
compare-observed_target o t =
    let rac = declare "rac" o.rac t.architecture in
    let asm = declare "asm" o.asm rac in
    let arch = declare "dataguard" o.dataguard asm in
    let rac_none : compare_bool "rac" o.rac (lookup "rac" arch) ≡ [] =
      ap (compare_bool "rac" o.rac) (
        declare_other "rac" "dataguard" o.dataguard asm refl
        ∙ declare_other "rac" "asm" o.asm rac refl)
      ∙ compare_bool-declare "rac" o.rac t.architecture in
    let asm_none : compare_bool "asm" o.asm (lookup "asm" arch) ≡ [] =
      ap (compare_bool "asm" o.asm) (declare_other "asm" "dataguard" o.dataguard asm refl)
      ∙ compare_bool-declare "asm" o.asm rac in
    let dataguard_none = compare_bool-declare "dataguard" o.dataguard asm in
    let role_none = compare_role-declared o.role t.role in
    let os_none = compare_os-declare o.os_family t.os in
    rw (rac_none, asm_none, dataguard_none, role_none, os_none) refl
