-- ===== src/Architecture.antt =====
-- mcp_gateway/architecture.py: the architecture that a target's evidence shows, against what the
-- target declares.
-- Parameters: Python's `str.isdigit`, `int` on a text (`none` is ValueError) and `str` of a number.
pub mod View
use Prim.Native.String.{◌++◌ as append}
use oracle_diagnostic_estack.Prelude.{
  ℕ, String, Bool, true, false, not, ◌&&◌, ◌||◌, Option, none, some, List, [], ◌∷◌, ◌++◌, leb, ltb,
  ◌==◌, str_eq, length, if◌then◌else◌,
}
use oracle_diagnostic_estack.Prelude.Int.{ℤ, pos, negsuc, ltb_ℤ}
use oracle_diagnostic_estack.Prelude.Dict.{Dict, lookup, insert, contains}
use oracle_diagnostic_estack.Text.{Text, codes, split}
use oracle_diagnostic_estack.Schemas.{
  Json, null, bool, int, float, str, arr, obj, nil, cons, end, member, finite,
}
use oracle_diagnostic_estack.Evidence.Sanitize.{Released, same, certified, signature_token, utc}
use oracle_diagnostic_estack.Catalog.{Target}

abbrev pub Row : Type 0
Row = Dict Released

-- `rows[0]`, if there is exactly one
abbrev pub only_row : List Row → Row
only_row (r ∷ []) = r
only_row _ = []

-- The text that a released value is, if it is one that could equal a constant of this module: an
-- alias, a hash and a token have a form of their own.
abbrev text_value : Option Released → Option String
text_value (some (same (str s))) = some s
text_value (some (certified s)) = some s
text_value (some (signature_token s)) = some s
text_value (some (utc s)) = some s
text_value _ = none

-- Python's truth of a value
unfoldable pub is_true : Json → Bool
is_true null = false
is_true (bool b) = b
is_true (int (pos n)) = not (n == 0)
is_true (float (finite (pos n) scale)) = not (n == 0)
is_true (str s) = not (str_eq s "")
is_true (arr nil) = false
is_true (obj end) = false
is_true _ = true

unfoldable pub is_present : Option Released → Bool
unfolding is_true
is_present none = false
is_present (some (same j)) = is_true j
is_present (some _) = true

-- `num(k)`: an integer that is no Boolean
abbrev num : Option Released → Option ℤ
num (some (same (int n))) = some n
num _ = none

-- The dimensions that `derive` finds, with the release update that a session adds.
pub record Observed : Type 0 where
  pub rac : Option Bool
  pub asm : Option Bool
  pub dataguard : Option Bool
  pub role : Option String
  pub os_family : Option String
  pub release_update : Option String

abbrev is_text : String → Option String → Bool
is_text k none = false
is_text k (some s) = str_eq s k

abbrev exceeds : ℤ → Option ℤ → Bool
exceeds n none = false
exceeds n (some m) = ltb_ℤ n m

abbrev known : Option ℤ → Bool
known none = false
known (some n) = true

abbrev rac_of : Option ℤ → Option String → Option Bool
rac_of inst flag =
    if known inst || is_text "TRUE" flag || is_text "FALSE" flag
    then some (exceeds (pos 1) inst || is_text "TRUE" flag)
    else none

abbrev asm_of : Option ℤ → Option Bool
asm_of none = none
asm_of (some n) = some (ltb_ℤ (pos 0) n)

abbrev role_of : Option Released → Option String
role_of raw =
    if is_present raw
    then some (if is_text "PRIMARY" (text_value raw) then "PRIMARY" else "STANDBY")
    else none

abbrev dataguard_of : Option String → Option ℤ → Option Bool
dataguard_of none dests = none
dataguard_of (some role) dests = some (str_eq role "STANDBY" || exceeds (pos 0) dests)

abbrev os_families : List String
os_families = "AIX" ∷ "HPUX" ∷ "LINUX" ∷ "MACOS" ∷ "SOLARIS" ∷ "WINDOWS" ∷ []

abbrev family_in : Option String → Option String
family_in none = none
family_in (some s) = if contains os_families s then some s else none

-- `derive`, without the raw facts that it repeats
unfoldable pub derive : List Row → Observed
unfolding lookup is_present contains
derive rows =
    let r = only_row rows in
    let role = role_of (lookup "database_role" r) in
    record {
      rac = rac_of (num (lookup "instance_count" r)) (text_value (lookup "cluster_database" r));
      asm = asm_of (num (lookup "datafiles_in_asm" r));
      dataguard = dataguard_of role (num (lookup "standby_destinations" r));
      role = role;
      os_family = family_in (text_value (lookup "os_family" r));
      release_update = none;
    }

-- a disagreement, with the declared and the observed value
pub record Mismatch : Type 0 where
  pub dimension : String
  pub declared : Json
  pub observed : Json

abbrev bool_eq : Bool → Bool → Bool
bool_eq true b = b
bool_eq false b = not b

abbrev pub compare_bool : String → Option Bool → Option Json → List Mismatch
compare_bool dim (some o) (some (bool d)) =
    if bool_eq o d
    then []
    else record { dimension = dim; declared = bool d; observed = bool o } ∷ []
compare_bool dim _ _ = []

abbrev pub compare_role : Option String → String → List Mismatch
compare_role none declared = []
compare_role (some o) declared =
    if not (str_eq declared "UNKNOWN") && not (str_eq o declared)
    then record { dimension = "role"; declared = str declared; observed = str o } ∷ []
    else []

-- `o == declared` of a text and a value
abbrev pub is_same_text : String → Json → Bool
is_same_text o (str s) = str_eq o s
is_same_text o _ = false

abbrev pub compare_os : Option String → Option Json → List Mismatch
compare_os (some o) (some d) =
    if is_true d && not (is_same_text o d)
    then record { dimension = "os"; declared = d; observed = str o } ∷ []
    else []
compare_os _ _ = []

-- `compare`
unfoldable pub compare : Observed → Target → List Mismatch
unfolding lookup is_true
compare o t =
    compare_bool "rac" o.rac (lookup "rac" t.architecture)
    ++ compare_bool "asm" o.asm (lookup "asm" t.architecture)
    ++ compare_bool "dataguard" o.dataguard (lookup "dataguard" t.architecture)
    ++ compare_role o.role t.role
    ++ compare_os o.os_family (lookup "family" t.os)

-- `arch[dim] = observed[dim]`, if it is known
abbrev pub declare : String → Option Bool → Dict Json → Dict Json
declare dim none arch = arch
declare dim (some b) arch = insert dim (bool b) arch

abbrev pub same_family : String → Option Json → Bool
same_family o none = false
same_family o (some d) = is_same_text o d

abbrev pub declare_os : Option String → Dict Json → Dict Json
declare_os none os = os
declare_os (some o) os = if same_family o (lookup "family" os) then os else ("family", str o) ∷ []

abbrev pub or_declared : Option String → String → String
or_declared none declared = declared
or_declared (some o) declared = o

abbrev or_release : Option String → Option String → Option String
or_release none declared = declared
or_release (some o) declared = some o

-- `ObservedTarget`: observed dimensions replace declared ones
unfoldable pub observed_target : Target → Observed → Target
unfolding insert lookup
observed_target t o = record t {
  architecture =
      declare "dataguard" o.dataguard (declare "asm" o.asm (declare "rac" o.rac t.architecture));
  role = or_declared o.role t.role;
  os = declare_os o.os_family t.os;
  release_update = or_release o.release_update t.release_update;
}

-- `target.observed_architecture[alias].update(derive(rows))`: it keeps an observed release update
unfoldable pub merge : Option Observed → Observed → Observed
merge none new = new
merge (some old) new = record new { release_update = old.release_update }

module _ (isdigit : Text → Bool) (int_of : Text → Option ℕ) (str_of : ℕ → String) where
  -- f"{major}.{update}"; `int` on one of the two may raise ValueError, the outer `none`
  abbrev release_text : Option ℕ → Option ℕ → Option (Option String)
  release_text none update = none
  release_text (some major) none = if ltb major 18 then some none else none
  release_text (some major) (some update) =
      some
        (if ltb major 18 then none else some (append (append (str_of major) ".") (str_of update)))

  abbrev release_of_parts : List Text → Option (Option String)
  release_of_parts (major ∷ update ∷ rest) =
      if isdigit major && isdigit update
      then release_text (int_of major) (int_of update)
      else some none
  release_of_parts _ = some none

  abbrev release_of_text : Option String → Option (Option String)
  release_of_text none = some none
  release_of_text (some v) = release_of_parts (split b'.' (codes v))

  -- `release_update_from_identity`
  unfoldable pub release_update_from_identity : List Row → Option (Option String)
  unfolding lookup split
  release_update_from_identity rows =
      release_of_text (text_value (lookup "version" (only_row rows)))
