-- ===== src/Schemas/Arguments.antt =====
-- What a handler may rely on once its arguments have passed their schema.
use oracle_diagnostic_estack.Prelude.{ℕ, String, ◌≡◌, refl, true, some, arith}
use oracle_diagnostic_estack.Prelude.Int.{ℤ, pos, ◌≤ℤ◌, leb_ℤ}
use oracle_diagnostic_estack.Prelude.Dict.{contains}
use oracle_diagnostic_estack.Text.{codes}
use oracle_diagnostic_estack.Text.Regex.{Regex, full_match}
use oracle_diagnostic_estack.Schemas.{
  Json, null, int, str, obj, Members, string_of, integer_of, find_property, find_member, string_ok,
  number_ok, NumberRules, StringRules, validate,
}
use oracle_diagnostic_estack.Schemas.Accepted.{object_required, object_optional}
use oracle_diagnostic_estack.Schemas.Tools.{
  Tool, collect, properties, required, input_schema, alias_pattern, collector_pattern, text_rules,
  max_rows_rules, text_arg,
}

string_inversion :
    (v : Json) (rules : StringRules) (depth : ℕ) (w : Json)
    → validate v (string_of rules) depth ≡ some w
    → (s : String) × (v ≡ str s) × (string_ok rules s ≡ true)
unfolding validate
string_inversion (str s) rules depth w h = (s, refl, ground arith)
string_inversion null rules depth w h = absurd (ground arith)
string_inversion _ rules depth w h = absurd (ground arith)

integer_inversion :
    (v : Json) (rules : NumberRules) (depth : ℕ) (w : Json)
    → validate v (integer_of rules) depth ≡ some w
    → (n : ℤ) × (v ≡ int n) × (number_ok rules (λ k. leb_ℤ k n) (λ k. leb_ℤ n k) ≡ true)
unfolding validate
integer_inversion (int n) rules depth w h = (n, refl, ground arith)
integer_inversion null rules depth w h = absurd (ground arith)
integer_inversion _ rules depth w h = absurd (ground arith)

matches :
    (most : ℕ) (r : Regex) (s : String)
    → string_ok (text_rules most r) s ≡ true
    → full_match r (codes s) ≡ true
unfolding string_ok
matches most r s h = ground arith

row_bounds :
    (n : ℤ)
    → number_ok max_rows_rules (λ k. leb_ℤ k n) (λ k. leb_ℤ n k) ≡ true
    → (pos 1 ≤ℤ n) × (n ≤ℤ pos 200)
unfolding number_ok
row_bounds n h = ground arith

-- A required text argument is there and matches its pattern in full.
text_argument :
    (t : Tool) (ms : Members) (w : Json) (k : String) (most : ℕ) (r : Regex)
    → validate (obj ms) (input_schema t) 0 ≡ some w
    → contains (required t) k ≡ true
    → find_property k (properties t) ≡ some (string_of (text_rules most r))
    → (s : String) × (text_arg k ms ≡ some s) × (full_match r (codes s) ≡ true)
unfolding text_arg
text_argument t ms w k most r h c f =
    let (v, u, e, g) =
      object_required ms (properties t) (required t) 0 w h k (string_of (text_rules most r)) c f in
    let (s, same, fine) = string_inversion v (text_rules most r) 1 u g in
    (s, rw (e, same), matches most r s fine)

-- Arguments that pass the schema of `diagnostics.collect` name a collector and a target by texts of
-- the registered shapes, and `max_rows`, where it is given, is an integer from 1 to 200.
pub collect_arguments :
    (ms : Members) (w : Json)
    → validate (obj ms) (input_schema collect) 0 ≡ some w
    → ((cid : String) × (text_arg "collector_id" ms ≡ some cid)
        × (full_match collector_pattern (codes cid) ≡ true))
      × ((alias : String) × (text_arg "target_alias" ms ≡ some alias)
          × (full_match alias_pattern (codes alias) ≡ true))
      × ((v : Json)
          → find_member "max_rows" ms ≡ some v
          → (n : ℤ) × (v ≡ int n) × (pos 1 ≤ℤ n) × (n ≤ℤ pos 200))
unfolding contains find_property
collect_arguments ms w h = (
  text_argument collect ms w "collector_id" 64 collector_pattern h refl refl,
  text_argument collect ms w "target_alias" 41 alias_pattern h refl refl,
  λ v e.
      let (u, g) =
        object_optional ms (properties collect) (required collect) 0 w h "max_rows"
          (integer_of max_rows_rules) v refl e in
      let (n, same, fine) = integer_inversion v max_rows_rules 1 u g in
      let (low, high) = row_bounds n fine in (n, same, low, high),
)
