-- ===== src/Tests/SchemasTests.antt =====
-- Runs of the argument validation.
use oracle_diagnostic_estack.Prelude.{◌≤◌, String, ◌≡◌, refl, true, some, none}
use oracle_diagnostic_estack.Prelude.Int.{ℤ, pos, ◌≤ℤ◌}
use oracle_diagnostic_estack.Text.{codes}
use oracle_diagnostic_estack.Text.Regex.{full_match}
use oracle_diagnostic_estack.Schemas.{
  Json, int, str, bool, obj, Members, end, member, validate, find_member,
}
use oracle_diagnostic_estack.Schemas.Accepted.{IsClean, nesting, validate-accepted}
use oracle_diagnostic_estack.Schemas.Tools.{
  collect, input_schema, text_arg, alias_pattern, collector_pattern,
}
use oracle_diagnostic_estack.Schemas.Arguments.{collect_arguments}

abbrev request : Members
request =
    member "collector_id" (str "Q-DISC-CLOCK-001")
      (member "target_alias" (str "prod-19c") (member "max_rows" (int (pos 5)) end))

accepts : validate (obj request) (input_schema collect) 0 ≡ some (obj request)
unfolding validate
accepts = refl

-- A Boolean is no integer, an unknown key is refused, and so is a missing one.
refuses_bool :
    validate (obj (member "max_rows" (bool true) request)) (input_schema collect) 0 ≡ none
unfolding validate
refuses_bool = refl

refuses_sql : validate (obj (member "sql" (str "select 1") request)) (input_schema collect) 0 ≡ none
unfolding validate
refuses_sql = refl

refuses_missing : validate (obj end) (input_schema collect) 0 ≡ none
unfolding validate
refuses_missing = refl

validate-accepted_example :
    (obj request ≡ obj request) × IsClean (obj request) × (nesting (obj request) ≤ 7)
validate-accepted_example =
    validate-accepted (obj request) (input_schema collect) (obj request) accepts

collect_arguments_example :
    ((cid : String) × (text_arg "collector_id" request ≡ some cid)
      × (full_match collector_pattern (codes cid) ≡ true))
    × ((alias : String) × (text_arg "target_alias" request ≡ some alias)
        × (full_match alias_pattern (codes alias) ≡ true))
    × ((v : Json)
        → find_member "max_rows" request ≡ some v
        → (n : ℤ) × (v ≡ int n) × (pos 1 ≤ℤ n) × (n ≤ℤ pos 200))
collect_arguments_example = collect_arguments request (obj request) accepts
