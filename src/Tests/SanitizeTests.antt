-- ===== src/Tests/SanitizeTests.antt =====
-- Runs of the redaction of values.
use oracle_diagnostic_estack.Prelude.{
  ℕ, String, ◌≡◌, refl, Bool, ◌||◌, ◌&&◌, ◌==◌, leb, none, some, [], ◌∷◌,
}
use oracle_diagnostic_estack.Prelude.Int.{pos}
use oracle_diagnostic_estack.Schemas.{nan, Json, null, int, float, arr, obj, nil, cons, end, member}
use oracle_diagnostic_estack.Text.{is_space}
use oracle_diagnostic_estack.Rca.Evidence.{number}
use oracle_diagnostic_estack.Rca.Sanitize.{Pattern, deep_sanitize, sanitize_attributes}
use oracle_diagnostic_estack.Rca.Sanitize.Limited.{IsLimited, deep_sanitize-IsLimited}

abbrev kept : Pattern → String → String
kept p s = s

abbrev digit : ℕ → Bool
digit c = leb b'0' c && leb c b'9'

abbrev word : ℕ → Bool
word c = digit c || (leb b'A' c && leb c b'Z') || (leb b'a' c && leb c b'z') || c == b'_'

abbrev sample : Json
sample = obj (
    member "sessions" (int (pos 95)) (
      member "token=abc" (int (pos 1))
        (member "load" (float nan) (member "list" (arr (cons null nil)) end))))

abbrev sanitized : Json
sanitized = obj (
    member "sessions" (int (pos 95)) (member "load" null (member "list" (arr (cons null nil)) end)))

-- The pair whose key looks like a secret is dropped.
sample_run : deep_sanitize kept word digit 0 10 sample ≡ some (sanitized, 5)
unfolding deep_sanitize is_space
sample_run = refl

attributes_run :
    sanitize_attributes kept word digit sample ("sessions" ∷ "list" ∷ [])
    ≡ some (("sessions", number (pos 95) 0) ∷ [])
unfolding sanitize_attributes is_space
attributes_run = refl

few_run : deep_sanitize kept word digit 0 3 sample ≡ none
unfolding deep_sanitize is_space
few_run = refl

deep_sanitize-IsLimited_example : IsLimited 0 10 sanitized 5
deep_sanitize-IsLimited_example =
    deep_sanitize-IsLimited kept word digit sample 0 10 sanitized 5 sample_run
