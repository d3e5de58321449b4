-- ===== src/Tests/IntakeTests.antt =====
-- Runs of the intake of an incident (rca_engine/intake.py) on concrete fixtures.
use oracle_diagnostic_estack.Prelude.{
  ℕ, ◌≡◌, refl, Bool, ◌||◌, ◌&&◌, ◌==◌, leb, none, some, [], ◌∷◌, All,
}
use oracle_diagnostic_estack.Prelude.Int.{pos}
use oracle_diagnostic_estack.Text.{is_space}
use oracle_diagnostic_estack.Schemas.{Json, null, int, str, arr, obj, Items, nil, cons, end, member}
use oracle_diagnostic_estack.Rca.Evidence.{certified}
use oracle_diagnostic_estack.Rca.Intake.{refused, crashed, taken, collect_certified_signatures}
use oracle_diagnostic_estack.Rca.Intake.Item.{Run, Validated, validate_and_sanitize}
use oracle_diagnostic_estack.Rca.Intake.Clean.{IsClean, HasDistinctIds}
use oracle_diagnostic_estack.Rca.Intake.Valid.{validate_and_sanitize-IsClean}

abbrev digit : ℕ → Bool
digit c = leb b'0' c && leb c b'9'

abbrev run : Run
run = record {
  sub = λ p s. s;
  is_word = λ c. digit c || (leb b'A' c && leb c b'Z') || (leb b'a' c && leb c b'z') || c == b'_';
  is_decimal = digit;
  derive = λ namespace id raw. "0";
}

abbrev item : Json → Json → Json
item event_type signature = obj (
    member "evidence_id" (str "E1") (
      member "domain" (str "oracle") (
        member "source_id" (str "db1") (
          member "timestamp" (str "2024") (
            member "event_type" event_type
              (member "signature" signature (member "summary" (str "on db1") end)))))))

abbrev fixture : Items → Json
fixture items = obj (
    member "incident"
      (obj (
        member "id" (str "I1") (
          member "target_id" (str "prod") (member "symptom_description" (str "prod is slow") end))))
      (member "evidence" (arr items) end))

abbrev validated : Validated
validated = record {
  incident = record { id = "I1"; target_id = "TGT-0"; declared_evidence_refs = [] };
  symptom_description = str "TGT-0 is slow";
  evidence =
      record {
        evidence_id = "E1";
        domain = "oracle";
        source_id = "SRC-0";
        event_type = "RECOVERY";
        timestamp = str "2024";
        signature_status = certified;
        canonical_signature = some "ORA-600";
        signature_token = none;
        summary = str "on SRC-0";
        attributes = [];
      }
      ∷ [];
  token_map = ("TGT-0", "prod") ∷ ("SRC-0", "db1") ∷ [];
}

taken_run :
    validate_and_sanitize run [] (fixture (cons (item (str "RECOVERY") (str "ORA-600")) nil))
    ≡ taken validated
unfolding validate_and_sanitize is_space
taken_run = refl

-- The second evidence has the id of the first.
repeated_run :
    validate_and_sanitize run []
      (fixture (cons (item (str "RECOVERY") null) (cons (item (str "RECOVERY") null) nil)))
    ≡ refused
unfolding validate_and_sanitize is_space
repeated_run = refl

-- A list for the type of an event has no hash, and a number for a signature matches no pattern: both
-- raise TypeError.
list_run :
    validate_and_sanitize run [] (fixture (cons (item (arr (cons null nil)) null) nil)) ≡ crashed
unfolding validate_and_sanitize is_space
list_run = refl

number_run :
    validate_and_sanitize run [] (fixture (cons (item (str "RECOVERY") (int (pos 600))) nil))
    ≡ crashed
unfolding validate_and_sanitize is_space
number_run = refl

validate_and_sanitize-IsClean_example :
    All (IsClean run (collect_certified_signatures [])) validated.evidence
    × HasDistinctIds validated.evidence
validate_and_sanitize-IsClean_example =
    validate_and_sanitize-IsClean run []
      (fixture (cons (item (str "RECOVERY") (str "ORA-600")) nil)) validated taken_run
