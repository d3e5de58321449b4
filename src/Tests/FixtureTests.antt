-- ===== src/Tests/FixtureTests.antt =====
-- Runs of the engine on a fixture, from the intake to the result (rca_engine/engine.py).
use oracle_diagnostic_estack.Prelude.{
  ℕ, String, ◌≡◌, refl, Bool, true, false, ◌||◌, ◌&&◌, ◌==◌, leb, none, some, [], ◌∷◌, any, arith,
}
use oracle_diagnostic_estack.Prelude.Int.{ℤ, pos}
use oracle_diagnostic_estack.Prelude.Dict.{Dict, contains}
use oracle_diagnostic_estack.Text.{is_space}
use oracle_diagnostic_estack.Schemas.{Json, int, str, arr, obj, nil, cons, end, member}
use oracle_diagnostic_estack.Rca.Evidence.{number}
use oracle_diagnostic_estack.Rca.Rules.{Rule, scalar, gt}
use oracle_diagnostic_estack.Rca.Timeline.{Iso}
use oracle_diagnostic_estack.Rca.Causality.{is_confirmed}
use oracle_diagnostic_estack.Rca.Engine.{Policy, RcaResult}
use oracle_diagnostic_estack.Rca.Intake.{Intake, refused, crashed, taken}
use oracle_diagnostic_estack.Rca.Intake.Item.{Run}
use oracle_diagnostic_estack.Rca.Fixture.{run_fixture}

abbrev digit : ℕ → Bool
digit c = leb b'0' c && leb c b'9'

abbrev run : Run
run = record {
  sub = λ p s. s;
  is_word = λ c. digit c || (leb b'A' c && leb c b'Z') || (leb b'a' c && leb c b'z') || c == b'_';
  is_decimal = digit;
  derive = λ namespace id raw. raw;
}

abbrev iso : Iso
iso = record { offset_of = λ t. some true; to_utc = λ t. some "2024" }

abbrev bucket : String → ℤ
bucket t = pos 0

abbrev policy : Policy
policy = record { max_hypotheses = 1; clock_skew_threshold_seconds = number (pos 5) 0 }

-- a rule that asks for two sources with more than 90 sessions
abbrev rule : Rule
rule = record {
  rule_id = "R-1";
  domain = "oracle";
  statement = "the sessions are exhausted";
  causal_chain = [];
  symptom_match = record { signature_any = "ORA-00020" ∷ []; event_type_any = [] };
  supporting_conditions =
      record {
        domain = some "oracle";
        attribute = "sessions";
        op = some gt;
        value = scalar (number (pos 90) 0);
        critical = true;
        description = none;
      }
      ∷ [];
  contradicting_conditions = [];
  temporal_proof_condition = none;
  min_independent_sources = 2;
  manual_actions = [];
}

abbrev item : (id source : String) → Json
item id source = obj (
    member "evidence_id" (str id) (
      member "domain" (str "oracle") (
        member "source_id" (str source) (
          member "timestamp" (str "2024") (
            member "event_type" (str "ALERT_TRIGGERED") (
              member "signature" (str "ORA-00020")
                (member "attributes" (obj (member "sessions" (int (pos 95)) end)) end)))))))

abbrev fixture : Json
fixture = obj (
    member "incident"
      (obj (
        member "id" (str "INC-1") (
          member "target_id" (str "prod") (
            member "symptom_description" (str "prod is slow")
              (member "declared_evidence_refs" (arr (cons (str "EVD-1") nil)) end)))))
      (member "evidence" (arr (cons (item "EVD-1" "a") (cons (item "EVD-2" "b") nil))) end))

abbrev is_taken : {A : Type 0} → Intake A → Bool
is_taken refused = false
is_taken crashed = false
is_taken (taken a) = true

false≢true : false ≡ true → ⊥
false≢true h = ground (arith, h)

abbrev extract : {A : Type 0} → (o : Intake A) → is_taken o ≡ true → A
extract refused h = absurd (false≢true h)
extract crashed h = absurd (false≢true h)
extract (taken a) h = a

unfoldable result : RcaResult × Dict String
unfolding run_fixture is_space contains
result = extract (run_fixture iso bucket run policy (rule ∷ []) fixture) refl

fixture_run : run_fixture iso bucket run policy (rule ∷ []) fixture ≡ taken (result.0, result.1)
unfolding run_fixture result is_space contains
fixture_run = refl

tokens_run : result.1 ≡ ("TGT-prod", "prod") ∷ ("SRC-a", "a") ∷ ("SRC-b", "b") ∷ []
unfolding result
tokens_run = refl

-- The two sources confirm the hypothesis.
confirmed_run : any is_confirmed result.0.hypotheses ≡ true
unfolding result
confirmed_run = refl
