-- ===== src/Rca/Rules/Eligible.antt =====
-- Evidence of a recovery never counts for a rule.
use oracle_diagnostic_estack.Prelude.{
  ◌≡◌, refl, ap, ◌∙◌, Bool, true, false, Option, none, some, List, [], ◌∷◌, keep, arith, inl, inr,
  Bool-cases, if◌then◌else◌,
}
use oracle_diagnostic_estack.Rca.Evidence.{NormalizedEvidence}
use oracle_diagnostic_estack.Rca.Rules.{
  Condition, SymptomMatch, Rule, Support, Contradiction, is_eligible, condition_matches,
  symptom_matches, matching, keep_if_matched, support, add_support, contradict, add_contradiction,
  any_matches, or_later, proof_of, symptom_ids, evaluate_rule, no_support, no_contradiction,
}

abbrev eligible : List NormalizedEvidence → List NormalizedEvidence
eligible es = keep is_eligible es

condition_matches-ineligible :
    (e : NormalizedEvidence) (c : Condition)
    → is_eligible e ≡ false
    → condition_matches e c ≡ some false
unfolding condition_matches
condition_matches-ineligible e c h = rw h refl

symptom_matches-ineligible :
    (e : NormalizedEvidence) (m : SymptomMatch)
    → is_eligible e ≡ false
    → symptom_matches e m ≡ false
unfolding symptom_matches
symptom_matches-ineligible e m h = rw h refl

keep_if_matched-false :
    (e : NormalizedEvidence) (o : Option (List NormalizedEvidence))
    → keep_if_matched e (some false) o ≡ o
keep_if_matched-false e none = refl
keep_if_matched-false e (some es) = refl

matching-eligible :
    (c : Condition) (es : List NormalizedEvidence) → matching c es ≡ matching c (eligible es)
unfolding matching
matching-eligible c [] = refl
matching-eligible c (e ∷ es) = go (is_eligible e) refl (matching-eligible c es)
  where
    go :
        (b : Bool)
        → is_eligible e ≡ b
        → matching c es ≡ matching c (eligible es)
        → keep_if_matched e (condition_matches e c) (matching c es)
          ≡ matching c (if b then e ∷ eligible es else eligible es)
    go true h rest = ap (keep_if_matched e (condition_matches e c)) rest
    go false h rest =
        ap (λ o. keep_if_matched e o (matching c es)) (condition_matches-ineligible e c h)
        ∙ keep_if_matched-false e (matching c es)
        ∙ rest

any_matches-eligible :
    (c : Condition) (es : List NormalizedEvidence) → any_matches c es ≡ any_matches c (eligible es)
unfolding any_matches
any_matches-eligible c [] = refl
any_matches-eligible c (e ∷ es) = go (is_eligible e) refl (any_matches-eligible c es)
  where
    go :
        (b : Bool)
        → is_eligible e ≡ b
        → any_matches c es ≡ any_matches c (eligible es)
        → or_later (condition_matches e c) (any_matches c es)
          ≡ any_matches c (if b then e ∷ eligible es else eligible es)
    go true h rest = ap (or_later (condition_matches e c)) rest
    go false h rest =
        ap (λ o. or_later o (any_matches c es)) (condition_matches-ineligible e c h) ∙ rest

symptom_ids-eligible :
    (r : Rule) (es : List NormalizedEvidence) → symptom_ids r es ≡ symptom_ids r (eligible es)
symptom_ids-eligible r [] = refl
symptom_ids-eligible r (e ∷ es) = elim (Bool-cases (is_eligible e)) [
  | inl h ↦ ground (arith, symptom_ids-eligible r es, h)
  | inr h ↦
      ground (arith, symptom_ids-eligible r es, h, symptom_matches-ineligible e r.symptom_match h)
]

support-eligible :
    (cs : List Condition) (es : List NormalizedEvidence) (s : Support)
    → support cs es s ≡ support cs (eligible es) s
unfolding support
support-eligible [] es s = refl
support-eligible (c ∷ cs) es s =
    go (matching c es) (matching-eligible c es)
      (λ found. support-eligible cs es (add_support c found s))
  where
    go :
        (o : Option (List NormalizedEvidence))
        → o ≡ matching c (eligible es)
        → ((found : List NormalizedEvidence)
            → support cs es (add_support c found s)
              ≡ support cs (eligible es) (add_support c found s))
        → (elim o [ none ↦ none | some found ↦ support cs es (add_support c found s) ])
          ≡ support (c ∷ cs) (eligible es) s
    go none h rest =
        ap
          (λ o. elim o [
            | none ↦ none
            | some found ↦ support cs (eligible es) (add_support c found s)
          ])
          h
    go (some found) h rest =
        rest found
        ∙ ap
            (λ o. elim o [
              | none ↦ none
              | some found ↦ support cs (eligible es) (add_support c found s)
            ])
            h

contradict-eligible :
    (cs : List Condition) (es : List NormalizedEvidence) (x : Contradiction)
    → contradict cs es x ≡ contradict cs (eligible es) x
unfolding contradict
contradict-eligible [] es x = refl
contradict-eligible (c ∷ cs) es x =
    go (matching c es) (matching-eligible c es)
      (λ found. contradict-eligible cs es (add_contradiction c found x))
  where
    go :
        (o : Option (List NormalizedEvidence))
        → o ≡ matching c (eligible es)
        → ((found : List NormalizedEvidence)
            → contradict cs es (add_contradiction c found x)
              ≡ contradict cs (eligible es) (add_contradiction c found x))
        → (elim o [ none ↦ none | some found ↦ contradict cs es (add_contradiction c found x) ])
          ≡ contradict (c ∷ cs) (eligible es) x
    go none h rest =
        ap
          (λ o. elim o [
            | none ↦ none
            | some found ↦ contradict cs (eligible es) (add_contradiction c found x)
          ])
          h
    go (some found) h rest =
        rest found
        ∙ ap
            (λ o. elim o [
              | none ↦ none
              | some found ↦ contradict cs (eligible es) (add_contradiction c found x)
            ])
            h

proof_of-eligible :
    (o : Option Condition) (es : List NormalizedEvidence) → proof_of o es ≡ proof_of o (eligible es)
proof_of-eligible none es = refl
proof_of-eligible (some c) es = any_matches-eligible c es

-- What a rule finds in evidence is what it finds in those items alone whose type of event is
-- eligible for causes: an item of a recovery neither supports, contradicts nor proves anything, and
-- is no symptom.
pub evaluate_rule-eligible :
    (r : Rule) (es : List NormalizedEvidence)
    → evaluate_rule r es ≡ evaluate_rule r (keep is_eligible es)
unfolding evaluate_rule
evaluate_rule-eligible r es =
    rw
      (
        symptom_ids-eligible r es,
        support-eligible r.supporting_conditions es no_support,
        contradict-eligible r.contradicting_conditions es no_contradiction,
        proof_of-eligible r.temporal_proof_condition es,
      )
      refl
