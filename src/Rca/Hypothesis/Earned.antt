-- ===== src/Rca/Hypothesis/Earned.antt =====
-- What a confirmed hypothesis rests on.
use oracle_diagnostic_estack.Prelude.{
  ℕ, zero, suc, String, ◌≡◌, ◌≤◌, ◌⊎◌, inl, inr, refl, subst, Option, none, some, List, [], ◌∷◌,
  map, take, length, some-inj, leb, leb→le, All, Bool-cases, arith, pick,
}
use oracle_diagnostic_estack.Prelude.Any.{Any}
use oracle_diagnostic_estack.Prelude.Sort.{sort_by, All-sort_by}
use oracle_diagnostic_estack.Rca.Evidence.{NormalizedEvidence}
use oracle_diagnostic_estack.Rca.Rules.{Rule, Evaluation, evaluate_rule}
use oracle_diagnostic_estack.Rca.Rules.Grounded.{
  NoCritical, HasProof, AreSources, IsGrounded, evaluate_rule-IsGrounded,
}
use oracle_diagnostic_estack.Rca.Hypothesis.{
  confirmed, Hypothesis, status_and_confidence, hypothesis_of, Candidate, add_candidate,
  with_evaluation, candidates, ranks_before, Generated, cut, generate_hypotheses, is_empty,
}

-- No evidence matches a critical contradicting condition of the rule; and an evidence matches its
-- condition for a proof in time, or there are as many different sources as the rule asks for, each of
-- an evidence that matches a supporting condition.
abbrev pub IsEarnedBy : List NormalizedEvidence → Rule → Type 0
IsEarnedBy es r =
    NoCritical es r.contradicting_conditions
    × (HasProof es r.temporal_proof_condition
        ⊎ ((sources : List String) × (r.min_independent_sources ≤ length sources)
            × AreSources es r.supporting_conditions sources))

-- One of the rules has the id that the hypothesis has, and the evidence earns it by that rule.
abbrev pub IsEarned : List Rule → List NormalizedEvidence → Hypothesis → Type 0
IsEarned rs es h = Any (λ r. (r.rule_id ≡ h.rule_id) × IsEarnedBy es r) rs

hypothesis_of-earned :
    (incident_id : String) (r : Rule) (es : List NormalizedEvidence) (e : Evaluation)
    → IsGrounded r es e
    → (hypothesis_of incident_id r e).status ≡ confirmed
    → IsEarnedBy es r
unfolding hypothesis_of status_and_confidence
hypothesis_of-earned incident_id r es e g h =
    elim (Bool-cases e.unresolved_critical_contradiction) [
      | inl c ↦ absurd (ground (arith, c, h))
      | inr c ↦ elim (Bool-cases e.temporal_proof) [
        | inl t ↦ (g.contradictions c, inl (g.proof t))
        | inr t ↦ elim (Bool-cases (leb r.min_independent_sources e.independent_source_count)) [
          | inl s ↦
              let enough = leb→le _ _ s in
              (g.contradictions c, inr (g.sources, omega (arith, enough, g.count), g.are_sources))
          | inr s ↦ absurd (ground (arith, c, t, s, h))
        ]
      ]
    ]

-- a candidate whose hypothesis, if confirmed, is earned
abbrev IsSound : List Rule → List NormalizedEvidence → Candidate → Type 0
IsSound rs es c = c.2.status ≡ confirmed → IsEarned rs es c.2

All-weaken :
    (r : Rule) (rs : List Rule) (es : List NormalizedEvidence) (cs : List Candidate)
    → All (IsSound rs es) cs
    → All (IsSound (r ∷ rs) es) cs
All-weaken r rs es [] h = tt
All-weaken r rs es (c ∷ cs) h = (λ e. inr (h.0 e), All-weaken r rs es cs h.1)

add_candidate-All :
    (incident_id : String) (r : Rule) (rs : List Rule) (es : List NormalizedEvidence)
    (e : Evaluation) (rest : List Candidate)
    → IsGrounded r es e
    → All (IsSound rs es) rest
    → All (IsSound (r ∷ rs) es) (add_candidate incident_id r e rest)
unfolding hypothesis_of
add_candidate-All incident_id r rs es e rest g h =
    pick (All (IsSound (r ∷ rs) es)) (is_empty e.symptom_evidence_ids) rest
      ((r, e, hypothesis_of incident_id r e) ∷ rest) (All-weaken r rs es rest h)
      (λ c. inl (refl, hypothesis_of-earned incident_id r es e g c), All-weaken r rs es rest h)

candidates-All :
    (incident_id : String) (rs : List Rule) (es : List NormalizedEvidence) (cs : List Candidate)
    → candidates incident_id rs es ≡ some cs
    → All (IsSound rs es) cs
unfolding candidates
candidates-All incident_id [] es cs e = subst (All (IsSound [] es)) (some-inj e) tt
candidates-All incident_id (r ∷ rs) es cs e =
    go (evaluate_rule r es) refl (candidates incident_id rs es) (candidates-All incident_id rs es) e
  where
    go :
        (o : Option Evaluation)
        → evaluate_rule r es ≡ o
        → (p : Option (List Candidate))
        → ((ds : List Candidate) → p ≡ some ds → All (IsSound rs es) ds)
        → with_evaluation incident_id r o p ≡ some cs
        → All (IsSound (r ∷ rs) es) cs
    go none q p ih h = absurd (ground (arith, h))
    go (some x) q none ih h = absurd (ground (arith, h))
    go (some x) q (some ds) ih h = subst (All (IsSound (r ∷ rs) es)) (some-inj h) (
        add_candidate-All incident_id r rs es x ds (evaluate_rule-IsGrounded r es x q) (ih ds refl))

All-take :
    (P : Hypothesis → Type 0) (n : ℕ) (cs : List Candidate)
    → All (λ c. P c.2) cs
    → All P (map (λ c. c.2) (take n cs))
All-take P zero cs h = tt
All-take P (suc n) [] h = tt
All-take P (suc n) (c ∷ cs) h = (h.0, All-take P n cs h.1)

-- Each hypothesis that is generated as confirmed comes from a rule of the catalog that it is earned
-- by.
pub generate_hypotheses-IsEarned :
    (incident_id : String) (rs : List Rule) (es : List NormalizedEvidence) (most : ℕ)
    (gen : Generated)
    → generate_hypotheses incident_id rs es most ≡ some gen
    → All (λ h. h.status ≡ confirmed → IsEarned rs es h) gen.hypotheses
unfolding generate_hypotheses
generate_hypotheses-IsEarned incident_id rs es most gen e =
    go (candidates incident_id rs es) (candidates-All incident_id rs es) e
  where
    go :
        (o : Option (List Candidate))
        → ((cs : List Candidate) → o ≡ some cs → All (IsSound rs es) cs)
        → (elim o [ none ↦ none | some cs ↦ some (cut most (sort_by ranks_before cs)) ]) ≡ some gen
        → All (λ h. h.status ≡ confirmed → IsEarned rs es h) gen.hypotheses
    go none ih h = absurd (ground (arith, h))
    go (some cs) ih h =
        subst (λ g. All (λ k. k.status ≡ confirmed → IsEarned rs es k) g.hypotheses) (some-inj h)
          (All-take (λ k. k.status ≡ confirmed → IsEarned rs es k) most (sort_by ranks_before cs)
            (All-sort_by ranks_before (IsSound rs es) cs (ih cs refl)))
