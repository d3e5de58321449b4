-- ===== src/Rca/Engine/Total.antt =====
-- An analysis by rules whose operators are all known gives a result.
use oracle_diagnostic_estack.Prelude.{
  ℕ, ◌+◌, String, refl, ap, ◌∙◌, Option, none, some, List, [], ◌∷◌, All, arith,
}
use oracle_diagnostic_estack.Prelude.Int.{ℤ}
use oracle_diagnostic_estack.Prelude.Dict.{contains}
use oracle_diagnostic_estack.Rca.Evidence.{NormalizedEvidence}
use oracle_diagnostic_estack.Rca.Rules.{Rule, Evaluation, evaluate_rule}
use oracle_diagnostic_estack.Rca.Rules.Total.{IsGiven, HasOps, evaluate_rule-IsGiven}
use oracle_diagnostic_estack.Rca.Hypothesis.{
  Candidate, add_candidate, with_evaluation, candidates, cut, ranks_before, generate_hypotheses,
}
use oracle_diagnostic_estack.Prelude.Sort.{sort_by}
use oracle_diagnostic_estack.Rca.Timeline.{
  Sanitized, Iso, Normalized, parse_timestamp, add_normalized, add_parsed, skewed_sources,
  normalize_from, normalize_evidence,
}
use oracle_diagnostic_estack.Rca.Causality.{build_evidence_manifest}
use oracle_diagnostic_estack.Rca.Engine.{Policy, Incident, ids_of, result_of, run_on, run_rca}

candidates-IsGiven :
    (id : String) (rs : List Rule) (es : List NormalizedEvidence)
    → All HasOps rs
    → IsGiven (candidates id rs es)
unfolding candidates
candidates-IsGiven id [] es h = ([], refl)
candidates-IsGiven id (r ∷ rs) es h =
    go (evaluate_rule r es) (candidates id rs es) (evaluate_rule-IsGiven r es h.0)
      (candidates-IsGiven id rs es h.1)
  where
    go :
        (o : Option Evaluation) (p : Option (List Candidate))
        → IsGiven o
        → IsGiven p
        → IsGiven (with_evaluation id r o p)
    go none p (_, e) k = absurd (ground (arith, e))
    go (some x) none h (_, e) = absurd (ground (arith, e))
    go (some x) (some cs) h k = (add_candidate id r x cs, refl)

generate_hypotheses-IsGiven :
    (id : String) (rs : List Rule) (es : List NormalizedEvidence) (most : ℕ)
    → All HasOps rs
    → IsGiven (generate_hypotheses id rs es most)
unfolding generate_hypotheses
generate_hypotheses-IsGiven id rs es most h =
    let (cs, e) = candidates-IsGiven id rs es h in
    (
      cut most (sort_by ranks_before cs),
      ap (λ o. elim o [ none ↦ none | some ds ↦ some (cut most (sort_by ranks_before ds)) ]) e,
    )

-- The timestamp of the evidence is no text of a time that is out of range in UTC.
abbrev pub IsInRange : Iso → Sanitized → Type 0
IsInRange iso i = IsGiven (parse_timestamp iso i.timestamp)

normalize_from-IsGiven :
    (iso : Iso) (skewed : List String) (n : ℕ) (raw : List Sanitized)
    → All (IsInRange iso) raw
    → IsGiven (normalize_from iso skewed n raw)
unfolding normalize_from
normalize_from-IsGiven iso skewed n [] h = (_, refl)
normalize_from-IsGiven iso skewed n (i ∷ rest) h =
    let (p, e) = h.0 in
    let (norm, f) = normalize_from-IsGiven iso skewed (n + 1) rest h.1 in
    (
      add_normalized i n (contains skewed i.source_id) p norm,
      ap
            (λ o.
              add_parsed i n (contains skewed i.source_id) o
                (normalize_from iso skewed (n + 1) rest))
            e
          ∙ ap (λ o. add_parsed i n (contains skewed i.source_id) (some p) o) f,
    )

run_on-IsGiven :
    (iso : Iso) (bucket : String → ℤ) (policy : Policy) (rs : List Rule) (incident : Incident)
    (raw : List Sanitized) (norm : Normalized)
    → All HasOps rs
    → IsGiven (run_on iso bucket policy rs incident raw (some norm))
run_on-IsGiven iso bucket policy rs incident raw norm h =
    let manifest = build_evidence_manifest incident.declared_evidence_refs (ids_of raw) in
    let (gen, e) =
      generate_hypotheses-IsGiven incident.id rs norm.evidence policy.max_hypotheses h in
    (
      result_of iso bucket policy rs incident norm manifest gen,
      ap
          (λ o. elim o [
            | none ↦ none
            | some g ↦ some (result_of iso bucket policy rs incident norm manifest g)
          ])
          e,
    )

-- With rules whose conditions all have an operator that the engine knows, and evidence none of whose
-- times is out of range in UTC, the engine gives a result on every incident.
pub run_rca-IsGiven :
    (iso : Iso) (bucket : String → ℤ) (policy : Policy) (rs : List Rule) (incident : Incident)
    (raw : List Sanitized)
    → All HasOps rs
    → All (IsInRange iso) raw
    → IsGiven (run_rca iso bucket policy rs incident raw)
unfolding run_rca normalize_evidence
run_rca-IsGiven iso bucket policy rs incident raw h k =
    let skewed = skewed_sources policy.clock_skew_threshold_seconds raw in
    let (norm, e) = normalize_from-IsGiven iso skewed 0 raw k in
    let (x, f) = run_on-IsGiven iso bucket policy rs incident raw norm h in
    (x, ap (run_on iso bucket policy rs incident raw) e ∙ f)
