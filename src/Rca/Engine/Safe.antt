-- ===== src/Rca/Engine/Safe.antt =====
-- What a confirmed cause of a whole analysis rests on.
use oracle_diagnostic_estack.Prelude.{
  String, ◌≡◌, ◌≤◌, refl, subst, true, false, Option, none, some, List, [], ◌∷◌, map, any, length,
  some-inj, All, arith,
}
use oracle_diagnostic_estack.Prelude.Int.{ℤ}
use oracle_diagnostic_estack.Prelude.Dict.{is_subset}
use oracle_diagnostic_estack.Rca.Rules.{Rule}
use oracle_diagnostic_estack.Rca.Hypothesis.{
  Hypothesis, HypothesisStatus, opened, supported, weakened, rejected, confirmed,
  insufficient_evidence, Generated, generate_hypotheses,
}
use oracle_diagnostic_estack.Rca.Hypothesis.Earned.{IsEarned, generate_hypotheses-IsEarned}
use oracle_diagnostic_estack.Rca.Timeline.{Sanitized, Iso, Normalized, normalize_evidence}
use oracle_diagnostic_estack.Rca.Causality.{
  EvidenceManifest, complete, build_evidence_manifest, is_confirmed,
  apply_evidence_completeness_gate, aggregate_root_cause,
}
use oracle_diagnostic_estack.Rca.Causality.Confirmed.{
  gate-All, build_evidence_manifest-complete, aggregate_root_cause-confirmed,
  build_recommendations-confirmed,
}
use oracle_diagnostic_estack.Rca.Engine.{
  Policy, Incident, RcaResult, ids_of, result_of, run_on, run_rca,
}

is_confirmed-status : (h : Hypothesis) → is_confirmed h ≡ true → h.status ≡ confirmed
is_confirmed-status h e = go h.status e
  where
    go :
        (s : HypothesisStatus)
        → (elim s [ HypothesisStatus.confirmed ↦ true | _ ↦ false ]) ≡ true
        → s ≡ confirmed
    go opened e = absurd (ground (arith, e))
    go supported e = absurd (ground (arith, e))
    go weakened e = absurd (ground (arith, e))
    go rejected e = absurd (ground (arith, e))
    go confirmed e = refl
    go insufficient_evidence e = absurd (ground (arith, e))

All-map :
    (P Q : Hypothesis → Type 0) (hs : List Hypothesis)
    → ((h : Hypothesis) → P h → Q h)
    → All P hs
    → All Q hs
All-map P Q [] f ps = tt
All-map P Q (h ∷ hs) f ps = (f h ps.0, All-map P Q hs f ps.1)

module _ (iso : Iso) (bucket : String → ℤ) where
  abbrev manifest_of : Incident → List Sanitized → EvidenceManifest
  manifest_of incident raw = build_evidence_manifest incident.declared_evidence_refs (ids_of raw)

  -- What a result is made of: the normalized evidence, and what is generated from it.
  pub record IsRun (policy : Policy) (rs : List Rule) (incident : Incident) (raw : List Sanitized)
      (x : RcaResult) : Type 0 where
    pub norm : Normalized
    pub gen : Generated
    pub normalizes : normalize_evidence iso policy.clock_skew_threshold_seconds raw ≡ some norm
    pub generates :
        generate_hypotheses incident.id rs norm.evidence policy.max_hypotheses ≡ some gen
    pub result : result_of iso bucket policy rs incident norm (manifest_of incident raw) gen ≡ x

  run_on-IsRun :
      (policy : Policy) (rs : List Rule) (incident : Incident) (raw : List Sanitized)
      (x : RcaResult) (o : Option Normalized)
      → normalize_evidence iso policy.clock_skew_threshold_seconds raw ≡ o
      → run_on iso bucket policy rs incident raw o ≡ some x
      → IsRun policy rs incident raw x
  run_on-IsRun policy rs incident raw x none n h = absurd (ground (arith, h))
  run_on-IsRun policy rs incident raw x (some norm) n h =
      go (generate_hypotheses incident.id rs norm.evidence policy.max_hypotheses) refl h
    where
      go :
          (o : Option Generated)
          → generate_hypotheses incident.id rs norm.evidence policy.max_hypotheses ≡ o
          → (elim o [
            | none ↦ none
            | some gen ↦
                some (result_of iso bucket policy rs incident norm (manifest_of incident raw) gen)
          ])
            ≡ some x
          → IsRun policy rs incident raw x
      go none g h = absurd (ground (arith, h))
      go (some gen) g h = record {
        norm = norm;
        gen = gen;
        normalizes = n;
        generates = g;
        result = some-inj h;
      }

  run_rca-IsRun :
      (policy : Policy) (rs : List Rule) (incident : Incident) (raw : List Sanitized)
      (x : RcaResult)
      → run_rca iso bucket policy rs incident raw ≡ some x
      → IsRun policy rs incident raw x
  unfolding run_rca
  run_rca-IsRun policy rs incident raw x e = run_on-IsRun policy rs incident raw x _ refl e

  -- The hypothesis is earned by the evidence if it is confirmed, and all declared evidence is there.
  abbrev IsSafe : List Rule → Incident → List Sanitized → Normalized → Hypothesis → Type 0
  IsSafe rs incident raw norm h =
      is_confirmed h ≡ true
      → (is_subset incident.declared_evidence_refs (map (λ i. i.evidence_id) raw) ≡ true)
        × IsEarned rs norm.evidence h

  run-IsSafe :
      (policy : Policy) (rs : List Rule) (incident : Incident) (raw : List Sanitized)
      (x : RcaResult) (p : IsRun policy rs incident raw x)
      → All
          (IsSafe rs incident raw p.norm)
          (result_of iso bucket policy rs incident p.norm
            (manifest_of incident raw)
            p.gen).hypotheses
  run-IsSafe policy rs incident raw x p =
      let m = manifest_of incident raw in
      let es = p.norm.evidence in
      let earned =
        generate_hypotheses-IsEarned incident.id rs es policy.max_hypotheses p.gen p.generates in
      All-map (λ h. is_confirmed h ≡ true → (m.completeness ≡ complete) × IsEarned rs es h)
        (IsSafe rs incident raw p.norm)
        (apply_evidence_completeness_gate m.completeness p.gen.hypotheses)
        (λ h k c. (
          build_evidence_manifest-complete incident.declared_evidence_refs (ids_of raw) (k c).0,
          (k c).1,
        ))
        (gate-All (IsEarned rs es) m.completeness p.gen.hypotheses (
          All-map (λ h. h.status ≡ confirmed → IsEarned rs es h)
            (λ h. is_confirmed h ≡ true → IsEarned rs es h) p.gen.hypotheses
            (λ h k c. k (is_confirmed-status h c)) earned))

  -- For a result of the engine, the evidence can be normalized, and each confirmed hypothesis comes
  -- from a rule of the catalog: no normalized evidence matches a critical contradicting condition of
  -- the rule; one matches its condition for a proof in time, or there are as many different sources
  -- as the rule asks for, each of an evidence that matches a supporting condition; and each declared
  -- evidence is there.
  pub run_rca-IsEarned :
      (policy : Policy) (rs : List Rule) (incident : Incident) (raw : List Sanitized)
      (x : RcaResult)
      → run_rca iso bucket policy rs incident raw ≡ some x
      → (norm : Normalized) × (normalize_evidence iso policy.clock_skew_threshold_seconds raw
          ≡ some norm)
        × All
            (λ h.
              is_confirmed h ≡ true
              → (is_subset incident.declared_evidence_refs (map (λ i. i.evidence_id) raw) ≡ true)
                × IsEarned rs norm.evidence h)
            x.hypotheses
  run_rca-IsEarned policy rs incident raw x e =
      let p = run_rca-IsRun policy rs incident raw x e in
      (
        p.norm,
        p.normalizes,
        subst (λ y. All (IsSafe rs incident raw p.norm) y.hypotheses) p.result
            (run-IsSafe policy rs incident raw x p),
      )

  -- A result that recommends anything has a confirmed hypothesis.
  pub run_rca-recommended :
      (policy : Policy) (rs : List Rule) (incident : Incident) (raw : List Sanitized)
      (x : RcaResult)
      → run_rca iso bucket policy rs incident raw ≡ some x
      → 1 ≤ length x.recommendations
      → any is_confirmed x.hypotheses ≡ true
  run_rca-recommended policy rs incident raw x e =
      let p = run_rca-IsRun policy rs incident raw x e in
      let m = manifest_of incident raw in
      let hs = apply_evidence_completeness_gate m.completeness p.gen.hypotheses in
      subst (λ y. 1 ≤ length y.recommendations → any is_confirmed y.hypotheses ≡ true) p.result
        (λ more.
          (aggregate_root_cause-confirmed incident.id hs).0
            (build_recommendations-confirmed rs hs (aggregate_root_cause incident.id hs) more))
