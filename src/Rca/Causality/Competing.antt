-- ===== src/Rca/Causality/Competing.antt =====
-- Which hypotheses compete, if none is confirmed.
use oracle_diagnostic_estack.Prelude.{
  ℕ, suc, String, ◌≡◌, ◌≤◌, refl, ap, ◌∙◌, zero, Bool, false, List, [], ◌∷◌, ◌==◌, leb, keep, any,
  all, length, arith, if◌then◌else◌,
}
use oracle_diagnostic_estack.Rca.Hypothesis.{Hypothesis}
use oracle_diagnostic_estack.Rca.Causality.{
  rca_id_of, is_confirmed, is_supported, max_score, top_of, RootCauseCompleteness, among_top,
  among_supported, among_confirmed, aggregate_root_cause,
}

abbrev score : Hypothesis → ℕ
score h = h.independent_source_count

-- Those at a score that is the greatest are there.
top-some :
    (h : Hypothesis) (hs : List Hypothesis)
    → 1 ≤ length (keep (λ k. score k == max_score (h ∷ hs)) (h ∷ hs))
top-some h [] = ground arith
top-some h (k ∷ hs) = ground (arith, top-some k hs)

-- The verdict on a number of equally strong hypotheses.
abbrev pub verdict : ℕ → RootCauseCompleteness
verdict zero = RootCauseCompleteness.insufficient_evidence
verdict (suc zero) = RootCauseCompleteness.probable
verdict (suc (suc n)) = RootCauseCompleteness.inconclusive

among_top-verdict :
    (id : String) (n : ℕ) (top : List Hypothesis)
    → 1 ≤ length top
    → (among_top id n top).completeness ≡ verdict (length top)
among_top-verdict id n [] h = absurd (omega (arith, h))
among_top-verdict id n (k ∷ []) h = refl
among_top-verdict id n (k ∷ l ∷ hs) h = refl

among_supported-verdict :
    (id : String) (hs : List Hypothesis)
    → (among_supported id hs).completeness ≡ verdict (length (top_of hs))
among_supported-verdict id [] = refl
among_supported-verdict id (h ∷ hs) = among_top-verdict id _ (top_of (h ∷ hs)) (top-some h hs)

-- Whether no one of `hs` has a greater score than `h`, and those of `hs` of which this holds.
abbrev pub is_strongest : List Hypothesis → Hypothesis → Bool
is_strongest hs h = all (λ k. leb k.independent_source_count h.independent_source_count) hs

abbrev pub strongest_supported : List Hypothesis → List Hypothesis
strongest_supported hs =
    let supported = keep is_supported hs in keep (is_strongest supported) supported

-- The greatest score is at most `n` where every score is.
max_score-all :
    (hs : List Hypothesis) (n : ℕ) → all (λ k. leb (score k) n) hs ≡ leb (max_score hs) n
max_score-all [] n = ground arith
max_score-all (h ∷ hs) n = ground (arith, max_score-all hs n)

keep-score :
    (hs ks : List Hypothesis)
    → max_score ks ≤ max_score hs
    → keep (λ k. score k == max_score hs) ks ≡ keep (is_strongest hs) ks
keep-score hs [] b = refl
keep-score hs (k ∷ ks) b =
    let rest = keep-score hs ks (omega (arith, b)) in
    let is : (score k == max_score hs) ≡ is_strongest hs k =
      ground (arith, max_score-all hs (score k), b) in
    rw is (ap (λ l. if is_strongest hs k then k ∷ l else l) rest)

top_of-keep : (hs : List Hypothesis) → top_of hs ≡ keep (is_strongest hs) hs
top_of-keep hs = keep-score hs hs (omega arith)

keep-none : (hs : List Hypothesis) → any is_confirmed hs ≡ false → keep is_confirmed hs ≡ []
keep-none [] e = refl
keep-none (h ∷ hs) e = ground (arith, keep-none hs, e)

-- Without a confirmed hypothesis, the number of the supported hypotheses that no other supported one
-- has more independent sources than decides: one is a probable cause, several are inconclusive, none
-- is insufficient evidence.
pub aggregate_root_cause-verdict :
    (incident_id : String) (hs : List Hypothesis)
    → any is_confirmed hs ≡ false
    → (aggregate_root_cause incident_id hs).completeness ≡ verdict (length (strongest_supported hs))
unfolding aggregate_root_cause
aggregate_root_cause-verdict incident_id hs e =
    let supported = keep is_supported hs in
    ap (λ found. (among_confirmed (rca_id_of incident_id) hs found).completeness) (keep-none hs e)
    ∙ among_supported-verdict _ supported
    ∙ ap (λ l. verdict (length l)) (top_of-keep supported)
