-- ===== src/Rca/Causality/Confirmed.antt =====
-- When a root cause is confirmed, and what is recommended.
use oracle_diagnostic_estack.Prelude.{
  ℕ, String, ◌≡◌, ◌↔◌, ◌≤◌, refl, sym, ◌∙◌, Bool, true, false, not, List, [], ◌∷◌, ◌++◌, keep, any,
  length, length-append, All, arith, if◌then◌else◌, pick_if,
}
use oracle_diagnostic_estack.Prelude.Dict.{contains, is_subset}
use oracle_diagnostic_estack.Prelude.Sort.{length-sort_by}
use oracle_diagnostic_estack.Text.{str_lt}
use oracle_diagnostic_estack.Rca.Common.{add_new, as_set, sorted_set}
use oracle_diagnostic_estack.Rca.Hypothesis.{Hypothesis}
use oracle_diagnostic_estack.Rca.Rules.{Rule, Action}
use oracle_diagnostic_estack.Rca.Causality.{
  EvidenceManifestCompleteness, complete, incomplete_refs, completeness_of, build_evidence_manifest,
  is_confirmed, is_supported, lowered, capped, apply_evidence_completeness_gate,
  RootCauseCompleteness, RootCauseResult, among_top, among_supported, among_confirmed, top_of,
  recommended, aggregate_root_cause, build_recommendations,
}

capped-is_confirmed : (h : Hypothesis) → is_confirmed (capped h) ≡ false
capped-is_confirmed h =
    pick_if (λ k. is_confirmed k ≡ false) (is_confirmed h) (lowered h) h (λ _. refl) (λ e. e)

false≢true : false ≡ true → ⊥
false≢true e = ground (arith, e)

-- What survives the gate as confirmed was confirmed before it, and no reference is missing.
pub gate-All :
    (P : Hypothesis → Type 0) (c : EvidenceManifestCompleteness) (hs : List Hypothesis)
    → All (λ h. is_confirmed h ≡ true → P h) hs
    → All
        (λ h. is_confirmed h ≡ true → (c ≡ complete) × P h)
        (apply_evidence_completeness_gate c hs)
unfolding apply_evidence_completeness_gate
gate-All P complete [] ps = tt
gate-All P complete (h ∷ hs) ps = (λ e. (refl, ps.0 e), gate-All P complete hs ps.1)
gate-All P incomplete_refs [] ps = tt
gate-All P incomplete_refs (h ∷ hs) ps =
    (λ e. absurd (false≢true (sym (capped-is_confirmed h) ∙ e)), gate-All P incomplete_refs hs ps.1)

length-add_new : (x : String) (xs : List String) → length (add_new x xs) ≡ 0 → ⊥
unfolding contains
length-add_new x xs e = go xs (contains xs x) refl e
  where
    go :
        (ys : List String) (b : Bool)
        → contains ys x ≡ b
        → length (if b then ys else ys ++ x ∷ []) ≡ 0
        → ⊥
    go [] true h e = false≢true h
    go (y ∷ ys) true h e = ground (arith, e)
    go ys false h e = ground (arith, e, length-append ys (x ∷ []))

length-as_set : (xs : List String) → length (as_set xs) ≡ 0 → length xs ≡ 0
unfolding as_set
length-as_set [] e = refl
length-as_set (x ∷ xs) e = absurd (length-add_new x (as_set xs) e)

completeness_of-length : (xs : List String) → completeness_of xs ≡ complete → length xs ≡ 0
completeness_of-length [] e = refl
completeness_of-length (x ∷ xs) e = absurd (ground (arith, e))

is_subset-keep :
    (declared present : List String)
    → length (keep (λ r. not (contains present r)) declared) ≡ 0
    → is_subset declared present ≡ true
unfolding is_subset
is_subset-keep [] present e = refl
is_subset-keep (d ∷ declared) present e = ground (arith, is_subset-keep declared present, e)

-- A manifest is complete only if each declared reference is present.
pub build_evidence_manifest-complete :
    (declared present : List String)
    → (build_evidence_manifest declared present).completeness ≡ complete
    → is_subset declared present ≡ true
unfolding build_evidence_manifest
build_evidence_manifest-complete declared present e =
    let missing = keep (λ r. not (contains present r)) declared in
    is_subset-keep declared present (
      length-as_set missing (
        sym (length-sort_by str_lt (as_set missing))
        ∙ completeness_of-length (sorted_set missing) e))

among_top-completeness :
    (id : String) (n : ℕ) (hs : List Hypothesis)
    → (among_top id n hs).completeness ≡ RootCauseCompleteness.confirmed
    → ⊥
among_top-completeness id n [] e = ground (arith, e)
among_top-completeness id n (h ∷ []) e = ground (arith, e)
among_top-completeness id n (h ∷ k ∷ hs) e = ground (arith, e)

among_supported-completeness :
    (id : String) (hs : List Hypothesis)
    → (among_supported id hs).completeness ≡ RootCauseCompleteness.confirmed
    → ⊥
among_supported-completeness id [] e = ground (arith, e)
among_supported-completeness id (h ∷ hs) e = among_top-completeness id _ (top_of (h ∷ hs)) e

among_confirmed-some :
    (id : String) (hs found : List Hypothesis)
    → (among_confirmed id hs found).completeness ≡ RootCauseCompleteness.confirmed
    → 1 ≤ length found
among_confirmed-some id hs [] e = absurd (among_supported-completeness id (keep is_supported hs) e)
among_confirmed-some id hs (c ∷ cs) e = omega arith

some-among_confirmed :
    (id : String) (hs found : List Hypothesis)
    → 1 ≤ length found
    → (among_confirmed id hs found).completeness ≡ RootCauseCompleteness.confirmed
some-among_confirmed id hs [] e = absurd (omega (arith, e))
some-among_confirmed id hs (c ∷ cs) e = refl

length-keep-any :
    (p : Hypothesis → Bool) (hs : List Hypothesis) → (1 ≤ length (keep p hs)) ↔ (any p hs ≡ true)
length-keep-any p [] = ground arith
length-keep-any p (h ∷ hs) = ground (arith, length-keep-any p hs)

-- The root cause is confirmed exactly when one of the hypotheses is.
pub aggregate_root_cause-confirmed :
    (incident_id : String) (hs : List Hypothesis)
    → ((aggregate_root_cause incident_id hs).completeness ≡ RootCauseCompleteness.confirmed)
      ↔ (any is_confirmed hs ≡ true)
unfolding aggregate_root_cause
aggregate_root_cause-confirmed incident_id hs = (
  λ e. (length-keep-any is_confirmed hs).0 (among_confirmed-some _ hs (keep is_confirmed hs) e),
  λ e. some-among_confirmed _ hs (keep is_confirmed hs) ((length-keep-any is_confirmed hs).1 e),
)

recommended-confirmed :
    (c : RootCauseCompleteness) (id : String) (actions : List Action)
    → 1 ≤ length (recommended c id actions)
    → c ≡ RootCauseCompleteness.confirmed
recommended-confirmed RootCauseCompleteness.confirmed id actions h = refl
recommended-confirmed RootCauseCompleteness.probable id actions h = absurd (omega (arith, h))
recommended-confirmed RootCauseCompleteness.inconclusive id actions h = absurd (omega (arith, h))
recommended-confirmed RootCauseCompleteness.insufficient_evidence id actions h =
    absurd (omega (arith, h))

-- Nothing is recommended unless the root cause is confirmed.
pub build_recommendations-confirmed :
    (rs : List Rule) (hs : List Hypothesis) (x : RootCauseResult)
    → 1 ≤ length (build_recommendations rs hs x)
    → x.completeness ≡ RootCauseCompleteness.confirmed
unfolding build_recommendations
build_recommendations-confirmed rs hs x h = recommended-confirmed x.completeness x.rca_id _ h
