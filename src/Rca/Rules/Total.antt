-- ===== src/Rca/Rules/Total.antt =====
-- A rule whose operators are all known can be evaluated.
use oracle_diagnostic_estack.Prelude.{
  String, ◌≡◌, refl, Bool, true, false, not, Option, none, some, List, [], ◌∷◌, All, arith,
  if◌then◌else◌, pick,
}
use oracle_diagnostic_estack.Prelude.Dict.{lookup}
use oracle_diagnostic_estack.Rca.Evidence.{Scalar, NormalizedEvidence}
use oracle_diagnostic_estack.Rca.Rules.{
  Rule, Condition, Op, Operand, Support, Contradiction, is_eligible, fits_domain, attribute_holds,
  condition_matches, matching, keep_if_matched, support, add_support, contradict, add_contradiction,
  any_matches, or_later, proof_of, evaluation_of, symptom_ids, no_support, no_contradiction,
  evaluate_rule,
}

abbrev pub IsGiven : {A : Type 0} → Option A → Type 0
IsGiven {A} o = (a : A) × (o ≡ some a)

-- The operator of the condition is one of those that the engine has.
abbrev pub HasOp : Condition → Type 0
HasOp c = IsGiven c.op

abbrev pub HasProofOp : Option Condition → Type 0
HasProofOp none = Unit
HasProofOp (some c) = HasOp c

abbrev pub HasOps : Rule → Type 0
HasOps r =
    All HasOp r.supporting_conditions
    × All HasOp r.contradicting_conditions
    × HasProofOp r.temporal_proof_condition

attribute_holds-IsGiven :
    (o : Option Op) (v : Operand) (a : Option Scalar) → IsGiven o → IsGiven (attribute_holds o v a)
attribute_holds-IsGiven o v none h = (false, refl)
attribute_holds-IsGiven none v (some a) (p, e) = absurd (ground (arith, e))
attribute_holds-IsGiven (some p) v (some a) h = (_, refl)

condition_matches-IsGiven :
    (e : NormalizedEvidence) (c : Condition) → HasOp c → IsGiven (condition_matches e c)
unfolding condition_matches
condition_matches-IsGiven e c h =
    let last = attribute_holds c.op c.value (lookup c.attribute e.attributes) in
    let k = attribute_holds-IsGiven c.op c.value (lookup c.attribute e.attributes) h in
    pick IsGiven (not (is_eligible e)) (some false)
      (if not (fits_domain c.domain e) then some false else last) (false, refl)
      (pick IsGiven (not (fits_domain c.domain e)) (some false) last (false, refl) k)

matching-IsGiven :
    (c : Condition) (es : List NormalizedEvidence) → HasOp c → IsGiven (matching c es)
unfolding matching
matching-IsGiven c [] h = ([], refl)
matching-IsGiven c (e ∷ es) h =
    go (condition_matches e c) (matching c es) (condition_matches-IsGiven e c h)
      (matching-IsGiven c es h)
  where
    go :
        (o : Option Bool) (p : Option (List NormalizedEvidence))
        → IsGiven o
        → IsGiven p
        → IsGiven (keep_if_matched e o p)
    go none p (b, h) k = absurd (ground (arith, h))
    go (some b) none h (l, k) = absurd (ground (arith, k))
    go (some true) (some l) h k = (e ∷ l, refl)
    go (some false) (some l) h k = (l, refl)

any_matches-IsGiven :
    (c : Condition) (es : List NormalizedEvidence) → HasOp c → IsGiven (any_matches c es)
unfolding any_matches
any_matches-IsGiven c [] h = (false, refl)
any_matches-IsGiven c (e ∷ es) h =
    go (condition_matches e c) (any_matches c es) (condition_matches-IsGiven e c h)
      (any_matches-IsGiven c es h)
  where
    go : (o p : Option Bool) → IsGiven o → IsGiven p → IsGiven (or_later o p)
    go none p (b, h) k = absurd (ground (arith, h))
    go (some true) p h k = (true, refl)
    go (some false) p h k = k

support-IsGiven :
    (cs : List Condition) (es : List NormalizedEvidence) (s : Support)
    → All HasOp cs
    → IsGiven (support cs es s)
unfolding support
support-IsGiven [] es s h = (s, refl)
support-IsGiven (c ∷ cs) es s h =
    go (matching c es) (matching-IsGiven c es h.0)
      (λ found. support-IsGiven cs es (add_support c found s) h.1)
  where
    go :
        (o : Option (List NormalizedEvidence))
        → IsGiven o
        → ((found : List NormalizedEvidence) → IsGiven (support cs es (add_support c found s)))
        → IsGiven (elim o [ none ↦ none | some found ↦ support cs es (add_support c found s) ])
    go none (l, k) f = absurd (ground (arith, k))
    go (some found) k f = f found

contradict-IsGiven :
    (cs : List Condition) (es : List NormalizedEvidence) (x : Contradiction)
    → All HasOp cs
    → IsGiven (contradict cs es x)
unfolding contradict
contradict-IsGiven [] es x h = (x, refl)
contradict-IsGiven (c ∷ cs) es x h =
    go (matching c es) (matching-IsGiven c es h.0)
      (λ found. contradict-IsGiven cs es (add_contradiction c found x) h.1)
  where
    go :
        (o : Option (List NormalizedEvidence))
        → IsGiven o
        → ((found : List NormalizedEvidence)
            → IsGiven (contradict cs es (add_contradiction c found x)))
        → IsGiven
            (elim o [ none ↦ none | some found ↦ contradict cs es (add_contradiction c found x) ])
    go none (l, k) f = absurd (ground (arith, k))
    go (some found) k f = f found

proof_of-IsGiven :
    (o : Option Condition) (es : List NormalizedEvidence) → HasProofOp o → IsGiven (proof_of o es)
proof_of-IsGiven none es h = (false, refl)
proof_of-IsGiven (some c) es h = any_matches-IsGiven c es h

evaluation_of-IsGiven :
    (ids : List String) (s : Option Support) (x : Option Contradiction) (p : Option Bool)
    → IsGiven s
    → IsGiven x
    → IsGiven p
    → IsGiven (evaluation_of ids s x p)
evaluation_of-IsGiven ids none x p (_, e) k l = absurd (ground (arith, e))
evaluation_of-IsGiven ids (some s) none p h (_, e) l = absurd (ground (arith, e))
evaluation_of-IsGiven ids (some s) (some x) none h k (_, e) = absurd (ground (arith, e))
evaluation_of-IsGiven ids (some s) (some x) (some p) h k l = (_, refl)

pub evaluate_rule-IsGiven :
    (r : Rule) (es : List NormalizedEvidence) → HasOps r → IsGiven (evaluate_rule r es)
unfolding evaluate_rule
evaluate_rule-IsGiven r es h =
    evaluation_of-IsGiven (symptom_ids r es) (support r.supporting_conditions es no_support)
      (contradict r.contradicting_conditions es no_contradiction)
      (proof_of r.temporal_proof_condition es)
      (support-IsGiven r.supporting_conditions es no_support h.0)
      (contradict-IsGiven r.contradicting_conditions es no_contradiction h.1)
      (proof_of-IsGiven r.temporal_proof_condition es h.2)
