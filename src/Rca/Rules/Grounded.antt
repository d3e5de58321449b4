-- ===== src/Rca/Rules/Grounded.antt =====
-- What the evaluation of a rule rests on: the evidence that matches its conditions.
use oracle_diagnostic_estack.Prelude.{
  String, ◌≡◌, refl, sym, ap, subst, ◌∙◌, ◌⊎◌, inl, inr, Bool, true, false, Option, none, some,
  some-inj, List, [], ◌∷◌, ◌++◌, str_eq, eq_iff, length, All, arith, pick_if,
}
use oracle_diagnostic_estack.Prelude.Any.{Any}
use oracle_diagnostic_estack.Prelude.Dict.{contains}
use oracle_diagnostic_estack.Rca.Common.{add_new}
use oracle_diagnostic_estack.Rca.Evidence.{NormalizedEvidence}
use oracle_diagnostic_estack.Rca.Rules.{
  Condition, Rule, Support, Contradiction, condition_matches, matching, keep_if_matched, support,
  add_support, add_sources, contradict, add_contradiction, any_matches, or_later, proof_of,
  Evaluation, evaluation_of, symptom_ids, evaluate_rule, no_support, no_contradiction,
}

-- An evidence of this source matches the condition.
abbrev pub Backs : List NormalizedEvidence → String → Condition → Type 0
Backs es s c = Any (λ e. (e.source_id ≡ s) × (condition_matches e c ≡ some true)) es

-- No evidence matches a critical one of the conditions.
abbrev pub NoCritical : List NormalizedEvidence → List Condition → Type 0
NoCritical es cs =
    All (λ c. c.critical ≡ true → All (λ e. condition_matches e c ≡ some false) es) cs

-- The rule has a condition for a proof in time, and an evidence matches it.
abbrev pub HasProof : List NormalizedEvidence → Option Condition → Type 0
HasProof es o = (c : Condition) × (o ≡ some c) × Any (λ e. condition_matches e c ≡ some true) es

abbrev pub HasNoRepeats : List String → Type 0
HasNoRepeats [] = Unit
HasNoRepeats (s ∷ ss) = (contains ss s ≡ false) × HasNoRepeats ss

-- Different sources, each of an evidence that matches a supporting condition.
abbrev pub AreSources : List NormalizedEvidence → List Condition → List String → Type 0
AreSources es cs ss = HasNoRepeats ss × All (λ s. Any (Backs es s) cs) ss

keep_if_matched-some :
    (e : NormalizedEvidence) (o : Option Bool) (p : Option (List NormalizedEvidence))
    (found : List NormalizedEvidence)
    → keep_if_matched e o p ≡ some found
    → ((rest : List NormalizedEvidence) × (o ≡ some true) × (p ≡ some rest) × (found ≡ e ∷ rest))
      ⊎ ((o ≡ some false) × (p ≡ some found))
keep_if_matched-some e (some true) (some es) found h = inl (es, refl, refl, sym (some-inj h))
keep_if_matched-some e (some false) (some es) found h = inr (refl, h)
keep_if_matched-some e none p found h = absurd (ground (arith, h))
keep_if_matched-some e (some true) none found h = absurd (ground (arith, h))
keep_if_matched-some e (some false) none found h = absurd (ground (arith, h))

All-later :
    (c : Condition) (e : NormalizedEvidence) (es found : List NormalizedEvidence)
    → All (λ f. Backs es f.source_id c) found
    → All (λ f. Backs (e ∷ es) f.source_id c) found
All-later c e es [] h = tt
All-later c e es (f ∷ fs) h = (inr h.0, All-later c e es fs h.1)

matching-Backs :
    (c : Condition) (es found : List NormalizedEvidence)
    → matching c es ≡ some found
    → All (λ f. Backs es f.source_id c) found
unfolding matching
matching-Backs c [] found h = subst (All (λ f. Backs [] f.source_id c)) (some-inj h) tt
matching-Backs c (e ∷ es) found h =
    elim (keep_if_matched-some e (condition_matches e c) (matching c es) found h) [
      | inl (rest, is, later, q) ↦
          subst (All (λ f. Backs (e ∷ es) f.source_id c)) (sym q)
            (inl (refl, is), All-later c e es rest (matching-Backs c es rest later))
      | inr (is, later) ↦ All-later c e es found (matching-Backs c es found later)
    ]

cons≢nil : (e : NormalizedEvidence) (es : List NormalizedEvidence) → [] ≡ e ∷ es → ⊥
cons≢nil e es h = ground (arith, h)

matching-none :
    (c : Condition) (es : List NormalizedEvidence)
    → matching c es ≡ some []
    → All (λ e. condition_matches e c ≡ some false) es
unfolding matching
matching-none c [] h = tt
matching-none c (e ∷ es) h =
    elim (keep_if_matched-some e (condition_matches e c) (matching c es) [] h) [
      | inl (rest, is, later, q) ↦ absurd (cons≢nil e rest q)
      | inr (is, later) ↦ (is, matching-none c es later)
    ]

contains-append :
    (ss : List String) (t s : String)
    → contains ss s ≡ false
    → str_eq t s ≡ false
    → contains (ss ++ t ∷ []) s ≡ false
unfolding contains
contains-append [] t s h k = ground (arith, h, k)
contains-append (u ∷ us) t s h k =
    ground (arith, h, contains-append us t s (ground (arith, h)) k, k)

HasNoRepeats-append :
    (ss : List String) (t : String)
    → contains ss t ≡ false
    → HasNoRepeats ss
    → HasNoRepeats (ss ++ t ∷ [])
unfolding contains
HasNoRepeats-append [] t h k = (refl, tt)
HasNoRepeats-append (s ∷ ss) t h k = (
  contains-append ss t s k.0 (ground (arith, h, eq_iff s t, eq_iff t s)),
  HasNoRepeats-append ss t (ground (arith, h)) k.1,
)

All-append :
    (P : String → Type 0) (ss : List String) (t : String) → All P ss → P t → All P (ss ++ t ∷ [])
All-append P [] t h k = (k, tt)
All-append P (s ∷ ss) t h k = (h.0, All-append P ss t h.1 k)

-- sources without repetitions, of which `P` holds
abbrev Good : (String → Type 0) → List String → Type 0
Good P ss = HasNoRepeats ss × All P ss

add_new-Good :
    (P : String → Type 0) (s : String) (ss : List String) → P s → Good P ss → Good P (add_new s ss)
add_new-Good P s ss h k =
    pick_if (Good P) (contains ss s) ss (ss ++ s ∷ []) (λ _. k)
      (λ n. (HasNoRepeats-append ss s n k.0, All-append P ss s k.1 h))

add_sources-Good :
    (P : String → Type 0) (fs : List NormalizedEvidence) (ss : List String)
    → All (λ f. P f.source_id) fs
    → Good P ss
    → Good P (add_sources fs ss)
unfolding add_sources
add_sources-Good P [] ss h k = k
add_sources-Good P (f ∷ fs) ss h k =
    add_sources-Good P fs (add_new f.source_id ss) h.1 (add_new-Good P f.source_id ss h.0 k)

All-P :
    (P : String → Type 0) (es found : List NormalizedEvidence) (c : Condition)
    → ((s : String) → Backs es s c → P s)
    → All (λ f. Backs es f.source_id c) found
    → All (λ f. P f.source_id) found
All-P P es [] c into h = tt
All-P P es (f ∷ fs) c into h = (into f.source_id h.0, All-P P es fs c into h.1)

add_support-Good :
    (P : String → Type 0) (es : List NormalizedEvidence) (c : Condition)
    (found : List NormalizedEvidence) (s : Support)
    → matching c es ≡ some found
    → ((t : String) → Backs es t c → P t)
    → Good P s.sources
    → Good P (add_support c found s).sources
add_support-Good P es c [] s h into k = k
add_support-Good P es c (f ∷ fs) s h into k =
    add_sources-Good P (f ∷ fs) s.sources
      (All-P P es (f ∷ fs) c into (matching-Backs c es (f ∷ fs) h)) k

support-Good :
    (P : String → Type 0) (cs : List Condition) (es : List NormalizedEvidence) (s s' : Support)
    → support cs es s ≡ some s'
    → All (λ c. (t : String) → Backs es t c → P t) cs
    → Good P s.sources
    → Good P s'.sources
unfolding support
support-Good P [] es s s' h into k = subst (λ x. Good P x.sources) (some-inj h) k
support-Good P (c ∷ cs) es s s' h into k =
    go (matching c es) refl (λ x e g. support-Good P cs es x s' e into.1 g) h
  where
    go :
        (o : Option (List NormalizedEvidence))
        → matching c es ≡ o
        → ((x : Support) → support cs es x ≡ some s' → Good P x.sources → Good P s'.sources)
        → (elim o [ none ↦ none | some found ↦ support cs es (add_support c found s) ]) ≡ some s'
        → Good P s'.sources
    go none q later h = absurd (ground (arith, h))
    go (some found) q later h =
        later (add_support c found s) h (add_support-Good P es c found s q into.0 k)

-- Each condition of a list is one of the list.
All-Any :
    (Q : String → Condition → Type 0) (R : String → Type 0) (cs : List Condition)
    → ((t : String) → Any (Q t) cs → R t)
    → All (λ c. (t : String) → Q t c → R t) cs
All-Any Q R [] into = tt
All-Any Q R (c ∷ cs) into = (λ t q. into t (inl q), All-Any Q R cs (λ t later. into t (inr later)))

support-AreSources :
    (cs : List Condition) (es : List NormalizedEvidence) (s : Support)
    → support cs es no_support ≡ some s
    → AreSources es cs s.sources
support-AreSources cs es s h =
    let P : String → Type 0 = λ t. Any (Backs es t) cs in
    support-Good P cs es no_support s h (All-Any (Backs es) P cs (λ t any. any)) (tt, tt)

is_any-false :
    (c : Condition) (es found : List NormalizedEvidence) (x : Contradiction)
    → matching c es ≡ some found
    → (add_contradiction c found x).unresolved_critical ≡ false
    → (x.unresolved_critical ≡ false)
      × (c.critical ≡ true → All (λ e. condition_matches e c ≡ some false) es)
is_any-false c es [] x h k = (ground (arith, k), λ _. matching-none c es h)
is_any-false c es (f ∷ fs) x h k = (ground (arith, k), λ q. absurd (ground (arith, k, q)))

contradict-NoCritical :
    (cs : List Condition) (es : List NormalizedEvidence) (x y : Contradiction)
    → contradict cs es x ≡ some y
    → y.unresolved_critical ≡ false
    → (x.unresolved_critical ≡ false) × NoCritical es cs
unfolding contradict
contradict-NoCritical [] es x y h k = (ap (λ z. z.unresolved_critical) (some-inj h) ∙ k, tt)
contradict-NoCritical (c ∷ cs) es x y h k =
    go (matching c es) refl (λ z e. contradict-NoCritical cs es z y e k) h
  where
    go :
        (o : Option (List NormalizedEvidence))
        → matching c es ≡ o
        → ((z : Contradiction)
            → contradict cs es z ≡ some y
            → (z.unresolved_critical ≡ false) × NoCritical es cs)
        → (elim o [ none ↦ none | some found ↦ contradict cs es (add_contradiction c found x) ])
          ≡ some y
        → (x.unresolved_critical ≡ false) × NoCritical es (c ∷ cs)
    go none q ih h = absurd (ground (arith, h))
    go (some found) q ih h =
        let later = ih (add_contradiction c found x) h in
        let here = is_any-false c es found x q later.0 in (here.0, (here.1, later.1))

or_later-true : (o p : Option Bool) → or_later o p ≡ some true → (o ≡ some true) ⊎ (p ≡ some true)
or_later-true none p h = absurd (ground (arith, h))
or_later-true (some true) p h = inl refl
or_later-true (some false) p h = inr h

any_matches-Any :
    (c : Condition) (es : List NormalizedEvidence)
    → any_matches c es ≡ some true
    → Any (λ e. condition_matches e c ≡ some true) es
unfolding any_matches
any_matches-Any c [] h = absurd (ground (arith, h))
any_matches-Any c (e ∷ es) h = elim (or_later-true (condition_matches e c) (any_matches c es) h) [
  | inl here ↦ inl here
  | inr later ↦ inr (any_matches-Any c es later)
]

proof_of-HasProof :
    (o : Option Condition) (es : List NormalizedEvidence)
    → proof_of o es ≡ some true
    → HasProof es o
proof_of-HasProof none es h = absurd (ground (arith, h))
proof_of-HasProof (some c) es h = (c, refl, any_matches-Any c es h)

-- What an evaluation of a rule says of the evidence.
pub record IsGrounded (r : Rule) (es : List NormalizedEvidence) (x : Evaluation) : Type 0 where
  pub contradictions :
      x.unresolved_critical_contradiction ≡ false → NoCritical es r.contradicting_conditions
  pub proof : x.temporal_proof ≡ true → HasProof es r.temporal_proof_condition
  pub sources : List String
  pub count : x.independent_source_count ≡ length sources
  pub are_sources : AreSources es r.supporting_conditions sources

evaluation_of-IsGrounded :
    (r : Rule) (es : List NormalizedEvidence) (symptoms : List String) (o : Option Support)
    (p : Option Contradiction) (q : Option Bool) (x : Evaluation)
    → support r.supporting_conditions es no_support ≡ o
    → contradict r.contradicting_conditions es no_contradiction ≡ p
    → proof_of r.temporal_proof_condition es ≡ q
    → evaluation_of symptoms o p q ≡ some x
    → IsGrounded r es x
evaluation_of-IsGrounded r es symptoms (some s) (some y) (some b) x ho hp hq h =
    subst (IsGrounded r es) (some-inj h) (record {
      contradictions =
          λ k. (contradict-NoCritical r.contradicting_conditions es no_contradiction y hp k).1;
      proof = λ k. proof_of-HasProof r.temporal_proof_condition es (hq ∙ ap (λ c. some c) k);
      sources = s.sources;
      count = refl;
      are_sources = support-AreSources r.supporting_conditions es s ho;
    })
evaluation_of-IsGrounded r es symptoms none p q x ho hp hq h = absurd (ground (arith, h))
evaluation_of-IsGrounded r es symptoms (some s) none q x ho hp hq h = absurd (ground (arith, h))
evaluation_of-IsGrounded r es symptoms (some s) (some y) none x ho hp hq h =
    absurd (ground (arith, h))

pub evaluate_rule-IsGrounded :
    (r : Rule) (es : List NormalizedEvidence) (x : Evaluation)
    → evaluate_rule r es ≡ some x
    → IsGrounded r es x
unfolding evaluate_rule
evaluate_rule-IsGrounded r es x h =
    evaluation_of-IsGrounded r es (symptom_ids r es) _ _ _ x refl refl refl h
