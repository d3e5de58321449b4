-- ===== src/Knowledge/State.antt =====
-- change_documentation_knowledge/common.py: the states of an article, the transitions between them,
-- and the codes of errors.
use oracle_diagnostic_estack.Prelude.{
  ℕ, ◌≡◌, refl, ap, arith, Bool, true, false, ◌&&◌, List, [], ◌∷◌, ◌==◌, any, if◌then◌else◌,
}

pub data KbState : Type 0 where
  candidate draft pending_human_review approved_by_human published rejected review_due deprecated
        retired superseded :
      KbState

abbrev rank : KbState → ℕ
rank candidate = 0
rank draft = 1
rank pending_human_review = 2
rank approved_by_human = 3
rank published = 4
rank rejected = 5
rank review_due = 6
rank deprecated = 7
rank retired = 8
rank superseded = 9

abbrev pub eq_state : KbState → KbState → Bool
eq_state a b = rank a == rank b

-- `KB_TRANSITIONS`
abbrev pub kb_transitions : KbState → List KbState
kb_transitions candidate = draft ∷ rejected ∷ []
kb_transitions draft = pending_human_review ∷ rejected ∷ []
kb_transitions pending_human_review = approved_by_human ∷ rejected ∷ draft ∷ []
kb_transitions approved_by_human = published ∷ rejected ∷ []
kb_transitions published = review_due ∷ deprecated ∷ superseded ∷ []
kb_transitions review_due = published ∷ deprecated ∷ superseded ∷ []
kb_transitions deprecated = retired ∷ []
kb_transitions retired = []
kb_transitions rejected = []
kb_transitions superseded = retired ∷ []

abbrev pub is_among : List KbState → KbState → Bool
is_among states s = any (eq_state s) states

abbrev pub is_allowed : KbState → KbState → Bool
is_allowed a b = is_among (kb_transitions a) b

-- `HUMAN_DECISION_TRANSITIONS`
abbrev human_decision_transitions : List (KbState × KbState)
human_decision_transitions =
    (pending_human_review, approved_by_human)
    ∷ (approved_by_human, published)
    ∷ (review_due, published)
    ∷ (published, deprecated)
    ∷ (review_due, deprecated)
    ∷ (published, superseded)
    ∷ (review_due, superseded)
    ∷ (deprecated, retired)
    ∷ (superseded, retired)
    ∷ []

abbrev pub is_human_decision : KbState → KbState → Bool
is_human_decision a b = any (λ p. eq_state a p.0 && eq_state b p.1) human_decision_transitions

-- The codes of `ERROR_MESSAGES` that the knowledge base raises.
pub data Code : Type 0 where
  e_usage e_input_invalid e_auth_missing e_auth_invalid e_auth_digest_mismatch e_auth_self_approval
        e_transition_denied e_quality_gate e_conflict e_kb_not_found e_kb_integrity
        e_output_exists :
      Code

-- A result, or an AdvisoryError.
pub data Outcome (A : Type 0) : Type 0 where
  failed : Code → Outcome A
  done : A → Outcome A

-- `if bad: raise AdvisoryError(code)`, and the rest
abbrev pub unless : {A : Type 0} → (bad : Bool) → Code → Outcome A → Outcome A
unless bad code rest = if bad then failed code else rest

pub unless-done :
    {A : Type 0} (b : Bool) (code : Code) (o : Outcome A) (a : A)
    → unless b code o ≡ done a
    → (b ≡ false) × (o ≡ done a)
unless-done true code o a h = absurd (ground (arith, h))
unless-done false code o a h = (refl, h)

pub done-inj : {A : Type 0} {x y : A} → done x ≡ done y → x ≡ y
done-inj {x = x} h = ap (λ o. elim o [ failed c ↦ x | done z ↦ z ]) h
