-- ===== src/Rca/Evidence.antt =====
-- rca_engine/common.py: normalized evidence, and the vocabularies of the engine. Timestamps are the
-- texts of `isoformat`, in UTC. The values of attributes are what `sanitize_attributes` lets
-- through: Booleans, integers and finite floats.
use oracle_diagnostic_estack.Prelude.{
  ℕ, ◌^◌, String, Bool, true, false, ◌&&◌, Option, List, [], ◌∷◌,
}
use oracle_diagnostic_estack.Prelude.Int.{ℤ, pos, scale_ℤ, ltb_ℤ, leb_ℤ}
use oracle_diagnostic_estack.Prelude.Dict.{Dict}
use oracle_diagnostic_estack.Schemas.{Json}

-- A Boolean, or the number mantissa / 2 ^ scale, which every integer and every finite float is.
pub data Scalar : Type 0 where
  truth : Bool → Scalar
  number : (mantissa : ℤ) (scale : ℕ) → Scalar

abbrev mantissa_of : Scalar → ℤ
mantissa_of (truth true) = pos 1
mantissa_of (truth false) = pos 0
mantissa_of (number m k) = m

abbrev scale_of : Scalar → ℕ
scale_of (truth b) = 0
scale_of (number m k) = k

-- Python's `<` and `<=`, which read a Boolean as 0 or 1
unfoldable pub scalar_lt : Scalar → Scalar → Bool
scalar_lt a b =
    ltb_ℤ (scale_ℤ (mantissa_of a) (2 ^ scale_of b)) (scale_ℤ (mantissa_of b) (2 ^ scale_of a))

unfoldable pub scalar_le : Scalar → Scalar → Bool
scalar_le a b =
    leb_ℤ (scale_ℤ (mantissa_of a) (2 ^ scale_of b)) (scale_ℤ (mantissa_of b) (2 ^ scale_of a))

unfoldable pub scalar_eq : Scalar → Scalar → Bool
unfolding scalar_le
scalar_eq a b = scalar_le a b && scalar_le b a

pub data SignatureStatus : Type 0 where
  certified unrecognized_signature insufficient_evidence : SignatureStatus

pub record NormalizedEvidence : Type 0 where
  pub evidence_id : String
  pub domain : String
  pub source_id : String
  pub event_type : String
  pub timestamp_utc : Option String
  pub source_timestamp : Json
  pub signature_status : SignatureStatus
  pub canonical_signature : Option String
  pub signature_token : Option String
  pub summary : Json
  pub attributes : Dict Scalar
  pub timeline_degraded : Bool
  pub degradation_reason : Option String
  pub raw_index : ℕ

-- `CAUSAL_ELIGIBLE_EVENT_TYPES`: every type of event but "RECOVERY"
abbrev pub causal_eligible_event_types : List String
causal_eligible_event_types =
    "SYMPTOM_OBSERVED" ∷ "ALERT_TRIGGERED" ∷ "CONFIG_CHANGE" ∷ "CAPACITY_EVENT"
    ∷ "INVESTIGATION_STEP" ∷ []
