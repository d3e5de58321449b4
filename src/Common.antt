-- ===== src/Common.antt =====
-- mcp_gateway/common.py: limits, the stable error codes, the statuses; and results that may fail.
use oracle_diagnostic_estack.Prelude.{ℕ, Bool, true, false, Option, none}

abbrev pub max_rows_hard : ℕ
max_rows_hard = 200

abbrev pub max_session_calls : ℕ
max_session_calls = 200

abbrev pub max_evidence_entries : ℕ
max_evidence_entries = 300

-- The keys of `ERROR_MESSAGES`.
pub data ErrorCode : Type 0 where
  parse invalid_request method_not_found not_initialized invalid_params message_too_large :
      ErrorCode
  tool_unknown args_invalid target_unknown target_disabled collector_unknown : ErrorCode
  collector_not_allowed capability budget_exceeded adapter_disabled adapter_failed timed_out :
      ErrorCode
  result_invalid evidence_not_found output_too_large sanitization insufficient_evidence : ErrorCode
  analysis_failed target_mismatch privileges_excessive authorization_expired busy : ErrorCode
  internal : ErrorCode

pub data CapabilityStatus : Type 0 where
  supported unsupported environment_unknown license_restricted : CapabilityStatus
  insufficient_privileges disabled not_applicable : CapabilityStatus

pub data AdapterStatus : Type 0 where
  verified_fixture verified_lab lab_enabled contract_only disabled unsupported : AdapterStatus
  not_integration_tested : AdapterStatus

-- A call that may raise `GatewayError(code, capability_status)`.
pub data Result {ℓ} (A : Type ℓ) : Type ℓ where
  ok : A → Result A
  err : ErrorCode → Option CapabilityStatus → Result A

-- `GatewayError(code)`
abbrev pub raise {ℓ} : {A : Type ℓ} → ErrorCode → Result A
raise e = err e none

infixl 5 ◌>>=◌ ◌>>◌
abbrev pub ◌>>=◌ {ℓ κ} : {A : Type ℓ} {B : Type κ} → Result A → (A → Result B) → Result B
ok a >>= f = f a
err e s >>= f = err e s

abbrev pub ◌>>◌ {ℓ} : {B : Type ℓ} → Result (Unit {0}) → Result B → Result B
m >> k = m >>= λ _. k

-- `if bad: raise GatewayError(code)`
abbrev pub raise_if : Bool → ErrorCode → Result (Unit {0})
raise_if true e = raise e
raise_if false e = ok tt
