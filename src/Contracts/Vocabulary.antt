-- ===== src/Contracts/Vocabulary.antt =====
-- The enumerations of contracts.py, and the tests `is` and `in` on them.
use tesserix_mcp_runtime.Base.{Bool, true, false, String}

pub data ToolEffect : Type 0 where
  read write external_effect : ToolEffect

pub data ApprovalRequirement : Type 0 where
  not_required required : ApprovalRequirement

pub data IdempotencyRequirement : Type 0 where
  not_applicable required : IdempotencyRequirement

pub data ErrorCode : Type 0 where
  invalid_input unauthenticated forbidden approval_required conflict timeout cancelled : ErrorCode
  overloaded unavailable result_too_large internal_failure : ErrorCode

pub data Retryability : Type 0 where
  never safe_or_idempotent : Retryability

pub data InvocationStatus : Type 0 where
  success failure : InvocationStatus

pub data LifecycleState : Type 0 where
  startup ready draining stopped : LifecycleState

-- `effect is ToolEffect.READ`
abbrev pub is_read : ToolEffect → Bool
is_read ToolEffect.read = true
is_read _ = false

-- `effect is ToolEffect.EXTERNAL_EFFECT`
abbrev pub is_external : ToolEffect → Bool
is_external ToolEffect.external_effect = true
is_external _ = false

-- `approval is ApprovalRequirement.REQUIRED`
abbrev pub needs_approval : ApprovalRequirement → Bool
needs_approval ApprovalRequirement.required = true
needs_approval _ = false

-- `idempotency is IdempotencyRequirement.REQUIRED`
abbrev pub needs_idempotency : IdempotencyRequirement → Bool
needs_idempotency IdempotencyRequirement.required = true
needs_idempotency _ = false

-- `_ERROR_MESSAGES[code]`
unfoldable pub error_message : ErrorCode → String
error_message ErrorCode.invalid_input = "The request is invalid."
error_message ErrorCode.unauthenticated = "Authentication is required."
error_message ErrorCode.forbidden = "The operation is not permitted."
error_message ErrorCode.approval_required = "Approval is required."
error_message ErrorCode.conflict = "The operation conflicts with current state."
error_message ErrorCode.timeout = "The operation timed out."
error_message ErrorCode.cancelled = "The operation was cancelled."
error_message ErrorCode.overloaded = "The runtime is at capacity."
error_message ErrorCode.unavailable = "A required dependency is unavailable."
error_message ErrorCode.result_too_large = "The tool result exceeds the allowed size."
error_message ErrorCode.internal_failure = "The operation failed."

-- `_ERROR_RETRYABILITY[code]`
unfoldable pub error_retryability : ErrorCode → Retryability
error_retryability ErrorCode.timeout = Retryability.safe_or_idempotent
error_retryability ErrorCode.overloaded = Retryability.safe_or_idempotent
error_retryability ErrorCode.unavailable = Retryability.safe_or_idempotent
error_retryability _ = Retryability.never

pub LifecycleState-discrete : Discrete LifecycleState
LifecycleState-discrete = hlevel

pub ErrorCode-discrete : Discrete ErrorCode
ErrorCode-discrete = hlevel
