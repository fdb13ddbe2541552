-- ===== src/Application.antt =====
-- src/tesserix_mcp_runtime/application.py: `Application`, the path of one call through the runtime.
--
-- What the application is given is a record: the tools, the redactor, the telemetry, SHA-256 and the
-- text of floats. Spans, log events and durations, which only go to the observability object, are
-- left out but for the checks at the end of a call; the limits and outcomes that it is told are kept.
pub mod Failures
pub mod Serve
pub mod Invoke
pub mod Public
pub mod Served
pub mod Leases
pub mod Answered
pub mod Listing
pub mod Run
pub mod Setup
mod Tests
use tesserix_mcp_runtime.Base.{
  ℕ, Bool, true, false, not, ◌||◌, ◌&&◌, String, Option, none, some, List, ℤ, Number, is_some,
}
use tesserix_mcp_runtime.Base.Dict.{Dict}
use tesserix_mcp_runtime.Contracts.Vocabulary.{
  ErrorCode, LifecycleState, is_read, needs_idempotency,
}
use tesserix_mcp_runtime.Contracts.Failure.{Kind, Result}
use tesserix_mcp_runtime.Contracts.Identity.{CallContext}
use tesserix_mcp_runtime.Contracts.Metadata.{ToolMetadata}
use tesserix_mcp_runtime.Errors.{ScrubbedError}
use tesserix_mcp_runtime.Json.{Value}
use tesserix_mcp_runtime.Execution.Limits.{ExecutionLimits}
use tesserix_mcp_runtime.Execution.Admission.{ExecutionController, RuntimeLimit}

pub data RuntimeOutcome : Type 0 where
  success policy_refusal tool_failure timeout cancellation overload : RuntimeOutcome
  dependency_outage invalid_input limit_exceeded : RuntimeOutcome

-- A tool of the catalog; `Model` holds the typed inputs and outputs of all tools.
pub record Definition (Model : Type 0) : Type 0 where
  -- `id` of the definition
  pub identity : ℕ
  pub metadata : ToolMetadata
  pub input_schema : Value
  pub output_schema : Value
  pub parse_input : Value → Result Model
  pub serialize_output : Model → Result Value

pub record Host (Model : Type 0) : Type 0 where
  pub catalog : Dict (Definition Model)
  -- the first 16 digits of the SHA-256 of a text
  pub short_digest : String → String
  -- `redact_text`, `none` if it raises, and `redact`
  pub redact_text : String → Option String
  pub redact : Value → Result Value
  -- whether `telemetry.emit` returns, after these emissions
  pub emits : List ScrubbedError → ScrubbedError → Bool
  -- of execution.py: the sample of `_retry_delay`, and the length of a float's text
  pub sample : String → ℕ → ℕ
  pub float_length : ℤ → ℕ

pub record Application : Type 0 where
  pub state : LifecycleState
  pub controller : ExecutionController
  -- the tasks of `_InvocationLifecycle`
  pub tasks : List ℕ
  -- what `record_limit` and `record_call` were told
  pub limits_hit : List (Option String × RuntimeLimit)
  pub calls : List (Option String × RuntimeOutcome)
  pub emitted : List ScrubbedError
  pub telemetry_failures : ℕ

abbrev pub limits_of : Application → ExecutionLimits
limits_of a = a.controller.limits

-- `_error_outcome`
unfoldable pub error_outcome : ErrorCode → RuntimeOutcome
error_outcome ErrorCode.forbidden = RuntimeOutcome.policy_refusal
error_outcome ErrorCode.timeout = RuntimeOutcome.timeout
error_outcome ErrorCode.cancelled = RuntimeOutcome.cancellation
error_outcome ErrorCode.overloaded = RuntimeOutcome.overload
error_outcome ErrorCode.unavailable = RuntimeOutcome.dependency_outage
error_outcome ErrorCode.invalid_input = RuntimeOutcome.invalid_input
error_outcome ErrorCode.result_too_large = RuntimeOutcome.limit_exceeded
error_outcome _ = RuntimeOutcome.tool_failure

-- `except ExecutionLimitExceeded`
abbrev pub is_limit : Kind → Bool
is_limit Kind.limit_exceeded = true
is_limit _ = false

-- `except (KeyError, TypeError, ValueError)`, with the subclasses of ValueError
unfoldable pub is_rejection : Kind → Bool
is_rejection Kind.key_error = true
is_rejection Kind.type_error = true
is_rejection Kind.value_error = true
is_rejection Kind.limit_exceeded = true
is_rejection (Kind.configuration code path) = true
is_rejection _ = false

-- `retry_safe` of `_invoke`
unfoldable pub is_retry_safe : ToolMetadata → CallContext → Bool
is_retry_safe m context =
    is_read m.effect || (needs_idempotency m.idempotency && is_some context.idempotency_key)
