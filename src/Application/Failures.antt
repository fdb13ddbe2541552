-- ===== src/Application/Failures.antt =====
-- `_safe_request_id`, `_mapped_failure` and `_redact_result` of Application.
use Prim.Native.String.{◌++◌ as str_append}
use tesserix_mcp_runtime.Base.{
  ◌+◌, String, Option, none, some, [], ◌∷◌, ◌++◌, str_eq, if◌then◌else◌,
}
use tesserix_mcp_runtime.Contracts.Vocabulary.{ErrorCode}
use tesserix_mcp_runtime.Contracts.Failure.{
  Kind, Failure, Result, ok, err, ◌>>=◌, ◌>>◌, code_failure, is_exception,
}
use tesserix_mcp_runtime.Contracts.Response.{InvocationResult, from_code, success, failure}
use tesserix_mcp_runtime.Errors.{MappedError, ScrubbedError, map_exception, scrubbed}
use tesserix_mcp_runtime.Json.{Value, null}
use tesserix_mcp_runtime.Execution.Limits.{max_result_bytes}
use tesserix_mcp_runtime.Execution.Json.{validate_json_value}
use tesserix_mcp_runtime.Application.{Host, Application, limits_of, is_limit}

abbrev pub redaction_failure : Failure
redaction_failure = record { kind = Kind.other; type_name = "RedactionError" }

-- `result.value`, where an absent value is `None`
abbrev pub or_null : Option Value → Value
or_null none = null
or_null (some v) = v

module _ {Model : Type 0} (host : Host Model) where
  unfoldable pub failed_id : String → String
  failed_id request_id = str_append "redaction-failed-" (host.short_digest request_id)

  unfoldable pub safe_request_id : String → String
  safe_request_id request_id = elim (host.redact_text request_id) [
    | none ↦ failed_id request_id
    | some value ↦ elim (from_code ErrorCode.internal_failure value) [
      | ok _ ↦ value
      | err _ ↦ failed_id request_id
    ]
  ]

  -- the audit record of a failure once its type name is redacted
  unfoldable pub redacted_audit : MappedError → String → Result ScrubbedError
  redacted_audit m id =
      let fallback = scrubbed m.audit.code "RedactionError" id in
      elim (host.redact_text m.audit.exception_type) [
        | none ↦ fallback
        | some redacted ↦
            elim (scrubbed m.audit.code
              (if str_eq redacted m.audit.exception_type
                then m.audit.exception_type
                else "RedactedException")
              id) [ ok audit ↦ ok audit | err _ ↦ fallback ]
      ]

  unfoldable pub emit_audit : Application → ScrubbedError → Application
  emit_audit a audit =
      if host.emits a.emitted audit
      then record a { emitted = a.emitted ++ audit ∷ [] }
      else record a { telemetry_failures = a.telemetry_failures + 1 }

  unfoldable pub mapped_failure :
      Application → Failure → String → Application × Result (InvocationResult Value)
  mapped_failure a error request_id =
      let id = safe_request_id request_id in
      elim (map_exception error id) [
        | err e ↦ (a, err e)
        | ok m ↦ elim (redacted_audit m id) [
          | err e ↦ (a, err e)
          | ok audit ↦ (emit_audit a audit, ok (failure m.response))
        ]
      ]

  -- the value that leaves the runtime
  unfoldable pub redacted_value : Application → Option Value → Result Value
  redacted_value a value = do
    v ← host.redact (or_null value)
    validate_json_value host.float_length (limits_of a) ((limits_of a).integers max_result_bytes) v
    ok v

  unfoldable pub redact_result :
      Application → InvocationResult Value → String → Application × Result (InvocationResult Value)
  redact_result a result request_id = elim result.error [
    | some e ↦ (a, from_code e.code (safe_request_id request_id) >>= λ error. ok (failure error))
    | none ↦ elim (redacted_value a result.value) [
      | ok v ↦ (a, ok (success v))
      | err e ↦
          if is_limit e.kind
          then mapped_failure a (code_failure ErrorCode.result_too_large) request_id
          else if is_exception e.kind
          then mapped_failure a redaction_failure request_id
          else (a, err e)
    ]
  ]
