-- ===== src/Application/Public.antt =====
-- The results that may leave `invoke`: a checked value, or one of the public errors.
use tesserix_mcp_runtime.Base.{
  true, false, String, Option, ◌≡◌, refl, ◌⊎◌, inl, inr, arith, Bool-cases, Option-cases, str_eq,
  if◌then◌else◌,
}
use tesserix_mcp_runtime.Contracts.Vocabulary.{ErrorCode}
use tesserix_mcp_runtime.Contracts.Failure.{
  Failure, Result, ok, err, code_failure, is_exception, Result-cases,
}
use tesserix_mcp_runtime.Contracts.Response.{InvocationResult, is_text, success, failure}
use tesserix_mcp_runtime.Contracts.Laws.{from_code_total}
use tesserix_mcp_runtime.Errors.{
  MappedError, ScrubbedError, is_exception_type, public_code, scrubbed,
}
use tesserix_mcp_runtime.Errors.Mapping.{
  scrubbed-ok, response_of, from_code-response_of, views_of, map_exception-views_of,
}
use tesserix_mcp_runtime.Json.{Value}
use tesserix_mcp_runtime.Execution.Limits.{ExecutionLimits, max_result_bytes}
use tesserix_mcp_runtime.Execution.Json.{validate_json_value}
use tesserix_mcp_runtime.Application.{Host, Application, limits_of, is_limit}
use tesserix_mcp_runtime.Application.Failures.{
  failed_id, safe_request_id, redacted_audit, emit_audit, mapped_failure, redacted_value,
  redact_result, redaction_failure,
}

module _ {Model : Type 0} (host : Host Model) where
  -- A success whose value is within the limits, or a failure with the stable text of its code, under
  -- a request id that is safe to show.
  abbrev pub IsPublic : ExecutionLimits → String → InvocationResult Value → Type 0
  IsPublic l id r =
      ((v : Value) × (r ≡ success v)
        × (validate_json_value host.float_length l (l.integers max_result_bytes) v ≡ ok tt))
      ⊎ ((code : ErrorCode) × (r ≡ failure (response_of code id)) × (is_text 256 id ≡ true))

  module _ (digest_is_text : (id : String) → is_text 256 (failed_id host id) ≡ true) where
    pub safe_request_id-text : (id : String) → is_text 256 (safe_request_id host id) ≡ true
    unfolding safe_request_id
    safe_request_id-text id = elim (Option-cases (host.redact_text id)) [
      | inl e ↦ rw (e, safe_request_id) (digest_is_text id)
      | inr (value, e) ↦ elim (from_code_total ErrorCode.internal_failure value) [
        | inl (h, f) ↦ rw (e, f, safe_request_id) h
        | inr (h, f) ↦ rw (e, f, safe_request_id) (digest_is_text id)
      ]
    ]

    abbrev fallback_record : ErrorCode → String → ScrubbedError
    fallback_record code id = record {
      code = code;
      exception_type = "RedactionError";
      request_id = id;
    }

    fallback_audit :
        (code : ErrorCode) (id : String)
        → is_text 256 id ≡ true
        → scrubbed code "RedactionError" id ≡ ok (fallback_record code id)
    fallback_audit code id h =
        scrubbed-ok code "RedactionError" id h (unfold is_exception_type in refl)

    redacted_audit-ok :
        (m : MappedError) (id : String)
        → is_text 256 id ≡ true
        → (s : ScrubbedError) × (redacted_audit host m id ≡ ok s)
    unfolding redacted_audit
    redacted_audit-ok m id h = elim (Option-cases (host.redact_text m.audit.exception_type)) [
      | inl e ↦ (
        fallback_record m.audit.code id,
        rw (e, redacted_audit) (fallback_audit m.audit.code id h),
      )
      | inr (redacted, e) ↦
          elim (Result-cases (
            scrubbed m.audit.code
              (if str_eq redacted m.audit.exception_type
                then m.audit.exception_type
                else "RedactedException")
              id)) [
                | inl (s, f) ↦ (s, rw (e, f, redacted_audit) refl)
                | inr (x, f) ↦ (
                  fallback_record m.audit.code id,
                  rw (e, f, redacted_audit) (fallback_audit m.audit.code id h),
                )
              ]
    ]

    emit_audit-controller :
        (a : Application) (s : ScrubbedError) → (emit_audit host a s).controller ≡ a.controller
    unfolding emit_audit
    emit_audit-controller a s = ground arith

    -- a mapped failure is public, and touches no bulkhead
    pub mapped_failure-ok :
        (a : Application) (e : Failure) (id : String)
        → ((mapped_failure host a e id).1
            ≡ ok (failure (response_of (public_code e.kind) (safe_request_id host id))))
          × ((mapped_failure host a e id).0.controller ≡ a.controller)
    unfolding mapped_failure
    mapped_failure-ok a e id =
        let text = safe_request_id-text id in
        let (s, audited) =
          redacted_audit-ok (views_of e (safe_request_id host id)) (safe_request_id host id) text in
        (
          rw (map_exception-views_of e (safe_request_id host id) text, audited, mapped_failure)
              refl,
          rw (map_exception-views_of e (safe_request_id host id) text, audited, mapped_failure)
              (emit_audit-controller a s),
        )

    abbrev pub Reported : ExecutionLimits → String → Result (InvocationResult Value) → Type 0
    Reported l request_id r =
        ((p : InvocationResult Value) × (r ≡ ok p) × IsPublic l (safe_request_id host request_id) p)
        ⊎ ((e : Failure) × (r ≡ err e) × (is_exception e.kind ≡ false))

    pub mapped_failure-Reported :
        (l : ExecutionLimits) (a : Application) (e : Failure) (id : String)
        → Reported l id (mapped_failure host a e id).1
    mapped_failure-Reported l a e id = inl (
      failure (response_of (public_code e.kind) (safe_request_id host id)),
      (mapped_failure-ok a e id).0,
      inr (public_code e.kind, refl, safe_request_id-text id),
    )

    redacted_value-ok :
        (a : Application) (value : Option Value) (v : Value)
        → redacted_value host a value ≡ ok v
        → validate_json_value host.float_length
            (limits_of a)
            ((limits_of a).integers max_result_bytes)
            v
          ≡ ok tt
    unfolding redacted_value
    redacted_value-ok a value v h = ground arith

    pub redact_result-Reported :
        (a : Application) (r : InvocationResult Value) (id : String)
        → Reported (limits_of a) id (redact_result host a r id).1
    unfolding redact_result
    redact_result-Reported a r id = elim (Option-cases r.error) [
      | inr (e, h) ↦
          rw
            (
              h,
              from_code-response_of e.code (safe_request_id host id) (safe_request_id-text id),
              redact_result,
            )
            (inl (
              failure (response_of e.code (safe_request_id host id)),
              refl,
              inr (e.code, refl, safe_request_id-text id),
            ))
      | inl h ↦ elim (Result-cases (redacted_value host a r.value)) [
        | inl (v, k) ↦
            rw (h, k, redact_result)
              (inl (success v, refl, inl (v, refl, redacted_value-ok a r.value v k)))
        | inr (e, k) ↦ elim (Bool-cases (is_limit e.kind)) [
          | inl limit ↦
              rw (h, k, limit, redact_result)
                (mapped_failure-Reported (limits_of a) a (code_failure ErrorCode.result_too_large)
                  id)
          | inr unlimited ↦ elim (Bool-cases (is_exception e.kind)) [
            | inl ordinary ↦
                rw (h, k, unlimited, ordinary, redact_result)
                  (mapped_failure-Reported (limits_of a) a redaction_failure id)
            | inr passes ↦ rw (h, k, unlimited, passes, redact_result) (inr (e, refl, passes))
          ]
        ]
      ]
    ]
