-- ===== src/Errors/Mapping.antt =====
-- The two views of a failure, and the one terminal result.
use tesserix_mcp_runtime.Base.{
  true, false, String, ◌≡◌, refl, some, List, [], ◌∷◌, arith, map, Bool-cases, inl, inr,
}
use text.Mathlib.TextPositions.{eq_refl}
use tesserix_mcp_runtime.Contracts.Vocabulary.{
  ErrorCode, error_retryability, ErrorCode-discrete, error_message,
}
use tesserix_mcp_runtime.Contracts.Failure.{Failure, ok}
use tesserix_mcp_runtime.Contracts.Response.{
  is_text, from_code, ErrorResponse, require_text, InvocationResult,
}
use tesserix_mcp_runtime.Errors.{
  MappedError, is_exception_type, same_code, public_code, audit_name, map_exception, scrubbed,
  mapped, fresh, emit, emit_all,
}

audit_name-is_exception_type : (name : String) → is_exception_type (audit_name name) ≡ true
unfolding audit_name
audit_name-is_exception_type name = elim (Bool-cases (is_exception_type name)) [
  | inl e ↦ rw e e
  | inr e ↦ rw e (unfold is_exception_type in refl)
]

same_code_self : (c : ErrorCode) → same_code c c ≡ true
same_code_self c = ground (arith, ErrorCode-discrete c c)

pub scrubbed-ok :
    (code : ErrorCode) (name request_id : String)
    → is_text 256 request_id ≡ true
    → is_exception_type name ≡ true
    → scrubbed code name request_id
      ≡ ok (record { code = code; exception_type = name; request_id = request_id })
unfolding scrubbed from_code require_text
scrubbed-ok code name request_id h k = rw (h, k) refl

-- the response with the text and the retryability of its code
abbrev pub response_of : ErrorCode → String → ErrorResponse
response_of code request_id = record {
  code = code;
  message = error_message code;
  request_id = request_id;
  retryability = error_retryability code;
}

pub from_code-response_of :
    (code : ErrorCode) (request_id : String)
    → is_text 256 request_id ≡ true
    → from_code code request_id ≡ ok (response_of code request_id)
unfolding from_code require_text
from_code-response_of code request_id h = rw h refl

-- both views of a failure
abbrev pub views_of : Failure → String → MappedError
views_of error request_id = record {
  response = response_of (public_code error.kind) request_id;
  audit = record {
    code = public_code error.kind;
    exception_type = audit_name error.type_name;
    request_id = request_id;
  };
}

pub map_exception-views_of :
    (error : Failure) (request_id : String)
    → is_text 256 request_id ≡ true
    → map_exception error request_id ≡ ok (views_of error request_id)
unfolding map_exception mapped
map_exception-views_of error request_id h =
    let code = public_code error.kind in
    rw
      (
        from_code-response_of code request_id h,
        audit_name-is_exception_type error.type_name,
        same_code_self code,
        eq_refl request_id,
      )
      refl

-- For a bounded visible request id every exception is mapped: the public response has the code and
-- the stable text of the exception's class, the audit record has the same code and request id, and
-- what it says of the exception is a bounded type name, whatever the exception carries.
pub map_exception_total :
    (error : Failure) (request_id : String)
    → is_text 256 request_id ≡ true
    → (m : MappedError) × (map_exception error request_id ≡ ok m)
      × (m.response.code ≡ public_code error.kind)
      × (m.response.message ≡ error_message (public_code error.kind))
      × (m.response.request_id ≡ request_id)
      × (m.audit.code ≡ m.response.code)
      × (m.audit.request_id ≡ request_id)
      × (is_exception_type m.audit.exception_type ≡ true)
map_exception_total error request_id h = (
  views_of error request_id,
  map_exception-views_of error request_id h,
  refl,
  refl,
  refl,
  refl,
  refl,
  audit_name-is_exception_type error.type_name,
)

emit_all_after {ℓ} :
    {V : Type ℓ} (r : InvocationResult V) (rs : List (InvocationResult V))
    → emit_all (record { result = some r }) rs ≡ (record { result = some r }, map (λ _. false) rs)
unfolding emit_all emit
emit_all_after r [] = refl
emit_all_after r (x ∷ xs) = rw (emit_all_after r xs)

-- Of any emissions to a fresh emitter the first is kept and answered with true, all later ones
-- change nothing and are answered with false.
pub emit_all_first {ℓ} :
    {V : Type ℓ} (r : InvocationResult V) (rs : List (InvocationResult V))
    → ((emit_all fresh (r ∷ rs)).0.result ≡ some r)
      × ((emit_all fresh (r ∷ rs)).1 ≡ true ∷ map (λ _. false) rs)
unfolding emit_all fresh emit
emit_all_first r rs = rw (emit_all_after r rs) (refl, refl)
