-- ===== src/Errors.antt =====
-- src/tesserix_mcp_runtime/errors.py: the public and the audit view of a failure, and the emitter
-- that accepts one terminal result. The emitter's lock makes `emit` atomic, so it is one step here;
-- `result` waits until a result is there, which is `none` here.
pub mod Mapping
mod Tests
use tesserix_mcp_runtime.Base.{
  ℕ, Bool, true, false, ◌&&◌, ◌||◌, String, Option, none, some, List, [], ◌∷◌, ◌==◌, str_eq,
  if◌then◌else◌,
}
use tesserix_mcp_runtime.Base.Text.{codes, is_digit, is_letter, matches}
use tesserix_mcp_runtime.Contracts.Vocabulary.{ErrorCode, ErrorCode-discrete}
use tesserix_mcp_runtime.Contracts.Failure.{Kind, Failure, Result, ok, err, ◌>>=◌, ◌>>◌, check}
use tesserix_mcp_runtime.Contracts.Response.{ErrorResponse, from_code, InvocationResult}

-- `_EXCEPTION_TYPE`
unfoldable pub is_exception_type : String → Bool
unfolding matches
is_exception_type name =
    matches (λ c. is_letter c || c == b'_') (λ c. is_letter c || is_digit c || c == b'_') 255
      (codes name)

pub record ScrubbedError : Type 0 where
  pub code : ErrorCode
  pub exception_type : String
  pub request_id : String

-- `ScrubbedError.__post_init__`
unfoldable pub scrubbed : ErrorCode → String → String → Result ScrubbedError
scrubbed code exception_type request_id = do
  _ ← from_code code request_id
  check (is_exception_type exception_type)
  ok (record { code = code; exception_type = exception_type; request_id = request_id })

pub record MappedError : Type 0 where
  pub response : ErrorResponse
  pub audit : ScrubbedError

abbrev pub same_code : ErrorCode → ErrorCode → Bool
same_code a b = elim (ErrorCode-discrete a b) [ yes e ↦ true | no ne ↦ false ]

-- `MappedError.__post_init__`
unfoldable pub mapped : ErrorResponse → ScrubbedError → Result MappedError
mapped response audit = do
  check (same_code response.code audit.code && str_eq response.request_id audit.request_id)
  ok (record { response = response; audit = audit })

-- the public code that `map_exception` gives an exception
unfoldable pub public_code : Kind → ErrorCode
public_code (Kind.runtime_failure code) = code
public_code Kind.timeout = ErrorCode.timeout
public_code Kind.cancelled = ErrorCode.cancelled
public_code _ = ErrorCode.internal_failure

-- the class name that goes to the audit
unfoldable pub audit_name : String → String
audit_name name = if is_exception_type name then name else "Exception"

unfoldable pub map_exception : Failure → String → Result MappedError
unfolding scrubbed mapped
map_exception error request_id = do
  let code = public_code error.kind
  response ← from_code code request_id
  audit ← scrubbed code (audit_name error.type_name) request_id
  mapped response audit

-- `TerminalEmitter`: its result, once there is one
pub record TerminalEmitter {ℓ} (V : Type ℓ) : Type ℓ where
  pub result : Option (InvocationResult V)

module _ {ℓ} {V : Type ℓ} where
  unfoldable pub fresh : TerminalEmitter V
  fresh = record { result = none }

  unfoldable pub emit : TerminalEmitter V → InvocationResult V → TerminalEmitter V × Bool
  emit t r = elim t.result [ none ↦ (record { result = some r }, true) | some old ↦ (t, false) ]

  -- several emissions in the order in which they take the lock, and their answers
  unfoldable pub emit_all :
      TerminalEmitter V → List (InvocationResult V) → TerminalEmitter V × List Bool
  emit_all t [] = (t, [])
  emit_all t (r ∷ rs) =
      let (t', accepted) = emit t r in
      let (t'', answers) = emit_all t' rs in (t'', accepted ∷ answers)
