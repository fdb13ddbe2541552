-- ===== src/Contracts/Response.antt =====
-- `_require_text`, `validate_deadline`, `ErrorResponse` and `InvocationResult` of contracts.py.
use tesserix_mcp_runtime.Base.{
  ℕ, Bool, false, ◌&&◌, String, Option, none, some, ltb, leb, length, all, pos, negsuc, Number,
  integer, finite, is_huge, if◌then◌else◌,
}
use tesserix_mcp_runtime.Base.Text.{codes, is_stripped}
use tesserix_mcp_runtime.Contracts.Vocabulary.{
  ErrorCode, Retryability, InvocationStatus, error_message, error_retryability,
}
use tesserix_mcp_runtime.Contracts.Failure.{Result, ok, err, ◌>>◌, check, overflow_failure}

-- the test of `_require_text`: non-empty, stripped, at most `maximum` characters, none below 32
unfoldable pub is_text : ℕ → String → Bool
unfolding is_stripped
is_text maximum value =
    let s = codes value in
    ltb 0 (length s) && is_stripped s && leb (length s) maximum && all (λ c. leb 32 c) s

-- `_require_text(name, value, maximum=maximum)`
unfoldable pub require_text : ℕ → String → Result (Unit {0})
require_text maximum value = check (is_text maximum value)

-- `validate_deadline(value)`
unfoldable pub validate_deadline : Number → Result (Unit {0})
validate_deadline (integer (pos n)) = if is_huge (pos n) then err overflow_failure else ok tt
validate_deadline (integer (negsuc n)) =
    if is_huge (negsuc n) then err overflow_failure else check false
validate_deadline (finite (pos n)) = ok tt
validate_deadline _ = check false

pub record ErrorResponse : Type 0 where
  pub code : ErrorCode
  pub message : String
  pub request_id : String
  pub retryability : Retryability

-- `ErrorResponse.from_code`: the constructor's own checks on the message and the retryability
-- compare each with the table that it was read from.
unfoldable pub from_code : ErrorCode → String → Result ErrorResponse
from_code code request_id = do
  require_text 256 request_id
  ok (record {
    code = code;
    message = error_message code;
    request_id = request_id;
    retryability = error_retryability code;
  })

-- A JSON document enters a result only as a value that is carried along.
pub record InvocationResult {ℓ} (V : Type ℓ) : Type ℓ where
  pub status : InvocationStatus
  pub value : Option V
  pub error : Option ErrorResponse

-- `InvocationResult.success` and `InvocationResult.failure`
unfoldable pub success {ℓ} : {V : Type ℓ} → V → InvocationResult V
success value = record { status = InvocationStatus.success; value = some value; error = none }

unfoldable pub failure {ℓ} : {V : Type ℓ} → ErrorResponse → InvocationResult V
failure error = record { status = InvocationStatus.failure; value = none; error = some error }
