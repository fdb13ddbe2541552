-- ===== src/Contracts/Laws.antt =====
-- The checked data classes of contracts.py once they are built.
use tesserix_mcp_runtime.Base.{
  Bool, true, false, String, ◌≡◌, refl, List, [], ◌∷◌, arith, All, inl, inr, Bool-cases, is_unique,
  ◌⊎◌, ◌≢◌,
}
use tesserix_mcp_runtime.Contracts.Vocabulary.{
  ErrorCode, ToolEffect, ApprovalRequirement, IdempotencyRequirement, error_message,
  error_retryability,
}
use tesserix_mcp_runtime.Contracts.Failure.{Result, ok, err, check, each, value_failure}
use tesserix_mcp_runtime.Contracts.Response.{from_code, is_text, require_text}
use tesserix_mcp_runtime.Contracts.Metadata.{ToolMetadata, check_metadata, is_governed}

pub check-ok : (b : Bool) → check b ≡ ok tt → b ≡ true
check-ok true h = refl
check-ok false h = ground arith

pub each-ok {ℓ} :
    {A : Type ℓ} (step : A → Result (Unit {0})) (xs : List A)
    → each step xs ≡ ok tt
    → All (λ x. step x ≡ ok tt) xs
unfolding each
each-ok step [] h = tt
each-ok step (x ∷ xs) h = (ground arith, each-ok step xs (ground arith))

-- A built error carries the stable text and retryability of its code; it is built exactly when the
-- request id is bounded visible text, and any other request id raises ValueError.
pub from_code_total :
    (code : ErrorCode) (request_id : String)
    → ((is_text 256 request_id ≡ true)
        × (from_code code request_id
            ≡ ok (record {
              code = code;
              message = error_message code;
              request_id = request_id;
              retryability = error_retryability code;
            })))
      ⊎ ((is_text 256 request_id ≡ false) × (from_code code request_id ≡ err value_failure))
unfolding from_code require_text
from_code_total code request_id = elim (Bool-cases (is_text 256 request_id)) [
  | inl e ↦ inl (e, rw e)
  | inr e ↦ inr (e, rw e)
]

-- Metadata that is built never lets a write go without idempotency, nor an external effect without
-- approval, and has distinct scopes.
pub check_metadata-governed :
    (m built : ToolMetadata)
    → check_metadata m ≡ ok built
    → (built ≡ m)
      × (is_unique m.required_scopes ≡ true)
      × ((m.effect ≡ ToolEffect.read) ⊎ (m.idempotency ≡ IdempotencyRequirement.required))
      × ((m.effect ≢ ToolEffect.external_effect) ⊎ (m.approval ≡ ApprovalRequirement.required))
unfolding check_metadata is_governed
check_metadata-governed m built h = (ground arith, ground arith, ground arith, ground arith)
