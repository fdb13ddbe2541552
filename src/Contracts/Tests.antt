-- ===== src/Contracts/Tests.antt =====
-- Runs of the checked data classes, and their theorems at these inputs.
use tesserix_mcp_runtime.Base.{true, none, ◌≡◌, refl, [], ◌∷◌, ◌⊎◌, ◌≢◌, is_unique, contains}
use tesserix_mcp_runtime.Base.Text.{is_stripped, is_space}
use tesserix_mcp_runtime.Contracts.Vocabulary.{
  ErrorCode, ToolEffect, ApprovalRequirement, IdempotencyRequirement,
}
use tesserix_mcp_runtime.Contracts.Failure.{ok, err, each, value_failure}
use tesserix_mcp_runtime.Contracts.Response.{from_code, is_text, require_text}
use tesserix_mcp_runtime.Contracts.Metadata.{
  ToolMetadata, check_metadata, is_governed, require_pattern, is_tool_name, is_scope_name,
}
use tesserix_mcp_runtime.Contracts.Laws.{check_metadata-governed}

abbrev transfer : ToolMetadata
transfer = record {
  name = "transfer";
  title = "Transfer";
  description = "Move money.";
  effect = ToolEffect.external_effect;
  approval = ApprovalRequirement.required;
  idempotency = IdempotencyRequirement.required;
  required_scopes = "pay:write" ∷ "pay:read" ∷ [];
  discovery = none;
}

transfer_built : check_metadata transfer ≡ ok transfer
unfolding check_metadata is_governed require_pattern is_tool_name is_scope_name require_text is_text
    is_stripped each is_unique contains
transfer_built = refl

unapproved :
    check_metadata (record transfer { approval = ApprovalRequirement.not_required })
    ≡ err value_failure
unfolding check_metadata is_governed require_pattern is_tool_name is_scope_name require_text is_text
    is_stripped each is_unique contains
unapproved = refl

padded : from_code ErrorCode.timeout " q" ≡ err value_failure
unfolding from_code require_text is_text is_stripped is_space
padded = refl

transfer_governed :
    (transfer ≡ transfer)
    × (is_unique ("pay:write" ∷ "pay:read" ∷ []) ≡ true)
    × ((ToolEffect.external_effect ≡ ToolEffect.read)
        ⊎ (IdempotencyRequirement.required ≡ IdempotencyRequirement.required))
    × ((ToolEffect.external_effect ≢ ToolEffect.external_effect)
        ⊎ (ApprovalRequirement.required ≡ ApprovalRequirement.required))
transfer_governed = check_metadata-governed transfer transfer transfer_built
