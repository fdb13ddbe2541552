-- ===== src/Contracts/Metadata.antt =====
-- `ToolDiscoveryMetadata` and `ToolMetadata` of contracts.py.
use tesserix_mcp_runtime.Base.{
  ℕ, Bool, false, not, ◌&&◌, ◌||◌, String, Option, List, ◌∷◌, leb, ◌==◌, length, is_unique,
}
use tesserix_mcp_runtime.Base.Text.{codes, is_digit, is_lower, is_letter, matches}
use tesserix_mcp_runtime.Contracts.Vocabulary.{
  ToolEffect, ApprovalRequirement, IdempotencyRequirement, is_read, is_external, needs_approval,
  needs_idempotency,
}
use tesserix_mcp_runtime.Contracts.Failure.{Result, ok, ◌>>◌, check, each}
use tesserix_mcp_runtime.Contracts.Response.{require_text}

-- `_TOOL_NAME`
unfoldable pub is_tool_name : List ℕ → Bool
unfolding matches
is_tool_name =
    matches is_letter (λ c. is_letter c || is_digit c || c == b'_' || c == b'.' || c == b'-') 127

-- `_SCOPE_NAME`
unfoldable pub is_scope_name : List ℕ → Bool
unfolding matches
is_scope_name =
    matches (λ c. is_letter c || is_digit c)
      (λ c.
        is_letter c || is_digit c || c == b':' || c == b'.' || c == b'_' || c == b'/' || c == b'-')
      255

-- `_METADATA_CLASS`
unfoldable pub is_metadata_class : List ℕ → Bool
unfolding matches
is_metadata_class =
    matches is_lower (λ c. is_lower c || is_digit c || c == b'.' || c == b'_' || c == b'-') 63

-- `_CAPABILITY_NAME`
unfoldable pub is_capability_name : List ℕ → Bool
unfolding matches
is_capability_name (c ∷ a ∷ p ∷ slash ∷ s) =
    c == b'c'
    && a == b'a'
    && p == b'p'
    && slash == b'/'
    && matches (λ d. is_lower d || is_digit d)
        (λ d. is_lower d || is_digit d || d == b'.' || d == b'_' || d == b'/' || d == b'-') 127 s
is_capability_name s = false

pub record ToolDiscoveryMetadata : Type 0 where
  pub summary : String
  pub when_to_use : String
  pub capabilities : List String
  pub rate_class : String
  pub lifecycle : String
  pub examples : List String

unfoldable pub require_pattern : ℕ → (List ℕ → Bool) → String → Result (Unit {0})
require_pattern maximum pattern value = do require_text maximum value; check (pattern (codes value))

-- `ToolDiscoveryMetadata.__post_init__`
unfoldable pub check_discovery : ToolDiscoveryMetadata → Result (Unit {0})
check_discovery d = do
  require_text 200 d.summary
  require_text 1024 d.when_to_use
  check (leb (length d.capabilities) 32)
  each (require_pattern 132 is_capability_name) d.capabilities
  check (is_unique d.capabilities)
  require_pattern 64 is_metadata_class d.rate_class
  require_pattern 64 is_metadata_class d.lifecycle
  check (leb (length d.examples) 16)
  each (require_text 1024) d.examples
  check (is_unique d.examples)

pub record ToolMetadata : Type 0 where
  pub name : String
  pub title : String
  pub description : String
  pub effect : ToolEffect
  pub approval : ApprovalRequirement
  pub idempotency : IdempotencyRequirement
  pub required_scopes : List String
  pub discovery : Option ToolDiscoveryMetadata

-- The last two tests of `ToolMetadata.__post_init__`.
unfoldable pub is_governed : ToolMetadata → Bool
is_governed m =
    (is_read m.effect || needs_idempotency m.idempotency)
    && (not (is_external m.effect) || needs_approval m.approval)

-- `ToolMetadata.__post_init__`: the discovery metadata has been built, and so checked, before.
unfoldable pub check_metadata : ToolMetadata → Result ToolMetadata
check_metadata m = do
  require_pattern 128 is_tool_name m.name
  require_text 128 m.title
  require_text 2048 m.description
  check (leb (length m.required_scopes) 32)
  each (require_pattern 256 is_scope_name) m.required_scopes
  check (is_unique m.required_scopes)
  check (is_governed m)
  ok m
