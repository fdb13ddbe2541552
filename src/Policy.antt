-- ===== src/Policy.antt =====
-- src/tesserix_mcp_runtime/policy.py: the default-deny policy for tool calls.
-- `Rules` has the data and their checks, `Setup` the constructor of `ToolPolicy`, `Authorize` the
-- decision and `Authorize/...` what it guarantees.
pub mod Rules
pub mod Setup
pub mod Audit
pub mod Authorize
pub mod Samples
mod Tests
