-- ===== src/Execution.antt =====
-- src/tesserix_mcp_runtime/execution.py: limits, admission, retries and the bounds on JSON values.
pub mod Limits
pub mod Admission
pub mod Retry
pub mod Deadline
pub mod Json
mod Tests
