-- ===== src/Contracts.antt =====
-- src/tesserix_mcp_runtime/contracts.py: the values that the runtime's parts exchange.
-- The enumerations and the exceptions are in `Vocabulary` and `Failure`, the checked data classes in
-- `Response`, `Identity` and `Metadata`. A data class with a `__post_init__` is a record with a
-- function that builds it or raises; a field's annotated type is its type here, so the checks by
-- `isinstance` are not repeated, except where a number may be a `bool` or a float.
pub mod Vocabulary
pub mod Failure
pub mod Response
pub mod Identity
pub mod Metadata
pub mod Laws
mod Tests
