-- ===== src/Tool.antt =====
-- src/tesserix_mcp_runtime/tool.py: what a tool definition may violate, and the limits that a
-- registration sets. Validate and Catalog are the walk over a schema and the catalog.
pub mod Violation
pub mod Keywords
pub mod Validate
pub mod Register
pub mod Catalog
mod Tests
use tesserix_mcp_runtime.Base.{
  ℕ, Bool, true, false, ◌&&◌, String, List, [], ◌∷◌, leb, Number, integer, pos,
}
use tesserix_mcp_runtime.Contracts.Failure.{Result, ok, ◌>>◌, check, each}
use tesserix_mcp_runtime.Execution.Limits.{magnitude}

-- the names of `_SCHEMA_POLICY_MAXIMA` and of `_METADATA_POLICY_MAXIMA`
pub data SchemaLimit : Type 0 where
  max_schema_bytes max_depth max_properties max_string_length max_array_items : SchemaLimit
  max_definitions max_schema_nodes max_union_variants : SchemaLimit

pub data MetadataLimit : Type 0 where
  max_description_bytes max_description_tokens max_summary_bytes : MetadataLimit
  max_summary_tokens max_when_to_use_bytes max_when_to_use_tokens max_examples : MetadataLimit
  max_example_bytes max_example_tokens max_total_example_bytes : MetadataLimit
  max_total_example_tokens : MetadataLimit

unfoldable pub schema_maxima : List (SchemaLimit × ℕ)
schema_maxima =
    (max_schema_bytes, 262144)
    ∷ (max_depth, 32)
    ∷ (max_properties, 256)
    ∷ (max_string_length, 65536)
    ∷ (max_array_items, 4096)
    ∷ (max_definitions, 256)
    ∷ (max_schema_nodes, 16384)
    ∷ (max_union_variants, 64)
    ∷ []

unfoldable pub metadata_maxima : List (MetadataLimit × ℕ)
metadata_maxima =
    (max_description_bytes, 4096)
    ∷ (max_description_tokens, 512)
    ∷ (max_summary_bytes, 512)
    ∷ (max_summary_tokens, 128)
    ∷ (max_when_to_use_bytes, 2048)
    ∷ (max_when_to_use_tokens, 256)
    ∷ (max_examples, 8)
    ∷ (max_example_bytes, 1024)
    ∷ (max_example_tokens, 128)
    ∷ (max_total_example_bytes, 4096)
    ∷ (max_total_example_tokens, 512)
    ∷ []

abbrev is_within : Number → ℕ → Bool
is_within (integer (pos n)) maximum = leb 1 n && leb n maximum
is_within n maximum = false

pub record SchemaPolicy : Type 0 where
  pub limit : SchemaLimit → ℕ

-- `SchemaPolicy.__post_init__`
unfoldable pub check_schema_policy : (SchemaLimit → Number) → Result SchemaPolicy
check_schema_policy settings = do
  each (λ (name, maximum). check (is_within (settings name) maximum)) schema_maxima
  ok (record { limit = λ name. magnitude (settings name) })

pub record MetadataPolicy : Type 0 where
  pub limit : MetadataLimit → ℕ

-- `MetadataPolicy.__post_init__`
unfoldable pub check_metadata_policy : (MetadataLimit → Number) → Result MetadataPolicy
check_metadata_policy settings = do
  each (λ (name, maximum). check (is_within (settings name) maximum)) metadata_maxima
  ok (record { limit = λ name. magnitude (settings name) })
