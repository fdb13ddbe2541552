-- ===== src/Tool/Register.antt =====
-- src/tesserix_mcp_runtime/tool.py: `_validate_schema_node` and `validate_schema`, around the walk of
-- Validate.
pub mod Bounded
pub mod Reached
use tesserix_mcp_runtime.Base.{
  ℕ, ◌-◌, true, false, Option, none, some, [], leb, ℤ, is_some, if◌then◌else◌,
}
use tesserix_mcp_runtime.Base.Dict.{get, empty}
use tesserix_mcp_runtime.Json.{
  name, not_text, Value, object, Fields, end, field, count_fields, has_names,
}
use tesserix_mcp_runtime.Json.Text.{json_length, is_writable}
use tesserix_mcp_runtime.Schema.Equality.{entry}
use tesserix_mcp_runtime.Schema.Keywords.{mapping_of}
use tesserix_mcp_runtime.Tool.Violation.{
  invalid_schema, schema_limit_exceeded, Place, under, Checked, passed, violated, ◌>>=◌, ◌>>◌,
  require,
}
use tesserix_mcp_runtime.Tool.{SchemaPolicy, max_schema_bytes, max_depth, max_definitions}
use tesserix_mcp_runtime.Tool.Keywords.{names_match}
use tesserix_mcp_runtime.Tool.Validate.{Walk, validate_definition, validate_value}

module _ (policy : SchemaPolicy) (definitions : Fields) (top : Place) where
  -- the loop of `_validate_schema_node` over the definitions that were not visited
  unfoldable pub validate_rest : Fields → Walk → Checked Walk
  validate_rest end w = passed w
  validate_rest (field not_text v fs) w = validate_rest fs w
  validate_rest (field (name k) v fs) w =
      if is_some (get w.depths k) then validate_rest fs w else do
        w1 ←
            validate_definition policy definitions top
              (validate_value policy definitions top (policy.limit max_depth - 1) false) k
              (under (under top "$defs") k) 2 [] w
        validate_rest fs w1

  -- `_validate_schema_node` on a mapping, after the test of its size
  unfoldable pub validate_definitions : Fields → Option Fields → Checked Walk
  validate_definitions schema none = violated invalid_schema (under top "$defs")
  validate_definitions schema (some ds) = do
    require (leb (count_fields ds) (policy.limit max_definitions)) schema_limit_exceeded
        (under top "$defs")
    require (names_match ds) invalid_schema (under top "$defs")
    w ←
        validate_value policy definitions top (policy.limit max_depth) true [] top
          (some (object schema)) (record { nodes = 0; depths = empty })
    validate_rest ds w

-- `schema.get("$defs", {})`
unfoldable pub root_definitions : Option Value → Option Fields
root_definitions none = some end
root_definitions (some v) = mapping_of (some v)

abbrev pub or_none : Option Fields → Fields
or_none none = end
or_none (some ds) = ds

-- `validate_schema`; `float_length` is the length of the text of a float
unfoldable pub validate_schema : (ℤ → ℕ) → SchemaPolicy → Place → Fields → Checked Walk
validate_schema float_length policy top schema = do
  require (has_names schema) invalid_schema top
  require (is_writable (object schema)) invalid_schema top
  require (leb (json_length float_length (object schema)) (policy.limit max_schema_bytes))
      schema_limit_exceeded top
  validate_definitions policy (or_none (root_definitions (entry "$defs" schema))) top schema
      (root_definitions (entry "$defs" schema))
