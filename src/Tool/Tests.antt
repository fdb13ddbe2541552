-- ===== src/Tool/Tests.antt =====
-- A schema that names a definition twice, the catalog of one tool with it, and the theorems at them.
use tesserix_mcp_runtime.Base.{
  ℕ, Bool, true, false, [], ◌∷◌, pos, ◌≡◌, ◌≤◌, refl, ◌||◌, contains, is_unique, All,
}
use tesserix_mcp_runtime.Json.Text.{
  is_writable, json_length, decimal_digits, escaped_length, integer_digits, key_length, utf8_length,
}
use tesserix_mcp_runtime.Schema.Keywords.{mapping_of, has_key}
use tesserix_mcp_runtime.Schema.Resolve.{without_prefix}
use tesserix_mcp_runtime.Schema.{field_of}
use tesserix_mcp_runtime.Base.Dict.{empty, get, insert, lookup, put}
use tesserix_mcp_runtime.Base.Sets.{sorted, insert_sorted}
use tesserix_mcp_runtime.Base.Text.{matches, is_space, is_letter, is_digit}
use tesserix_mcp_runtime.Tool.Keywords.{
  names_match, is_definition_name, unsupported, type_keywords, bounded, keywords_of, natural,
  string_bound,
}
use tesserix_mcp_runtime.Json.{object, text, integer, boolean, Fields, end, field, name}
use tesserix_mcp_runtime.Schema.Equality.{entry}
use tesserix_mcp_runtime.Policy.Samples.{refund}
use tesserix_mcp_runtime.Tool.Violation.{
  Place, start, item, passed, violated, unbounded_string_schema, under, recursive_schema,
}
use tesserix_mcp_runtime.Tool.{SchemaLimit, SchemaPolicy, MetadataPolicy}
use tesserix_mcp_runtime.Tool.Validate.{
  Walk, validate_value, validate_mapped, validate_node, validate_any_of, required_within, revisit,
  validate_closed, validate_definition, validate_enum, validate_named, validate_object,
  validate_properties, validate_reference, validate_string, validate_type, validate_typed,
}
use tesserix_mcp_runtime.Tool.Register.{
  validate_schema, root_definitions, or_none, validate_definitions, validate_rest,
}
use tesserix_mcp_runtime.Tool.Register.Bounded.{is_bounded}
use tesserix_mcp_runtime.Tool.Register.Reached.{Reached, validate_schema-is_bounded}
use tesserix_mcp_runtime.Tool.Catalog.{
  ToolDefinition, ToolCatalog, count_tokens, portable_token_count, validate_text_budget,
  validate_discovery, validate_metadata, manifest_for, require_new, add_definition, add_definitions,
  build_catalog,
}
use tesserix_mcp_runtime.Tool.Catalog.Accepted.{Promised, build_catalog-Promised}

abbrev policy : SchemaPolicy
policy = record { limit = limits }
  where
    limits : SchemaLimit → ℕ
    limits SchemaLimit.max_schema_bytes = 65536
    limits SchemaLimit.max_depth = 16
    limits SchemaLimit.max_properties = 128
    limits SchemaLimit.max_string_length = 65536
    limits SchemaLimit.max_array_items = 1024
    limits SchemaLimit.max_definitions = 128
    limits SchemaLimit.max_schema_nodes = 4096
    limits SchemaLimit.max_union_variants = 16

-- an object whose two properties are of the definition `code`, a text of `bound`
abbrev pair : Fields → Fields
pair code = field (name "type") (text "object") (
    field (name "additionalProperties") (boolean false) (
      field (name "properties")
        (object
          (field (name "left") (object reference) (field (name "right") (object reference) end)))
        (field (name "$defs") (object (field (name "code") (object code) end)) end)))
  where
    reference : Fields
    reference = field (name "$ref") (text "#/$defs/code") end

abbrev short : Fields
short = field (name "type") (text "string") (field (name "maxLength") (integer (pos 3)) end)

-- the walk over it: a definition is visited at the depth of its first use
abbrev pair_walk : Walk
pair_walk = record { nodes = 4; depths = record { entries = ("code", 3) ∷ [] } }

-- A definition that names itself is refused, and so is a text without a limit.
pair_validated :
    (top : Place)
    → (validate_schema (λ x. 1) policy top (pair short) ≡ passed pair_walk)
      × (validate_schema (λ x. 1) policy top (pair (field (name "$ref") (text "#/$defs/code") end))
          ≡ violated recursive_schema (under (under (under top "$defs") "code") "$ref"))
      × (validate_schema (λ x. 1) policy top (pair (field (name "type") (text "string") end))
          ≡ violated unbounded_string_schema (under (under (under top "$defs") "code") "maxLength"))
unfolding is_writable json_length decimal_digits escaped_length integer_digits key_length mapping_of
    has_key without_prefix field_of empty get insert lookup put sorted insert_sorted matches
    names_match is_definition_name unsupported type_keywords bounded keywords_of natural
    string_bound validate_value validate_mapped validate_node validate_any_of required_within
    revisit validate_closed validate_definition validate_enum validate_named validate_object
    validate_properties validate_reference validate_string validate_type validate_typed
    validate_schema root_definitions validate_definitions validate_rest entry contains
pair_validated top = (refl, refl, refl)

validate_schema-is_bounded_example :
    (4 ≤ 4096)
    × ((t : Fields)
        → Reached (or_none (root_definitions (entry "$defs" (pair short)))) (pair short) t
        → is_bounded policy t ≡ true)
validate_schema-is_bounded_example =
    validate_schema-is_bounded (λ x. 1) policy (start "s") (pair short) pair_walk
      (pair_validated (start "s")).0

abbrev metadata_policy : MetadataPolicy
metadata_policy = record { limit = λ l. 4096 }

abbrev tool : ToolDefinition
tool = record { metadata = refund; input_schema = pair short; output_schema = pair short }

abbrev is_word : ℕ → Bool
is_word c = is_letter c || is_digit c

abbrev built : ToolCatalog
built = record {
  by_name = record { entries = ("refund", 0) ∷ [] };
  by_normalized_name = record { entries = ("refund", 0) ∷ [] };
  manifests = manifest_for (λ x. 1) is_word (λ s. s) policy metadata_policy tool ∷ [];
}

described : validate_metadata is_word metadata_policy refund ≡ passed tt
unfolding validate_metadata validate_text_budget validate_discovery portable_token_count
    count_tokens utf8_length is_space
described = refl

catalog_built :
    build_catalog (λ x. 1) is_word (λ s. s) policy metadata_policy (tool ∷ []) ≡ passed built
unfolding build_catalog add_definitions add_definition require_new get put insert lookup empty
catalog_built =
    rw
      (
        described,
        (pair_validated (under (item (start "tools") 0) "input_schema")).0,
        (pair_validated (under (item (start "tools") 0) "output_schema")).0,
      )
      refl

build_catalog-Promised_example :
    (built.manifests ≡ manifest_for (λ x. 1) is_word (λ s. s) policy metadata_policy tool ∷ [])
    × (is_unique ("refund" ∷ []) ≡ true)
    × All (Promised (λ x. 1) is_word (λ s. s) policy metadata_policy) (tool ∷ [])
build_catalog-Promised_example =
    build_catalog-Promised (λ x. 1) is_word (λ s. s) policy metadata_policy (tool ∷ []) built
      catalog_built
