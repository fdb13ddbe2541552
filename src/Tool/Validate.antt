-- ===== src/Tool/Validate.antt =====
-- src/tesserix_mcp_runtime/tool.py: `_validate_schema_node` and the walk below it.
--
-- A walk carries the nodes that it has counted and the depth at which each definition was visited
-- last. Its first argument is the number of levels that may still be entered: a node at `depth` has
-- `max_depth + 1 - depth` of them, none when it is too deep.
pub mod Cases
pub mod Keeps
pub mod Parts
pub mod Inside
pub mod Visits
use tesserix_mcp_runtime.Base.{
  ℕ, zero, suc, ◌+◌, ◌-◌, Bool, true, false, not, ◌&&◌, ◌||◌, String, Option, none, some, List, [],
  ◌∷◌, ◌++◌, contains, str_eq, leb, ltb, ◌==◌, length, max, ℤ, pos, is_huge, is_some, if◌then◌else◌,
}
use tesserix_mcp_runtime.Base.Dict.{Dict, get, put, empty}
use tesserix_mcp_runtime.Base.Sets.{sorted}
use tesserix_mcp_runtime.Base.Text.{codes, is_digit, is_letter, matches}
use tesserix_mcp_runtime.Json.{
  Key, name, not_text, Value, null, boolean, integer, floating, text, array, object, Items, nil,
  cons, Fields, end, field, count_items, count_fields, has_names,
}
use tesserix_mcp_runtime.Json.Text.{json_length, is_writable}
use tesserix_mcp_runtime.Schema.{field_of}
use tesserix_mcp_runtime.Schema.Equality.{entry}
use tesserix_mcp_runtime.Schema.Keywords.{mapping_of, has_key}
use tesserix_mcp_runtime.Schema.Resolve.{without_prefix}
use tesserix_mcp_runtime.Tool.Violation.{
  Code, invalid_schema, schema_limit_exceeded, unsupported_schema_keyword,
  unsupported_schema_reference, unsupported_schema_type, invalid_object_schema,
  unbounded_string_schema, unbounded_array_schema, unbounded_object_schema, open_object_schema,
  invalid_schema_reference, recursive_schema, Place, under, item, Checked, passed, violated,
  overflowed, ◌>>=◌, ◌>>◌, require,
}
use tesserix_mcp_runtime.Tool.{
  SchemaPolicy, max_schema_bytes, max_depth, max_properties, max_string_length, max_array_items,
  max_definitions, max_schema_nodes, max_union_variants,
}
use tesserix_mcp_runtime.Tool.Keywords.{
  keywords_of, schema_types, is_definition_name, type_keywords, unsupported, first_of, natural,
  bounded, is_member, is_out_of_floats, check_members, longest, string_bound, has_only,
  check_required, names_match,
}

pub record Walk : Type 0 where
  pub nodes : ℕ
  pub depths : Dict ℕ

-- visited before, at least as deep
abbrev pub is_seen : ℕ → Option ℕ → Bool
is_seen depth none = false
is_seen depth (some p) = leb depth p

-- `properties`, or `{}` where there are none
abbrev pub properties_or_empty : Option Value → Option Fields
properties_or_empty none = some end
properties_or_empty (some v) = mapping_of (some v)

abbrev pub is_false : Option Value → Bool
is_false (some (boolean false)) = true
is_false v = false

module _ (policy : SchemaPolicy) (definitions : Fields) (top : Place) where
  -- `_validate_enum`
  unfoldable pub validate_enum : String → Place → Option Value → Checked (Unit {0})
  validate_enum t place none = passed tt
  validate_enum t place (some (array vs)) =
      if count_items vs == 0 || ltb (policy.limit max_properties) (count_items vs)
      then violated invalid_schema (under place "enum")
      else check_members t (under place "enum") 0 vs
  validate_enum t place (some v) = violated invalid_schema (under place "enum")

  -- `_validate_property_names`
  unfoldable pub property_names_within : Place → Option Fields → Checked (Unit {0})
  property_names_within place none = violated invalid_schema (under place "propertyNames")
  property_names_within place (some fs) = do
    require (has_only ("maxLength" ∷ "minLength" ∷ []) fs) invalid_schema
        (under place "propertyNames")
    bounded (natural (field_of "maxLength" fs)) (policy.limit max_string_length)
        unbounded_string_schema (under (under place "propertyNames") "maxLength")

  -- `next` validates a value one level further down
  module _ (next : List String → Place → Option Value → Walk → Checked Walk) where
    -- the loop over the variants
    unfoldable pub validate_variants : List String → Place → ℕ → Items → Walk → Checked Walk
    validate_variants stack place index nil w = passed w
    validate_variants stack place index (cons v vs) w = do
      w1 ← next stack (item place index) (some v) w
      validate_variants stack place (index + 1) vs w1

    unfoldable pub validate_any_of : List String → Place → Option Value → Walk → Checked Walk
    validate_any_of stack place none w = passed w
    validate_any_of stack place (some (array vs)) w =
        if ltb (count_items vs) 2
        then violated invalid_schema (under place "anyOf")
        else if ltb (policy.limit max_union_variants) (count_items vs)
        then violated schema_limit_exceeded (under place "anyOf")
        else validate_variants stack (under place "anyOf") 0 vs w
    validate_any_of stack place (some v) w = violated invalid_schema (under place "anyOf")

    -- `_validate_definition` at `depth`, which is the depth of `next`
    unfoldable pub revisit : String → ℕ → List String → Walk → Option ℕ → Checked Walk
    revisit key depth stack w previous =
        if is_seen depth previous
        then passed w
        else next (stack ++ (key ∷ [])) (under (under top "$defs") key) (entry key definitions)
            (record w { depths = put w.depths key depth })

    unfoldable pub validate_definition : String → Place → ℕ → List String → Walk → Checked Walk
    validate_definition key place depth stack w =
        if not (has_key key definitions) || not (is_definition_name (codes key))
        then violated invalid_schema_reference place
        else if contains key stack
        then violated recursive_schema place
        else revisit key depth stack w (get w.depths key)

    unfoldable pub validate_named : Option String → Place → ℕ → List String → Walk → Checked Walk
    validate_named none place depth stack w = violated unsupported_schema_reference place
    validate_named (some key) place depth stack w = validate_definition key place depth stack w

    unfoldable pub validate_reference : Option Value → Place → ℕ → List String → Walk → Checked Walk
    validate_reference none place depth stack w = passed w
    validate_reference (some (text r)) place depth stack w =
        validate_named (without_prefix "#/$defs/" r) place depth stack w
    validate_reference (some v) place depth stack w = violated unsupported_schema_reference place

    -- `_validate_object_schema`
    unfoldable pub validate_properties : List String → Place → Fields → Walk → Checked Walk
    validate_properties stack place end w = passed w
    validate_properties stack place (field not_text v fs) w = validate_properties stack place fs w
    validate_properties stack place (field (name k) v fs) w = do
      w1 ← next stack (under place k) (some v) w
      validate_properties stack place fs w1

    -- the object schema that is a mapping
    unfoldable pub validate_mapping : List String → Place → Fields → Walk → Checked Walk
    validate_mapping stack place schema w = do
      bounded (natural (field_of "maxProperties" schema)) (policy.limit max_properties)
          unbounded_object_schema (under place "maxProperties")
      property_names_within place (mapping_of (field_of "propertyNames" schema))
      next stack (under place "additionalProperties") (field_of "additionalProperties" schema) w

    -- `schema.get("required", [])`
    unfoldable pub required_within : Fields → Place → Option Value → Checked (Unit {0})
    required_within properties place none = passed tt
    required_within properties place (some (array vs)) = check_required properties [] place 0 vs
    required_within properties place (some v) = violated invalid_object_schema place

    unfoldable pub validate_closed :
        List String → Place → Fields → Option Fields → Walk → Checked Walk
    validate_closed stack place schema none w =
        violated invalid_object_schema (under place "properties")
    validate_closed stack place schema (some properties) w = do
      require (leb (count_fields properties) (policy.limit max_properties)) schema_limit_exceeded
          (under place "properties")
      required_within properties (under place "required") (entry "required" schema)
      validate_properties stack (under place "properties") properties w

    unfoldable pub validate_object : List String → Place → Fields → Walk → Checked Walk
    validate_object stack place schema w =
        if not (is_some (field_of "properties" schema))
          && is_some (mapping_of (field_of "additionalProperties" schema))
        then validate_mapping stack place schema w
        else if not (is_false (field_of "additionalProperties" schema))
        then violated open_object_schema (under place "additionalProperties")
        else validate_closed stack place schema (properties_or_empty (field_of "properties" schema))
            w

    -- the part of `_validate_schema_value` on a schema with a known type
    unfoldable pub validate_string : Place → Fields → Walk → Checked Walk
    validate_string place schema w = do
      bounded (string_bound (field_of "maxLength" schema) (field_of "enum" schema))
          (policy.limit max_string_length) unbounded_string_schema (under place "maxLength")
      passed w

    unfoldable pub validate_array : List String → Place → Fields → Walk → Checked Walk
    validate_array stack place schema w = do
      bounded (natural (field_of "maxItems" schema)) (policy.limit max_array_items)
          unbounded_array_schema (under place "maxItems")
      next stack (under place "items") (field_of "items" schema) w

    unfoldable pub validate_typed : List String → Place → Fields → String → Walk → Checked Walk
    validate_typed stack place schema t w = validate_enum t place (field_of "enum" schema) >>= λ _.
        if str_eq t "object"
        then validate_object stack place schema w
        else if str_eq t "string"
        then validate_string place schema w
        else if str_eq t "array"
        then validate_array stack place schema w
        else passed w

    unfoldable pub validate_type :
        Bool → List String → Place → Fields → Option Value → Walk → Checked Walk
    validate_type root stack place schema none w =
        if is_some (field_of "anyOf" schema) || is_some (field_of "$ref" schema)
        then passed w
        else violated invalid_schema (under place "type")
    validate_type root stack place schema (some (text t)) w =
        if not (contains t schema_types)
        then violated unsupported_schema_type (under place "type")
        else if root && not (str_eq t "object")
        then violated invalid_object_schema place
        else validate_typed stack place schema t w
    validate_type root stack place schema (some v) w =
        violated unsupported_schema_type (under place "type")

    -- the body of `_validate_schema_value` on a mapping that is not too deep
    unfoldable pub validate_node : Bool → ℕ → List String → Place → Fields → Walk → Checked Walk
    validate_node root depth stack place schema w = do
      require (leb (w.nodes + 1) (policy.limit max_schema_nodes)) schema_limit_exceeded place
      first_of (sorted (unsupported root (type_keywords (field_of "type" schema)) schema)) place
      w1 ← validate_any_of stack place (field_of "anyOf" schema) (record w { nodes = w.nodes + 1 })
      w2 ← validate_reference (field_of "$ref" schema) (under place "$ref") (depth + 1) stack w1
      validate_type root stack place schema (field_of "type" schema) w2

  unfoldable pub validate_mapped :
      (List String → Place → Option Value → Walk → Checked Walk)
      → Bool
      → ℕ
      → List String
      → Place
      → Option Fields
      → Walk
      → Checked Walk
  validate_mapped next root depth stack place none w = violated invalid_schema place
  validate_mapped next root depth stack place (some schema) w =
      validate_node next root depth stack place schema w

  -- `_validate_schema_value`
  unfoldable pub validate_value :
      ℕ → Bool → List String → Place → Option Value → Walk → Checked Walk
  validate_value zero root stack place v w =
      if is_some (mapping_of v)
      then violated schema_limit_exceeded place
      else violated invalid_schema place
  validate_value (suc left) root stack place v w =
      validate_mapped (validate_value left false) root (policy.limit max_depth - left) stack place
        (mapping_of v) w
