-- ===== src/Tool/Register/Bounded.antt =====
-- Bounded schemas, and the schemas inside an accepted one.
use tesserix_mcp_runtime.Base.{
  ℕ, Bool, true, false, not, ◌&&◌, ◌||◌, String, Option, none, some, List, contains, str_eq, leb,
  is_some, ◌≡◌, inl, inr, refl, ap, arith, eq_iff,
}
use tesserix_mcp_runtime.Json.{Value, text, Fields, count_fields}
use tesserix_mcp_runtime.Schema.{field_of}
use tesserix_mcp_runtime.Schema.Keywords.{mapping_of}
use tesserix_mcp_runtime.Tool.Violation.{
  Code, Place, under, Checked, passed, require, guard_passed, require_passed, else_passed,
  schema_limit_exceeded, unsupported_schema_type, invalid_object_schema,
}
use tesserix_mcp_runtime.Tool.{SchemaPolicy, max_properties, max_string_length, max_array_items}
use tesserix_mcp_runtime.Tool.Keywords.{schema_types, bounded, natural, string_bound}
use tesserix_mcp_runtime.Tool.Validate.{
  Walk, is_false, properties_or_empty, validate_mapping, validate_closed, validate_object,
  validate_string, validate_array, validate_type, validate_node,
}
use tesserix_mcp_runtime.Tool.Validate.Cases.{
  is_object, is_string, is_array, is_other, type_ways, object_ways, node_cases,
}

-- a bound that is there and is at most the limit
abbrev pub is_at_most : Option ℕ → ℕ → Bool
is_at_most none limit = false
is_at_most (some n) limit = leb n limit

abbrev has_at_most : Option Fields → ℕ → Bool
has_at_most none limit = false
has_at_most (some ps) limit = leb (count_fields ps) limit

-- an object takes no other properties than those it lists, or is a mapping of bounded size
abbrev pub is_closed : SchemaPolicy → Fields → Bool
is_closed policy schema =
    (is_some (mapping_of (field_of "additionalProperties" schema))
      && is_at_most (natural (field_of "maxProperties" schema)) (policy.limit max_properties))
    || (is_false (field_of "additionalProperties" schema)
        && has_at_most (properties_or_empty (field_of "properties" schema))
            (policy.limit max_properties))

-- the bounds by the type, which there is unless the schema only joins or names others
abbrev pub has_bounds : SchemaPolicy → Fields → Option Value → Bool
has_bounds policy schema none =
    is_some (field_of "anyOf" schema) || is_some (field_of "$ref" schema)
has_bounds policy schema (some (text t)) =
    contains t schema_types
    && (not (str_eq t "object") || is_closed policy schema)
    && (not (str_eq t "string")
        || is_at_most (string_bound (field_of "maxLength" schema) (field_of "enum" schema))
            (policy.limit max_string_length))
    && (not (str_eq t "array")
        || is_at_most (natural (field_of "maxItems" schema)) (policy.limit max_array_items))
has_bounds policy schema (some v) = false

abbrev pub is_bounded : SchemaPolicy → Fields → Bool
is_bounded policy schema = has_bounds policy schema (field_of "type" schema)

-- a text that is one is not another
apart : (t s r : String) → str_eq t s ≡ true → str_eq t r ≡ str_eq s r
apart t s r h = ap (λ x. str_eq x r) (ground (arith, eq_iff t s, h))

bounded_passed :
    (o : Option ℕ) (limit : ℕ) (code : Code) (place : Place)
    → bounded o limit code place ≡ passed tt
    → is_at_most o limit ≡ true
unfolding bounded
bounded_passed none limit code place h = ground (arith, h)
bounded_passed (some n) limit code place h =
    require_passed (leb n limit) schema_limit_exceeded place h

module _ (policy : SchemaPolicy) (definitions : Fields) (top : Place)
    (next : List String → Place → Option Value → Walk → Checked Walk) where
  closed_within :
      (stack : List String) (place : Place) (schema : Fields) (o : Option Fields) (w after : Walk)
      → validate_closed policy definitions top next stack place schema o w ≡ passed after
      → has_at_most o (policy.limit max_properties) ≡ true
  unfolding validate_closed
  closed_within stack place schema none w after h = ground (arith, h)
  closed_within stack place schema (some ps) w after h =
      let (few, rest) =
        guard_passed
          (require (leb (count_fields ps) (policy.limit max_properties)) schema_limit_exceeded
            (under place "properties"))
          _ after h in
      require_passed _ _ _ few

  object_is_closed :
      (stack : List String) (place : Place) (schema : Fields) (w after : Walk)
      → validate_object policy definitions top next stack place schema w ≡ passed after
      → is_closed policy schema ≡ true
  unfolding validate_mapping
  object_is_closed stack place schema w after h =
      elim (object_ways policy definitions top next stack place schema w after h) [
        | inl (mapped, walked) ↦
            let (few, rest) = guard_passed (bounded _ _ _ _) _ after walked in
            let small =
              bounded_passed (natural (field_of "maxProperties" schema))
                (policy.limit max_properties) _ _ few in
            rw (mapped, small) refl
        | inr (closed, walked) ↦
            let small = closed_within stack place schema _ w after walked in
            ground (arith, closed, small)
      ]

  type_has_bounds :
      (root : Bool) (stack : List String) (place : Place) (schema : Fields) (o : Option Value)
      (w after : Walk)
      → validate_type policy definitions top next root stack place schema o w ≡ passed after
      → has_bounds policy schema o ≡ true
  unfolding validate_type validate_string validate_array
  type_has_bounds root stack place schema none w after h = ground (arith, h)
  type_has_bounds root stack place schema (some (text t)) w after h =
      let (known, rest) =
        else_passed (not (contains t schema_types)) unsupported_schema_type (under place "type") _
          after h in
      let (fits, walked) =
        else_passed (root && not (str_eq t "object")) invalid_object_schema place _ after rest in
      elim (type_ways policy definitions top next stack place schema t w after walked) [
        | is_object is inside ↦
            let closed = object_is_closed stack place schema w after inside in
            ground
              (arith, known, is, closed, apart t "object" "string" is, apart t "object" "array" is)
        | is_string is inside ↦
            let (few, rest) = guard_passed (bounded _ _ _ _) _ after inside in
            let small =
              bounded_passed (string_bound (field_of "maxLength" schema) (field_of "enum" schema))
                (policy.limit max_string_length) _ _ few in
            ground
              (arith, known, is, small, apart t "string" "object" is, apart t "string" "array" is)
        | is_array is inside ↦
            let (few, rest) = guard_passed (bounded _ _ _ _) _ after inside in
            let small =
              bounded_passed (natural (field_of "maxItems" schema)) (policy.limit max_array_items) _
                _ few in
            ground
              (arith, known, is, small, apart t "array" "object" is, apart t "array" "string" is)
        | is_other is done ↦ ground (arith, known, is)
      ]
  type_has_bounds root stack place schema (some _) w after h = ground (arith, h)

  pub node_is_bounded :
      (root : Bool) (depth : ℕ) (stack : List String) (place : Place) (schema : Fields)
      (w after : Walk)
      → validate_node policy definitions top next root depth stack place schema w ≡ passed after
      → is_bounded policy schema ≡ true
  node_is_bounded root depth stack place schema w after h =
      let (few, w1, w2, variants, followed, typed) =
        node_cases policy definitions top next root depth stack place schema w after h in
      type_has_bounds root stack place schema (field_of "type" schema) w2 after typed
