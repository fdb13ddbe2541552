-- ===== src/Tool/Validate/Inside.antt =====
-- The walk over the schemas inside a schema, the one it refers to included.
use tesserix_mcp_runtime.Base.{
  ℕ, ◌+◌, Bool, true, false, not, ◌&&◌, ◌||◌, String, Option, none, some, List, contains, str_eq,
  ltb, is_some, if◌then◌else◌, ◌≡◌, subst, arith, Option-cases, inl, inr,
}
use tesserix_mcp_runtime.Base.Text.{codes}
use tesserix_mcp_runtime.Json.{Value, text, array, Items, Fields, count_items}
use tesserix_mcp_runtime.Schema.{field_of}
use tesserix_mcp_runtime.Schema.Equality.{entry}
use tesserix_mcp_runtime.Schema.Keywords.{mapping_of, has_key}
use tesserix_mcp_runtime.Schema.Resolve.{without_prefix}
use tesserix_mcp_runtime.Tool.Violation.{
  Place, under, item, Checked, passed, violated, chain_passed, guard_passed, else_passed,
  open_object_schema, unsupported_schema_type, invalid_object_schema, invalid_schema_reference,
}
use tesserix_mcp_runtime.Tool.{SchemaPolicy, max_union_variants}
use tesserix_mcp_runtime.Tool.Keywords.{schema_types, is_definition_name}
use tesserix_mcp_runtime.Tool.Validate.{
  Walk, validate_variants, validate_any_of, validate_definition, validate_named, validate_reference,
  validate_properties, validate_mapping, validate_closed, properties_or_empty, is_false,
  validate_object, validate_array, validate_typed, validate_type, validate_value,
}
use tesserix_mcp_runtime.Tool.Validate.Cases.{
  is_object, is_string, is_array, is_other, type_ways, node_cases,
}
use tesserix_mcp_runtime.Tool.Validate.Parts.{
  InItems, InFields, Part, variant, referred, element, property, additional, Validated, Node,
}

module _ (policy : SchemaPolicy) (definitions : Fields) (top : Place) where
  module _ (left : ℕ) where
    abbrev below : List String → Place → Option Value → Walk → Checked Walk
    below = validate_value policy definitions top left false

    variants_part :
        (v : Value) (stack : List String) (place : Place) (index : ℕ) (vs : Items) (w after : Walk)
        → validate_variants policy definitions top below stack place index vs w ≡ passed after
        → InItems v vs
        → Validated policy definitions top (some v)
    unfolding validate_variants
    variants_part v stack place index _ w after h (InItems.first vs) =
        let (w1, here, rest) = chain_passed (below stack (item place index) (some v) w) _ after h in
        (left, false, stack, item place index, w, w1, here)
    variants_part v stack place index _ w after h (InItems.later u vs inside) =
        let (w1, here, rest) = chain_passed (below stack (item place index) (some u) w) _ after h in
        variants_part v stack place (index + 1) vs w1 after rest inside

    properties_part :
        (stack : List String) (place : Place) (v : Value) (fs : Fields) (w after : Walk)
        → validate_properties policy definitions top below stack place fs w ≡ passed after
        → InFields v fs
        → Validated policy definitions top (some v)
    unfolding validate_properties
    properties_part stack place v _ w after h (InFields.first k fs) =
        let (w1, here, rest) = chain_passed (below stack (under place k) (some v) w) _ after h in
        (left, false, stack, under place k, w, w1, here)
    properties_part stack place v _ w after h (InFields.later k u fs inside) =
        let (w1, here, rest) = chain_passed (below stack (under place k) (some u) w) _ after h in
        properties_part stack place v fs w1 after rest inside

    any_of_part :
        (stack : List String) (place : Place) (v : Value) (vs : Items) (o : Option Value)
        (w after : Walk)
        → validate_any_of policy definitions top below stack place o w ≡ passed after
        → o ≡ some (array vs)
        → InItems v vs
        → Validated policy definitions top (some v)
    unfolding validate_any_of
    any_of_part stack place v vs o w after h e inside =
        let h' =
          subst (λ x. validate_any_of policy definitions top below stack place x w ≡ passed after) e
            h in
        let (many, rest) = else_passed (ltb (count_items vs) 2) _ _ _ after h' in
        let (few, walked) =
          else_passed (ltb (policy.limit max_union_variants) (count_items vs)) _ _ _ after rest in
        variants_part v stack (under place "anyOf") 0 vs w after walked inside

    -- a schema of type array or object
    element_part :
        (stack : List String) (place : Place) (schema : Fields) (w after : Walk)
        → validate_typed policy definitions top below stack place schema "array" w ≡ passed after
        → Validated policy definitions top (field_of "items" schema)
    unfolding validate_array
    element_part stack place schema w after h =
        elim (type_ways policy definitions top below stack place schema "array" w after h) [
          | is_object is walked ↦ ground (arith, is)
          | is_string is walked ↦ ground (arith, is)
          | is_array is walked ↦
              (left, false, stack, under place "items", w, after, (guard_passed _ _ after walked).1)
          | is_other is done ↦ ground (arith, is)
        ]

    object_cases :
        (stack : List String) (place : Place) (schema : Fields) (w after : Walk)
        → validate_typed policy definitions top below stack place schema "object" w ≡ passed after
        → validate_object policy definitions top below stack place schema w ≡ passed after
    object_cases stack place schema w after h =
        elim (type_ways policy definitions top below stack place schema "object" w after h) [
          | is_object is walked ↦ walked
          | is_string is walked ↦ ground (arith, is)
          | is_array is walked ↦ ground (arith, is)
          | is_other is done ↦ ground (arith, is)
        ]

    property_part :
        (stack : List String) (place : Place) (schema ps : Fields) (v : Value) (w after : Walk)
        → validate_object policy definitions top below stack place schema w ≡ passed after
        → mapping_of (field_of "properties" schema) ≡ some ps
        → InFields v ps
        → Validated policy definitions top (some v)
    unfolding validate_object validate_closed mapping_of
    property_part stack place schema ps v w after h e inside =
        elim (Option-cases (field_of "properties" schema)) [
          | inl missing ↦ ground (arith, e, missing)
          | inr (o, there) ↦
              let e' : mapping_of (some o) ≡ some ps = ground (arith, e, there) in
              let listed : (if not (is_false (field_of "additionalProperties" schema))
                    then violated open_object_schema (under place "additionalProperties")
                    else validate_closed policy definitions top below stack place schema
                        (properties_or_empty (field_of "properties" schema)) w)
                  ≡ passed after =
                ground (arith, h, there) in
              let (closed, walked) =
                else_passed (not (is_false (field_of "additionalProperties" schema)))
                  open_object_schema (under place "additionalProperties") _ after listed in
              let read : properties_or_empty (field_of "properties" schema) ≡ some ps =
                ground (arith, e', there) in
              let chosen : validate_closed policy definitions top below stack place schema (some ps)
                    w
                  ≡ passed after =
                subst
                  (λ m.
                    validate_closed policy definitions top below stack place schema m w
                    ≡ passed after)
                  read walked in
              let (few, rest) = guard_passed _ _ after chosen in
              let (required, inner) = guard_passed _ _ after rest in
              properties_part stack (under place "properties") v ps w after inner inside
        ]

    additional_part :
        (stack : List String) (place : Place) (schema : Fields) (w after : Walk)
        → validate_object policy definitions top below stack place schema w ≡ passed after
        → field_of "properties" schema ≡ none
        → is_some (mapping_of (field_of "additionalProperties" schema)) ≡ true
        → Validated policy definitions top (field_of "additionalProperties" schema)
    unfolding validate_object validate_mapping
    additional_part stack place schema w after h e there =
        let walked : validate_mapping policy definitions top below stack place schema w
            ≡ passed after =
          ground (arith, h, e, there) in
        let (few, rest) = guard_passed _ _ after walked in
        let (names, into) = guard_passed _ _ after rest in
        (left, false, stack, under place "additionalProperties", w, after, into)

    type_typed :
        (root : Bool) (stack : List String) (place : Place) (schema : Fields) (t : String)
        (w after : Walk)
        → validate_type policy definitions top below root stack place schema
            (field_of "type" schema)
            w
          ≡ passed after
        → field_of "type" schema ≡ some (text t)
        → validate_typed policy definitions top below stack place schema t w ≡ passed after
    unfolding validate_type
    type_typed root stack place schema t w after h e =
        let h' =
          subst
            (λ o.
              validate_type policy definitions top below root stack place schema o w ≡ passed after)
            e h in
        let (known, rest) =
          else_passed (not (contains t schema_types)) unsupported_schema_type (under place "type") _
            after h' in
        (else_passed (root && not (str_eq t "object")) invalid_object_schema place _ after rest).1

    reference_part :
        (place : Place) (depth : ℕ) (stack : List String) (r key : String) (o : Option Value)
        (w after : Walk)
        → validate_reference policy definitions top below o place depth stack w ≡ passed after
        → o ≡ some (text r)
        → without_prefix "#/$defs/" r ≡ some key
        → has_key key definitions ≡ true
    unfolding validate_reference validate_named validate_definition
    reference_part place depth stack r key o w after h e named =
        let h' =
          subst
            (λ x.
              validate_reference policy definitions top below x place depth stack w ≡ passed after)
            e h in
        let h'' =
          subst
            (λ x. validate_named policy definitions top below x place depth stack w ≡ passed after)
            named h' in
        let (there, rest) =
          else_passed (not (has_key key definitions) || not (is_definition_name (codes key)))
            invalid_schema_reference place _ after h'' in
        ground (arith, there)

  -- Where all definitions are passed, so is each part of a schema that is passed.
  pub part_lem :
      ((key : String)
        → has_key key definitions ≡ true
        → Validated policy definitions top (entry key definitions))
      → (schema : Fields) (o : Option Value) → Node policy definitions top schema
      → Part definitions schema o
      → Validated policy definitions top o
  part_lem all schema o (left, root, depth, stack, place, w, after, h) part =
      let (few, w1, w2, variants, followed, typed) =
        node_cases policy definitions top (below left) root depth stack place schema w after h in
      elim part as (λ x _. Validated policy definitions top x) [
        | variant vs v e inside ↦
            any_of_part left stack place v vs (field_of "anyOf" schema)
              (record w { nodes = w.nodes + 1 }) w1 variants e inside
        | referred r key e named ↦ all key (
            reference_part left (under place "$ref") (depth + 1) stack r key
              (field_of "$ref" schema) w1 w2 followed e named)
        | element e ↦
            element_part left stack place schema w2 after
              (type_typed left root stack place schema "array" w2 after typed e)
        | property ps v e mapped inside ↦
            property_part left stack place schema ps v w2 after
              (object_cases left stack place schema w2 after
                (type_typed left root stack place schema "object" w2 after typed e))
              mapped inside
        | additional e missing there ↦
            additional_part left stack place schema w2 after
              (object_cases left stack place schema w2 after
                (type_typed left root stack place schema "object" w2 after typed e))
              missing there
      ]
