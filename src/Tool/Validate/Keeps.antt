-- ===== src/Tool/Validate/Keeps.antt =====
-- Relations between the walk before and after a node.
use tesserix_mcp_runtime.Base.{
  ℕ, zero, suc, ◌+◌, ◌-◌, Bool, true, false, not, ◌&&◌, ◌||◌, String, Option, none, some, List, [],
  ◌∷◌, ◌++◌, contains, str_eq, leb, ltb, is_some, ◌≡◌, subst, arith, inl, inr,
}
use tesserix_mcp_runtime.Base.Dict.{get, put}
use tesserix_mcp_runtime.Base.Text.{codes}
use tesserix_mcp_runtime.Json.{
  name, not_text, Value, text, array, Items, nil, cons, Fields, end, field, count_items,
}
use tesserix_mcp_runtime.Schema.{field_of}
use tesserix_mcp_runtime.Schema.Equality.{entry}
use tesserix_mcp_runtime.Schema.Keywords.{mapping_of, has_key}
use tesserix_mcp_runtime.Schema.Resolve.{without_prefix}
use tesserix_mcp_runtime.Tool.Violation.{
  Place, under, item, Checked, passed, violated, require, chain_passed, guard_passed, else_passed,
  if_passed, schema_limit_exceeded, invalid_schema, unsupported_schema_type, invalid_object_schema,
}
use tesserix_mcp_runtime.Tool.{SchemaPolicy, max_depth, max_schema_nodes, max_union_variants}
use tesserix_mcp_runtime.Tool.Keywords.{schema_types, is_definition_name}
use tesserix_mcp_runtime.Tool.Validate.{
  Walk, validate_variants, validate_any_of, is_seen, revisit, validate_definition, validate_named,
  validate_reference, validate_properties, validate_mapping, validate_closed, validate_object,
  validate_string, validate_array, validate_typed, validate_type, validate_node, validate_mapped,
  validate_value,
}
use tesserix_mcp_runtime.Tool.Validate.Cases.{
  is_object, is_string, is_array, is_other, type_ways, object_ways, node_cases,
}

-- a check of a walk that passes relates the walk before and after
abbrev pub Keeps : (Walk → Walk → Type 0) → (Walk → Checked Walk) → Type 0
Keeps R check = (w after : Walk) → check w ≡ passed after → R w after

module _ (policy : SchemaPolicy) (definitions : Fields) (top : Place) (R : Walk → Walk → Type 0)
    (same : (w : Walk) → R w w) (chain : (u v w : Walk) → R u v → R v w → R u w) where
  module _ (next : List String → Place → Option Value → Walk → Checked Walk)
      (keeps : (stack : List String) (place : Place) (v : Option Value)
        → Keeps R (next stack place v))
      (visited : (stack : List String) (key : String) (depth : ℕ) (w after : Walk)
        → next
            (stack ++ (key ∷ []))
            (under (under top "$defs") key)
            (entry key definitions)
            (record w { depths = put w.depths key depth })
          ≡ passed after
        → R (record w { depths = put w.depths key depth }) after
        → R w after)
      (counted : (w : Walk)
        → leb (w.nodes + 1) (policy.limit max_schema_nodes) ≡ true
        → R w (record w { nodes = w.nodes + 1 })) where
    passes : (w : Walk) → Keeps R (λ u. passed u)
    passes v w after h = subst (R w) (ground (arith, h)) (same w)

    variants_Keeps :
        (stack : List String) (place : Place) (index : ℕ) (vs : Items)
        → Keeps R (validate_variants policy definitions top next stack place index vs)
    unfolding validate_variants
    variants_Keeps stack place index nil w after h = passes w w after h
    variants_Keeps stack place index (cons v vs) w after h =
        let (w1, first, rest) = chain_passed (next stack (item place index) (some v) w) _ after h in
        chain w w1 after (keeps stack (item place index) (some v) w w1 first)
          (variants_Keeps stack place (index + 1) vs w1 after rest)

    any_of_Keeps :
        (stack : List String) (place : Place) (v : Option Value)
        → Keeps R (validate_any_of policy definitions top next stack place v)
    unfolding validate_any_of
    any_of_Keeps stack place none w after h = passes w w after h
    any_of_Keeps stack place (some (array vs)) w after h =
        let (many, rest) = else_passed (ltb (count_items vs) 2) _ _ _ after h in
        let (few, walked) =
          else_passed (ltb (policy.limit max_union_variants) (count_items vs)) _ _ _ after rest in
        variants_Keeps stack (under place "anyOf") 0 vs w after walked
    any_of_Keeps stack place (some _) w after h = ground arith

    definition_Keeps :
        (key : String) (place : Place) (depth : ℕ) (stack : List String)
        → Keeps R (validate_definition policy definitions top next key place depth stack)
    unfolding validate_definition revisit
    definition_Keeps key place depth stack w after h =
        let (named, rest) =
          else_passed (not (has_key key definitions) || not (is_definition_name (codes key))) _ _ _
            after h in
        let (new, walked) = else_passed (contains key stack) _ _ _ after rest in
        elim (if_passed (is_seen depth (get w.depths key)) _ _ after walked) [
          | inl (seen, done) ↦ passes w w after done
          | inr (unseen, into) ↦ visited stack key depth w after into (keeps _ _ _ _ after into)
        ]

    reference_Keeps :
        (v : Option Value) (place : Place) (depth : ℕ) (stack : List String)
        → Keeps R (validate_reference policy definitions top next v place depth stack)
    unfolding validate_reference validate_named
    reference_Keeps none place depth stack w after h = passes w w after h
    reference_Keeps (some (text r)) place depth stack w after h =
        named_Keeps (without_prefix "#/$defs/" r) w after h
      where
        named_Keeps :
            (o : Option String)
            → Keeps R (validate_named policy definitions top next o place depth stack)
        named_Keeps none w after h = ground (arith, h)
        named_Keeps (some key) w after h = definition_Keeps key place depth stack w after h
    reference_Keeps (some _) place depth stack w after h = ground arith

    properties_Keeps :
        (stack : List String) (place : Place) (fs : Fields)
        → Keeps R (validate_properties policy definitions top next stack place fs)
    unfolding validate_properties
    properties_Keeps stack place end w after h = passes w w after h
    properties_Keeps stack place (field not_text v fs) w after h =
        properties_Keeps stack place fs w after h
    properties_Keeps stack place (field (name k) v fs) w after h =
        let (w1, first, rest) = chain_passed (next stack (under place k) (some v) w) _ after h in
        chain w w1 after (keeps stack (under place k) (some v) w w1 first)
          (properties_Keeps stack place fs w1 after rest)

    closed_Keeps :
        (stack : List String) (place : Place) (schema : Fields) (properties : Option Fields)
        → Keeps R (validate_closed policy definitions top next stack place schema properties)
    unfolding validate_closed
    closed_Keeps stack place schema none w after h = ground (arith, h)
    closed_Keeps stack place schema (some ps) w after h =
        let (few, rest) = guard_passed (require _ _ _) _ after h in
        let (required, walked) = guard_passed _ _ after rest in
        properties_Keeps stack (under place "properties") ps w after walked

    object_Keeps :
        (stack : List String) (place : Place) (schema : Fields)
        → Keeps R (validate_object policy definitions top next stack place schema)
    unfolding validate_mapping
    object_Keeps stack place schema w after h =
        elim (object_ways policy definitions top next stack place schema w after h) [
          | inl (mapped, walked) ↦
              let (few, rest) = guard_passed _ _ after walked in
              let (names, into) = guard_passed _ _ after rest in keeps _ _ _ w after into
          | inr (closed, walked) ↦ closed_Keeps stack place schema _ w after walked
        ]

    typed_Keeps :
        (stack : List String) (place : Place) (schema : Fields) (t : String)
        → Keeps R (validate_typed policy definitions top next stack place schema t)
    unfolding validate_string validate_array
    typed_Keeps stack place schema t w after h =
        elim (type_ways policy definitions top next stack place schema t w after h) [
          | is_object is walked ↦ object_Keeps stack place schema w after walked
          | is_string is walked ↦ passes w w after (guard_passed _ _ after walked).1
          | is_array is walked ↦ keeps _ _ _ w after (guard_passed _ _ after walked).1
          | is_other is done ↦ passes w w after done
        ]

    type_Keeps :
        (root : Bool) (stack : List String) (place : Place) (schema : Fields) (t : Option Value)
        → Keeps R (validate_type policy definitions top next root stack place schema t)
    unfolding validate_type
    type_Keeps root stack place schema none w after h =
        elim (if_passed (is_some (field_of "anyOf" schema) || is_some (field_of "$ref" schema))
          (passed w) (violated invalid_schema (under place "type")) after h) [
            | inl (has, done) ↦ passes w w after done
            | inr (has_none, fails) ↦ ground (arith, fails)
          ]
    type_Keeps root stack place schema (some (text t)) w after h =
        let (known, rest) =
          else_passed (not (contains t schema_types)) unsupported_schema_type (under place "type") _
            after h in
        let (fits, walked) =
          else_passed (root && not (str_eq t "object")) invalid_object_schema place _ after rest in
        typed_Keeps stack place schema t w after walked
    type_Keeps root stack place schema (some _) w after h = ground arith

    node_Keeps :
        (root : Bool) (depth : ℕ) (stack : List String) (place : Place) (schema : Fields)
        → Keeps R (validate_node policy definitions top next root depth stack place schema)
    node_Keeps root depth stack place schema w after h =
        let (few, w1, w2, variants, followed, typed) =
          node_cases policy definitions top next root depth stack place schema w after h in
        let count = record w { nodes = w.nodes + 1 } in
        chain w count after (counted w few) (
          chain count w1 after
            (any_of_Keeps stack place (field_of "anyOf" schema) count w1 variants)
            (chain w1 w2 after
              (reference_Keeps (field_of "$ref" schema) (under place "$ref") (depth + 1) stack w1 w2
                followed)
              (type_Keeps root stack place schema (field_of "type" schema) w2 after typed)))

    mapped_Keeps :
        (root : Bool) (depth : ℕ) (stack : List String) (place : Place) (o : Option Fields)
        → Keeps R (validate_mapped policy definitions top next root depth stack place o)
    unfolding validate_mapped
    mapped_Keeps root depth stack place none w after h = ground (arith, h)
    mapped_Keeps root depth stack place (some schema) w after h =
        node_Keeps root depth stack place schema w after h

  module _
      (counted : (w : Walk)
        → leb (w.nodes + 1) (policy.limit max_schema_nodes) ≡ true
        → R w (record w { nodes = w.nodes + 1 }))
      (visited : (left : ℕ) (stack : List String) (key : String) (depth : ℕ) (w after : Walk)
        → validate_value policy definitions top left false
            (stack ++ (key ∷ []))
            (under (under top "$defs") key)
            (entry key definitions)
            (record w { depths = put w.depths key depth })
          ≡ passed after
        → R (record w { depths = put w.depths key depth }) after
        → R w after) where
    pub value_Keeps :
        (left : ℕ) (root : Bool) (stack : List String) (place : Place) (v : Option Value)
        → Keeps R (validate_value policy definitions top left root stack place v)
    unfolding validate_value
    value_Keeps zero root stack place v w after h =
        elim (if_passed (is_some (mapping_of v)) (violated schema_limit_exceeded place)
          (violated invalid_schema place) after h) [
            | inl (there, fails) ↦ ground (arith, fails)
            | inr (missing, fails) ↦ ground (arith, fails)
          ]
    value_Keeps (suc left) root stack place v w after h =
        mapped_Keeps (validate_value policy definitions top left false) (value_Keeps left false)
          (visited left) counted root (policy.limit max_depth - left) stack place (mapping_of v) w
          after h
