-- ===== src/Tool/Validate/Parts.antt =====
-- The schemas inside a schema, and what the walk has passed.
use tesserix_mcp_runtime.Base.{
  ℕ, zero, suc, ◌-◌, Bool, true, false, String, Option, none, some, List, is_some, ◌≡◌, subst,
  arith, Option-cases, inl, inr,
}
use tesserix_mcp_runtime.Json.{name, Value, text, array, Items, cons, Fields, field}
use tesserix_mcp_runtime.Schema.{field_of}
use tesserix_mcp_runtime.Schema.Equality.{entry}
use tesserix_mcp_runtime.Schema.Keywords.{mapping_of}
use tesserix_mcp_runtime.Schema.Resolve.{without_prefix}
use tesserix_mcp_runtime.Tool.Violation.{
  Place, passed, violated, if_passed, schema_limit_exceeded, invalid_schema,
}
use tesserix_mcp_runtime.Tool.{SchemaPolicy, max_depth}
use tesserix_mcp_runtime.Tool.Validate.{Walk, validate_node, validate_mapped, validate_value}

pub data InItems (v : Value) : Items → Type 0 where
  first : (vs : Items) → InItems v (cons v vs)
  later : (w : Value) (vs : Items) → InItems v vs → InItems v (cons w vs)

pub data InFields (v : Value) : Fields → Type 0 where
  first : (k : String) (fs : Fields) → InFields v (field (name k) v fs)
  later : (k : String) (w : Value) (fs : Fields) → InFields v fs → InFields v (field (name k) w fs)

-- a schema that stands directly inside `schema`, or that its reference names
pub data Part (definitions schema : Fields) : Option Value → Type 0 where
  variant :
      (vs : Items) (v : Value)
      → field_of "anyOf" schema ≡ some (array vs)
      → InItems v vs
      → Part definitions schema (some v)
  referred :
      (r key : String)
      → field_of "$ref" schema ≡ some (text r)
      → without_prefix "#/$defs/" r ≡ some key
      → Part definitions schema (entry key definitions)
  element :
      field_of "type" schema ≡ some (text "array")
      → Part definitions schema (field_of "items" schema)
  property :
      (ps : Fields) (v : Value)
      → field_of "type" schema ≡ some (text "object")
      → mapping_of (field_of "properties" schema) ≡ some ps
      → InFields v ps
      → Part definitions schema (some v)
  additional :
      field_of "type" schema ≡ some (text "object")
      → field_of "properties" schema ≡ none
      → is_some (mapping_of (field_of "additionalProperties" schema)) ≡ true
      → Part definitions schema (field_of "additionalProperties" schema)

module _ (policy : SchemaPolicy) (definitions : Fields) (top : Place) where
  -- the walk passes the value somewhere
  abbrev pub Validated : Option Value → Type 0
  Validated o =
      (left : ℕ) × (root : Bool) × (stack : List String) × (place : Place) × (w : Walk)
      × (after : Walk) × (validate_value policy definitions top left root stack place o w
          ≡ passed after)

  abbrev pub Node : Fields → Type 0
  Node schema =
      (left : ℕ) × (root : Bool) × (depth : ℕ) × (stack : List String) × (place : Place)
      × (w : Walk) × (after : Walk) × (validate_node policy definitions top
            (validate_value policy definitions top left false) root depth stack place schema w
          ≡ passed after)

  pub validated_lem :
      (o : Option Value)
      → Validated o
      → (schema : Fields) × (mapping_of o ≡ some schema) × Node schema
  unfolding validate_value validate_mapped
  validated_lem o (zero, root, stack, place, w, after, h) =
      elim (if_passed (is_some (mapping_of o)) (violated schema_limit_exceeded place)
        (violated invalid_schema place) after h) [
          | inl (there, fails) ↦ ground (arith, fails)
          | inr (missing, fails) ↦ ground (arith, fails)
        ]
  validated_lem o (suc left, root, stack, place, w, after, h) = elim (Option-cases (mapping_of o)) [
    | inl missing ↦ ground (arith, h, missing)
    | inr (schema, there) ↦ (
      schema,
      there,
      (
        left,
        root,
        policy.limit max_depth - left,
        stack,
        place,
        w,
        after,
        subst
            (λ m.
              validate_mapped policy definitions top
                (validate_value policy definitions top left false) root
                (policy.limit max_depth - left) stack place m w
              ≡ passed after)
            there h,
      ),
    )
  ]
