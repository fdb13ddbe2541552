-- ===== src/Tool/Validate/Cases.antt =====
-- The ways in which the walk passes a node, by the type of its schema.
use tesserix_mcp_runtime.Base.{
  ℕ, ◌+◌, Bool, true, false, not, ◌&&◌, ◌||◌, String, Option, List, str_eq, leb, is_some, ◌≡◌, ◌⊎◌,
  refl, arith, Bool-cases, inl, inr,
}
use tesserix_mcp_runtime.Json.{Value, Fields}
use tesserix_mcp_runtime.Schema.{field_of}
use tesserix_mcp_runtime.Schema.Keywords.{mapping_of}
use tesserix_mcp_runtime.Tool.Violation.{
  Place, under, Checked, passed, require, chain_passed, guard_passed, require_passed, else_passed,
  schema_limit_exceeded, open_object_schema,
}
use tesserix_mcp_runtime.Tool.{SchemaPolicy, max_schema_nodes}
use tesserix_mcp_runtime.Tool.Validate.{
  Walk, validate_enum, validate_any_of, validate_reference, validate_mapping, validate_closed,
  properties_or_empty, is_false, validate_object, validate_string, validate_array, validate_typed,
  validate_type, validate_node,
}

-- the ways in which a node passes after its enumeration, by its type
pub data Typed (policy : SchemaPolicy) (definitions : Fields) (top : Place)
    (next : List String → Place → Option Value → Walk → Checked Walk) (stack : List String)
    (place : Place) (schema : Fields) (t : String) (w after : Walk) : Type 0 where
  is_object :
      str_eq t "object" ≡ true
      → validate_object policy definitions top next stack place schema w ≡ passed after
      → Typed policy definitions top next stack place schema t w after
  is_string :
      str_eq t "string" ≡ true
      → validate_string policy definitions top next place schema w ≡ passed after
      → Typed policy definitions top next stack place schema t w after
  is_array :
      str_eq t "array" ≡ true
      → validate_array policy definitions top next stack place schema w ≡ passed after
      → Typed policy definitions top next stack place schema t w after
  is_other :
      (str_eq t "object" || str_eq t "string" || str_eq t "array") ≡ false
      → passed w ≡ passed after
      → Typed policy definitions top next stack place schema t w after

pub type_ways :
    (policy : SchemaPolicy) (definitions : Fields) (top : Place)
    (next : List String → Place → Option Value → Walk → Checked Walk) (stack : List String)
    (place : Place) (schema : Fields) (t : String) (w after : Walk)
    → validate_typed policy definitions top next stack place schema t w ≡ passed after
    → Typed policy definitions top next stack place schema t w after
unfolding validate_typed
type_ways policy definitions top next stack place schema t w after h =
    let (u, listed, rest) =
      chain_passed (validate_enum policy definitions top t place (field_of "enum" schema)) _ after
        h in
    elim (Bool-cases (str_eq t "object")) [
      | inl o ↦ is_object o (ground (arith, rest, o))
      | inr not_o ↦ elim (Bool-cases (str_eq t "string")) [
        | inl s ↦ is_string s (ground (arith, rest, not_o, s))
        | inr not_s ↦ elim (Bool-cases (str_eq t "array")) [
          | inl a ↦ is_array a (ground (arith, rest, not_o, not_s, a))
          | inr not_a ↦
              is_other (rw (not_o, not_s, not_a) refl) (ground (arith, rest, not_o, not_s, not_a))
        ]
      ]
    ]

-- what passes where a node passes: its variants, its reference, and the rest by its type
pub node_cases :
    (policy : SchemaPolicy) (definitions : Fields) (top : Place)
    (next : List String → Place → Option Value → Walk → Checked Walk) (root : Bool) (depth : ℕ)
    (stack : List String) (place : Place) (schema : Fields) (w after : Walk)
    → validate_node policy definitions top next root depth stack place schema w ≡ passed after
    → (leb (w.nodes + 1) (policy.limit max_schema_nodes) ≡ true)
      × (w1 : Walk) × (w2 : Walk) × (validate_any_of policy definitions top next stack place
            (field_of "anyOf" schema)
            (record w { nodes = w.nodes + 1 })
          ≡ passed w1)
      × (validate_reference policy definitions top next
            (field_of "$ref" schema)
            (under place "$ref")
            (depth + 1)
            stack
            w1
          ≡ passed w2)
      × (validate_type policy definitions top next root stack place schema
            (field_of "type" schema)
            w2
          ≡ passed after)
unfolding validate_node
node_cases policy definitions top next root depth stack place schema w after h =
    let (few, rest) =
      guard_passed
        (require (leb (w.nodes + 1) (policy.limit max_schema_nodes)) schema_limit_exceeded place) _
        after h in
    let (supported, walked) = guard_passed _ _ after rest in
    let (w1, variants, others) = chain_passed _ _ after walked in
    let (w2, followed, typed) = chain_passed _ _ after others in
    (require_passed _ _ _ few, w1, w2, variants, followed, typed)

-- an object passes as a mapping or as a closed object
pub object_ways :
    (policy : SchemaPolicy) (definitions : Fields) (top : Place)
    (next : List String → Place → Option Value → Walk → Checked Walk) (stack : List String)
    (place : Place) (schema : Fields) (w after : Walk)
    → validate_object policy definitions top next stack place schema w ≡ passed after
    → ((is_some (mapping_of (field_of "additionalProperties" schema)) ≡ true)
        × (validate_mapping policy definitions top next stack place schema w ≡ passed after))
      ⊎ ((is_false (field_of "additionalProperties" schema) ≡ true)
          × (validate_closed policy definitions top next stack place schema
                (properties_or_empty (field_of "properties" schema))
                w
              ≡ passed after))
unfolding validate_object
object_ways policy definitions top next stack place schema w after h =
    elim (Bool-cases (
      not (is_some (field_of "properties" schema))
      && is_some (mapping_of (field_of "additionalProperties" schema)))) [
        | inl mapped ↦ inl (ground (arith, mapped), ground (arith, h, mapped))
        | inr listed ↦
            let (closed, walked) =
              else_passed (not (is_false (field_of "additionalProperties" schema)))
                open_object_schema (under place "additionalProperties")
                (validate_closed policy definitions top next stack place schema
                  (properties_or_empty (field_of "properties" schema)) w)
                after (ground (arith, h, listed)) in
            inr (ground (arith, closed), walked)
      ]
