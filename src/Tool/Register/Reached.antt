-- ===== src/Tool/Register/Reached.antt =====
-- What an accepted schema reaches: through variants, references, items, properties and additional
-- properties.
use tesserix_mcp_runtime.Base.{
  ℕ, ◌-◌, ◌≤◌, true, false, ◌||◌, String, Option, none, some, [], str_eq, is_some, ◌≡◌, inl, inr,
  subst, arith, Bool-cases, eq_iff, ℤ,
}
use tesserix_mcp_runtime.Base.Dict.{get, empty, get-empty}
use tesserix_mcp_runtime.Json.{Value, object, Fields, end, field, name, not_text, has_names}
use tesserix_mcp_runtime.Schema.Equality.{entry}
use tesserix_mcp_runtime.Schema.Keywords.{mapping_of, has_key}
use tesserix_mcp_runtime.Tool.Violation.{
  Place, under, passed, require, chain_passed, guard_passed, require_passed, invalid_schema,
}
use tesserix_mcp_runtime.Tool.{SchemaPolicy, max_depth, max_schema_nodes}
use tesserix_mcp_runtime.Tool.Validate.{Walk, validate_definition, validate_value}
use tesserix_mcp_runtime.Tool.Validate.Parts.{Part, Validated, Node, validated_lem}
use tesserix_mcp_runtime.Tool.Validate.Inside.{part_lem}
use tesserix_mcp_runtime.Tool.Validate.Visits.{Advances, visited, value_Advances}
use tesserix_mcp_runtime.Tool.Register.{
  validate_rest, validate_definitions, root_definitions, or_none, validate_schema,
}
use tesserix_mcp_runtime.Tool.Register.Bounded.{is_bounded, node_is_bounded}
use tesserix_mcp_runtime.Tool.Validate.Visits.{definition_visits, same, chain}

-- the schemas that are reached from a schema
pub data Reached (definitions schema : Fields) : Fields → Type 0 where
  itself : Reached definitions schema schema
  inside :
      (outer inner : Fields) (o : Option Value)
      → Reached definitions schema outer
      → Part definitions outer o
      → mapping_of o ≡ some inner
      → Reached definitions schema inner

module _ (policy : SchemaPolicy) (definitions : Fields) (top : Place) where
  with_first :
      (k : String) (fs : Fields) (w after : Walk) (key : String)
      → visited w k ≡ true
      → Advances policy definitions top w after
      → ((other : String) → has_key other fs ≡ true → visited after other ≡ true)
      → (str_eq k key || has_key key fs) ≡ true
      → visited after key ≡ true
  with_first k fs w after key there advances others m = elim (Bool-cases (str_eq k key)) [
    | inl is ↦
        advances.remembers key (
          subst (λ x. visited w x ≡ true) {x = k} {y = key} (ground (arith, eq_iff k key, is))
            there)
    | inr is_not ↦ others key (ground (arith, m, is_not))
  ]

  rest_visits :
      (fs : Fields) (w after : Walk)
      → validate_rest policy definitions top fs w ≡ passed after
      → Advances policy definitions top w after
        × ((key : String) → has_key key fs ≡ true → visited after key ≡ true)
  unfolding validate_rest has_key
  rest_visits end w after h = (
    subst (Advances policy definitions top w) (ground (arith, h)) (same policy definitions top w),
    λ key k. ground (arith, k),
  )
  rest_visits (field not_text v fs) w after h = rest_visits fs w after h
  rest_visits (field (name k) v fs) w after h = elim (Bool-cases (is_some (get w.depths k))) [
    | inl seen ↦
        let (advances, others) = rest_visits fs w after (ground (arith, h, seen)) in
        (advances, λ key m. with_first k fs w after key seen advances others m)
    | inr unseen ↦
        let (w1, first, rest) =
          chain_passed
            (validate_definition policy definitions top
              (validate_value policy definitions top (policy.limit max_depth - 1) false) k
              (under (under top "$defs") k) 2 [] w)
            (validate_rest policy definitions top fs) after (ground (arith, h, unseen)) in
        let (here, there) =
          definition_visits policy definitions top (policy.limit max_depth - 1) k
            (under (under top "$defs") k) 2 [] w w1 first in
        let (advances, others) = rest_visits fs w1 after rest in
        (
          chain policy definitions top w w1 after here advances,
          λ key m. with_first k fs w1 after key there advances others m,
        )
  ]

  reached_lem :
      ((key : String)
        → has_key key definitions ≡ true
        → Validated policy definitions top (entry key definitions))
      → (schema t : Fields) → Node policy definitions top schema
      → Reached definitions schema t
      → Node policy definitions top t
  reached_lem all schema _ node itself = node
  reached_lem all schema _ node (inside outer inner o before part is) =
      let (found, there, passed_node) = validated_lem policy definitions top o (
        part_lem policy definitions top all outer o (reached_lem all schema outer node before)
          part) in
      subst (Node policy definitions top) (ground (arith, is, there)) passed_node

  unvisited {ℓ} :
      {P : Type ℓ} (key : String) → visited (record { nodes = 0; depths = empty }) key ≡ true → P
  unvisited key h = absurd (ground (arith, get-empty {V = ℕ} key, h))

  -- a walk over a whole schema and its definitions
  walked_lem :
      (schema : Fields) (after : Walk)
      → validate_definitions policy definitions top schema (some definitions) ≡ passed after
      → (after.nodes ≤ policy.limit max_schema_nodes)
        × ((key : String)
            → has_key key definitions ≡ true
            → Validated policy definitions top (entry key definitions))
        × Validated policy definitions top (some (object schema))
  unfolding validate_definitions
  walked_lem schema after h =
      let start : Walk = record { nodes = 0; depths = empty } in
      let start_small : 0 ≤ policy.limit max_schema_nodes = omega arith in
      let (few, rest) = guard_passed _ _ after h in
      let (matched, walked) = guard_passed _ _ after rest in
      let (w, first, last) =
        chain_passed
          (validate_value policy definitions top (policy.limit max_depth) true [] top
            (some (object schema)) start)
          (validate_rest policy definitions top definitions) after walked in
      let begun =
        value_Advances policy definitions top (policy.limit max_depth) true [] top
          (some (object schema)) start w first in
      let (rested, all) = rest_visits definitions w after last in
      let whole = chain policy definitions top start w after begun rested in
      (
        whole.nodes_within start_small,
        (λ key m. elim (whole.passes_new key (all key m)) [
          | inl before ↦ unvisited key before
          | inr done ↦ done
        ]),
        (policy.limit max_depth, true, [], top, start, w, first),
      )

-- An accepted schema has at most `max_schema_nodes` nodes in the walk, and each schema that it
-- reaches has bounds: a known type, a length limit on texts, an item limit on arrays, and objects
-- that are closed or mappings with a size limit, all within the policy. A schema without a type only
-- joins or names others. A definition that was skipped because it had been visited is no exception.
pub validate_schema-is_bounded :
    (float_length : ℤ → ℕ) (policy : SchemaPolicy) (top : Place) (schema : Fields) (after : Walk)
    → validate_schema float_length policy top schema ≡ passed after
    → (after.nodes ≤ policy.limit max_schema_nodes)
      × ((t : Fields)
          → Reached (or_none (root_definitions (entry "$defs" schema))) schema t
          → is_bounded policy t ≡ true)
unfolding validate_schema validate_definitions mapping_of
validate_schema-is_bounded float_length policy top schema after h =
    let (named, rest) = guard_passed (require (has_names schema) invalid_schema top) _ after h in
    let (writable, rest') = guard_passed _ _ after rest in
    let (small, walked) = guard_passed _ _ after rest' in
    from_definitions (root_definitions (entry "$defs" schema)) (require_passed _ _ _ named) walked
  where
    from_definitions :
        (o : Option Fields)
        → has_names schema ≡ true
        → validate_definitions policy (or_none o) top schema o ≡ passed after
        → (after.nodes ≤ policy.limit max_schema_nodes)
          × ((t : Fields) → Reached (or_none o) schema t → is_bounded policy t ≡ true)
    from_definitions none named walked = ground (arith, walked)
    from_definitions (some ds) named walked =
        let (few, all, whole) = walked_lem policy ds top schema after walked in
        let (found, there, node) = validated_lem policy ds top (some (object schema)) whole in
        let node' : Node policy ds top schema =
          subst (Node policy ds top) {x = found} {y = schema} (ground (arith, there, named)) node in
        (
          few,
          λ t reached.
              let (left, root, depth, stack, place, w, last, h) =
                reached_lem policy ds top all schema t node' reached in
              node_is_bounded policy ds top (validate_value policy ds top left false) root depth
                stack place t w last h,
        )
