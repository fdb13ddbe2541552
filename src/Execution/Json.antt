-- ===== src/Execution/Json.antt =====
-- `validate_json_value` of execution.py.
pub mod Walk
use tesserix_mcp_runtime.Base.{
  ℤ, ℕ, zero, suc, ◌+◌, Bool, true, false, ◌&&◌, Option, none, some, List, [], ◌∷◌, leb, ltb,
  if◌then◌else◌,
}
use tesserix_mcp_runtime.Contracts.Failure.{Kind, Failure, Result, ok, err, limit_failure}
use tesserix_mcp_runtime.Json.{
  Value, null, boolean, integer, floating, not_finite, text, array, object, opaque, Items, nil,
  cons, Fields, end, field, count_items, count_fields, has_names,
}
use tesserix_mcp_runtime.Json.Text.{json_length, is_writable}
use tesserix_mcp_runtime.Execution.Limits.{
  ExecutionLimits, max_json_depth, max_object_properties, max_array_items, max_json_nodes,
}

-- the limits that the walk reads
pub record Bounds : Type 0 where
  pub depth : ℕ
  pub properties : ℕ
  pub items : ℕ
  pub nodes : ℕ

abbrev pub bounds : ExecutionLimits → Bounds
bounds l = record {
  depth = l.integers max_json_depth;
  properties = l.integers max_object_properties;
  items = l.integers max_array_items;
  nodes = l.integers max_json_nodes;
}

-- whether the branch that a node takes lets it pass
unfoldable pub passes : Bounds → Value → ℕ → Bool
passes b (object fs) depth = leb depth b.depth && leb (count_fields fs) b.properties && has_names fs
passes b (array vs) depth = leb depth b.depth && leb (count_items vs) b.items
passes b not_finite depth = false
passes b opaque depth = false
passes b _ depth = true

-- `pending`, with the end that `pop` takes from in front
abbrev pub Pending : Type 0
Pending = List (Value × ℕ)

abbrev pub push_items : Items → ℕ → Pending → Pending
push_items nil depth pending = pending
push_items (cons v vs) depth pending = push_items vs depth ((v, depth) ∷ pending)

abbrev pub push_fields : Fields → ℕ → Pending → Pending
push_fields end depth pending = pending
push_fields (field k v fs) depth pending = push_fields fs depth ((v, depth) ∷ pending)

-- `pending.extend(...)` of a node's children
unfoldable pub push_children : Value → ℕ → Pending → Pending
push_children (array vs) depth pending = push_items vs depth pending
push_children (object fs) depth pending = push_fields fs depth pending
push_children _ depth pending = pending

-- The `while` loop after `nodes` rounds, on fuel: whether it ends without raising, or `none` if the
-- fuel is spent.
unfoldable pub walk : Bounds → ℕ → ℕ → Pending → Option Bool
walk b zero nodes pending = none
walk b (suc fuel) nodes [] = some true
walk b (suc fuel) nodes ((v, depth) ∷ pending) =
    let rest = walk b fuel (nodes + 1) (push_children v (depth + 1) pending) in
    if ltb b.nodes (nodes + 1) then some false else if passes b v depth then rest else some false

-- Each round takes one node and the loop raises past `b.nodes` of them.
abbrev pub enough_fuel : Bounds → ℕ
enough_fuel b = suc (suc b.nodes)

abbrev pub accepted : Option Bool → Bool
accepted none = false
accepted (some passed) = passed

module _ (float_length : ℤ → ℕ) where
  unfoldable pub validate_json_value : ExecutionLimits → ℕ → Value → Result (Unit {0})
  validate_json_value l maximum_bytes v =
      if accepted (walk (bounds l) (enough_fuel (bounds l)) 0 ((v, 1) ∷ []))
        && is_writable v
        && leb (json_length float_length v) maximum_bytes
      then ok tt
      else err limit_failure
