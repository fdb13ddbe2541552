-- ===== src/Schema/Resolve.antt =====
-- src/tesserix_mcp_runtime/schema_compatibility.py: `_resolve`, which follows `$ref` into `$defs`.
--
-- The fuel is one more than the number of definitions: each step takes a name that the stack does
-- not hold yet.
pub mod Ends
use tesserix_mcp_runtime.Base.{
  ℕ, zero, suc, ◌≤◌, ◌<◌, Bool, true, false, not, ◌&&◌, ◌||◌, String, Option, none, some, List, [],
  ◌∷◌, ◌++◌, contains, str_eq, if◌then◌else◌, ◌==◌, ◌≡◌, ◌≢◌, refl, arith, Bool-cases, Option-cases,
  eq_iff,
}
use tesserix_mcp_runtime.Base.Chain.{◌>>=◌}
use tesserix_mcp_runtime.Json.{Key, name, not_text, Value, text, Fields, end, field, count_fields}
use tesserix_mcp_runtime.Schema.{field_of}
use tesserix_mcp_runtime.Schema.Keywords.{annotation_keys, mapping_of}
use Prim.Native.Char.{code}

-- `value.removeprefix(prefix)`, where the value starts with the prefix
unfoldable pub without_prefix : String → String → Option String
without_prefix String.[] s = some s
without_prefix (String.◌∷◌ c p) String.[] = none
without_prefix (String.◌∷◌ c p) (String.◌∷◌ d s) =
    if code c == code d then without_prefix p s else none

-- `not set(schema) - _ANNOTATION_KEYS - {"$ref"}`
unfoldable pub only_annotates : Fields → Bool
only_annotates end = true
only_annotates (field not_text v fs) = false
only_annotates (field (name k) v fs) =
    (str_eq k "$ref" || contains k annotation_keys) && only_annotates fs

-- the definition that a reference names
unfoldable pub definition : Fields → String → Option Fields
definition root key = mapping_of (field_of "$defs" root) >>= λ ds. mapping_of (field_of key ds)

-- the steps of `_resolve` on one schema; `next` is the call on the target
module _ (next : Fields → List String → Option (Option Fields)) (root schema : Fields)
    (stack : List String) where
  unfoldable pub enter : String → Option Fields → Option (Option Fields)
  enter key none = some none
  enter key (some target) = next target (stack ++ (key ∷ []))

  unfoldable pub enter_named : Option String → Option (Option Fields)
  unfolding enter
  enter_named none = some none
  enter_named (some key) =
      if not (only_annotates schema) || contains key stack
      then some none
      else enter key (definition root key)

  unfoldable pub follow : Option Value → Option (Option Fields)
  unfolding enter_named
  follow none = some (some schema)
  follow (some (text reference)) = enter_named (without_prefix "#/$defs/" reference)
  follow (some v) = some none

-- `_resolve`: no result when the fuel is used up, and `none` inside where the code returns `None`
unfoldable pub resolve : ℕ → Fields → Fields → List String → Option (Option Fields)
unfolding follow
resolve zero root schema stack = none
resolve (suc fuel) root schema stack =
    follow (resolve fuel root) root schema stack (field_of "$ref" schema)

unfoldable pub count_definitions : Option Fields → ℕ
count_definitions none = 0
count_definitions (some ds) = count_fields ds

unfoldable pub definition_count : Fields → ℕ
definition_count root = count_definitions (mapping_of (field_of "$defs" root))

unfoldable pub resolved : Fields → Fields → Option (Option Fields)
resolved root schema = resolve (suc (definition_count root)) root schema []
