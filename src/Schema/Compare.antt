-- ===== src/Schema/Compare.antt =====
-- src/tesserix_mcp_runtime/schema_compatibility.py: `_is_superset` under its budget of comparisons,
-- and `classify_schema_change`.
--
-- A check takes the comparisons that are left and gives its answer and what it leaves; a budget
-- below 0, where every further comparison fails, is 0 here. `schema_fingerprint` is a parameter, as
-- in Manifest. Python's limit on nested calls is not modelled: a comparison that nests some hundred
-- schemas, as of one that refers to itself below a property, raises RecursionError before the budget
-- is used up. A check has no result when its fuel is used up (Compare/Ends shows that this never
-- happens): each comparison inside another takes one unit, and there is more fuel than budget.
pub mod Ends
pub mod Samples
use tesserix_mcp_runtime.Base.{
  ℕ, zero, suc, Bool, true, false, not, ◌&&◌, ◌||◌, String, Option, none, some, List, [], ◌∷◌,
  is_subset, str_eq, if◌then◌else◌, ℤ,
}
use tesserix_mcp_runtime.Base.Chain.{◌>>=◌}
use tesserix_mcp_runtime.Json.{
  Key, name, not_text, Value, text, boolean, object, Fields, end, field,
}
use tesserix_mcp_runtime.Schema.{
  field_of, numeric, lower_bound, upper_bound, lower_is_wider, upper_is_wider, minimum_is_wider,
  maximum_is_wider,
}
use tesserix_mcp_runtime.Schema.Equality.{value_eq, integer_eq, entry}
use tesserix_mcp_runtime.Schema.Keywords.{
  mapping_of, has_key, same_value, variant_list, allows_every_value, same_unknown_constraints,
  property_schema, required_names, properties_of, property_names_are_wider,
}
use tesserix_mcp_runtime.Schema.Resolve.{resolved}

pub data SchemaChange : Type 0 where
  identical non_breaking breaking : SchemaChange

pub data SchemaDirection : Type 0 where
  input output : SchemaDirection

abbrev pub Check : Type 0
Check = ℕ → Option (Bool × ℕ)

abbrev pub answer : Bool → Check
answer b remaining = some (b, remaining)

-- `a and b`: the second is only run when the first holds
unfoldable pub and_then : Check → Check → Check
and_then a b remaining = a remaining >>= next
  where
    next : Bool × ℕ → Option (Bool × ℕ)
    next (true, rest) = b rest
    next (false, rest) = some (false, rest)

unfoldable pub or_else : Check → Check → Check
or_else a b remaining = a remaining >>= next
  where
    next : Bool × ℕ → Option (Bool × ℕ)
    next (true, rest) = some (true, rest)
    next (false, rest) = b rest

-- `all(...)` and `any(...)`, which stop at the first answer that decides
unfoldable pub every : (Fields → Check) → List Fields → Check
every test [] = answer true
every test (x ∷ xs) = and_then (test x) (every test xs)

unfoldable pub some_one : (Fields → Check) → List Fields → Check
some_one test [] = answer false
some_one test (x ∷ xs) = or_else (test x) (some_one test xs)

-- the value is `False`, is `True`, is a text
abbrev is_false : Option Value → Bool
is_false (some (boolean false)) = true
is_false v = false

abbrev is_true : Option Value → Bool
is_true (some (boolean true)) = true
is_true v = false

abbrev pub is_text : String → Option Value → Bool
is_text s (some (text t)) = str_eq t s
is_text s v = false

-- `candidate_multiple is None or candidate_multiple == baseline_multiple`
unfoldable pub multiple_is_wider : Option ℤ → Option ℤ → Bool
multiple_is_wider none b = true
multiple_is_wider (some c) none = false
multiple_is_wider (some c) (some b) = integer_eq c b

abbrev is_absent : Option Value → Bool
is_absent none = true
is_absent (some v) = false

unfoldable pub string_is_wider : Fields → Fields → Bool
string_is_wider c b =
    minimum_is_wider c b "minLength"
    && maximum_is_wider c b "maxLength"
    && (is_absent (field_of "format" c) || same_value (field_of "format" c) (field_of "format" b))

unfoldable pub number_is_wider : Fields → Fields → Bool
number_is_wider c b =
    lower_is_wider (lower_bound c) (lower_bound b)
    && upper_is_wider (upper_bound c) (upper_bound b)
    && multiple_is_wider (numeric (field_of "multipleOf" c)) (numeric (field_of "multipleOf" b))

-- the types agree, or an integer becomes a number
unfoldable pub type_is_wider : Fields → Fields → Bool
type_is_wider c b =
    same_value (field_of "type" c) (field_of "type" b)
    || is_text "number" (field_of "type" c) && is_text "integer" (field_of "type" b)

-- `compare` is `_is_superset` on schemas inside the two
module _ (compare : Fields → Fields → Check) where
  unfoldable pub items_are_wider : Fields → Fields → Option Fields → Option Fields → Check
  items_are_wider c b (some ci) (some bi) =
      if minimum_is_wider c b "minItems"
        && maximum_is_wider c b "maxItems"
        && not (is_true (field_of "uniqueItems" c) && not (is_true (field_of "uniqueItems" b)))
      then compare ci bi
      else answer false
  items_are_wider c b ci bi = answer false

  -- the loop over the properties of the baseline
  unfoldable pub compare_property : Option Fields → Option Fields → Check
  compare_property (some c) (some b) = compare c b
  compare_property c b = answer false

  unfoldable pub properties_are_wider : Fields → Fields → Check
  properties_are_wider c end = answer true
  properties_are_wider c (field not_text v bs) = answer false
  properties_are_wider c (field (name k) v bs) =
      and_then (compare_property (property_schema c k) (mapping_of (some v)))
        (properties_are_wider c bs)

  -- `additionalProperties` of the two, `c` the candidate's
  unfoldable pub compare_additional : Option Value → Option Fields → Option Fields → Check
  compare_additional c (some cs) (some bs) = compare cs bs
  compare_additional c none (some bs) = answer (is_absent c)
  compare_additional c (some cs) none = answer false
  compare_additional c none none = answer true

  unfoldable pub additional_is_wider : Option Value → Option Value → Check
  additional_is_wider c b =
      if is_false b
      then answer true
      else if is_false c
      then answer false
      else compare_additional c (mapping_of c) (mapping_of b)

  -- `_object_is_superset`
  unfoldable pub objects_are_wider :
      Fields
      → Fields
      → Option (List String)
      → Option (List String)
      → Option Fields
      → Option Fields
      → Check
  objects_are_wider c b (some cr) (some br) (some cp) (some bp) =
      if is_subset cr br
      then and_then (properties_are_wider c bp) (
          and_then
            (additional_is_wider (field_of "additionalProperties" c)
              (field_of "additionalProperties" b))
            (answer (
              minimum_is_wider c b "minProperties"
              && maximum_is_wider c b "maxProperties"
              && property_names_are_wider c b)))
      else answer false
  objects_are_wider c b cr br cp bp = answer false

  unfoldable pub object_is_wider : Fields → Fields → Check
  object_is_wider c b =
      objects_are_wider c b (required_names c) (required_names b) (properties_of c)
        (properties_of b)

  -- the part of `_is_superset` after the variants
  unfoldable pub typed_is_wider : Fields → Fields → Option Value → Check
  typed_is_wider c b (some (text t)) =
      if str_eq t "string"
      then answer (string_is_wider c b)
      else if str_eq t "integer" || str_eq t "number"
      then answer (number_is_wider c b)
      else if str_eq t "array"
      then items_are_wider c b (mapping_of (field_of "items" c)) (mapping_of (field_of "items" b))
      else if str_eq t "object"
      then object_is_wider c b
      else answer true
  typed_is_wider c b t = answer false

  unfoldable pub plain_is_wider : Fields → Fields → Check
  plain_is_wider c b =
      if type_is_wider c b && allows_every_value c b && same_unknown_constraints c b
      then typed_is_wider c b (field_of "type" c)
      else answer false

  unfoldable pub variants_are_wider :
      Fields → Fields → Option (List Fields) → Option (List Fields) → Check
  variants_are_wider c b (some cs) (some bs) =
      if has_key "anyOf" c || has_key "anyOf" b
      then every (λ bv. some_one (λ cv. compare cv bv) cs) bs
      else plain_is_wider c b
  variants_are_wider c b cs bs = answer false

  -- the body of `_is_superset`, after the budget and `_resolve`
  unfoldable pub resolved_is_wider : Option Fields → Option Fields → Check
  resolved_is_wider (some c) (some b) = variants_are_wider c b (variant_list c) (variant_list b)
  resolved_is_wider c b = answer false

-- `_is_superset`
unfoldable pub is_superset : ℕ → Fields → Fields → Fields → Fields → Check
is_superset zero candidate_root baseline_root candidate baseline remaining = none
is_superset (suc fuel) candidate_root baseline_root candidate baseline zero = some (false, 0)
is_superset (suc fuel) candidate_root baseline_root candidate baseline (suc remaining) = do
  c ← resolved candidate_root candidate
  b ← resolved baseline_root baseline
  resolved_is_wider (is_superset fuel candidate_root baseline_root) c b remaining

-- `_ComparisonState.remaining`
abbrev pub budget : ℕ
budget = 10000

-- the comparison of two whole schemas
unfoldable pub is_compatible : Fields → Fields → Option Bool
is_compatible candidate baseline = do
  (answered, rest) ← is_superset (suc budget) candidate baseline candidate baseline budget
  some answered

-- `classify_schema_change`
unfoldable pub classify_schema_change :
    (Fields → String) → Fields → Fields → SchemaDirection → Option SchemaChange
classify_schema_change fingerprint previous current direction =
    if str_eq (fingerprint previous) (fingerprint current)
    then some identical
    else do compatible ← compared direction; some (if compatible then non_breaking else breaking)
  where
    compared : SchemaDirection → Option Bool
    compared input = is_compatible current previous
    compared output = is_compatible previous current
