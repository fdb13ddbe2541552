-- ===== src/Tool/Keywords.antt =====
-- The keywords of src/tesserix_mcp_runtime/tool.py, and its checks that look at one node of a schema.
use tesserix_mcp_runtime.Base.{
  ℕ, ◌+◌, Bool, true, false, not, ◌&&◌, ◌||◌, String, Option, none, some, List, [], ◌∷◌, contains,
  str_eq, leb, ◌==◌, length, max, pos, is_huge, if◌then◌else◌,
}
use tesserix_mcp_runtime.Base.Text.{codes, is_digit, is_letter, matches}
use tesserix_mcp_runtime.Json.{
  name, not_text, Value, null, boolean, integer, floating, text, array, Items, nil, cons, Fields,
  end, field,
}
use tesserix_mcp_runtime.Schema.Keywords.{has_key}
use tesserix_mcp_runtime.Tool.Violation.{
  Code, invalid_schema, schema_limit_exceeded, unsupported_schema_keyword, invalid_object_schema,
  Place, under, item, Checked, passed, violated, overflowed, require,
}

-- `_COMMON_SCHEMA_KEYWORDS`, `_ROOT_SCHEMA_KEYWORDS` and `_SCHEMA_KEYWORDS_BY_TYPE`
abbrev common_keywords : List String
common_keywords =
    "$comment" ∷ "$ref" ∷ "anyOf" ∷ "const" ∷ "default" ∷ "description" ∷ "enum" ∷ "examples"
    ∷ "title" ∷ "type" ∷ []

abbrev root_keywords : List String
root_keywords = "$defs" ∷ "$id" ∷ "$schema" ∷ []

unfoldable pub keywords_of : String → List String
keywords_of t =
    if str_eq t "array"
    then "items" ∷ "maxItems" ∷ "minItems" ∷ "uniqueItems" ∷ []
    else if str_eq t "integer" || str_eq t "number"
    then "exclusiveMaximum" ∷ "exclusiveMinimum" ∷ "maximum" ∷ "minimum" ∷ "multipleOf" ∷ []
    else if str_eq t "object"
    then "additionalProperties" ∷ "maxProperties" ∷ "minProperties" ∷ "propertyNames" ∷ "properties"
      ∷ "required" ∷ []
    else if str_eq t "string"
    then "format" ∷ "maxLength" ∷ "minLength" ∷ []
    else []

-- `_SCHEMA_TYPES`
abbrev pub schema_types : List String
schema_types = "array" ∷ "boolean" ∷ "integer" ∷ "null" ∷ "number" ∷ "object" ∷ "string" ∷ []

-- `_DEFINITION_NAME`
unfoldable pub is_definition_name : List ℕ → Bool
unfolding matches
is_definition_name =
    matches (λ c. is_letter c || c == b'_')
      (λ c. is_letter c || is_digit c || c == b'_' || c == b'.' || c == b'-') 127

-- the keywords that the type allows; one that is no type allows none
unfoldable pub type_keywords : Option Value → List String
unfolding keywords_of
type_keywords (some (text t)) = keywords_of t
type_keywords t = []

-- `set(schema)` without the allowed keywords
unfoldable pub unsupported : Bool → List String → Fields → List String
unsupported root allowed end = []
unsupported root allowed (field not_text v fs) = unsupported root allowed fs
unsupported root allowed (field (name k) v fs) =
    if contains k common_keywords || contains k allowed || (root && contains k root_keywords)
    then unsupported root allowed fs
    else k ∷ unsupported root allowed fs

abbrev pub first_of : List String → Place → Checked (Unit {0})
first_of [] place = passed tt
first_of (k ∷ ks) place = violated unsupported_schema_keyword (under place k)

-- `_is_non_negative_integer`, with the number
unfoldable pub natural : Option Value → Option ℕ
natural (some (integer (pos n))) = some n
natural v = none

-- the value of a bound, which the two codes guard: it is there, and within the limit
unfoldable pub bounded : Option ℕ → ℕ → Code → Place → Checked (Unit {0})
bounded none limit code place = violated code place
bounded (some n) limit code place = require (leb n limit) schema_limit_exceeded place

-- the members of an enumeration
unfoldable pub is_member : String → Value → Bool
is_member t null = str_eq t "null"
is_member t (text s) = str_eq t "string"
is_member t (boolean b) = str_eq t "boolean"
is_member t (integer n) = str_eq t "integer" || str_eq t "number"
is_member t (floating x) = str_eq t "number"
is_member t v = false

-- `math.isfinite` on a member of an enumeration of numbers
unfoldable pub is_out_of_floats : String → Value → Bool
is_out_of_floats t (integer n) = not (str_eq t "integer") && str_eq t "number" && is_huge n
is_out_of_floats t v = false

unfoldable pub check_members : String → Place → ℕ → Items → Checked (Unit {0})
check_members t place index nil = passed tt
check_members t place index (cons v vs) =
    if is_out_of_floats t v
    then overflowed
    else if is_member t v
    then check_members t place (index + 1) vs
    else violated invalid_schema (item place index)

-- the longest text of an enumeration
unfoldable pub longest : Items → ℕ
longest nil = 0
longest (cons (text s) vs) = max (length (codes s)) (longest vs)
longest (cons v vs) = longest vs

-- `maxLength`, or the longest text of the enumeration where there is none
unfoldable pub string_bound : Option Value → Option Value → Option ℕ
string_bound none (some (array (cons v vs))) = some (longest (cons v vs))
string_bound bound values = natural bound

-- the keys are among these
unfoldable pub has_only : List String → Fields → Bool
has_only allowed end = true
has_only allowed (field not_text v fs) = false
has_only allowed (field (name k) v fs) = contains k allowed && has_only allowed fs

-- the loop over `required`
unfoldable pub check_required : Fields → List String → Place → ℕ → Items → Checked (Unit {0})
check_required properties seen place index nil = passed tt
check_required properties seen place index (cons (text s) vs) =
    if not (has_key s properties) || contains s seen
    then violated invalid_object_schema (item place index)
    else check_required properties (s ∷ seen) place (index + 1) vs
check_required properties seen place index (cons v vs) =
    violated invalid_object_schema (item place index)

-- `_DEFINITION_NAME.fullmatch(name)` for every definition
unfoldable pub names_match : Fields → Bool
names_match end = true
names_match (field not_text v fs) = false
names_match (field (name k) v fs) = is_definition_name (codes k) && names_match fs
