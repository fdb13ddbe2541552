-- ===== src/Schema/Keywords.antt =====
-- src/tesserix_mcp_runtime/schema_compatibility.py: the keywords of a schema besides the bounds.
use tesserix_mcp_runtime.Base.{
  Bool, true, false, ◌&&◌, ◌||◌, String, Option, none, some, List, [], ◌∷◌, contains, str_eq,
  is_unique, if◌then◌else◌, is_some,
}
use tesserix_mcp_runtime.Base.Chain.{◌>>=◌}
use tesserix_mcp_runtime.Json.{
  name, not_text, Value, text, array, object, Items, nil, cons, Fields, end, field, has_names,
}
use tesserix_mcp_runtime.Schema.{field_of, minimum_is_wider, maximum_is_wider}
use tesserix_mcp_runtime.Schema.Equality.{entry, value_eq}

-- `_ANNOTATION_KEYS` and `_KNOWN_KEYS`
abbrev pub annotation_keys : List String
annotation_keys =
    "$comment" ∷ "$defs" ∷ "$id" ∷ "$schema" ∷ "default" ∷ "description" ∷ "examples" ∷ "title" ∷ []

abbrev known_keys : List String
known_keys =
    "$ref" ∷ "additionalProperties" ∷ "anyOf" ∷ "const" ∷ "enum" ∷ "exclusiveMaximum"
    ∷ "exclusiveMinimum" ∷ "format" ∷ "items" ∷ "maxItems" ∷ "maxLength" ∷ "maxProperties"
    ∷ "maximum" ∷ "minItems" ∷ "minLength" ∷ "minProperties" ∷ "minimum" ∷ "multipleOf"
    ∷ "properties" ∷ "propertyNames" ∷ "required" ∷ "type" ∷ "uniqueItems" ∷ []

-- `_is_mapping`, with the mapping
unfoldable pub mapping_of : Option Value → Option Fields
mapping_of (some (object fs)) = if has_names fs then some fs else none
mapping_of v = none

-- `key in schema`
unfoldable pub has_key : String → Fields → Bool
has_key key end = false
has_key key (field (name k) v fs) = str_eq k key || has_key key fs
has_key key (field not_text v fs) = has_key key fs

-- `a == b` for the values of two keys; `None` equals `None`
unfoldable pub same_value : Option Value → Option Value → Bool
same_value none none = true
same_value none (some w) = false
same_value (some v) none = false
same_value (some v) (some w) = value_eq v w

-- `_variant_list`
unfoldable pub mappings : Items → Option (List Fields)
mappings nil = some []
mappings (cons v vs) = do fs ← mapping_of (some v); rest ← mappings vs; some (fs ∷ rest)

unfoldable pub variant_list : Fields → Option (List Fields)
variant_list schema = variants (field_of "anyOf" schema)
  where
    variants : Option Value → Option (List Fields)
    variants none = some (schema ∷ [])
    variants (some (array nil)) = none
    variants (some (array vs)) = mappings vs
    variants (some v) = none

-- `_allowed_values`
unfoldable pub allowed_values : Fields → Option Items
allowed_values schema = allowed (entry "const" schema) (field_of "enum" schema)
  where
    allowed : Option Value → Option Value → Option Items
    allowed (some v) listed = some (cons v nil)
    allowed none none = none
    allowed none (some (array vs)) = some vs
    allowed none (some v) = some nil

-- `any(value == allowed for allowed in values)`
unfoldable pub is_allowed : Value → Items → Bool
is_allowed v nil = false
is_allowed v (cons w ws) = value_eq v w || is_allowed v ws

unfoldable pub all_allowed : Items → Items → Bool
all_allowed nil ws = true
all_allowed (cons v vs) ws = is_allowed v ws && all_allowed vs ws

-- `_allows_every_value`, of what the two list
unfoldable pub every_allowed : Option Items → Option Items → Bool
every_allowed none vs = true
every_allowed (some ws) none = false
every_allowed (some ws) (some vs) = all_allowed vs ws

unfoldable pub allows_every_value : Fields → Fields → Bool
allows_every_value candidate baseline =
    every_allowed (allowed_values candidate) (allowed_values baseline)

-- `candidate.get(key) == baseline.get(key)` for the keys of `keys` that say more than annotations
-- and are not known
unfoldable pub same_unknown_values : Fields → Fields → Fields → Bool
same_unknown_values end candidate baseline = true
same_unknown_values (field not_text v fs) candidate baseline =
    same_unknown_values fs candidate baseline
same_unknown_values (field (name k) v fs) candidate baseline =
    (contains k annotation_keys
      || contains k known_keys
      || same_value (field_of k candidate) (field_of k baseline))
    && same_unknown_values fs candidate baseline

-- `_same_unknown_constraints`
unfoldable pub same_unknown_constraints : Fields → Fields → Bool
same_unknown_constraints candidate baseline =
    same_unknown_values candidate candidate baseline
    && same_unknown_values baseline candidate baseline

-- `_property_schema`
unfoldable pub property_schema : Fields → String → Option Fields
property_schema schema key =
    property (mapping_of (field_of "properties" schema) >>= λ ps. mapping_of (field_of key ps))
  where
    property : Option Fields → Option Fields
    property (some found) = some found
    property none = mapping_of (field_of "additionalProperties" schema)

-- the texts of a list, when it holds nothing else
unfoldable pub texts_of : Items → Option (List String)
texts_of nil = some []
texts_of (cons (text s) vs) = do rest ← texts_of vs; some (s ∷ rest)
texts_of (cons v vs) = none

-- `_required_names(schema.get("required", []))`; `None` where the key is there is no list
unfoldable pub required_names : Fields → Option (List String)
required_names schema = names (entry "required" schema)
  where
    distinct : List String → Option (List String)
    distinct found = if is_unique found then some found else none

    names : Option Value → Option (List String)
    names none = some []
    names (some (array vs)) = texts_of vs >>= distinct
    names (some v) = none

-- `schema.get("properties", {})`, when it and its values are mappings
unfoldable pub all_mappings : Fields → Bool
all_mappings end = true
all_mappings (field k v fs) = is_some (mapping_of (some v)) && all_mappings fs

unfoldable pub properties_of : Fields → Option Fields
properties_of schema = properties (entry "properties" schema)
  where
    checked : Fields → Option Fields
    checked ps = if all_mappings ps then some ps else none

    properties : Option Value → Option Fields
    properties none = some end
    properties (some v) = mapping_of (some v) >>= checked

-- `_property_names_are_wider`
unfoldable pub property_names_are_wider : Fields → Fields → Bool
property_names_are_wider candidate baseline =
    wider (field_of "propertyNames" candidate) (mapping_of (field_of "propertyNames" baseline))
  where
    both : Option Fields → Option Fields → Bool
    both (some c) (some b) = minimum_is_wider c b "minLength" && maximum_is_wider c b "maxLength"
    both c b = false

    wider : Option Value → Option Fields → Bool
    wider none b = true
    wider c b = both (mapping_of c) b
