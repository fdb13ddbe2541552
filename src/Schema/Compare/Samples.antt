-- ===== src/Schema/Compare/Samples.antt =====
-- Two schemas of an object with a bounded integer, compared both ways; a schema whose `anyOf` stands
-- beside another keyword, and one that refers to itself.
use tesserix_mcp_runtime.Base.{
  ℕ, true, false, some, contains, is_subset, is_unique, ◌≡◌, refl, pos, unit, str_eq, String,
  if◌then◌else◌,
}
use tesserix_mcp_runtime.Json.{
  Value, object, text, integer, boolean, array, nil, cons, Fields, end, field, name,
}
use tesserix_mcp_runtime.Schema.{
  field_of, scaled, numeric, greatest, least, lower_bound, upper_bound, lower_is_wider,
  upper_is_wider, is_at_most, is_at_least, minimum_is_wider, maximum_is_wider,
}
use tesserix_mcp_runtime.Schema.Equality.{
  entry, integer_eq, amount, is_amount, value_eq, items_eq, fields_in,
}
use tesserix_mcp_runtime.Schema.Keywords.{
  mapping_of, has_key, same_value, mappings, variant_list, allowed_values, every_allowed,
  allows_every_value, same_unknown_values, same_unknown_constraints, property_schema,
  required_names, all_mappings, properties_of, property_names_are_wider,
}
use tesserix_mcp_runtime.Schema.Resolve.{
  without_prefix, only_annotates, definition, enter, enter_named, follow, resolve,
  count_definitions, definition_count, resolved,
}
use tesserix_mcp_runtime.Schema.Compare.{
  non_breaking, input, and_then, or_else, every, some_one, multiple_is_wider, string_is_wider,
  number_is_wider, type_is_wider, compare_property, properties_are_wider, compare_additional,
  additional_is_wider, objects_are_wider, object_is_wider, typed_is_wider, plain_is_wider,
  variants_are_wider, resolved_is_wider, is_superset, is_compatible, classify_schema_change,
}

-- an integer of at most `limit`
abbrev pub at_most : ℕ → Fields
at_most limit =
    field (name "type") (text "integer") (field (name "maximum") (integer (pos limit)) end)

-- an object with an `amount` of at most `limit`
abbrev pub up_to : ℕ → Fields
up_to limit = field (name "type") (text "object") (
    field (name "additionalProperties") (boolean false)
      (field (name "properties") (object (field (name "amount") (object (at_most limit)) end)) end))

abbrev pub mark : Value → String
mark (object (field k v fs)) =
    if value_eq (object (field k v fs)) (object (up_to 9)) then "old" else "new"
mark v = "none"

-- a text of at most `limit` characters, in two variants, which the keyword beside them shortens
abbrev variants : ℕ → Fields
variants limit = field (name "type") (text "string") (
    field (name "maxLength") (integer (pos limit))
      (field (name "anyOf") (array (cons (object short) (cons (object short) nil))) end))
  where
    short : Fields
    short = field (name "type") (text "string") (field (name "maxLength") (integer (pos 9)) end)

-- a definition that is a reference to itself
abbrev cyclic : Fields
cyclic = field (name "$ref") (text "#/$defs/a") (
    field (name "$defs")
      (object (field (name "a") (object (field (name "$ref") (text "#/$defs/a") end)) end)) end)

-- A raised maximum is wider and a lowered one is not; the keyword beside `anyOf` is not compared; a
-- reference in a circle is refused.
pub compared :
    (is_compatible (up_to 12) (up_to 9) ≡ some true)
    × (is_compatible (up_to 8) (up_to 9) ≡ some false)
    × (is_compatible (variants 3) (variants 9) ≡ some true)
    × (is_compatible cyclic cyclic ≡ some false)
unfolding field_of scaled numeric greatest least lower_bound upper_bound lower_is_wider
    upper_is_wider is_at_most is_at_least minimum_is_wider maximum_is_wider entry integer_eq amount
    is_amount value_eq mapping_of has_key same_value variant_list allowed_values every_allowed
    allows_every_value same_unknown_values same_unknown_constraints property_schema required_names
    all_mappings properties_of property_names_are_wider without_prefix only_annotates definition
    enter enter_named follow resolve count_definitions definition_count resolved and_then
    multiple_is_wider string_is_wider number_is_wider type_is_wider compare_property
    properties_are_wider compare_additional additional_is_wider objects_are_wider object_is_wider
    typed_is_wider plain_is_wider variants_are_wider resolved_is_wider is_superset is_compatible
    classify_schema_change unit is_subset is_unique contains or_else every some_one mappings
compared = (refl, refl, refl, refl)

mark_differs : str_eq (mark (object (up_to 9))) (mark (object (up_to 12))) ≡ false
unfolding value_eq items_eq fields_in amount is_amount integer_eq entry scaled unit
mark_differs = refl

pub raised :
    classify_schema_change (λ fs. mark (object fs)) (up_to 9) (up_to 12) input ≡ some non_breaking
unfolding classify_schema_change
raised = rw (mark_differs, compared.0) refl
