-- ===== src/Schema/Tests.antt =====
-- Two small schemas, and the theorems at them.
use tesserix_mcp_runtime.Schema.Compare.{
  output, classify_schema_change, plain_is_wider, type_is_wider, typed_is_wider, number_is_wider,
  multiple_is_wider,
}
use tesserix_mcp_runtime.Schema.Compare.Ends.{classify_schema_change_ends}
use tesserix_mcp_runtime.Schema.Compare.Samples.{at_most, up_to, mark}
use tesserix_mcp_runtime.Schema.Equality.{value_eq, entry}
use tesserix_mcp_runtime.Schema.Keywords.{
  same_value, allows_every_value, every_allowed, allowed_values, same_unknown_constraints,
  same_unknown_values,
}
use tesserix_mcp_runtime.Schema.Values.{admits_number, plain_is_wider-admits_number}
use tesserix_mcp_runtime.Base.{true, false, pos, some, none, is_some, contains, ◌≡◌, refl, unit}
use tesserix_mcp_runtime.Json.{Fields, end, field, name, integer, object}
use tesserix_mcp_runtime.Schema.{
  field_of, numeric, scaled, greatest, least, lower_bound, upper_bound, lower_is_wider,
  upper_is_wider, is_at_most, is_at_least, minimum_is_wider, maximum_is_wider,
}
use tesserix_mcp_runtime.Schema.Sound.{in_range, in_size, is_wider-in_range, is_wider-in_size}

-- more than 2, at most 9; one to three characters
abbrev narrow : Fields
narrow = field (name "exclusiveMinimum") (integer (pos 2)) (
    field (name "maximum") (integer (pos 9))
      (field (name "minLength") (integer (pos 1)) (field (name "maxLength") (integer (pos 3)) end)))

-- from 2 on; at most four characters
abbrev wide : Fields
wide = field (name "minimum") (integer (pos 2)) (field (name "maxLength") (integer (pos 4)) end)

lower_wider : lower_is_wider (lower_bound wide) (lower_bound narrow) ≡ true
unfolding lower_is_wider lower_bound greatest numeric field_of scaled unit
lower_wider = refl

upper_wider : upper_is_wider (upper_bound wide) (upper_bound narrow) ≡ true
unfolding upper_is_wider upper_bound least numeric field_of scaled unit
upper_wider = refl

narrower : lower_is_wider (lower_bound narrow) (lower_bound wide) ≡ false
unfolding lower_is_wider lower_bound greatest numeric field_of scaled unit
narrower = refl

five : in_range narrow (scaled (pos 5)) ≡ true
unfolding numeric field_of scaled unit
five = refl

is_wider-in_range_example : in_range wide (scaled (pos 5)) ≡ true
is_wider-in_range_example =
    is_wider-in_range wide narrow lower_wider upper_wider (scaled (pos 5)) five

shorter : minimum_is_wider wide narrow "minLength" ≡ true
unfolding minimum_is_wider is_at_most numeric field_of scaled unit
shorter = refl

longer : maximum_is_wider wide narrow "maxLength" ≡ true
unfolding maximum_is_wider is_at_least numeric field_of scaled unit
longer = refl

two : in_size "minLength" "maxLength" narrow (scaled (pos 2)) ≡ true
unfolding numeric field_of scaled unit
two = refl

is_wider-in_size_example : in_size "minLength" "maxLength" wide (scaled (pos 2)) ≡ true
is_wider-in_size_example =
    is_wider-in_size "minLength" "maxLength" wide narrow shorter longer (scaled (pos 2)) two

looped_comparison :
    is_some (classify_schema_change (λ fs. mark (object fs)) (up_to 9) (up_to 12) output) ≡ true
looped_comparison = classify_schema_change_ends (λ fs. mark (object fs)) (up_to 9) (up_to 12) output

amounts_compared : plain_is_wider (λ c b r. none) (at_most 12) (at_most 9) 5 ≡ some (true, 5)
unfolding plain_is_wider type_is_wider same_value field_of value_eq allows_every_value every_allowed
    allowed_values entry same_unknown_constraints same_unknown_values contains typed_is_wider
    number_is_wider lower_is_wider lower_bound greatest numeric scaled unit multiple_is_wider least
    upper_bound upper_is_wider
amounts_compared = refl

amount_valid : admits_number (at_most 9) (integer (pos 7)) ≡ true
unfolding allowed_values numeric field_of scaled unit entry
amount_valid = refl

plain_is_wider-admits_number_example : admits_number (at_most 12) (integer (pos 7)) ≡ true
plain_is_wider-admits_number_example =
    plain_is_wider-admits_number (λ c b r. none) (at_most 12) (at_most 9) 5 5 amounts_compared
      (integer (pos 7)) amount_valid
