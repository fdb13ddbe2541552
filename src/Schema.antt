-- ===== src/Schema.antt =====
-- src/tesserix_mcp_runtime/schema_compatibility.py: the comparison of the bounds of two schemas.
-- Python compares integers and floats exactly, so both are compared here in ticks.
pub mod Compare
pub mod Equality
pub mod Keywords
pub mod Resolve
pub mod Sound
pub mod Values
mod Tests
use tesserix_mcp_runtime.Base.{
  ℕ, suc, ◌*◌, ◌-◌, ◌+◌, Bool, true, false, not, ◌&&◌, ◌||◌, String, Option, none, some, ltb, leb,
  ℤ, pos, negsuc, unit, str_eq, if◌then◌else◌,
}
use tesserix_mcp_runtime.Json.{Key, name, Value, null, integer, floating, Fields, end, field}

-- `schema.get(key)`; a missing key and `None` are the same
unfoldable pub field_of : String → Fields → Option Value
field_of key end = none
field_of key (field (name k) null fs) = if str_eq k key then none else field_of key fs
field_of key (field (name k) v fs) = if str_eq k key then some v else field_of key fs
field_of key (field k v fs) = field_of key fs

-- `n` in ticks
unfoldable pub scaled : ℤ → ℤ
scaled (pos n) = pos (n * unit)
scaled (negsuc n) = negsuc (suc n * unit - 1)

-- `_numeric`
unfoldable pub numeric : Option Value → Option ℤ
numeric (some (integer n)) = some (scaled n)
numeric (some (floating x)) = some x
numeric _ = none

-- `a < b` and `a <= b`
abbrev pub lt : ℤ → ℤ → Bool
lt (pos a) (pos b) = ltb a b
lt (pos a) (negsuc b) = false
lt (negsuc a) (pos b) = true
lt (negsuc a) (negsuc b) = ltb b a

abbrev pub le : ℤ → ℤ → Bool
le a b = not (lt b a)

-- a bound, and whether it is inclusive
pub record Bound : Type 0 where
  pub value : ℤ
  pub inclusive : Bool

-- `max` and `min` of the candidates by their keys: at equal values the exclusive one
unfoldable pub greatest : Option ℤ → Option ℤ → Option Bound
greatest none none = none
greatest (some a) none = some (record { value = a; inclusive = true })
greatest none (some b) = some (record { value = b; inclusive = false })
greatest (some a) (some b) =
    if lt b a
    then some (record { value = a; inclusive = true })
    else some (record { value = b; inclusive = false })

unfoldable pub least : Option ℤ → Option ℤ → Option Bound
least none none = none
least (some a) none = some (record { value = a; inclusive = true })
least none (some b) = some (record { value = b; inclusive = false })
least (some a) (some b) =
    if lt a b
    then some (record { value = a; inclusive = true })
    else some (record { value = b; inclusive = false })

-- `_lower_bound` and `_upper_bound`
unfoldable pub lower_bound : Fields → Option Bound
lower_bound schema =
    greatest (numeric (field_of "minimum" schema)) (numeric (field_of "exclusiveMinimum" schema))

unfoldable pub upper_bound : Fields → Option Bound
upper_bound schema =
    least (numeric (field_of "maximum" schema)) (numeric (field_of "exclusiveMaximum" schema))

-- `_lower_is_wider` and `_upper_is_wider`
unfoldable pub lower_is_wider : Option Bound → Option Bound → Bool
lower_is_wider none baseline = true
lower_is_wider (some c) none = false
lower_is_wider (some c) (some b) =
    if lt c.value b.value
    then true
    else if lt b.value c.value
    then false
    else c.inclusive || not b.inclusive

unfoldable pub upper_is_wider : Option Bound → Option Bound → Bool
upper_is_wider none baseline = true
upper_is_wider (some c) none = false
upper_is_wider (some c) (some b) =
    if lt b.value c.value
    then true
    else if lt c.value b.value
    then false
    else c.inclusive || not b.inclusive

-- the comparisons of `_minimum_is_wider` and `_maximum_is_wider`
unfoldable pub is_at_most : Option ℤ → Option ℤ → Bool
is_at_most none baseline = true
is_at_most (some c) none = false
is_at_most (some c) (some b) = le c b

unfoldable pub is_at_least : Option ℤ → Option ℤ → Bool
is_at_least none baseline = true
is_at_least (some c) none = false
is_at_least (some c) (some b) = le b c

unfoldable pub minimum_is_wider : Fields → Fields → String → Bool
minimum_is_wider candidate baseline key =
    is_at_most (numeric (field_of key candidate)) (numeric (field_of key baseline))

unfoldable pub maximum_is_wider : Fields → Fields → String → Bool
maximum_is_wider candidate baseline key =
    is_at_least (numeric (field_of key candidate)) (numeric (field_of key baseline))
