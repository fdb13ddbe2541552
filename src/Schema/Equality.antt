-- ===== src/Schema/Equality.antt =====
-- Python's `==` on JSON values, which compares numbers of every type and mappings in any order.
-- A float that is not finite, a key that is no text and any other object equal nothing here: no
-- document that is JSON holds them.
pub mod Transitive
use tesserix_mcp_runtime.Base.{
  ℕ, Bool, true, false, ◌&&◌, String, Option, none, some, ◌==◌, ℤ, pos, negsuc, unit, str_eq,
  if◌then◌else◌, ◌≡◌, refl, arith, eq_iff, Option-cases, &&-true,
}
use tesserix_mcp_runtime.Json.{
  Key, name, not_text, Value, null, boolean, integer, floating, not_finite, text, array, object,
  opaque, Items, nil, cons, Fields, end, field, count_fields,
}
use tesserix_mcp_runtime.Schema.{scaled}

-- `mapping[key]`, where the key is there
unfoldable pub entry : String → Fields → Option Value
entry key end = none
entry key (field (name k) v fs) = if str_eq k key then some v else entry key fs
entry key (field not_text v fs) = entry key fs

unfoldable pub integer_eq : ℤ → ℤ → Bool
integer_eq (pos a) (pos b) = a == b
integer_eq (negsuc a) (negsuc b) = a == b
integer_eq a b = false

-- a number in ticks; `True` is 1 and `False` is 0
unfoldable pub amount : Value → Option ℤ
unfolding scaled
amount (boolean b) = some (pos (if b then unit else 0))
amount (integer n) = some (scaled n)
amount (floating x) = some x
amount v = none

unfoldable pub is_amount : ℤ → Option ℤ → Bool
is_amount x none = false
is_amount x (some y) = integer_eq x y

abbrev holds : (Value → Bool) → Option Value → Bool
holds test none = false
holds test (some v) = test v

unfoldable mutual
  unfolding amount

  pub value_eq : Value → Value → Bool
  value_eq null null = true
  value_eq null w = false
  value_eq (boolean a) w = is_amount (pos (if a then unit else 0)) (amount w)
  value_eq (integer a) w = is_amount (scaled a) (amount w)
  value_eq (floating a) w = is_amount a (amount w)
  value_eq not_finite w = false
  value_eq (text s) (text t) = str_eq s t
  value_eq (text s) w = false
  value_eq (array vs) (array ws) = items_eq vs ws
  value_eq (array vs) w = false
  value_eq (object fs) (object gs) = (count_fields fs == count_fields gs) && fields_in fs gs
  value_eq (object fs) w = false
  value_eq opaque w = false

  pub items_eq : Items → Items → Bool
  items_eq nil nil = true
  items_eq (cons v vs) (cons w ws) = value_eq v w && items_eq vs ws
  items_eq vs ws = false

  -- each entry of the first mapping is in the second
  pub fields_in : Fields → Fields → Bool
  fields_in end gs = true
  fields_in (field (name k) v fs) gs = holds (value_eq v) (entry k gs) && fields_in fs gs
  fields_in (field not_text v fs) gs = false
