-- ===== src/Schema/Values.antt =====
-- The numbers that a schema admits, and a wider schema.
use tesserix_mcp_runtime.Base.{
  ℕ, suc, ◌%◌, Bool, true, false, ◌&&◌, ◌||◌, Option, none, some, ℤ, pos, negsuc, unit, str_eq,
  ◌==◌, ◌≡◌, refl, sym, subst, arith, eq_iff, &&-true, Bool-cases, Option-cases, inl, inr,
}
use tesserix_mcp_runtime.Json.{Value, text, Items, nil, cons, Fields}
use tesserix_mcp_runtime.Schema.{
  field_of, numeric, lower_bound, upper_bound, lower_is_wider, upper_is_wider,
}
use tesserix_mcp_runtime.Schema.Sound.{in_range, is_wider-in_range}
use tesserix_mcp_runtime.Schema.Equality.{amount, is_amount, value_eq}
use tesserix_mcp_runtime.Schema.Equality.Transitive.{value_eq_trans, integer_eq-≡}
use tesserix_mcp_runtime.Schema.Keywords.{
  is_allowed, all_allowed, allowed_values, every_allowed, allows_every_value, same_value,
  same_unknown_constraints,
}
use tesserix_mcp_runtime.Schema.Compare.{
  Check, is_text, multiple_is_wider, number_is_wider, type_is_wider, typed_is_wider, plain_is_wider,
}

-- what `const` and `enum` say of a value
abbrev in_enumeration : Value → Option Items → Bool
in_enumeration v none = true
in_enumeration v (some vs) = is_allowed v vs

abbrev pub permits : Fields → Value → Bool
permits schema v = in_enumeration v (allowed_values schema)

is_allowed_moves :
    (u v : Value) (ws : Items)
    → value_eq u v ≡ true
    → is_allowed v ws ≡ true
    → is_allowed u ws ≡ true
unfolding is_allowed
is_allowed_moves u v nil h k = ground arith
is_allowed_moves u v (cons w ws) h k = elim (Bool-cases (value_eq v w)) [
  | inl same ↦ rw (value_eq_trans u v w h same) refl
  | inr other ↦ ground (arith, k, other, is_allowed_moves u v ws h)
]

all_allowed_lem :
    (v : Value) (vs ws : Items)
    → all_allowed vs ws ≡ true
    → is_allowed v vs ≡ true
    → is_allowed v ws ≡ true
unfolding all_allowed is_allowed
all_allowed_lem v nil ws h k = ground arith
all_allowed_lem v (cons u us) ws h k =
    let both = &&-true (is_allowed u ws) (all_allowed us ws) h in
    elim (Bool-cases (value_eq v u)) [
      | inl same ↦ is_allowed_moves v u ws same both.0
      | inr other ↦ all_allowed_lem v us ws both.1 (ground (arith, k, other))
    ]

every_allowed_lem :
    (v : Value) (cs bs : Option Items)
    → every_allowed cs bs ≡ true
    → in_enumeration v bs ≡ true
    → in_enumeration v cs ≡ true
unfolding every_allowed
every_allowed_lem v none bs h k = refl
every_allowed_lem v (some ws) none h k = ground arith
every_allowed_lem v (some ws) (some vs) h k = all_allowed_lem v vs ws h k

pub allows_every_value-permits :
    (c b : Fields) (v : Value)
    → allows_every_value c b ≡ true
    → permits b v ≡ true
    → permits c v ≡ true
unfolding allows_every_value
allows_every_value-permits c b v h k = every_allowed_lem v (allowed_values c) (allowed_values b) h k

-- the size of a number, in ticks
abbrev size : ℤ → ℕ
size (pos n) = n
size (negsuc n) = suc n

-- `multipleOf`
abbrev is_multiple : Option ℤ → ℤ → Bool
is_multiple none x = true
is_multiple (some m) x = size x % size m == 0

-- what `type` says of a number
abbrev number_type : Option Value → ℤ → Bool
number_type (some (text t)) x = str_eq t "number" || (str_eq t "integer" && size x % unit == 0)
number_type t x = false

abbrev valid_number : Fields → Value → Option ℤ → Bool
valid_number schema v none = false
valid_number schema v (some x) =
    number_type (field_of "type" schema) x
    && (permits schema v
        && (in_range schema x && is_multiple (numeric (field_of "multipleOf" schema)) x))

-- the value is a number that is valid for the keywords of the schema on numbers
abbrev pub admits_number : Fields → Value → Bool
admits_number schema v = valid_number schema v (numeric (some v))

multiple_lem :
    (c b : Option ℤ) (x : ℤ)
    → multiple_is_wider c b ≡ true
    → is_multiple b x ≡ true
    → is_multiple c x ≡ true
unfolding multiple_is_wider
multiple_lem none b x h k = refl
multiple_lem (some m) none x h k = ground arith
multiple_lem (some m) (some n) x h k =
    subst (λ o. is_multiple (some o) x ≡ true) (sym (integer_eq-≡ m n h)) k

number_type_moves :
    (c b : Option Value) (x : ℤ)
    → (same_value c b || (is_text "number" c && is_text "integer" b)) ≡ true
    → number_type b x ≡ true
    → number_type c x ≡ true
unfolding same_value value_eq amount is_amount
number_type_moves (some (text t)) (some (text s)) x h k = elim (Bool-cases (str_eq t s)) [
  | inl same ↦
      let equal : t ≡ s = ground (arith, eq_iff t s, same) in
      subst (λ u. number_type (some (text u)) x ≡ true) (sym equal) k
  | inr other ↦ let number : str_eq t "number" ≡ true = ground (arith, h, other) in rw number refl
]
number_type_moves _ none x h k = ground arith
number_type_moves none (some (text s)) x h k = ground arith
number_type_moves (some _) (some (text s)) x h k = ground arith
number_type_moves c (some _) x h k = ground arith

-- the comparison of two schemas for numbers
typed_lem :
    (compare : Fields → Fields → Check) (c b : Fields) (t : Option Value) (x : ℤ) (r rest : ℕ)
    → typed_is_wider compare c b t r ≡ some (true, rest)
    → number_type t x ≡ true
    → number_is_wider c b ≡ true
unfolding typed_is_wider
typed_lem compare c b (some (text t)) x r rest h k = elim (Bool-cases (str_eq t "number")) [
  | inl number ↦
      let is : t ≡ "number" = ground (arith, eq_iff t "number", number) in
      let h' = subst (λ u. typed_is_wider compare c b (some (text u)) r ≡ some (true, rest)) is h in
      ground (arith, h')
  | inr other ↦
      let integer : str_eq t "integer" ≡ true = ground (arith, k, other) in
      let is : t ≡ "integer" = ground (arith, eq_iff t "integer", integer) in
      let h' = subst (λ u. typed_is_wider compare c b (some (text u)) r ≡ some (true, rest)) is h in
      ground (arith, h')
]
typed_lem compare c b none x r rest h k = ground arith
typed_lem compare c b (some _) x r rest h k = ground arith

valid_lem :
    (compare : Fields → Fields → Check) (c b : Fields) (r rest : ℕ)
    → plain_is_wider compare c b r ≡ some (true, rest)
    → (v : Value) (x : ℤ) → valid_number b v (some x) ≡ true
    → valid_number c v (some x) ≡ true
unfolding plain_is_wider type_is_wider number_is_wider
valid_lem compare c b r rest h v x k =
    elim (Bool-cases
      (type_is_wider c b && allows_every_value c b && same_unknown_constraints c b)) [
        | inr fails ↦ ground (arith, h, fails)
        | inl passes ↦
            let inside : typed_is_wider compare c b (field_of "type" c) r ≡ some (true, rest) =
              ground (arith, h, passes) in
            let (typed, values) = &&-true (number_type (field_of "type" b) x) _ k in
            let (listed, ranged) = &&-true (permits b v) _ values in
            let (within, stepped) = &&-true (in_range b x) _ ranged in
            let (both, same) = &&-true (type_is_wider c b && allows_every_value c b) _ passes in
            let (types, allowed) = &&-true (type_is_wider c b) (allows_every_value c b) both in
            let number = number_type_moves (field_of "type" c) (field_of "type" b) x types typed in
            let wider = typed_lem compare c b (field_of "type" c) x r rest inside number in
            let (bounds, multiple) =
              &&-true
                (lower_is_wider (lower_bound c) (lower_bound b)
                  && upper_is_wider (upper_bound c) (upper_bound b))
                _ wider in
            let (lower, upper) =
              &&-true (lower_is_wider (lower_bound c) (lower_bound b)) _ bounds in
            rw
              (
                number,
                allows_every_value-permits c b v allowed listed,
                is_wider-in_range c b lower upper x within,
                multiple_lem (numeric (field_of "multipleOf" c)) (numeric (field_of "multipleOf" b))
                    x multiple stepped,
              )
              refl
      ]

-- Where `_is_superset`, after the references and the variants, finds a schema wider than another,
-- every number that is valid for the narrower one, by its type, enumeration, bounds and step, is
-- valid for the wider one; the comparison of the schemas inside plays no part.
pub plain_is_wider-admits_number :
    (compare : Fields → Fields → Check) (candidate baseline : Fields) (remaining rest : ℕ)
    → plain_is_wider compare candidate baseline remaining ≡ some (true, rest)
    → (v : Value) → admits_number baseline v ≡ true
    → admits_number candidate v ≡ true
plain_is_wider-admits_number compare c b r rest h v k = elim (Option-cases (numeric (some v))) [
  | inl missing ↦ ground (arith, k, missing)
  | inr (x, there) ↦
      let valid : valid_number b v (some x) ≡ true =
        subst (λ o. valid_number b v o ≡ true) there k in
      subst (λ o. valid_number c v o ≡ true) (sym there) (valid_lem compare c b r rest h v x valid)
]
