-- ===== src/Schema/Compare/Ends.antt =====
-- The end of a comparison, and what it takes of the budget.
use tesserix_mcp_runtime.Base.{
  ℕ, zero, suc, ◌≤◌, ◌<◌, Bool, true, false, ◌||◌, String, Option, none, some, List, [], ◌∷◌,
  str_eq, if◌then◌else◌, ◌≡◌, refl, arith, is_some, is_some-some,
}
use tesserix_mcp_runtime.Json.{name, not_text, Value, text, Fields, end, field}
use tesserix_mcp_runtime.Schema.{field_of}
use tesserix_mcp_runtime.Schema.Keywords.{
  mapping_of, property_schema, required_names, properties_of,
}
use tesserix_mcp_runtime.Schema.Resolve.{resolved}
use tesserix_mcp_runtime.Schema.Resolve.Ends.{resolved_ends}
use tesserix_mcp_runtime.Schema.Compare.{
  SchemaDirection, input, output, Check, answer, and_then, or_else, every, some_one,
  string_is_wider, number_is_wider, items_are_wider, compare_property, properties_are_wider,
  compare_additional, additional_is_wider, objects_are_wider, object_is_wider, typed_is_wider,
  plain_is_wider, variants_are_wider, resolved_is_wider, is_superset, budget, is_compatible,
  classify_schema_change,
}

-- the check answers on every budget below `fuel`, and leaves no more than it got
abbrev Answers : ℕ → Check → Type 0
Answers fuel check =
    (remaining : ℕ)
    → remaining < fuel
    → (answered : Bool) × (rest : ℕ) × (check remaining ≡ some (answered, rest))
      × (rest ≤ remaining)

answer_Answers : (fuel : ℕ) (b : Bool) → Answers fuel (answer b)
answer_Answers fuel b r h = (b, r, refl, omega arith)

and_then_Answers :
    (fuel : ℕ) (a b : Check) → Answers fuel a → Answers fuel b → Answers fuel (and_then a b)
unfolding and_then
and_then_Answers fuel a b first second r h = go (first r h)
  where
    go :
        (answered : Bool) × (rest : ℕ) × (a r ≡ some (answered, rest)) × (rest ≤ r)
        → (answered : Bool) × (rest : ℕ) × (and_then a b r ≡ some (answered, rest)) × (rest ≤ r)
    go (true, s, e, less) =
        let (answered, t, e', less') = second s (omega (arith, less, h)) in
        (answered, t, rw e e', omega (arith, less, less'))
    go (false, s, e, less) = (false, s, rw e refl, less)

or_else_Answers :
    (fuel : ℕ) (a b : Check) → Answers fuel a → Answers fuel b → Answers fuel (or_else a b)
unfolding or_else
or_else_Answers fuel a b first second r h = go (first r h)
  where
    go :
        (answered : Bool) × (rest : ℕ) × (a r ≡ some (answered, rest)) × (rest ≤ r)
        → (answered : Bool) × (rest : ℕ) × (or_else a b r ≡ some (answered, rest)) × (rest ≤ r)
    go (false, s, e, less) =
        let (answered, t, e', less') = second s (omega (arith, less, h)) in
        (answered, t, rw e e', omega (arith, less, less'))
    go (true, s, e, less) = (true, s, rw e refl, less)

branch_Answers :
    (fuel : ℕ) (b : Bool) (x y : Check)
    → Answers fuel x
    → Answers fuel y
    → Answers fuel (if b then x else y)
branch_Answers fuel true x y hx hy = hx
branch_Answers fuel false x y hx hy = hy

module _ (fuel : ℕ) where
  every_Answers :
      (test : Fields → Check)
      → ((x : Fields) → Answers fuel (test x))
      → (xs : List Fields) → Answers fuel (every test xs)
  unfolding every
  every_Answers test h [] = answer_Answers fuel true
  every_Answers test h (x ∷ xs) =
      and_then_Answers fuel (test x) (every test xs) (h x) (every_Answers test h xs)

  some_one_Answers :
      (test : Fields → Check)
      → ((x : Fields) → Answers fuel (test x))
      → (xs : List Fields) → Answers fuel (some_one test xs)
  unfolding some_one
  some_one_Answers test h [] = answer_Answers fuel false
  some_one_Answers test h (x ∷ xs) =
      or_else_Answers fuel (test x) (some_one test xs) (h x) (some_one_Answers test h xs)

module _ (fuel : ℕ) (compare : Fields → Fields → Check)
    (answers : (c b : Fields) → Answers fuel (compare c b)) where
  no : Answers fuel (answer false)
  no = answer_Answers fuel false

  items_Answers :
      (c b : Fields) (ci bi : Option Fields) → Answers fuel (items_are_wider compare c b ci bi)
  unfolding items_are_wider
  items_Answers c b (some ci) (some bi) = branch_Answers fuel _ _ _ (answers ci bi) no
  items_Answers c b none bi = no
  items_Answers c b (some ci) none = no

  property_Answers : (c b : Option Fields) → Answers fuel (compare_property compare c b)
  unfolding compare_property
  property_Answers (some c) (some b) = answers c b
  property_Answers none b = no
  property_Answers (some c) none = no

  properties_Answers : (c bs : Fields) → Answers fuel (properties_are_wider compare c bs)
  unfolding properties_are_wider
  properties_Answers c end = answer_Answers fuel true
  properties_Answers c (field not_text v bs) = no
  properties_Answers c (field (name k) v bs) =
      and_then_Answers fuel (compare_property compare (property_schema c k) (mapping_of (some v)))
        (properties_are_wider compare c bs) (property_Answers _ _) (properties_Answers c bs)

  additional_Answers : (c b : Option Value) → Answers fuel (additional_is_wider compare c b)
  unfolding additional_is_wider compare_additional
  additional_Answers c b =
      branch_Answers fuel _ _ _ (answer_Answers fuel true)
        (branch_Answers fuel _ _ _ no (go (mapping_of c) (mapping_of b)))
    where
      go : (co bo : Option Fields) → Answers fuel (compare_additional compare c co bo)
      go (some cs) (some bs) = answers cs bs
      go none (some bs) = answer_Answers fuel _
      go (some cs) none = no
      go none none = answer_Answers fuel true

  object_Answers :
      (c b : Fields) (cr br : Option (List String)) (cp bp : Option Fields)
      → Answers fuel (objects_are_wider compare c b cr br cp bp)
  unfolding objects_are_wider
  object_Answers c b (some cr) (some br) (some cp) (some bp) =
      branch_Answers fuel _ _ _
        (and_then_Answers fuel (properties_are_wider compare c bp) _ (properties_Answers c bp) (
          and_then_Answers fuel
            (additional_is_wider compare (field_of "additionalProperties" c)
              (field_of "additionalProperties" b))
            _ (additional_Answers _ _) (answer_Answers fuel _)))
        no
  object_Answers c b none br cp bp = no
  object_Answers c b (some cr) none cp bp = no
  object_Answers c b (some cr) (some br) none bp = no
  object_Answers c b (some cr) (some br) (some cp) none = no

  typed_Answers : (c b : Fields) (t : Option Value) → Answers fuel (typed_is_wider compare c b t)
  unfolding typed_is_wider object_is_wider
  typed_Answers c b (some (text t)) =
      branch_Answers fuel (str_eq t "string") _ _ (answer_Answers fuel (string_is_wider c b)) (
        branch_Answers fuel (str_eq t "integer" || str_eq t "number") _ _
          (answer_Answers fuel (number_is_wider c b))
          (branch_Answers fuel (str_eq t "array") _ _
            (items_Answers c b (mapping_of (field_of "items" c)) (mapping_of (field_of "items" b)))
            (branch_Answers fuel (str_eq t "object") _ _
              (object_Answers c b (required_names c) (required_names b) (properties_of c)
                (properties_of b))
              (answer_Answers fuel true))))
  typed_Answers c b none = no
  typed_Answers c b (some _) = no

  variants_Answers :
      (c b : Fields) (cs bs : Option (List Fields))
      → Answers fuel (variants_are_wider compare c b cs bs)
  unfolding variants_are_wider plain_is_wider
  variants_Answers c b (some cs) (some bs) =
      branch_Answers fuel _ _ _
        (every_Answers fuel _ (λ bv. some_one_Answers fuel _ (λ cv. answers cv bv) cs) bs)
        (branch_Answers fuel _ _ _ (typed_Answers c b _) no)
  variants_Answers c b none bs = no
  variants_Answers c b (some cs) none = no

  resolved_Answers : (c b : Option Fields) → Answers fuel (resolved_is_wider compare c b)
  unfolding resolved_is_wider
  resolved_Answers (some c) (some b) = variants_Answers c b _ _
  resolved_Answers none b = no
  resolved_Answers (some c) none = no

-- With more fuel than budget a comparison answers, and leaves no more than it got.
pub is_superset_Answers :
    (fuel : ℕ) (candidate_root baseline_root candidate baseline : Fields) (remaining : ℕ)
    → remaining < fuel
    → (answered : Bool) × (rest : ℕ) × (is_superset fuel candidate_root baseline_root candidate
          baseline remaining
        ≡ some (answered, rest))
      × (rest ≤ remaining)
unfolding is_superset
is_superset_Answers zero cr br c b r h = ground arith
is_superset_Answers (suc fuel) cr br c b zero h = (false, 0, refl, omega arith)
is_superset_Answers (suc fuel) cr br c b (suc r) h =
    let (rc, ec) = is_some-some (resolved cr c) (resolved_ends cr c) in
    let (rb, eb) = is_some-some (resolved br b) (resolved_ends br b) in
    let (answered, rest, e, less) =
      resolved_Answers fuel (is_superset fuel cr br) (is_superset_Answers fuel cr br) rc rb r
        (omega (arith, h)) in
    (answered, rest, rw (ec, eb) e, omega (arith, less))

is_compatible_ends :
    (candidate baseline : Fields) → is_some (is_compatible candidate baseline) ≡ true
unfolding is_compatible
is_compatible_ends c b =
    let (answered, rest, e, less) = is_superset_Answers (suc budget) c b c b budget (omega arith) in
    rw e refl

-- The fuel of the model is enough for every comparison. Python's own limit on nested calls, which
-- this leaves out, may end a comparison earlier.
pub classify_schema_change_ends :
    (fingerprint : Fields → String) (previous current : Fields) (direction : SchemaDirection)
    → is_some (classify_schema_change fingerprint previous current direction) ≡ true
unfolding classify_schema_change
classify_schema_change_ends fingerprint p c input = ground (arith, is_compatible_ends c p)
classify_schema_change_ends fingerprint p c output = ground (arith, is_compatible_ends p c)
