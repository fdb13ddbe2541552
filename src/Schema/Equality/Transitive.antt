-- ===== src/Schema/Equality/Transitive.antt =====
-- Two JSON values that both equal a third.
use tesserix_mcp_runtime.Base.{
  true, String, Option, none, some, ◌==◌, ℤ, pos, negsuc, str_eq, ◌≡◌, refl, arith, eq_iff,
  Option-cases, &&-true, sym, ==_iff, ap, Bool-cases, inl, inr,
}
use tesserix_mcp_runtime.Json.{
  name, not_text, Value, null, boolean, integer, floating, not_finite, text, array, object, opaque,
  Items, nil, cons, Fields, end, field, count_fields,
}
use tesserix_mcp_runtime.Schema.Equality.{
  entry, integer_eq, amount, is_amount, holds, value_eq, items_eq, fields_in,
}

pub integer_eq-≡ : (x y : ℤ) → integer_eq x y ≡ true → x ≡ y
unfolding integer_eq
integer_eq-≡ (pos a) (pos b) h = ap pos (ground (arith, ==_iff a b))
integer_eq-≡ (negsuc a) (negsuc b) h = ap negsuc (ground (arith, ==_iff a b))
integer_eq-≡ (pos a) (negsuc b) h = ground arith
integer_eq-≡ (negsuc a) (pos b) h = ground arith

is_amount-some : (x : ℤ) (o : Option ℤ) → is_amount x o ≡ true → o ≡ some x
unfolding is_amount
is_amount-some x none h = ground arith
is_amount-some x (some y) h = ap some (sym (integer_eq-≡ x y h))

-- what equals a number is that number
amount_moves :
    (x : ℤ) (v w : Value) → amount v ≡ some x → value_eq v w ≡ true → is_amount x (amount w) ≡ true
unfolding value_eq amount
amount_moves x (boolean b) w e h = cc (e, h)
amount_moves x (integer b) w e h = cc (e, h)
amount_moves x (floating b) w e h = cc (e, h)
amount_moves x null w e h = ground arith
amount_moves x not_finite w e h = ground arith
amount_moves x (text s) w e h = ground arith
amount_moves x (array s) w e h = ground arith
amount_moves x (object s) w e h = ground arith
amount_moves x opaque w e h = ground arith

found :
    (k : String) (v : Value) (fs gs : Fields)
    → fields_in fs gs ≡ true
    → entry k fs ≡ some v
    → holds (value_eq v) (entry k gs) ≡ true
unfolding value_eq entry
found k v end gs h e = ground arith
found k v (field not_text u fs) gs h e = ground arith
found k v (field (name l) u fs) gs h e =
    let both = &&-true (holds (value_eq u) (entry l gs)) (fields_in fs gs) h in
    elim (Bool-cases (str_eq l k)) [
      | inl same ↦
          let here : u ≡ v = ground (arith, e, same) in
          let at_k : l ≡ k = ground (arith, eq_iff l k, same) in cc (here, at_k, both.0)
      | inr other ↦ found k v fs gs both.1 (ground (arith, e, other))
    ]

mutual
  unfolding value_eq

  pub value_eq_trans :
      (u v w : Value) → value_eq u v ≡ true → value_eq v w ≡ true → value_eq u w ≡ true
  value_eq_trans null null w h k = k
  value_eq_trans (boolean a) v w h k = amount_moves _ v w (is_amount-some _ (amount v) h) k
  value_eq_trans (integer a) v w h k = amount_moves _ v w (is_amount-some _ (amount v) h) k
  value_eq_trans (floating a) v w h k = amount_moves _ v w (is_amount-some _ (amount v) h) k
  value_eq_trans (text s) (text t) (text r) h k = ground (arith, eq_iff s t, eq_iff t r, eq_iff s r)
  value_eq_trans (array us) (array vs) (array ws) h k = items_eq_trans us vs ws h k
  value_eq_trans (object fs) (object gs) (object hs) h k =
      let left = &&-true (count_fields fs == count_fields gs) (fields_in fs gs) h in
      let right = &&-true (count_fields gs == count_fields hs) (fields_in gs hs) k in
      let rest = fields_in_trans fs gs hs left.1 right.1 in ground (arith, left.0, right.0, rest)
  value_eq_trans _ _ _ h k = ground arith

  items_eq_trans :
      (us vs ws : Items) → items_eq us vs ≡ true → items_eq vs ws ≡ true → items_eq us ws ≡ true
  items_eq_trans nil nil ws h k = k
  items_eq_trans (cons u us) (cons v vs) (cons w ws) h k =
      let left = &&-true (value_eq u v) (items_eq us vs) h in
      let right = &&-true (value_eq v w) (items_eq vs ws) k in
      rw (value_eq_trans u v w left.0 right.0, items_eq_trans us vs ws left.1 right.1) refl
  items_eq_trans _ _ _ h k = ground arith

  fields_in_trans :
      (fs gs hs : Fields) → fields_in fs gs ≡ true → fields_in gs hs ≡ true → fields_in fs hs ≡ true
  fields_in_trans end gs hs h k = refl
  fields_in_trans (field not_text u fs) gs hs h k = ground arith
  fields_in_trans (field (name l) u fs) gs hs h k =
      let left = &&-true (holds (value_eq u) (entry l gs)) (fields_in fs gs) h in
      let rest = fields_in_trans fs gs hs left.1 k in
      elim (Option-cases (entry l gs)) [
        | inl missing ↦ ground (arith, left.0, missing)
        | inr (v, there) ↦ elim (Option-cases (entry l hs)) [
          | inl missing ↦ ground (arith, found l v gs hs k there, missing)
          | inr (w, third) ↦
              let uv : value_eq u v ≡ true = ground (arith, left.0, there) in
              let vw : value_eq v w ≡ true = ground (arith, found l v gs hs k there, third) in
              rw (third, value_eq_trans u v w uv vw, rest) refl
        ]
      ]
