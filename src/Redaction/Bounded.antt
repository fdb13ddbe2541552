-- ===== src/Redaction/Bounded.antt =====
-- What passes `_validate` and what leaves `redact`, against the limits.
use tesserix_mcp_runtime.Base.{ℕ, suc, ◌+◌, ◌≤◌, true, String, ◌≡◌, refl, subst, arith}
use tesserix_mcp_runtime.Base.Text.{codes}
use tesserix_mcp_runtime.Contracts.Failure.{Result, ok, err, ◌>>=◌}
use tesserix_mcp_runtime.Json.{
  name, not_text, Value, null, boolean, integer, floating, not_finite, text, array, object, opaque,
  Items, nil, cons, Fields, end, field,
}
use tesserix_mcp_runtime.Json.Text.{utf8_length}
use tesserix_mcp_runtime.Redaction.{
  RedactionLimits, InputBudget, redaction_error, consume_text, consume_node, validate,
  validate_items, validate_fields, transform, fresh, redact,
}
use tesserix_mcp_runtime.Redaction.Measure.{
  nodes_of, items_nodes, fields_nodes, bytes_of, items_bytes, fields_bytes, levels_of, items_levels,
  fields_levels, has_distinct_keys, transform-distinct,
}
use tesserix_mcp_runtime.Redaction.Spent.{
  Spent, Spent-none, Spent-both, then_ok, consume_text-Spent, consume_node-Spent,
}

module _ (casefold redacted : String → String) (limits : RedactionLimits) where
  -- a scalar
  leaf :
      (depth : ℕ) (b c : InputBudget)
      → consume_node casefold redacted limits depth b ≡ ok c
      → Spent casefold redacted limits b c 1 0 × (depth + 0 ≤ limits.max_depth)
  leaf depth b c h =
      let (spent, shallow) = consume_node-Spent casefold redacted limits depth b c h in
      (spent, omega (arith, shallow))

  -- a value that raises after its node
  refused :
      (depth : ℕ) (b c : InputBudget) (P : Type 0)
      → (consume_node casefold redacted limits depth b >>= λ _. err redaction_error) ≡ ok c
      → P
  refused depth b c P h =
      then_ok casefold redacted limits (consume_node casefold redacted limits depth b)
        (λ _. err redaction_error) c P h (λ d i j. ground (arith, j))

  mutual
    unfolding validate

    validate-Spent :
        (v : Value) (depth : ℕ) (b c : InputBudget)
        → validate casefold redacted limits v depth b ≡ ok c
        → Spent casefold redacted limits b c (nodes_of v) (bytes_of v)
          × (depth + levels_of v ≤ limits.max_depth)
    validate-Spent null depth b c h = leaf depth b c h
    validate-Spent (boolean x) depth b c h = leaf depth b c h
    validate-Spent (integer n) depth b c h = leaf depth b c h
    validate-Spent (floating x) depth b c h = leaf depth b c h
    validate-Spent not_finite depth b c h = refused depth b c _ h
    validate-Spent opaque depth b c h = refused depth b c _ h
    validate-Spent (text s) depth b c h =
        then_ok casefold redacted limits (consume_node casefold redacted limits depth b)
          (λ d. consume_text casefold redacted limits s d) c _ h
          (λ d i j.
            let (node, shallow) = leaf depth b d i in
            (
              Spent-both casefold redacted limits b d c 1 0 0 (utf8_length (codes s)) 1
                  (utf8_length (codes s)) node (consume_text-Spent casefold redacted limits s d c j)
                  (omega arith) (omega arith),
              shallow,
            ))
    validate-Spent (array vs) depth b c h =
        then_ok casefold redacted limits (consume_node casefold redacted limits depth b)
          (λ d. validate_items casefold redacted limits vs (depth + 1) d) c _ h
          (λ d i j.
            let (node, shallow) = leaf depth b d i in
            let (rest, deep) = validate_items-Spent vs (depth + 1) d c j (omega (arith, shallow)) in
            (
              Spent-both casefold redacted limits b d c 1 0 (items_nodes vs) (items_bytes vs)
                  (suc (items_nodes vs)) (items_bytes vs) node rest (omega arith) (omega arith),
              omega (arith, deep),
            ))
    validate-Spent (object fs) depth b c h =
        then_ok casefold redacted limits (consume_node casefold redacted limits depth b)
          (λ d. validate_fields casefold redacted limits fs (depth + 1) d) c _ h
          (λ d i j.
            let (node, shallow) = leaf depth b d i in
            let (rest, deep) =
              validate_fields-Spent fs (depth + 1) d c j (omega (arith, shallow)) in
            (
              Spent-both casefold redacted limits b d c 1 0 (fields_nodes fs) (fields_bytes fs)
                  (suc (fields_nodes fs)) (fields_bytes fs) node rest (omega arith) (omega arith),
              omega (arith, deep),
            ))

    validate_items-Spent :
        (vs : Items) (depth : ℕ) (b c : InputBudget)
        → validate_items casefold redacted limits vs depth b ≡ ok c
        → depth ≤ suc limits.max_depth
        → Spent casefold redacted limits b c (items_nodes vs) (items_bytes vs)
          × (depth + items_levels vs ≤ suc limits.max_depth)
    validate_items-Spent nil depth b c h low = (
      subst (λ x. Spent casefold redacted limits b x 0 0) (ground (arith, h))
          (Spent-none casefold redacted limits b),
      omega (arith, low),
    )
    validate_items-Spent (cons v vs) depth b c h low =
        then_ok casefold redacted limits (validate casefold redacted limits v depth b)
          (λ d. validate_items casefold redacted limits vs depth d) c _ h
          (λ d i j.
            let (one, deep) = validate-Spent v depth b d i in
            let (rest, deeper) = validate_items-Spent vs depth d c j low in
            (
              Spent-both casefold redacted limits b d c (nodes_of v) (bytes_of v) (items_nodes vs)
                  (items_bytes vs) (nodes_of v + items_nodes vs) (bytes_of v + items_bytes vs) one
                  rest refl refl,
              omega (arith, deep, deeper),
            ))

    validate_fields-Spent :
        (fs : Fields) (depth : ℕ) (b c : InputBudget)
        → validate_fields casefold redacted limits fs depth b ≡ ok c
        → depth ≤ suc limits.max_depth
        → Spent casefold redacted limits b c (fields_nodes fs) (fields_bytes fs)
          × (depth + fields_levels fs ≤ suc limits.max_depth)
    validate_fields-Spent end depth b c h low = (
      subst (λ x. Spent casefold redacted limits b x 0 0) (ground (arith, h))
          (Spent-none casefold redacted limits b),
      omega (arith, low),
    )
    validate_fields-Spent (field not_text v fs) depth b c h low = ground (arith, h)
    validate_fields-Spent (field (name k) v fs) depth b c h low =
        then_ok casefold redacted limits (consume_text casefold redacted limits k b)
          (λ x. validate casefold redacted limits v depth x >>= λ d.
            validate_fields casefold redacted limits fs depth d)
          c _ h
          (λ x g i.
            then_ok casefold redacted limits (validate casefold redacted limits v depth x)
              (λ d. validate_fields casefold redacted limits fs depth d) c _ i
              (λ d j l.
                let key = consume_text-Spent casefold redacted limits k b x g in
                let (one, deep) = validate-Spent v depth x d j in
                let (rest, deeper) = validate_fields-Spent fs depth d c l low in
                (
                  Spent-both casefold redacted limits b d c (nodes_of v)
                      (utf8_length (codes k) + bytes_of v) (fields_nodes fs) (fields_bytes fs)
                      (nodes_of v + fields_nodes fs)
                      (utf8_length (codes k) + bytes_of v + fields_bytes fs)
                      (Spent-both casefold redacted limits b x d 0 (utf8_length (codes k))
                        (nodes_of v) (bytes_of v) (nodes_of v) (utf8_length (codes k) + bytes_of v)
                        key one (omega arith) refl)
                      rest refl refl,
                  omega (arith, deep, deeper),
                )))

  -- If `redact` returns, the value that leaves has at most the nodes, the bytes of text and the levels that
  -- the limits admit, and each mapping in it has distinct keys.
  pub redact-bounds :
      (v output : Value)
      → redact casefold redacted limits v ≡ ok output
      → (nodes_of output ≤ limits.max_nodes)
        × (bytes_of output ≤ limits.max_text_bytes)
        × (levels_of output ≤ limits.max_depth)
        × (has_distinct_keys output ≡ true)
  unfolding redact
  redact-bounds v output h =
      let start : InputBudget = fresh casefold redacted limits in
      let out : Value = transform casefold redacted limits v in
      let check_again : Result InputBudget = validate casefold redacted limits out 0 start in
      then_ok casefold redacted limits (validate casefold redacted limits v 0 start)
        (λ b. check_again >>= λ c. ok out) output _ h
        (λ b i j.
          then_ok casefold redacted limits check_again (λ c. ok out) output _ j
            (λ c k l.
              let (spent, shallow) = validate-Spent out 0 start c k in
              let is : out ≡ output = ground (arith, l) in
              subst
                (λ o.
                  (nodes_of o ≤ limits.max_nodes)
                  × (bytes_of o ≤ limits.max_text_bytes)
                  × (levels_of o ≤ limits.max_depth)
                  × (has_distinct_keys o ≡ true))
                is
                (
                  omega (arith, spent.nodes, spent.few_nodes (omega arith)),
                  omega (arith, spent.bytes, spent.few_bytes (omega arith)),
                  omega (arith, shallow),
                  transform-distinct casefold redacted limits v,
                )))
