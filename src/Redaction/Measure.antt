-- ===== src/Redaction/Measure.antt =====
-- What a value that leaves the redactor has: its size, its depth, and the keys of its mappings.
use tesserix_mcp_runtime.Base.{
  ℕ, suc, ◌+◌, max, Bool, true, false, not, ◌&&◌, String, List, [], ◌∷◌, contains, if◌then◌else◌,
  ◌≡◌, refl, arith,
}
use tesserix_mcp_runtime.Base.Text.{codes}
use tesserix_mcp_runtime.Json.{
  Key, name, not_text, Value, null, boolean, integer, floating, not_finite, text, array, object,
  opaque, Items, nil, cons, Fields, end, field,
}
use tesserix_mcp_runtime.Json.Text.{utf8_length}
use tesserix_mcp_runtime.Redaction.{
  RedactionLimits, redacted_text, output_key, is_secret_key, transform, transform_items,
  transform_fields,
}
use tesserix_mcp_runtime.Redaction.Keys.{output_key-new}

-- nodes, bytes of text, levels below, and whether the keys of each mapping differ
abbrev mutual
  pub nodes_of : Value → ℕ
  nodes_of (array vs) = suc (items_nodes vs)
  nodes_of (object fs) = suc (fields_nodes fs)
  nodes_of _ = 1

  pub items_nodes : Items → ℕ
  items_nodes nil = 0
  items_nodes (cons v vs) = nodes_of v + items_nodes vs

  pub fields_nodes : Fields → ℕ
  fields_nodes end = 0
  fields_nodes (field k v fs) = nodes_of v + fields_nodes fs

abbrev pub key_bytes : Key → ℕ
key_bytes (name k) = utf8_length (codes k)
key_bytes not_text = 0

abbrev mutual
  pub bytes_of : Value → ℕ
  bytes_of (text s) = utf8_length (codes s)
  bytes_of (array vs) = items_bytes vs
  bytes_of (object fs) = fields_bytes fs
  bytes_of _ = 0

  pub items_bytes : Items → ℕ
  items_bytes nil = 0
  items_bytes (cons v vs) = bytes_of v + items_bytes vs

  pub fields_bytes : Fields → ℕ
  fields_bytes end = 0
  fields_bytes (field k v fs) = key_bytes k + bytes_of v + fields_bytes fs

abbrev mutual
  pub levels_of : Value → ℕ
  levels_of (array vs) = items_levels vs
  levels_of (object fs) = fields_levels fs
  levels_of _ = 0

  pub items_levels : Items → ℕ
  items_levels nil = 0
  items_levels (cons v vs) = max (suc (levels_of v)) (items_levels vs)

  pub fields_levels : Fields → ℕ
  fields_levels end = 0
  fields_levels (field k v fs) = max (suc (levels_of v)) (fields_levels fs)

abbrev mutual
  pub has_distinct_keys : Value → Bool
  has_distinct_keys (array vs) = items_distinct vs
  has_distinct_keys (object fs) = fields_distinct fs []
  has_distinct_keys _ = true

  pub items_distinct : Items → Bool
  items_distinct nil = true
  items_distinct (cons v vs) = has_distinct_keys v && items_distinct vs

  pub fields_distinct : Fields → List String → Bool
  fields_distinct end seen = true
  fields_distinct (field (name k) v fs) seen =
      not (contains k seen) && has_distinct_keys v && fields_distinct fs (k ∷ seen)
  fields_distinct (field not_text v fs) seen = has_distinct_keys v && fields_distinct fs seen

one :
    (b : Bool) (v : Value)
    → has_distinct_keys v ≡ true
    → has_distinct_keys (if b then text redacted_text else v) ≡ true
one true v h = refl
one false v h = h

both : (a b : Bool) → a ≡ true → b ≡ true → (a && b) ≡ true
both a b h i = ground (arith, h, i)

all_three : (a b c : Bool) → a ≡ false → b ≡ true → c ≡ true → (not a && b && c) ≡ true
all_three a b c h i j = ground (arith, h, i, j)

-- Every mapping of a redacted value has distinct keys.
module _ (casefold redacted : String → String) (limits : RedactionLimits) where
  mutual
    unfolding transform

    pub transform-distinct :
        (v : Value) → has_distinct_keys (transform casefold redacted limits v) ≡ true
    transform-distinct (text s) = refl
    transform-distinct (array vs) = transform_items-distinct vs
    transform-distinct (object fs) = transform_fields-distinct fs []
    transform-distinct null = refl
    transform-distinct (boolean x) = refl
    transform-distinct (integer n) = refl
    transform-distinct (floating x) = refl
    transform-distinct not_finite = refl
    transform-distinct opaque = refl

    transform_items-distinct :
        (vs : Items) → items_distinct (transform_items casefold redacted limits vs) ≡ true
    transform_items-distinct nil = refl
    transform_items-distinct (cons v vs) =
        both _ _ (transform-distinct v) (transform_items-distinct vs)

    transform_fields-distinct :
        (fs : Fields) (output : List String)
        → fields_distinct (transform_fields casefold redacted limits fs output) output ≡ true
    transform_fields-distinct end output = refl
    transform_fields-distinct (field (name k) v fs) output =
        let candidate = output_key (redacted k) output in
        let hidden : has_distinct_keys (
              if is_secret_key casefold redacted limits k
              then text redacted_text
              else transform casefold redacted limits v)
            ≡ true =
          one (is_secret_key casefold redacted limits k) (transform casefold redacted limits v)
            (transform-distinct v) in
        all_three (contains candidate output) _ _ (output_key-new (redacted k) output) hidden
          (transform_fields-distinct fs (candidate ∷ output))
    transform_fields-distinct (field not_text v fs) output =
        both _ _ (transform-distinct v) (transform_fields-distinct fs output)
