-- ===== src/Execution/Json/Walk.antt =====
-- The loop over `pending`, against a test of the document by recursion.
use tesserix_mcp_runtime.Base.{
  ℤ, ℕ, zero, suc, ◌+◌, ◌≤◌, Bool, true, false, ◌&&◌, none, some, ◌≡◌, ◌≢◌, refl, [], ◌∷◌, leb,
  arith, if◌then◌else◌,
}
use tesserix_mcp_runtime.Contracts.Failure.{ok, err, limit_failure}
use tesserix_mcp_runtime.Json.{
  Value, null, boolean, integer, floating, not_finite, text, array, object, opaque, Items, nil,
  cons, Fields, end, field,
}
use tesserix_mcp_runtime.Json.Text.{json_length, is_writable}
use tesserix_mcp_runtime.Execution.Limits.{ExecutionLimits, max_json_nodes}
use tesserix_mcp_runtime.Execution.Json.{
  Bounds, bounds, passes, Pending, push_items, push_fields, push_children, walk, enough_fuel,
  validate_json_value,
}

-- the number of values in a document, itself included
unfoldable mutual
  pub size : Value → ℕ
  size (array vs) = suc (size_items vs)
  size (object fs) = suc (size_fields fs)
  size null = 1
  size (boolean b) = 1
  size (integer n) = 1
  size (floating x) = 1
  size not_finite = 1
  size (text s) = 1
  size opaque = 1

  pub size_items : Items → ℕ
  size_items nil = 0
  size_items (cons v vs) = size v + size_items vs

  pub size_fields : Fields → ℕ
  size_fields end = 0
  size_fields (field k v fs) = size v + size_fields fs

module _ (b : Bounds) where
  -- every value in the document passes at its depth
  unfoldable mutual
    unfolding passes

    pub fits : Value → ℕ → Bool
    fits (array vs) d = passes b (array vs) d && fits_items vs (d + 1)
    fits (object fs) d = passes b (object fs) d && fits_fields fs (d + 1)
    fits null d = true
    fits (boolean x) d = true
    fits (integer n) d = true
    fits (floating x) d = true
    fits not_finite d = false
    fits (text s) d = true
    fits opaque d = false

    pub fits_items : Items → ℕ → Bool
    fits_items nil d = true
    fits_items (cons v vs) d = fits v d && fits_items vs d

    pub fits_fields : Fields → ℕ → Bool
    fits_fields end d = true
    fits_fields (field k v fs) d = fits v d && fits_fields fs d

  abbrev sizes : Pending → ℕ
  sizes [] = 0
  sizes ((v, d) ∷ p) = size v + sizes p

  abbrev all_fit : Pending → Bool
  all_fit [] = true
  all_fit ((v, d) ∷ p) = fits v d && all_fit p

  sizes-push_items :
      (vs : Items) (d : ℕ) (p : Pending) → sizes (push_items vs d p) ≡ size_items vs + sizes p
  unfolding size
  sizes-push_items nil d p = omega arith
  sizes-push_items (cons v vs) d p = omega (arith, sizes-push_items vs d ((v, d) ∷ p))

  sizes-push_fields :
      (fs : Fields) (d : ℕ) (p : Pending) → sizes (push_fields fs d p) ≡ size_fields fs + sizes p
  unfolding size
  sizes-push_fields end d p = omega arith
  sizes-push_fields (field k v fs) d p = omega (arith, sizes-push_fields fs d ((v, d) ∷ p))

  all_fit-push_items :
      (vs : Items) (d : ℕ) (p : Pending)
      → all_fit (push_items vs d p) ≡ (fits_items vs d && all_fit p)
  unfolding fits
  all_fit-push_items nil d p = refl
  all_fit-push_items (cons v vs) d p = ground (arith, all_fit-push_items vs d ((v, d) ∷ p))

  all_fit-push_fields :
      (fs : Fields) (d : ℕ) (p : Pending)
      → all_fit (push_fields fs d p) ≡ (fits_fields fs d && all_fit p)
  unfolding fits
  all_fit-push_fields end d p = refl
  all_fit-push_fields (field k v fs) d p = ground (arith, all_fit-push_fields fs d ((v, d) ∷ p))

  size_pos : (v : Value) → 1 ≤ size v
  unfolding size
  size_pos (array vs) = omega arith
  size_pos _ = omega arith

  -- one round: the children of a node that passes take its place
  sizes-push_children :
      (v : Value) (d : ℕ) (p : Pending) → sizes (push_children v d p) + 1 ≡ size v + sizes p
  unfolding size push_children
  sizes-push_children (array vs) d p = omega (arith, sizes-push_items vs d p)
  sizes-push_children (object fs) d p = omega (arith, sizes-push_fields fs d p)
  sizes-push_children _ d p = omega arith

  all_fit-push_children :
      (v : Value) (d : ℕ) (p : Pending)
      → (passes b v d && all_fit (push_children v (d + 1) p)) ≡ (fits v d && all_fit p)
  unfolding fits push_children
  all_fit-push_children (array vs) d p = ground (arith, all_fit-push_items vs (d + 1) p)
  all_fit-push_children (object fs) d p = ground (arith, all_fit-push_fields fs (d + 1) p)
  all_fit-push_children _ d p = refl

  walk-fits :
      (fuel nodes : ℕ) (p : Pending)
      → b.nodes + 2 ≤ fuel + nodes
      → nodes ≤ b.nodes
      → walk b fuel nodes p ≡ some (leb (nodes + sizes p) b.nodes && all_fit p)
  unfolding walk
  walk-fits zero nodes p h k = absurd (omega arith)
  walk-fits (suc fuel) nodes [] h k = ground arith
  walk-fits (suc fuel) nodes ((v, d) ∷ p) h k = ground (
    arith,
    size_pos v,
    sizes-push_children v (d + 1) p,
    all_fit-push_children v d p,
    walk-fits fuel (nodes + 1) (push_children v (d + 1) p),
  )

-- The checker never runs out of rounds, and it accepts a value exactly when the value has at most
-- `max_json_nodes` nodes, every node passes its own checks at its depth in the document, and the text
-- of the value can be written in at most the given number of bytes; otherwise it raises
-- ExecutionLimitExceeded.
pub validate_json_value_lem :
    (float_length : ℤ → ℕ) (l : ExecutionLimits) (maximum_bytes : ℕ) (v : Value)
    → (walk (bounds l) (enough_fuel (bounds l)) 0 ((v, 1) ∷ []) ≢ none)
      × (validate_json_value float_length l maximum_bytes v ≡ (
          if leb (size v) (l.integers max_json_nodes)
            && fits (bounds l) v 1
            && is_writable v
            && leb (json_length float_length v) maximum_bytes
          then ok tt
          else err limit_failure))
unfolding validate_json_value
validate_json_value_lem float_length l maximum_bytes v =
    let e =
      walk-fits (bounds l) (enough_fuel (bounds l)) 0 ((v, 1) ∷ []) (omega arith) (omega arith) in
    (ground (arith, e), ground (arith, e))
