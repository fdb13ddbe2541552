-- ===== src/Observability/Series.antt =====
-- A `dict` with keys that are not texts, in insertion order.
use tesserix_mcp_runtime.Base.{
  suc, Bool, Option, none, some, List, [], ◌∷◌, length, is_some, if◌then◌else◌, ◌≡◌, arith,
}

module _ {ℓ κ} {K : Type ℓ} {V : Type κ} (same : K → K → Bool) where
  unfoldable pub find : List (K × V) → K → Option V
  find [] asked = none
  find (entry ∷ rest) asked = if same entry.0 asked then some entry.1 else find rest asked

  unfoldable pub store : List (K × V) → K → V → List (K × V)
  store [] changed value = (changed, value) ∷ []
  store (entry ∷ rest) changed value =
      if same entry.0 changed then (entry.0, value) ∷ rest else entry ∷ store rest changed value

  pub length-store :
      (m : List (K × V)) (changed : K) (value : V)
      → length (store m changed value)
        ≡ (if is_some (find m changed) then length m else suc (length m))
  unfolding find store
  length-store [] changed value = omega arith
  length-store (entry ∷ rest) changed value = ground (arith, length-store rest changed value)
