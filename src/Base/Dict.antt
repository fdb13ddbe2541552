-- ===== src/Base/Dict.antt =====
-- Python's `dict` with text keys, in insertion order. Clients use the laws `dict_laws`.
use Prim.Native.String.{String}
use mathlib.Core.Path.{◌≡◌, refl}
use mathlib.Core.Option.{Option, none, some}
use mathlib.Core.List.{List, [], ◌∷◌}
use native.Mathlib.Omega.{arith}
use text.Mathlib.Text.{◌==◌}
use text.Mathlib.TextEquality.{eq_iff}
use tesserix_mcp_runtime.Base.Tests.{if◌then◌else◌}

pub record Dict {ℓ} (V : Type ℓ) : Type ℓ where
  pub entries : List (String × V)

module _ {ℓ} {V : Type ℓ} where
  unfoldable pub lookup : List (String × V) → String → Option V
  lookup [] asked = none
  lookup (entry ∷ rest) asked = if entry.0 == asked then some entry.1 else lookup rest asked

  -- a known key keeps its place, a new one goes to the end
  unfoldable pub insert : List (String × V) → String → V → List (String × V)
  insert [] changed value = (changed, value) ∷ []
  insert (entry ∷ rest) changed value =
      if entry.0 == changed then (entry.0, value) ∷ rest else entry ∷ insert rest changed value

  unfoldable pub without : List (String × V) → String → List (String × V)
  without [] gone = []
  without (entry ∷ rest) gone =
      if entry.0 == gone then without rest gone else entry ∷ without rest gone

  unfoldable pub empty : Dict V
  empty = record { entries = [] }

  -- d.get(key)
  unfoldable pub get : Dict V → String → Option V
  unfolding lookup
  get d asked = lookup d.entries asked

  -- d[key] = value
  unfoldable pub put : Dict V → String → V → Dict V
  unfolding insert
  put d changed value = record { entries = insert d.entries changed value }

  -- del d[key]
  unfoldable pub remove : Dict V → String → Dict V
  unfolding without
  remove d gone = record { entries = without d.entries gone }

  lookup-insert :
      (m : List (String × V)) (changed asked : String) (value : V)
      → lookup (insert m changed value) asked
        ≡ (if changed == asked then some value else lookup m asked)
  unfolding lookup insert
  lookup-insert [] changed asked value = refl
  lookup-insert (entry ∷ rest) changed asked value = ground (
    arith,
    lookup-insert rest changed asked value,
    eq_iff entry.0 asked,
    eq_iff changed asked,
    eq_iff entry.0 changed,
  )

  lookup-without :
      (m : List (String × V)) (gone asked : String)
      → lookup (without m gone) asked ≡ (if gone == asked then none else lookup m asked)
  unfolding lookup without
  lookup-without [] gone asked = ground arith
  lookup-without (entry ∷ rest) gone asked = ground (
    arith,
    lookup-without rest gone asked,
    eq_iff entry.0 asked,
    eq_iff gone asked,
    eq_iff entry.0 gone,
  )

  pub get-put :
      (m : Dict V) (changed asked : String) (value : V)
      → get (put m changed value) asked ≡ (if changed == asked then some value else get m asked)
  unfolding get put
  get-put m changed asked value = lookup-insert m.entries changed asked value

  pub get-remove :
      (m : Dict V) (gone asked : String)
      → get (remove m gone) asked ≡ (if gone == asked then none else get m asked)
  unfolding get remove
  get-remove m gone asked = lookup-without m.entries gone asked

pub get-empty {ℓ} : {V : Type ℓ} (asked : String) → get (empty {V = V}) asked ≡ none
unfolding empty get lookup
get-empty asked = refl

pub ruleset dict_laws = (get-put, get-remove, get-empty)
