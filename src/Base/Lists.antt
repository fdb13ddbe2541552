-- ===== src/Base/Lists.antt =====
-- Lists measured by native numbers, and membership tests on lists of texts.
use Prim.Native.Nat.{ℕ, suc, ◌+◌}
use Prim.Native.String.{String}
use mathlib.Core.Path.{◌≡◌}
use mathlib.Core.Bool.{Bool, true, false, ◌&&◌, ◌||◌, not}
use mathlib.Core.List.{List, [], ◌∷◌, ◌++◌}
use native.Mathlib.Omega.{arith}
use text.Mathlib.Text.{◌==◌}
use text.Mathlib.TextEquality.{eq_iff}
use tesserix_mcp_runtime.Base.Tests.{&&-true}

module _ {ℓ} {A : Type ℓ} where
  abbrev pub length : List A → ℕ
  length [] = 0
  length (x ∷ xs) = suc (length xs)

  pub length-append : (xs ys : List A) → length (xs ++ ys) ≡ length xs + length ys
  length-append [] ys = omega arith
  length-append (x ∷ xs) ys = omega (arith, length-append xs ys)

  abbrev pub All {κ} : (A → Type κ) → List A → Type κ
  All P [] = Unit
  All P (x ∷ xs) = P x × All P xs

  -- `all(test(x) for x in xs)` and `any(test(x) for x in xs)`
  abbrev pub all : (A → Bool) → List A → Bool
  all test [] = true
  all test (x ∷ xs) = test x && all test xs

  abbrev pub any : (A → Bool) → List A → Bool
  any test [] = false
  any test (x ∷ xs) = test x || any test xs

  pub all-All : (test : A → Bool) (xs : List A) → all test xs ≡ true → All (λ x. test x ≡ true) xs
  all-All test [] h = tt
  all-All test (x ∷ xs) h =
      let both = &&-true (test x) (all test xs) h in (both.0, all-All test xs both.1)

-- `value in values`
unfoldable pub contains : String → List String → Bool
contains value [] = false
contains value (x ∷ xs) = (x == value) || contains value xs

-- `set(a) <= set(b)`
unfoldable pub is_subset : List String → List String → Bool
is_subset [] ys = true
is_subset (x ∷ xs) ys = contains x ys && is_subset xs ys

-- `len(set(values)) == len(values)`
unfoldable pub is_unique : List String → Bool
is_unique [] = true
is_unique (x ∷ xs) = not (contains x xs) && is_unique xs

pub is_subset-contains :
    (value : String) (xs ys : List String)
    → is_subset xs ys ≡ true
    → contains value xs ≡ true
    → contains value ys ≡ true
unfolding is_subset contains
is_subset-contains value [] ys h m = ground arith
is_subset-contains value (x ∷ xs) ys h m =
    ground (arith, eq_iff x value, is_subset-contains value xs ys)

-- a property of all that a list of texts contains
pub contains-All {ℓ} :
    (P : String → Type ℓ) (xs : List String)
    → ((x : String) → contains x xs ≡ true → P x)
    → All P xs
unfolding contains
contains-All P [] h = tt
contains-All P (x ∷ xs) h =
    (h x (ground (arith, eq_iff x x)), contains-All P xs (λ y m. h y (ground (arith, m))))
