-- ===== src/Base/Sets.antt =====
-- Sets of texts, as the program builds them from sequences: sorted, and taken from each other.
use mathlib.Core.Path.{◌≡◌, refl}
use mathlib.Core.Bool.{◌&&◌, ◌||◌, not}
use mathlib.Core.List.{List, [], ◌∷◌}
use native.Mathlib.Omega.{arith}
use Prim.Native.String.{String, compare}
use text.Mathlib.Text.{is_le, ◌==◌}
use text.Mathlib.TextEquality.{eq_iff}
use tesserix_mcp_runtime.Base.Tests.{if◌then◌else◌}
use tesserix_mcp_runtime.Base.Lists.{contains}

-- `sorted(texts)`
unfoldable pub insert_sorted : String → List String → List String
insert_sorted s [] = s ∷ []
insert_sorted s (t ∷ ts) = if is_le (compare s t) then s ∷ t ∷ ts else t ∷ insert_sorted s ts

unfoldable pub sorted : List String → List String
unfolding insert_sorted
sorted [] = []
sorted (s ∷ ss) = insert_sorted s (sorted ss)

-- the texts of a set, each once: the last of equal ones
unfoldable pub distinct : List String → List String
distinct [] = []
distinct (s ∷ ss) = if contains s ss then distinct ss else s ∷ distinct ss

-- `a - b` and `a & b` for sets
unfoldable pub without_all : List String → List String → List String
without_all [] b = []
without_all (s ∷ ss) b = if contains s b then without_all ss b else s ∷ without_all ss b

unfoldable pub within_all : List String → List String → List String
within_all [] b = []
within_all (s ∷ ss) b = if contains s b then s ∷ within_all ss b else within_all ss b

contains-insert_sorted :
    (x s : String) (ts : List String) → contains x (insert_sorted s ts) ≡ (s == x) || contains x ts
unfolding insert_sorted contains
contains-insert_sorted x s [] = refl
contains-insert_sorted x s (t ∷ ts) = ground (arith, contains-insert_sorted x s ts)

pub contains-sorted : (x : String) (ts : List String) → contains x (sorted ts) ≡ contains x ts
unfolding sorted contains
contains-sorted x [] = refl
contains-sorted x (t ∷ ts) =
    ground (arith, contains-insert_sorted x t (sorted ts), contains-sorted x ts)

pub contains-distinct : (x : String) (ts : List String) → contains x (distinct ts) ≡ contains x ts
unfolding distinct contains
contains-distinct x [] = refl
contains-distinct x (t ∷ ts) = ground (arith, contains-distinct x ts, eq_iff t x)

pub contains-without_all :
    (x : String) (ts b : List String)
    → contains x (without_all ts b) ≡ contains x ts && not (contains x b)
unfolding without_all contains
contains-without_all x [] b = refl
contains-without_all x (t ∷ ts) b = ground (arith, contains-without_all x ts b, eq_iff t x)

pub contains-within_all :
    (x : String) (ts b : List String) → contains x (within_all ts b) ≡ contains x ts && contains x b
unfolding within_all contains
contains-within_all x [] b = refl
contains-within_all x (t ∷ ts) b = ground (arith, contains-within_all x ts b, eq_iff t x)
