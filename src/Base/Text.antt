-- ===== src/Base/Text.antt =====
-- Text as the program's validators read it: by code points.
use Prim.Native.Char.{code}
use Prim.Native.Nat.{ℕ}
use Prim.Native.String.{String}
use mathlib.Core.Bool.{Bool, false, ◌&&◌, ◌||◌, not}
use mathlib.Core.List.{List, [], ◌∷◌}
use tesserix_mcp_runtime.Base.Tests.{leb, ◌==◌}
use tesserix_mcp_runtime.Base.Lists.{length, all}

abbrev pub codes : String → List ℕ
codes String.[] = []
codes (String.◌∷◌ c s) = code c ∷ codes s

-- the characters that `str.strip` removes
unfoldable pub is_space : ℕ → Bool
is_space c =
    (leb 9 c && leb c 13)
    || (leb 28 c && leb c 32)
    || c == 133
    || c == 160
    || c == 5760
    || (leb 8192 c && leb c 8202)
    || c == 8232
    || c == 8233
    || c == 8239
    || c == 8287
    || c == 12288

abbrev ends_in_space : List ℕ → Bool
ends_in_space [] = false
ends_in_space (c ∷ []) = is_space c
ends_in_space (c ∷ d ∷ s) = ends_in_space (d ∷ s)

abbrev starts_in_space : List ℕ → Bool
starts_in_space [] = false
starts_in_space (c ∷ s) = is_space c

-- `value == value.strip()`
unfoldable pub is_stripped : List ℕ → Bool
unfolding is_space
is_stripped s = not (starts_in_space s) && not (ends_in_space s)

abbrev pub is_digit : ℕ → Bool
is_digit c = leb b'0' c && leb c b'9'

abbrev pub is_lower : ℕ → Bool
is_lower c = leb b'a' c && leb c b'z'

abbrev pub is_upper : ℕ → Bool
is_upper c = leb b'A' c && leb c b'Z'

abbrev pub is_letter : ℕ → Bool
is_letter c = is_lower c || is_upper c

-- `re.compile(r"[first][rest]{0,most}\Z").fullmatch(value)`
unfoldable pub matches : (ℕ → Bool) → (ℕ → Bool) → ℕ → List ℕ → Bool
matches first rest most [] = false
matches first rest most (c ∷ s) = first c && all rest s && leb (length s) most
