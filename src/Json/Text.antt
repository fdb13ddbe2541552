-- ===== src/Json/Text.antt =====
-- How many bytes `json.dumps(value, ensure_ascii=False, separators=(",", ":")).encode("utf-8")` has.
-- Sorting the keys does not change it. The decimal text of a float, which is the interpreter's, is a
-- parameter; an `int` of more than 4300 digits cannot be written and raises ValueError.
pub mod Digits
use tesserix_mcp_runtime.Base.{
  ℕ, zero, suc, ◌+◌, ◌/◌, Bool, true, false, ◌&&◌, ◌||◌, List, [], ◌∷◌, leb, ltb, ◌==◌, ℤ, pos,
  negsuc, if◌then◌else◌,
}
use tesserix_mcp_runtime.Base.Text.{codes}
use tesserix_mcp_runtime.Json.{
  Key, name, not_text, Value, null, boolean, integer, floating, not_finite, text, array, object,
  opaque, Items, nil, cons, Fields, end, field,
}

-- the UTF-8 bytes of a character, and of a text
abbrev pub utf8_char : ℕ → ℕ
utf8_char c = if ltb c 128 then 1 else if ltb c 2048 then 2 else if ltb c 65536 then 3 else 4

unfoldable pub utf8_length : List ℕ → ℕ
utf8_length [] = 0
utf8_length (c ∷ s) = utf8_char c + utf8_length s

-- the bytes of a character inside a JSON string
abbrev escaped_char : ℕ → ℕ
escaped_char c =
    if c == 34 || c == 92 || c == 8 || c == 9 || c == 10 || c == 12 || c == 13
    then 2
    else if ltb c 32
    then 6
    else utf8_char c

unfoldable pub escaped_length : List ℕ → ℕ
escaped_length [] = 0
escaped_length (c ∷ s) = escaped_char c + escaped_length s

-- decimal digits, by divisions; a number is more than enough fuel for its own digits
unfoldable pub decimal_digits : ℕ → ℕ → ℕ
decimal_digits zero n = 1
decimal_digits (suc fuel) n =
    let rest = decimal_digits fuel (n / 10) in if ltb n 10 then 1 else suc rest

unfoldable pub integer_digits : ℤ → ℕ
unfolding decimal_digits
integer_digits (pos n) = decimal_digits n n
integer_digits (negsuc n) = decimal_digits (suc n) (suc n)

abbrev sign_length : ℤ → ℕ
sign_length (pos n) = 0
sign_length (negsuc n) = 1

-- a key in quotes
unfoldable pub key_length : Key → ℕ
unfolding escaped_length
key_length (name s) = 2 + escaped_length (codes s)
key_length not_text = 0

module _ (float_length : ℤ → ℕ) where
  unfoldable mutual
    unfolding integer_digits escaped_length key_length

    pub json_length : Value → ℕ
    json_length null = 4
    json_length (boolean b) = if b then 4 else 5
    json_length (integer n) = sign_length n + integer_digits n
    json_length (floating x) = float_length x
    json_length not_finite = 0
    json_length (text s) = 2 + escaped_length (codes s)
    json_length (array vs) = 2 + items_length vs
    json_length (object fs) = 2 + fields_length fs
    json_length opaque = 0

    pub items_length : Items → ℕ
    items_length nil = 0
    items_length (cons v nil) = json_length v
    items_length (cons v (cons w vs)) = json_length v + 1 + items_length (cons w vs)

    pub fields_length : Fields → ℕ
    fields_length end = 0
    fields_length (field k v end) = key_length k + 1 + json_length v
    fields_length (field k v (field l w fs)) =
        key_length k + 1 + json_length v + 1 + fields_length (field l w fs)

-- whether `json.dumps` returns
unfoldable mutual
  unfolding integer_digits

  pub is_writable : Value → Bool
  is_writable (integer n) = leb (integer_digits n) 4300
  is_writable not_finite = false
  is_writable opaque = false
  is_writable (array vs) = are_writable vs
  is_writable (object fs) = fields_writable fs
  is_writable null = true
  is_writable (boolean b) = true
  is_writable (floating x) = true
  is_writable (text s) = true

  pub are_writable : Items → Bool
  are_writable nil = true
  are_writable (cons v vs) = is_writable v && are_writable vs

  pub fields_writable : Fields → Bool
  fields_writable end = true
  fields_writable (field (name s) v fs) = is_writable v && fields_writable fs
  fields_writable (field not_text v fs) = false
