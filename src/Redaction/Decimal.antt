-- ===== src/Redaction/Decimal.antt =====
-- `f"{key}#{suffix}"`: the decimal numeral of a number.
use Prim.Native.Char.{Char, char, code}
use Prim.Native.String.{◌++◌ as str_append, [] as nil_text, ◌∷◌ as push}
use Prim.Native.String.append
use tesserix_mcp_runtime.Base.{
  ℕ, zero, suc, ◌+◌, ◌-◌, ◌*◌, ◌/◌, ◌%◌, ◌≤◌, ◌<◌, Bool, true, false, String, ltb, ◌≡◌, refl, arith,
  ap, ◌∙◌, sym,
}

-- the character of a digit
unfoldable digit : ℕ → Char
digit zero = char 48 tt
digit (suc zero) = char 49 tt
digit (suc (suc zero)) = char 50 tt
digit (suc (suc (suc zero))) = char 51 tt
digit (suc (suc (suc (suc zero)))) = char 52 tt
digit (suc (suc (suc (suc (suc zero))))) = char 53 tt
digit (suc (suc (suc (suc (suc (suc zero)))))) = char 54 tt
digit (suc (suc (suc (suc (suc (suc (suc zero))))))) = char 55 tt
digit (suc (suc (suc (suc (suc (suc (suc (suc zero)))))))) = char 56 tt
digit (suc (suc (suc (suc (suc (suc (suc (suc (suc n))))))))) = char 57 tt

-- the digits of a number before a text; the number itself is enough fuel
unfoldable pub numeral : ℕ → ℕ → String → String
unfolding digit
numeral zero n s = push (digit n) s
numeral (suc fuel) n s = elim (ltb n 10) [
  | true ↦ push (digit n) s
  | false ↦ numeral fuel (n / 10) (push (digit (n % 10)) s)
]

unfoldable pub tagged : String → ℕ → String
unfolding numeral
tagged key suffix = str_append key (push (char 35 tt) (numeral suffix suffix nil_text))

-- the number that a numeral denotes, after the digits of another
abbrev read : ℕ → String → ℕ
read n nil_text = n
read n (push c s) = read (n * 10 + (code c - 48)) s

digit-code : (n : ℕ) → n < 10 → code (digit n) ≡ 48 + n
unfolding digit
digit-code zero h = omega arith
digit-code (suc zero) h = omega arith
digit-code (suc (suc zero)) h = omega arith
digit-code (suc (suc (suc zero))) h = omega arith
digit-code (suc (suc (suc (suc zero)))) h = omega arith
digit-code (suc (suc (suc (suc (suc zero))))) h = omega arith
digit-code (suc (suc (suc (suc (suc (suc zero)))))) h = omega arith
digit-code (suc (suc (suc (suc (suc (suc (suc zero))))))) h = omega arith
digit-code (suc (suc (suc (suc (suc (suc (suc (suc zero)))))))) h = omega arith
digit-code (suc (suc (suc (suc (suc (suc (suc (suc (suc n))))))))) h = omega (arith, h)

-- what a numeral's text denotes is its number, before any further digits
read-numeral : (f n : ℕ) (s : String) → n ≤ f → read 0 (numeral f n s) ≡ read n s
unfolding numeral
read-numeral zero n s h = ap (λ k. read k s) (omega (arith, h, digit-code n (omega (arith, h))))
read-numeral (suc f) n s h =
    split (ltb n 10) refl (read-numeral f (n / 10) (push (digit (n % 10)) s))
  where
    split :
        (b : Bool)
        → ltb n 10 ≡ b
        → (n / 10 ≤ f
            → read 0 (numeral f (n / 10) (push (digit (n % 10)) s))
              ≡ read (n / 10) (push (digit (n % 10)) s))
        → read 0 (elim b [
          | true ↦ push (digit n) s
          | false ↦ numeral f (n / 10) (push (digit (n % 10)) s)
        ])
          ≡ read n s
    split true small shorter =
        let below : n < 10 = ground (arith, small) in
        ap (λ k. read k s) (omega (arith, digit-code n below))
    split false large shorter =
        let rest : n / 10 ≤ f = ground (arith, h, large) in
        let last : n % 10 < 10 = omega arith in
        shorter rest ∙ ap (λ k. read k s) (omega (arith, digit-code (n % 10) last))

-- the suffix of a tagged key
abbrev suffix_of : String → String → ℕ
suffix_of nil_text nil_text = 0
suffix_of nil_text (push c s) = read 0 s
suffix_of (push c k) nil_text = 0
suffix_of (push c k) (push d s) = suffix_of k s

suffix_of-tagged : (key : String) (n : ℕ) → suffix_of key (tagged key n) ≡ n
unfolding tagged
suffix_of-tagged nil_text n =
    let e : tagged nil_text n ≡ push (char 35 tt) (numeral n n nil_text) =
      λ i. append.nil (push (char 35 tt) (numeral n n nil_text)) i in
    ap (suffix_of nil_text) e ∙ read-numeral n n nil_text (omega arith)
suffix_of-tagged (push c k) n =
    let e : tagged (push c k) n ≡ push c (tagged k n) =
      λ i. append.cons c k (push (char 35 tt) (numeral n n nil_text)) i in
    ap (suffix_of (push c k)) e ∙ suffix_of-tagged k n

-- different suffixes give different keys
pub tagged-injective : (key : String) (m n : ℕ) → tagged key m ≡ tagged key n → m ≡ n
tagged-injective key m n h =
    sym (suffix_of-tagged key m) ∙ ap (suffix_of key) h ∙ suffix_of-tagged key n
