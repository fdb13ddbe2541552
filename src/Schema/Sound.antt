-- ===== src/Schema/Sound.antt =====
-- Bounds that are wider, and the numbers and sizes that they accept.
use tesserix_mcp_runtime.Base.{
  Bool, true, false, ◌&&◌, String, Option, none, some, ℤ, pos, negsuc, if◌then◌else◌, ◌≡◌, refl,
  arith,
}
use tesserix_mcp_runtime.Json.{Fields}
use tesserix_mcp_runtime.Schema.{
  field_of, numeric, lt, le, Bound, greatest, least, lower_bound, upper_bound, lower_is_wider,
  upper_is_wider, is_at_most, is_at_least, minimum_is_wider, maximum_is_wider,
}

-- what the keywords say of a number, each alone
abbrev pub meets : (ℤ → ℤ → Bool) → Option ℤ → ℤ → Bool
meets test none x = true
meets test (some limit) x = test limit x

-- `minimum`, `exclusiveMinimum`, `maximum` and `exclusiveMaximum` of a schema, for a number
abbrev pub in_range : Fields → ℤ → Bool
in_range schema x =
    (meets le (numeric (field_of "minimum" schema)) x
      && meets lt (numeric (field_of "exclusiveMinimum" schema)) x)
    && (meets (λ limit y. le y limit) (numeric (field_of "maximum" schema)) x
        && meets (λ limit y. lt y limit) (numeric (field_of "exclusiveMaximum" schema)) x)

-- the keywords `least_key` and `greatest_key`, for a size
abbrev pub in_size : String → String → Fields → ℤ → Bool
in_size least_key greatest_key schema n =
    meets le (numeric (field_of least_key schema)) n
    && meets (λ limit m. le m limit) (numeric (field_of greatest_key schema)) n

abbrev above : Option Bound → ℤ → Bool
above none x = true
above (some b) x = if b.inclusive then le b.value x else lt b.value x

abbrev below : Option Bound → ℤ → Bool
below none x = true
below (some b) x = if b.inclusive then le x b.value else lt x b.value

lt_trans : (a b c : ℤ) → lt a b ≡ true → lt b c ≡ true → lt a c ≡ true
lt_trans (pos a) (pos b) (pos c) h k = ground arith
lt_trans (pos a) (pos b) (negsuc c) h k = ground arith
lt_trans (pos a) (negsuc b) c h k = ground arith
lt_trans (negsuc a) (pos b) (pos c) h k = refl
lt_trans (negsuc a) (pos b) (negsuc c) h k = ground arith
lt_trans (negsuc a) (negsuc b) (pos c) h k = refl
lt_trans (negsuc a) (negsuc b) (negsuc c) h k = ground arith

-- `a <= b < c` and `a < b <= c`
le_lt : (a b c : ℤ) → lt b a ≡ false → lt b c ≡ true → lt a c ≡ true
le_lt (pos a) (pos b) (pos c) h k = ground arith
le_lt (pos a) (pos b) (negsuc c) h k = ground arith
le_lt (pos a) (negsuc b) c h k = ground arith
le_lt (negsuc a) (pos b) (pos c) h k = refl
le_lt (negsuc a) (pos b) (negsuc c) h k = ground arith
le_lt (negsuc a) (negsuc b) (pos c) h k = refl
le_lt (negsuc a) (negsuc b) (negsuc c) h k = ground arith

lt_le : (a b c : ℤ) → lt a b ≡ true → lt c b ≡ false → lt a c ≡ true
lt_le (pos a) (pos b) (pos c) h k = ground arith
lt_le (pos a) (pos b) (negsuc c) h k = ground arith
lt_le (pos a) (negsuc b) c h k = ground arith
lt_le (negsuc a) b (pos c) h k = refl
lt_le (negsuc a) (pos b) (negsuc c) h k = ground arith
lt_le (negsuc a) (negsuc b) (negsuc c) h k = ground arith

asym : (a b : ℤ) → lt a b ≡ true → lt b a ≡ false
asym (pos a) (pos b) h = ground arith
asym (pos a) (negsuc b) h = ground arith
asym (negsuc a) (pos b) h = refl
asym (negsuc a) (negsuc b) h = ground arith

-- `a <= b <= c`
le_le : (a b c : ℤ) → lt b a ≡ false → lt c b ≡ false → lt c a ≡ false
le_le (pos a) (pos b) (pos c) h k = ground arith
le_le (pos a) (pos b) (negsuc c) h k = ground arith
le_le (pos a) (negsuc b) c h k = ground arith
le_le (negsuc a) b (pos c) h k = refl
le_le (negsuc a) (pos b) (negsuc c) h k = ground arith
le_le (negsuc a) (negsuc b) (negsuc c) h k = ground arith

is_at_most-meets :
    (c b : Option ℤ) (n : ℤ) → is_at_most c b ≡ true → meets le b n ≡ true → meets le c n ≡ true
unfolding is_at_most
is_at_most-meets none b n w h = refl
is_at_most-meets (some c) none n w h = ground arith
is_at_most-meets (some c) (some b) n w h = ground (arith, le_le c b n)

is_at_least-meets :
    (c b : Option ℤ) (n : ℤ)
    → is_at_least c b ≡ true
    → meets (λ limit m. le m limit) b n ≡ true
    → meets (λ limit m. le m limit) c n ≡ true
unfolding is_at_least
is_at_least-meets none b n w h = refl
is_at_least-meets (some c) none n w h = ground arith
is_at_least-meets (some c) (some b) n w h = ground (arith, le_le n b c)

greatest-above : (a b : Option ℤ) (x : ℤ) → above (greatest a b) x ≡ (meets le a x && meets lt b x)
unfolding greatest
greatest-above none none x = refl
greatest-above (some a) none x = ground arith
greatest-above none (some b) x = refl
greatest-above (some a) (some b) x =
    ground (arith, lt_le b a x, le_lt a b x, asym a b, asym b x, lt_trans b x a)

least-below :
    (a b : Option ℤ) (x : ℤ)
    → below (least a b) x ≡ (meets (λ limit y. le y limit) a x && meets (λ limit y. lt y limit) b x)
unfolding least
least-below none none x = refl
least-below (some a) none x = ground arith
least-below none (some b) x = refl
least-below (some a) (some b) x = ground (arith, le_lt x a b, lt_le x b a, asym x b, lt_trans a x b)

lower_is_wider-above :
    (c b : Option Bound) (x : ℤ) → lower_is_wider c b ≡ true → above b x ≡ true → above c x ≡ true
unfolding lower_is_wider
lower_is_wider-above none b x w h = refl
lower_is_wider-above (some c) none x w h = ground arith
lower_is_wider-above (some c) (some b) x w h = ground (
  arith,
  lt_le c.value b.value x,
  lt_trans c.value b.value x,
  le_lt c.value b.value x,
  le_le c.value b.value x,
  asym c.value x,
)

upper_is_wider-below :
    (c b : Option Bound) (x : ℤ) → upper_is_wider c b ≡ true → below b x ≡ true → below c x ≡ true
unfolding upper_is_wider
upper_is_wider-below none b x w h = refl
upper_is_wider-below (some c) none x w h = ground arith
upper_is_wider-below (some c) (some b) x w h = ground (
  arith,
  le_lt x b.value c.value,
  lt_trans x b.value c.value,
  lt_le x b.value c.value,
  le_le x b.value c.value,
  asym x c.value,
)

-- When the lower and the upper bound of a candidate are found wider than those of a baseline, every
-- number that the four range keywords of the baseline accept is accepted by those of the candidate.
pub is_wider-in_range :
    (candidate baseline : Fields)
    → lower_is_wider (lower_bound candidate) (lower_bound baseline) ≡ true
    → upper_is_wider (upper_bound candidate) (upper_bound baseline) ≡ true
    → (x : ℤ) → in_range baseline x ≡ true
    → in_range candidate x ≡ true
unfolding lower_bound upper_bound
is_wider-in_range candidate baseline lower upper x h =
    let low = lower_is_wider-above (lower_bound candidate) (lower_bound baseline) x lower in
    let high = upper_is_wider-below (upper_bound candidate) (upper_bound baseline) x upper in
    ground (
      arith,
      low,
      high,
      greatest-above (numeric (field_of "minimum" candidate))
          (numeric (field_of "exclusiveMinimum" candidate)) x,
      greatest-above (numeric (field_of "minimum" baseline))
          (numeric (field_of "exclusiveMinimum" baseline)) x,
      least-below (numeric (field_of "maximum" candidate))
          (numeric (field_of "exclusiveMaximum" candidate)) x,
      least-below (numeric (field_of "maximum" baseline))
          (numeric (field_of "exclusiveMaximum" baseline)) x,
    )

-- When the size keywords of a candidate are found wider than those of a baseline, for any pair of
-- keywords, every size that the baseline's accept is accepted by the candidate's.
pub is_wider-in_size :
    (least_key greatest_key : String) (candidate baseline : Fields)
    → minimum_is_wider candidate baseline least_key ≡ true
    → maximum_is_wider candidate baseline greatest_key ≡ true
    → (n : ℤ) → in_size least_key greatest_key baseline n ≡ true
    → in_size least_key greatest_key candidate n ≡ true
unfolding minimum_is_wider maximum_is_wider
is_wider-in_size least_key greatest_key candidate baseline lower upper n h = ground (
  arith,
  h,
  is_at_most-meets (numeric (field_of least_key candidate)) (numeric (field_of least_key baseline))
      n,
  is_at_least-meets (numeric (field_of greatest_key candidate))
      (numeric (field_of greatest_key baseline)) n,
)
