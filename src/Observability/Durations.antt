-- ===== src/Observability/Durations.antt =====
-- `_Histogram`: the durations of calls in buckets.
use tesserix_mcp_runtime.Base.{
  ℕ, zero, suc, ◌+◌, ◌-◌, ◌*◌, ◌^◌, ◌/◌, ◌%◌, true, false, ◌&&◌, ◌||◌, Option, none, some, List, [],
  ◌∷◌, leb, ltb, ◌==◌, pos, negsuc, Number, integer, finite, unit, is_huge, if◌then◌else◌,
}
use tesserix_mcp_runtime.Contracts.Failure.{Result, ok, err, ◌>>◌, check, overflow_failure}

-- `_DURATION_BUCKETS` in ticks: each float is a whole number over a power of two
unfoldable pub duration_buckets : List ℕ
duration_buckets =
    5764607523034235 * 2 ^ (1074 - 60)
    ∷ 5764607523034235 * 2 ^ (1074 - 59)
    ∷ 3602879701896397 * 2 ^ (1074 - 57)
    ∷ 3602879701896397 * 2 ^ (1074 - 56)
    ∷ 3602879701896397 * 2 ^ (1074 - 55)
    ∷ 1 * 2 ^ (1074 - 2)
    ∷ 1 * 2 ^ (1074 - 1)
    ∷ 1 * 2 ^ 1074
    ∷ 5 * 2 ^ (1074 - 1)
    ∷ 5 * 2 ^ 1074
    ∷ 10 * 2 ^ 1074
    ∷ 30 * 2 ^ 1074
    ∷ []

pub record Histogram : Type 0 where
  pub count : ℕ
  pub total : ℕ
  pub buckets : List ℕ

abbrev zeros : List ℕ → List ℕ
zeros [] = []
zeros (b ∷ bs) = 0 ∷ zeros bs

unfoldable pub new_histogram : Histogram
new_histogram = record { count = 0; total = 0; buckets = zeros duration_buckets }

-- how often a number is halved until it has 53 bits
unfoldable exponent : ℕ → ℕ → ℕ
exponent zero n = 0
exponent (suc fuel) n = elim (ltb n (2 ^ 53)) [ true ↦ 0 | false ↦ suc (exponent fuel (n / 2)) ]

-- the float nearest to a number of ticks, the even one of two
unfoldable nearest : ℕ → ℕ
nearest n =
    let step = 2 ^ exponent 2098 n in
    let below = n / step in
    let rest = n % step in
    if ltb (2 * rest) step || (2 * rest == step && below % 2 == 0)
    then below * step
    else (below + 1) * step

-- the loop of `observe`
unfoldable pub observe_buckets : ℕ → List ℕ → List ℕ → List ℕ
observe_buckets value [] buckets = buckets
observe_buckets value (b ∷ bs) [] = []
observe_buckets value (b ∷ bs) (n ∷ ns) =
    (if leb value b then suc n else n) ∷ observe_buckets value bs ns

-- `_Histogram.observe`
unfoldable pub observe : ℕ → Histogram → Histogram
unfolding nearest exponent
observe value h = record {
  count = h.count + 1;
  total = nearest (h.total + value);
  buckets = observe_buckets value duration_buckets h.buckets;
}

-- a duration in ticks, if it is finite and from 0 to 3600; `math.isfinite` raises on an integer that
-- no float is near to
unfoldable pub duration : Number → Result ℕ
duration (integer (pos n)) =
    if leb n 3600
    then ok (n * unit)
    else if is_huge (pos n)
    then err overflow_failure
    else check false >> ok 0
duration (integer (negsuc n)) =
    if is_huge (negsuc n) then err overflow_failure else check false >> ok 0
duration (finite (pos n)) = if leb n (3600 * unit) then ok n else check false >> ok 0
duration n = check false >> ok 0

abbrev pub histogram_of : Option Histogram → Histogram
histogram_of none = new_histogram
histogram_of (some h) = h
