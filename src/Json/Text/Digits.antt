-- ===== src/Json/Text/Digits.antt =====
-- `decimal_digits` against the powers of ten.
use tesserix_mcp_runtime.Base.{
  ℕ, zero, suc, ◌*◌, ◌-◌, ◌/◌, ◌^◌, ◌≤◌, ◌<◌, ltb, ◌≡◌, arith, Bool-cases, inl, inr, ap, ◌∙◌,
}
use tesserix_mcp_runtime.Json.Text.{decimal_digits}

power_suc : (k : ℕ) → 10 ^ suc k ≡ 10 * 10 ^ k
power_suc k = omega arith

-- With a number at least as large as fuel, the digits that are counted are those of the decimal
-- numeral: the number is below ten to that many, and not below ten to one less, unless it is 0.
pub decimal_digits-range :
    (f n : ℕ)
    → n ≤ f
    → (1 ≤ decimal_digits f n)
      × (n < 10 ^ decimal_digits f n)
      × (1 ≤ n → 10 ^ (decimal_digits f n - 1) ≤ n)
unfolding decimal_digits
decimal_digits-range zero n h = (omega arith, omega arith, λ k. omega arith)
decimal_digits-range (suc f) n h = elim (Bool-cases (ltb n 10)) [
  | inl small ↦ rw small (omega arith, ground (arith, small), λ k. omega arith)
  | inr large ↦
      let (one, below, above) = decimal_digits-range f (n / 10) (ground (arith, large)) in
      let digits = decimal_digits f (n / 10) in
      let shorter : 10 ^ digits ≡ 10 * 10 ^ (digits - 1) =
        (let e : digits ≡ suc (digits - 1) = omega (arith, one) in ap (λ k. 10 ^ k) e)
        ∙ power_suc (digits - 1) in
      let tens : 1 ≤ n / 10 = ground (arith, large) in
      let last : 10 ^ (suc digits - 1) ≤ n =
        (let e : suc digits - 1 ≡ digits = omega arith in
          rw e (omega (arith, above tens, shorter))) in
      rw large (omega (arith, one), omega (arith, below, power_suc digits), (λ k. last))
]
