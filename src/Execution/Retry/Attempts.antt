-- ===== src/Execution/Retry/Attempts.antt =====
-- How often an operation is tried, when, and what a call of `retry` answers.
use native.Mathlib.Nat.{add-zero}
use tesserix_mcp_runtime.Base.{
  sym, ℕ, zero, suc, ◌+◌, ◌-◌, ◌≤◌, ◌<◌, Bool, true, false, not, ◌||◌, String, List, [], ◌∷◌, ◌≡◌,
  ◌≢◌, refl, ◌⊎◌, inl, inr, arith, length, Bool-cases, ◌==◌,
}
use tesserix_mcp_runtime.Contracts.Failure.{
  Failure, Result, err, timeout_failure, cancelled_failure, Result-cases,
}
use tesserix_mcp_runtime.Execution.Retry.{
  Attempt, Call, is_caught, is_transient, retry_delay, is_late, attempts_of, retry_loop, retry,
}

nil_of_short : (xs : List ℕ) → length xs < 1 → xs ≡ []
nil_of_short [] h = refl
nil_of_short (x ∷ xs) h = absurd (omega arith)

module _ {ℓ} {A : Type ℓ} (sample : String → ℕ → ℕ) (c : Call) (script : ℕ → Attempt A) where
  -- The attempt failed in a way that may pass, and the sleep after it ends before the deadline.
  pub record MayRetry (attempt delay : ℕ) : Type ℓ where
    pub failure : Failure
    pub failed : (script attempt).outcome ≡ err failure
    pub caught : is_caught failure.kind ≡ true
    pub transient : is_transient failure.kind ≡ true
    pub delayed : delay ≡ retry_delay sample c.limits c.request_id attempt
    pub in_time : is_late c.deadline (script attempt).now delay ≡ false

  -- every retry from this attempt on was allowed
  abbrev pub Retried : ℕ → List ℕ → Type ℓ
  Retried attempt [] = Unit
  Retried attempt (d ∷ ds) = MayRetry attempt d × Retried (attempt + 1) ds

  -- the test of the `except` clause that raises the error again
  abbrev gives_up : Failure → ℕ → Bool
  gives_up f attempt =
      not (is_caught f.kind) || not (is_transient f.kind) || attempt == attempts_of c

  abbrev delay_at : ℕ → ℕ
  delay_at attempt = retry_delay sample c.limits c.request_id attempt

  may_retry :
      (attempt : ℕ) (f : Failure)
      → (script attempt).outcome ≡ err f
      → gives_up f attempt ≡ false
      → is_late c.deadline (script attempt).now (delay_at attempt) ≡ false
      → MayRetry attempt (delay_at attempt)
  may_retry attempt f e go early = record {
    failure = f;
    failed = e;
    caught = ground arith;
    transient = ground arith;
    delayed = refl;
    in_time = early;
  }

  retry_loop-Retried :
      (attempt left : ℕ) → Retried attempt (retry_loop sample c script attempt left).1
  unfolding retry_loop
  retry_loop-Retried attempt zero = tt
  retry_loop-Retried attempt (suc left) =
      let ih = retry_loop-Retried (attempt + 1) left in
      elim (Result-cases (script attempt).outcome) [
        | inl (a, e) ↦ rw (e, retry_loop) tt
        | inr (f, e) ↦ elim (Bool-cases (gives_up f attempt)) [
          | inl stop ↦ rw (e, stop, retry_loop) tt
          | inr go ↦
              elim (Bool-cases (is_late c.deadline (script attempt).now (delay_at attempt))) [
                | inl late ↦ rw (e, go, late, retry_loop) tt
                | inr early ↦ elim (Bool-cases (script attempt).cancelled) [
                  | inl gone ↦
                      rw (e, go, early, gone, retry_loop) (may_retry attempt f e go early, tt)
                  | inr stays ↦
                      rw (e, go, early, stays, retry_loop) (may_retry attempt f e go early, ih)
                ]
              ]
        ]
      ]

  -- How a call ends after its last sleep: with the next attempt's own outcome; with TimeoutError, a
  -- further sleep being too long; or with CancelledError, the call being cancelled in that sleep.
  abbrev pub Ends : ℕ → Result A × List ℕ → Type ℓ
  Ends attempt r =
      let last = attempt + length r.1 in
      (r.0 ≡ (script last).outcome)
      ⊎ (((r.0 ≡ err timeout_failure)
            × (is_late c.deadline (script last).now (delay_at last) ≡ true))
          ⊎ ((r.0 ≡ err cancelled_failure) × ((script (last - 1)).cancelled ≡ true)))

  Ends-cons :
      (attempt d : ℕ) (r : Result A) (ds : List ℕ)
      → Ends (attempt + 1) (r, ds)
      → Ends attempt (r, d ∷ ds)
  Ends-cons attempt d r ds h =
      let e : attempt + 1 + length ds ≡ attempt + suc (length ds) = omega arith in rw e at h

  goes_on : (f : Failure) (attempt : ℕ) → gives_up f attempt ≡ false → attempt ≢ attempts_of c
  goes_on f attempt go = ground arith

  retry_loop-Ends :
      (attempt left : ℕ)
      → attempt + left ≡ attempts_of c + 1
      → 0 < left
      → (attempt + length (retry_loop sample c script attempt left).1 ≤ attempts_of c)
        × Ends attempt (retry_loop sample c script attempt left)
  unfolding retry_loop
  retry_loop-Ends attempt zero h p = absurd (omega arith)
  retry_loop-Ends attempt (suc left) h p = elim (Result-cases (script attempt).outcome) [
    | inl (a, e) ↦ rw (e, retry_loop) (omega arith, inl rw (add-zero attempt) (sym e))
    | inr (f, e) ↦ elim (Bool-cases (gives_up f attempt)) [
      | inl stop ↦ rw (e, stop, retry_loop) (omega arith, inl rw (add-zero attempt) (sym e))
      | inr go ↦ elim (Bool-cases (is_late c.deadline (script attempt).now (delay_at attempt))) [
        | inl late ↦
            rw (e, go, late, retry_loop) (omega arith, inr (inl (refl, rw (add-zero attempt) late)))
        | inr early ↦ elim (Bool-cases (script attempt).cancelled) [
          | inl gone ↦
              rw (e, go, early, gone, retry_loop)
                (
                  omega (arith, goes_on f attempt go),
                  inr (
                      inr
                        (refl, let back : attempt + 1 - 1 ≡ attempt = omega arith in rw back gone)),
                )
          | inr stays ↦
              let ih =
                retry_loop-Ends (attempt + 1) left (omega arith)
                  (omega (arith, goes_on f attempt go)) in
              rw (e, go, early, stays, retry_loop)
                (omega (arith, ih.0), Ends-cons attempt (delay_at attempt) _ _ ih.1)
        ]
      ]
    ]
  ]

  once : c.safe ≡ false → attempts_of c ≡ 1
  unfolding attempts_of
  once unsafe = rw unsafe refl

  -- With at least one attempt allowed, `retry` sleeps fewer times than attempts are allowed, and never
  -- if the tool is not safe to retry. Before every sleep the attempt with that number failed
  -- transiently, and the sleep ends before the deadline, so nothing is retried without a deadline. It
  -- answers with the outcome of the attempt after the last sleep; with TimeoutError, when the sleep
  -- after that attempt would end too late; or with CancelledError, when the call was cancelled in the
  -- last sleep.
  pub retry_lem :
      1 ≤ attempts_of c
      → (length (retry sample c script).1 + 1 ≤ attempts_of c)
        × (c.safe ≡ false → (retry sample c script).1 ≡ [])
        × Retried 1 (retry sample c script).1
        × Ends 1 (retry sample c script)
  unfolding retry
  retry_lem h =
      let (few, ends) = retry_loop-Ends 1 (attempts_of c) (omega arith) h in
      (
        omega (arith, few),
        (λ unsafe. nil_of_short _ (omega (arith, few, once unsafe))),
        retry_loop-Retried 1 (attempts_of c),
        ends,
      )
