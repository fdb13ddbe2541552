-- ===== src/Execution/Retry.antt =====
-- `ExecutionController.retry` and `_retry_delay`.
--
-- The operation, the clock, the sleep and the caller's cancellation are outside the controller: a
-- script says, for the attempt with each number, how the operation ends, what the clock reads
-- afterwards, and whether the call is cancelled after the sleep that follows. `sample` is the first
-- byte of the SHA-256 of "{request_id}:{attempt}". Delays are exact fractions of ticks, rounded down.
pub mod Attempts
use tesserix_mcp_runtime.Base.{
  ℕ, zero, suc, ◌+◌, ◌-◌, ◌*◌, ◌/◌, ◌^◌, min, Bool, true, false, not, ◌||◌, String, Option, none,
  some, List, [], ◌∷◌, ◌==◌, leb, if◌then◌else◌,
}
use tesserix_mcp_runtime.Contracts.Vocabulary.{ErrorCode}
use tesserix_mcp_runtime.Contracts.Failure.{
  Kind, Failure, Result, ok, err, timeout_failure, cancelled_failure,
}
use tesserix_mcp_runtime.Execution.Limits.{
  ExecutionLimits, max_attempts, retry_base_delay_seconds, retry_max_delay_seconds,
}

pub record Attempt {ℓ} (A : Type ℓ) : Type ℓ where
  pub outcome : Result A
  pub now : ℕ
  pub cancelled : Bool

-- the classes of the `except` clause
unfoldable pub is_caught : Kind → Bool
is_caught (Kind.runtime_failure code) = true
is_caught Kind.timeout = true
is_caught Kind.connection = true
is_caught _ = false

unfoldable pub is_transient : Kind → Bool
is_transient (Kind.runtime_failure ErrorCode.overloaded) = true
is_transient (Kind.runtime_failure ErrorCode.unavailable) = true
is_transient (Kind.runtime_failure _) = false
is_transient _ = true

-- what a call of `retry` needs to know
pub record Call : Type 0 where
  pub limits : ExecutionLimits
  pub request_id : String
  pub deadline : Option ℕ
  pub safe : Bool

-- `context.deadline is None or now + delay >= context.deadline`
unfoldable pub is_late : Option ℕ → ℕ → ℕ → Bool
is_late none now delay = true
is_late (some deadline) now delay = leb deadline (now + delay)

unfoldable pub attempts_of : Call → ℕ
attempts_of c = if c.safe then c.limits.integers max_attempts else 1

module _ (sample : String → ℕ → ℕ) where
  -- `_retry_delay`: base * 2 ** (attempt - 1) * (0.5 + sample / 255), at most the greatest delay
  unfoldable pub retry_delay : ExecutionLimits → String → ℕ → ℕ
  retry_delay l request_id attempt = min (l.durations retry_max_delay_seconds) (
      l.durations retry_base_delay_seconds
      * 2 ^ (attempt - 1)
      * (255 + 2 * sample request_id attempt)
      / 510)

  -- The `for` loop with `left` rounds to go: the result, and the delays of the retries that were
  -- recorded and slept, the first one in front.
  unfoldable pub retry_loop {ℓ} : {A : Type ℓ} → Call → (ℕ → Attempt A) → ℕ → ℕ → Result A × List ℕ
  retry_loop c script attempt zero =
      (err (record { kind = Kind.other; type_name = "AssertionError" }), [])
  retry_loop c script attempt (suc left) =
      let rest = retry_loop c script (attempt + 1) left in
      let delay = retry_delay c.limits c.request_id attempt in
      let this = script attempt in
      elim this.outcome [
        | ok a ↦ (ok a, [])
        | err e ↦
            if not (is_caught e.kind) || not (is_transient e.kind) || attempt == attempts_of c
            then (err e, [])
            else if is_late c.deadline this.now delay
            then (err timeout_failure, [])
            else if this.cancelled
            then (err cancelled_failure, delay ∷ [])
            else (rest.0, delay ∷ rest.1)
      ]

  unfoldable pub retry {ℓ} : {A : Type ℓ} → Call → (ℕ → Attempt A) → Result A × List ℕ
  unfolding retry_loop attempts_of
  retry c script = retry_loop c script 1 (attempts_of c)
