-- ===== src/Execution/Deadline/Race.antt =====
-- When a call against its deadline has a value, and what becomes of its work.
use tesserix_mcp_runtime.Base.{
  ℕ, ◌+◌, ◌≤◌, ◌<◌, true, false, Option, none, some, ◌≡◌, ◌⊎◌, ◌↔◌, arith,
}
use tesserix_mcp_runtime.Contracts.Failure.{ok}
use tesserix_mcp_runtime.Execution.Limits.{ExecutionLimits, max_call_seconds, max_tool_seconds}
use tesserix_mcp_runtime.Execution.Deadline.{
  bounded_deadline, Work, stop, View, abandon, await_work, expire, is_interrupted, race, execute,
}

-- The bounded deadline is within both limits of the runtime and never later than the caller's own.
bounded_deadline_lem :
    (l : ExecutionLimits) (now : ℕ) (deadline : Option ℕ)
    → (bounded_deadline l now deadline ≤ now + l.durations max_call_seconds)
      × (bounded_deadline l now deadline ≤ now + l.durations max_tool_seconds)
      × ((d : ℕ) → deadline ≡ some d → bounded_deadline l now deadline ≤ d)
unfolding bounded_deadline
bounded_deadline_lem l now none = (omega arith, omega arith, λ d e. cc)
bounded_deadline_lem l now (some deadline) = (omega arith, omega arith, λ d e. ground arith)

-- the work task has ended, or it has been cancelled
abbrev pub Settled : Work → Type 0
Settled w = (w.awaited ≡ true) ⊎ (w.cancelled ≡ true)

module _ {ℓ} {A : Type ℓ} (l : ExecutionLimits) (now : ℕ) (deadline : Option ℕ) (v : View A) where
  -- A call returns a value exactly if it was not cancelled before, the bounded deadline was still ahead
  -- when it began, and when its wait returned neither its own task nor the caller was cancelled, the
  -- deadline was not reached, the work ended with that value, and no cancellation came in the clean-up.
  pub execute-ok :
      (a : A)
      → ((execute l now deadline v).result ≡ ok a) ↔ (
          (v.cancelled_before ≡ false)
          × (now < bounded_deadline l now deadline)
          × (v.interrupted ≡ false)
          × (v.caller_done ≡ false)
          × (v.caller_cancelled ≡ false)
          × (v.deadline_done ≡ false)
          × (v.cancelled_in_cleanup ≡ false)
          × (v.work ≡ ok a))
  unfolding execute race await_work abandon expire
  execute-ok a = (
    λ h. (
      ground arith,
      ground arith,
      ground arith,
      ground arith,
      ground arith,
      ground arith,
      ground arith,
      ground arith,
    ),
    λ (before, early, interrupted, done, cancelled, late, kept, work).
        ground (arith, before, early, interrupted, done, cancelled, late, kept, work),
  )

  -- However a call ends, work that was started has ended or been cancelled, unless a further
  -- cancellation of the call arrived while `_stop` let the loop turn once. It is detached only after it
  -- was cancelled and outlived the grace period, and it was told to stop whenever it was cancelled.
  pub execute-Settled :
      (execute l now deadline v).task.started ≡ true
      → (v.stopping.cancelled_in_turn ≡ false → Settled (execute l now deadline v).task)
        × ((execute l now deadline v).task.detached ≡ true
            → ((execute l now deadline v).task.cancelled ≡ true)
              × ((v.stopping.done_in_grace ≡ false) ⊎ (v.stopping_late.done_in_grace ≡ false)))
        × ((execute l now deadline v).task.cancelled ≡ true
            → (execute l now deadline v).signalled ≡ true)
  unfolding execute race await_work abandon expire stop is_interrupted
  execute-Settled h =
      (λ calm. ground (arith, calm), λ d. (ground arith, ground arith), λ d. ground arith)
