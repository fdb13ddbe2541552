-- ===== src/Execution/Deadline.antt =====
-- `bounded_context`, `execute` and `_stop`: one call against its deadline and its cancellation.
--
-- What the event loop decides is an input: which tasks are done when `asyncio.wait` returns, and how
-- the work task is found when it is to be stopped. Times are in ticks.
pub mod Race
use tesserix_mcp_runtime.Base.{
  ℕ, ◌+◌, min, Bool, true, false, not, ◌&&◌, ◌||◌, Option, none, some, leb, if◌then◌else◌,
}
use tesserix_mcp_runtime.Contracts.Failure.{
  Kind, Failure, Result, ok, err, timeout_failure, cancelled_failure,
}
use tesserix_mcp_runtime.Execution.Limits.{ExecutionLimits, max_call_seconds, max_tool_seconds}

-- the deadline of `bounded_context`
unfoldable pub bounded_deadline : ExecutionLimits → ℕ → Option ℕ → ℕ
bounded_deadline l now none =
    min (now + l.durations max_call_seconds) (now + l.durations max_tool_seconds)
bounded_deadline l now (some deadline) =
    min (min (now + l.durations max_call_seconds) (now + l.durations max_tool_seconds)) deadline

-- How `_stop` finds the work task: already done, done after one turn of the loop, or done within the
-- grace period after it was cancelled; and whether a cancellation of the call's own task arrives
-- while it sleeps for that turn, while it waits for the grace period, or in the last thing that it
-- awaits, when the task is done with.
pub record Stopping : Type 0 where
  pub done_at_once : Bool
  pub done_after_turn : Bool
  pub done_in_grace : Bool
  pub cancelled_in_turn : Bool
  pub cancelled_in_grace : Bool
  pub cancelled_at_end : Bool

-- What became of the work task: it had ended; it was cancelled; it was left detached.
pub record Work : Type 0 where
  pub started : Bool
  pub awaited : Bool
  pub cancelled : Bool
  pub detached : Bool

abbrev pub unstarted : Work
unstarted = record { started = false; awaited = false; cancelled = false; detached = false }

-- `_stop` of a task; an interruption of it leaves the task as it is
unfoldable pub stop : Stopping → Work
stop t =
    if t.done_at_once
    then record { started = true; awaited = true; cancelled = false; detached = false }
    else if t.cancelled_in_turn
    then record { started = true; awaited = false; cancelled = false; detached = false }
    else if t.done_after_turn
    then record { started = true; awaited = true; cancelled = false; detached = false }
    else if t.cancelled_in_grace
    then record { started = true; awaited = false; cancelled = true; detached = false }
    else if t.done_in_grace
    then record { started = true; awaited = true; cancelled = true; detached = false }
    else record { started = true; awaited = false; cancelled = true; detached = true }

-- whether `_stop` raises CancelledError
unfoldable pub is_interrupted : Stopping → Bool
is_interrupted t =
    if t.done_at_once
    then t.cancelled_at_end
    else t.cancelled_in_turn
      || ((not t.done_after_turn && t.cancelled_in_grace) || t.cancelled_at_end)

-- the state of a task that was stopped twice
abbrev pub both : Work → Work → Work
both first second = record {
  started = true;
  awaited = first.awaited || second.awaited;
  cancelled = first.cancelled || second.cancelled;
  detached = first.detached || second.detached;
}

-- What `execute` sees: whether the caller is cancelled at the start; whether the call's own task is
-- cancelled while it waits; the tasks that are done when the wait returns; whether the caller's
-- cancellation is set by then; how the work ends if it is awaited; how it is found when the
-- handler of CancelledError stops it; how when the deadline does; and whether a cancellation arrives
-- in the `finally` block.
pub record View {ℓ} (A : Type ℓ) : Type ℓ where
  pub cancelled_before : Bool
  pub interrupted : Bool
  pub caller_done : Bool
  pub caller_cancelled : Bool
  pub deadline_done : Bool
  pub work : Result A
  pub stopping : Stopping
  pub stopping_late : Stopping
  pub cancelled_in_cleanup : Bool

-- The end of a call: its result, whether the linked cancellation was set, and the work task.
pub record Ended {ℓ} (A : Type ℓ) : Type ℓ where
  pub result : Result A
  pub signalled : Bool
  pub task : Work

module _ {ℓ} {A : Type ℓ} where
  -- the handler of CancelledError
  unfoldable pub abandon : Stopping → Ended A
  abandon t = record { result = err cancelled_failure; signalled = true; task = stop t }

  abbrev finished : Result A → Ended A
  finished r = record {
    result = r;
    signalled = false;
    task = record { started = true; awaited = true; cancelled = false; detached = false };
  }

  -- `return await work`
  unfoldable pub await_work : View A → Ended A
  await_work v = elim v.work [
    | ok a ↦ finished (ok a)
    | err e ↦ elim e.kind [ Kind.cancelled ↦ abandon v.stopping | _ ↦ finished (err e) ]
  ]

  -- the deadline: if the stop is interrupted, the handler of CancelledError stops once more
  unfoldable pub expire : Stopping → Stopping → Ended A
  expire late again =
      if is_interrupted late
      then record {
        result = err cancelled_failure;
        signalled = true;
        task = both (stop late) (stop again);
      }
      else record { result = err timeout_failure; signalled = true; task = stop late }

  -- the `try` block and its handler
  unfoldable pub attempt : View A → Ended A
  attempt v =
      if v.interrupted || (v.caller_done || v.caller_cancelled)
      then abandon v.stopping
      else if v.deadline_done
      then expire v.stopping_late v.stopping
      else await_work v

  -- the `finally` block: a cancellation in it replaces the result
  unfoldable pub clean_up : Bool → Ended A → Ended A
  clean_up is_cancelled e = if is_cancelled then record e { result = err cancelled_failure } else e

  unfoldable pub race : View A → Ended A
  unfolding attempt clean_up
  race v = clean_up v.cancelled_in_cleanup (attempt v)

  -- `execute`, at the time `now`, for a context with this deadline
  unfoldable pub execute : ExecutionLimits → ℕ → Option ℕ → View A → Ended A
  execute l now deadline v =
      if v.cancelled_before
      then record { result = err cancelled_failure; signalled = false; task = unstarted }
      else if leb (bounded_deadline l now deadline) now
      then record { result = err timeout_failure; signalled = false; task = unstarted }
      else race v
