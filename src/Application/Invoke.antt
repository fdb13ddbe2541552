-- ===== src/Application/Invoke.antt =====
-- `Application.invoke`: the state of the application, the deadline, redaction and the record of the
-- call.
use tesserix_mcp_runtime.Base.{
  ℕ, Bool, true, false, String, Option, none, some, List, [], ◌∷◌, ◌++◌, ◌==◌, leb, ltb, length,
  any, not, ◌&&◌, ◌||◌, Number, if◌then◌else◌,
}
use tesserix_mcp_runtime.Base.Dict.{get}
use tesserix_mcp_runtime.Base.Text.{codes}
use tesserix_mcp_runtime.Observability.Durations.{duration}
use tesserix_mcp_runtime.Contracts.Vocabulary.{ErrorCode, ready, draining}
use tesserix_mcp_runtime.Contracts.Failure.{Kind, Result, ok, err, ◌>>◌, check}
use tesserix_mcp_runtime.Contracts.Response.{InvocationResult}
use tesserix_mcp_runtime.Contracts.Identity.{CallContext}
use tesserix_mcp_runtime.Json.{Value}
use tesserix_mcp_runtime.Execution.Limits.{ticks}
use tesserix_mcp_runtime.Execution.Admission.{RuntimeLimit}
use tesserix_mcp_runtime.Execution.Deadline.{View, Stopping, bounded_deadline, execute}
use tesserix_mcp_runtime.Application.{Host, Application, RuntimeOutcome, limits_of, error_outcome}
use tesserix_mcp_runtime.Application.Failures.{mapped_failure, redact_result, safe_request_id}
use tesserix_mcp_runtime.Application.Serve.{Answers, hit, refuse, serve, known_name}

-- how the event loop and the caller treat one call
pub record Turn (Model : Type 0) : Type 0 where
  pub task : ℕ
  pub now : ℕ
  pub cancelled_before : Bool
  pub interrupted : Bool
  pub caller_done : Bool
  pub caller_cancelled : Bool
  pub deadline_done : Bool
  pub stopping : Stopping
  pub stopping_late : Stopping
  pub cancelled_in_cleanup : Bool
  pub answers : Answers Model
  -- `max(0.0, self._clock.now() - started_at)`
  pub elapsed : Number

-- `context.deadline`, which the context has checked
abbrev pub deadline_of : CallContext → Option ℕ
deadline_of context = elim context.deadline [ none ↦ none | some n ↦ some (ticks n) ]

-- the set of running calls
abbrev pub discard : ℕ → List ℕ → List ℕ
discard task [] = []
discard task (t ∷ ts) = if t == task then discard task ts else t ∷ discard task ts

unfoldable pub begin : Application → ℕ → Application
begin a task = record a { tasks = task ∷ discard task a.tasks }

unfoldable pub finish : Application → ℕ → Application
finish a task = record a { tasks = discard task a.tasks }

-- `_result_outcome`
unfoldable pub result_outcome : InvocationResult Value → RuntimeOutcome
result_outcome r = elim r.error [ none ↦ RuntimeOutcome.success | some e ↦ error_outcome e.code ]

-- the request id that `RuntimeLogEvent` accepts
unfoldable pub is_log_id : List ℕ → Bool
is_log_id s = leb 1 (length s) && leb (length s) 256 && not (any (λ c. ltb c 32 || c == 127) s)

-- the exceptions that `invoke` maps
abbrev pub is_mapped : Kind → Bool
is_mapped Kind.exit = false
is_mapped _ = true

module _ {Model : Type 0} (host : Host Model) (context : CallContext) where
  abbrev pub view_of : Turn Model → Result (InvocationResult Value) → View (InvocationResult Value)
  view_of t work = record {
    cancelled_before = t.cancelled_before;
    interrupted = t.interrupted;
    caller_done = t.caller_done;
    caller_cancelled = t.caller_cancelled;
    deadline_done = t.deadline_done;
    work = work;
    stopping = t.stopping;
    stopping_late = t.stopping_late;
    cancelled_in_cleanup = t.cancelled_in_cleanup;
  }

  -- the `try` block, before its handlers
  unfoldable pub redact_ended :
      Application → Result (InvocationResult Value) → Application × Result (InvocationResult Value)
  redact_ended a r = elim r [
    | ok result ↦ redact_result host a result context.request_id
    | err e ↦ (a, err e)
  ]

  -- the handlers
  unfoldable pub recover :
      Application × Result (InvocationResult Value) → Application × Result (InvocationResult Value)
  recover (a, r) = elim r [
    | ok result ↦ (a, ok result)
    | err e ↦ if is_mapped e.kind then mapped_failure host a e context.request_id else (a, err e)
  ]

  unfoldable pub run_ready :
      Application → String → Value → Turn Model → Application × Result (InvocationResult Value)
  run_ready a tool_name arguments t =
      let begun = begin a t.task in
      let deadline = bounded_deadline (limits_of a) t.now (deadline_of context) in
      let served = serve host context deadline begun tool_name arguments t.answers in
      let ended = execute (limits_of a) t.now (deadline_of context) (view_of t served.1) in
      let after = if ended.task.started then served.0 else begun in
      let (last, result) = recover (redact_ended after ended.result) in (finish last t.task, result)

  unfoldable pub refuse_unready :
      Application → String → Application × Result (InvocationResult Value)
  refuse_unready a tool_name = (
    elim a.state [
      | draining ↦ hit a (known_name (get host.catalog tool_name)) RuntimeLimit.drain
      | _ ↦ a
    ],
    refuse ErrorCode.unavailable (safe_request_id host context.request_id),
  )

  -- `RuntimeLogEvent.__post_init__`, where it may fail
  unfoldable pub log_event : String → Result (Unit {0})
  unfolding is_log_id
  log_event request_id = check (is_log_id (codes (safe_request_id host request_id)))

  -- The end of `invoke`: the call is counted, then its log event is built; each of them may raise. An
  -- exception that is not mapped passes both by. The name of a tool of the catalog is a dimension.
  unfoldable pub record_call :
      Option String
      → Number
      → Application × Result (InvocationResult Value)
      → Application × Result (InvocationResult Value)
  record_call tool_name elapsed (a, r) = elim r [
    | err e ↦ (a, err e)
    | ok result ↦ elim (duration elapsed) [
      | err e ↦ (a, err e)
      | ok seconds ↦ (
        record a { calls = a.calls ++ (tool_name, result_outcome result) ∷ [] },
        log_event context.request_id >> ok result,
      )
    ]
  ]

  unfoldable pub invoke :
      Application → String → Value → Turn Model → Application × Result (InvocationResult Value)
  invoke a tool_name arguments t =
      record_call (known_name (get host.catalog tool_name)) t.elapsed (elim a.state [
        | ready ↦ run_ready a tool_name arguments t
        | _ ↦ refuse_unready a tool_name
      ])
