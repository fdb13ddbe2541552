-- ===== src/Application/Serve.antt =====
-- `Application._invoke`: validation, admission, authorization, execution, release.
--
-- What happens while a call waits is an input of the call: what the authorizer answers, how the
-- attempts of the handler end, and what other calls do to the application meanwhile. A call that is
-- cancelled gets the cancellation as the answer of whatever it waits for.
use tesserix_mcp_runtime.Base.{ℕ, String, Option, none, some, [], ◌∷◌, ◌++◌, if◌then◌else◌}
use tesserix_mcp_runtime.Base.Dict.{get}
use tesserix_mcp_runtime.Contracts.Vocabulary.{ErrorCode}
use tesserix_mcp_runtime.Contracts.Failure.{
  Failure, Result, ok, err, ◌>>=◌, ◌>>◌, code_failure, is_exception,
}
use tesserix_mcp_runtime.Contracts.Response.{InvocationResult, from_code, success, failure}
use tesserix_mcp_runtime.Contracts.Identity.{CallContext}
use tesserix_mcp_runtime.Json.{Value}
use tesserix_mcp_runtime.Execution.Limits.{ExecutionLimits, max_input_bytes, max_result_bytes}
use tesserix_mcp_runtime.Execution.Admission.{RuntimeLimit, Lease, admit, release}
use tesserix_mcp_runtime.Execution.Retry.{Attempt, Call, retry}
use tesserix_mcp_runtime.Execution.Json.{validate_json_value}
use tesserix_mcp_runtime.Application.{
  Host, Application, Definition, limits_of, is_limit, is_rejection, is_retry_safe,
}
use tesserix_mcp_runtime.Application.Failures.{mapped_failure}

pub record Answers (Model : Type 0) : Type 0 where
  pub authorized : Result (Unit {0})
  pub handler : Model → ℕ → Attempt Model
  pub meanwhile : Application → Application

abbrev pub hit : Application → Option String → RuntimeLimit → Application
hit a tool_name limit = record a { limits_hit = a.limits_hit ++ (tool_name, limit) ∷ [] }

-- the failure that leaves the execution block
abbrev pub bounded_failure : Failure → Failure
bounded_failure e = if is_limit e.kind then code_failure ErrorCode.result_too_large else e

-- `InvocationResult.failure(ErrorResponse.from_code(code, request_id=request_id))`
unfoldable pub refuse : ErrorCode → String → Result (InvocationResult Value)
refuse code request_id = from_code code request_id >>= λ error. ok (failure error)

abbrev pub known_name : {Model : Type 0} → Option (Definition Model) → Option String
known_name none = none
known_name (some d) = some d.metadata.name

module _ {Model : Type 0} (host : Host Model) (context : CallContext) (deadline : ℕ) where
  abbrev pub retry_call : ExecutionLimits → Definition Model → Call
  retry_call l d = record {
    limits = l;
    request_id = context.request_id;
    deadline = some deadline;
    safe = is_retry_safe d.metadata context;
  }

  -- the handler's output, in the block of the execution span
  unfoldable pub run_handler :
      ExecutionLimits → Definition Model → (ℕ → Attempt Model) → Result Value
  run_handler l d script = do
    model ← (retry host.sample (retry_call l d) script).0
    output ← d.serialize_output model
    validate_json_value host.float_length l (l.integers max_result_bytes) output
    ok output

  -- the `try` block that holds the lease, up to its `finally`
  unfoldable pub run_tool :
      Application → Definition Model → Model → Answers Model → Application × Result Value
  run_tool a d input answers =
      let later = answers.meanwhile a in
      elim answers.authorized [
        | err e ↦ (later, err e)
        | ok _ ↦ elim (run_handler (limits_of a) d (answers.handler input)) [
          | ok v ↦ (later, ok v)
          | err e ↦ (
            (if is_limit e.kind
                then hit later (some d.metadata.name) RuntimeLimit.result
                else later),
            err (bounded_failure e),
          )
        ]
      ]

  -- `finally: self._execution.release(lease)`: what it raises replaces the result
  unfoldable pub give_back : Application × Result Value → Lease → Application × Result Value
  give_back (a, r) lease =
      let (controller, released) = release a.controller lease in
      (record a { controller = controller }, released >> r)

  -- `except Exception as error: return self._mapped_failure(...)`
  unfoldable pub answer : Application × Result Value → Application × Result (InvocationResult Value)
  answer (a, r) = elim r [
    | ok v ↦ (a, ok (success v))
    | err e ↦ if is_exception e.kind then mapped_failure host a e context.request_id else (a, err e)
  ]

  -- admission and what follows it
  unfoldable pub run_admitted :
      Application
      → Definition Model
      → Model
      → Answers Model
      → Application × Result (InvocationResult Value)
  run_admitted a d input answers =
      let (controller, lease) = admit a.controller d.metadata.name context.tenant in
      let entered = record a { controller = controller } in
      elim lease [
        | none ↦ answer (entered, err (code_failure ErrorCode.overloaded))
        | some given ↦ answer (give_back (run_tool entered d input answers) given)
      ]

  -- `_invoke`
  unfoldable pub serve :
      Application → String → Value → Answers Model → Application × Result (InvocationResult Value)
  serve a tool_name arguments answers =
      elim (validate_json_value host.float_length (limits_of a)
        ((limits_of a).integers max_input_bytes) arguments) [
          | err e ↦ (
            hit a (known_name (get host.catalog tool_name)) RuntimeLimit.input,
            refuse ErrorCode.invalid_input context.request_id,
          )
          | ok _ ↦ elim (get host.catalog tool_name) [
            | none ↦ (a, refuse ErrorCode.invalid_input context.request_id)
            | some d ↦ elim (d.parse_input arguments) [
              | err e ↦
                  if is_rejection e.kind
                  then (a, refuse ErrorCode.invalid_input context.request_id)
                  else (a, err e)
              | ok input ↦ run_admitted a d input answers
            ]
          ]
        ]
