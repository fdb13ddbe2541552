-- ===== src/Application/Served.antt =====
-- When `_invoke` answers with a value.
use tesserix_mcp_runtime.Base.{ℕ, String, some, ◌≡◌, ◌≢◌, subst, inl, inr, arith, Option-cases}
use tesserix_mcp_runtime.Base.Dict.{get}
use tesserix_mcp_runtime.Contracts.Vocabulary.{ErrorCode}
use tesserix_mcp_runtime.Contracts.Failure.{Failure, Result, ok, err, code_failure, Result-cases}
use tesserix_mcp_runtime.Contracts.Response.{success, failure}
use tesserix_mcp_runtime.Contracts.Identity.{CallContext}
use tesserix_mcp_runtime.Json.{Value}
use tesserix_mcp_runtime.Execution.Limits.{ExecutionLimits, max_input_bytes, max_result_bytes}
use tesserix_mcp_runtime.Execution.Admission.{Lease, admit}
use tesserix_mcp_runtime.Execution.Admission.Histories.{admit-limits}
use tesserix_mcp_runtime.Execution.Retry.{Attempt, retry}
use tesserix_mcp_runtime.Execution.Json.{validate_json_value}
use tesserix_mcp_runtime.Application.{Host, Application, Definition, limits_of}
use tesserix_mcp_runtime.Application.Failures.{mapped_failure}
use tesserix_mcp_runtime.Application.Serve.{
  Answers, refuse, retry_call, run_handler, run_tool, give_back, answer, run_admitted, serve,
}

module _ {Model : Type 0} (host : Host Model) (context : CallContext) (deadline : ℕ) where
  -- The arguments are within the limits and parse, the tool is known, the call was admitted and
  -- authorized, and the value is the bounded output of its handler.
  pub record Served (a : Application) (tool_name : String) (arguments : Value)
      (answers : Answers Model) (v : Value) : Type 0 where
    pub bounded_input :
        validate_json_value host.float_length
          (limits_of a)
          ((limits_of a).integers max_input_bytes)
          arguments
        ≡ ok tt
    pub tool : Definition Model
    pub known : get host.catalog tool_name ≡ some tool
    pub input : Model
    pub parsed : tool.parse_input arguments ≡ ok input
    pub lease : Lease
    pub admitted : (admit a.controller tool.metadata.name context.tenant).1 ≡ some lease
    pub authorized : answers.authorized ≡ ok tt
    pub output : Model
    pub ran :
        (retry host.sample
          (retry_call host context deadline (limits_of a) tool)
          (answers.handler input)).0
        ≡ ok output
    pub written : tool.serialize_output output ≡ ok v
    pub bounded_output :
        validate_json_value host.float_length
          (limits_of a)
          ((limits_of a).integers max_result_bytes)
          v
        ≡ ok tt

  mapped_failure-success :
      (a : Application) (e : Failure) (v : Value)
      → (mapped_failure host a e context.request_id).1 ≢ ok (success v)
  unfolding mapped_failure success failure
  mapped_failure-success a e v h = ground arith

  refuse-success : (code : ErrorCode) (v : Value) → refuse code context.request_id ≢ ok (success v)
  unfolding refuse success failure
  refuse-success code v h = ground arith

  answer-success :
      (x : Application × Result Value) (v : Value)
      → (answer host context deadline x).1 ≡ ok (success v)
      → x.1 ≡ ok v
  unfolding answer success
  answer-success (a, ok w) v h = ground arith
  answer-success (a, err e) v h = ground (arith, mapped_failure-success a e v)

  give_back-ok :
      (x : Application × Result Value) (lease : Lease) (v : Value)
      → (give_back host context deadline x lease).1 ≡ ok v
      → x.1 ≡ ok v
  unfolding give_back
  give_back-ok (a, r) lease v h = ground arith

  run_tool-ok :
      (a : Application) (d : Definition Model) (input : Model) (answers : Answers Model) (v : Value)
      → (run_tool host context deadline a d input answers).1 ≡ ok v
      → (answers.authorized ≡ ok tt)
        × (run_handler host context deadline (limits_of a) d (answers.handler input) ≡ ok v)
  unfolding run_tool
  run_tool-ok a d input answers v h = (ground arith, ground arith)

  run_handler-ok :
      (l : ExecutionLimits) (d : Definition Model) (script : ℕ → Attempt Model) (v : Value)
      → run_handler host context deadline l d script ≡ ok v
      → (output : Model) × ((retry host.sample (retry_call host context deadline l d) script).0
          ≡ ok output)
        × (d.serialize_output output ≡ ok v)
        × (validate_json_value host.float_length l (l.integers max_result_bytes) v ≡ ok tt)
  unfolding run_handler
  run_handler-ok l d script v h =
      elim (Result-cases (retry host.sample (retry_call host context deadline l d) script).0) [
        | inl (output, e) ↦ (output, e, ground (arith, e), ground (arith, e))
        | inr (f, e) ↦ absurd (ground (arith, e))
      ]

  run_admitted-ok :
      (a : Application) (d : Definition Model) (input : Model) (answers : Answers Model) (v : Value)
      → (run_admitted host context deadline a d input answers).1 ≡ ok (success v)
      → let entered = record a {
        controller = (admit a.controller d.metadata.name context.tenant).0;
      } in
        (lease : Lease) × ((admit a.controller d.metadata.name context.tenant).1 ≡ some lease)
        × ((run_tool host context deadline entered d input answers).1 ≡ ok v)
  unfolding run_admitted
  run_admitted-ok a d input answers v h =
      let entered = record a {
        controller = (admit a.controller d.metadata.name context.tenant).0;
      } in
      elim (Option-cases (admit a.controller d.metadata.name context.tenant).1) [
        | inl e ↦
            absurd (
              ground
                (arith, e, answer-success (entered, err (code_failure ErrorCode.overloaded)) v))
        | inr (lease, e) ↦ (
          lease,
          e,
          give_back-ok (run_tool host context deadline entered d input answers) lease v (
              answer-success
                (give_back host context deadline
                  (run_tool host context deadline entered d input answers) lease)
                v (ground (arith, e))),
        )
      ]

  served :
      (a : Application) (tool_name : String) (arguments : Value) (answers : Answers Model)
      (v : Value) (d : Definition Model) (input : Model)
      → validate_json_value host.float_length
          (limits_of a)
          ((limits_of a).integers max_input_bytes)
          arguments
        ≡ ok tt
      → get host.catalog tool_name ≡ some d
      → d.parse_input arguments ≡ ok input
      → (run_admitted host context deadline a d input answers).1 ≡ ok (success v)
      → Served a tool_name arguments answers v
  served a tool_name arguments answers v d input bounded known parsed h =
      let (lease, admitted, ran) = run_admitted-ok a d input answers v h in
      let entered = record a {
        controller = (admit a.controller d.metadata.name context.tenant).0;
      } in
      let (authorized, handled) = run_tool-ok entered d input answers v ran in
      let (output, retried, written, bounded_output) =
        run_handler-ok (limits_of a) d (answers.handler input) v (
          subst (λ l. run_handler host context deadline l d (answers.handler input) ≡ ok v)
            (admit-limits a.controller d.metadata.name context.tenant) handled) in
      record {
        bounded_input = bounded;
        tool = d;
        known = known;
        input = input;
        parsed = parsed;
        lease = lease;
        admitted = admitted;
        authorized = authorized;
        output = output;
        ran = retried;
        written = written;
        bounded_output = bounded_output;
      }

  -- A call is answered with a value only if its arguments were within the application's limits and
  -- parsed, its tool is known, the bulkheads admitted it and the authorizer let it pass; the value is
  -- then what the handler, retried under the same limits, gave out, serialized, and within them.
  pub serve-Served :
      (a : Application) (tool_name : String) (arguments : Value) (answers : Answers Model)
      (v : Value)
      → (serve host context deadline a tool_name arguments answers).1 ≡ ok (success v)
      → Served a tool_name arguments answers v
  unfolding serve
  serve-Served a tool_name arguments answers v h =
      elim (Result-cases (
        validate_json_value host.float_length (limits_of a) ((limits_of a).integers max_input_bytes)
          arguments)) [
            | inr (e, b) ↦ absurd (ground (arith, b, refuse-success ErrorCode.invalid_input v))
            | inl (_, b) ↦ elim (Option-cases (get host.catalog tool_name)) [
              | inl k ↦ absurd (ground (arith, b, k, refuse-success ErrorCode.invalid_input v))
              | inr (d, k) ↦ elim (Result-cases (d.parse_input arguments)) [
                | inr (e, p) ↦
                    absurd (ground (arith, b, k, p, refuse-success ErrorCode.invalid_input v))
                | inl (input, p) ↦
                    served a tool_name arguments answers v d input b k p (ground (arith, b, k, p))
              ]
            ]
          ]
