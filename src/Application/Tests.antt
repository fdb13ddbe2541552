-- ===== src/Application/Tests.antt =====
-- One tool, called once, and a run of the application; the theorems at these inputs.
use tesserix_mcp_runtime.Base.Sets.{sorted}
use tesserix_mcp_runtime.Base.{true, false, String, some, none, [], ◌∷◌, ◌≡◌, refl, ◌⊎◌}
use tesserix_mcp_runtime.Base.Dict.{get, put, lookup, insert, empty}
use tesserix_mcp_runtime.Base.Text.{is_stripped, is_space}
use tesserix_mcp_runtime.Contracts.Vocabulary.{
  ToolEffect, ApprovalRequirement, IdempotencyRequirement, ready,
}
use tesserix_mcp_runtime.Contracts.Failure.{ok}
use tesserix_mcp_runtime.Contracts.Response.{is_text, success}
use tesserix_mcp_runtime.Contracts.Identity.{CallContext}
use tesserix_mcp_runtime.Json.{Value, text}
use tesserix_mcp_runtime.Json.Text.{utf8_length, escaped_length, json_length, is_writable}
use tesserix_mcp_runtime.Execution.Limits.{ExecutionLimits}
use tesserix_mcp_runtime.Execution.Admission.{admit, release, reached, decrement, init}
use tesserix_mcp_runtime.Execution.Retry.{retry, retry_loop, attempts_of}
use tesserix_mcp_runtime.Execution.Json.{validate_json_value, walk, passes, push_children}
use tesserix_mcp_runtime.Application.{Host, Application, Definition, limits_of, is_retry_safe}
use tesserix_mcp_runtime.Application.Failures.{failed_id}
use tesserix_mcp_runtime.Application.Serve.{
  Answers, run_handler, run_tool, give_back, answer, run_admitted, serve,
}
use tesserix_mcp_runtime.Application.Served.{Served, serve-Served}
use tesserix_mcp_runtime.Application.Leases.{Balanced, serve-Balanced}
use tesserix_mcp_runtime.Application.Invoke.{Turn, invoke}
use tesserix_mcp_runtime.Application.Answered.{Ended, invoke-Answered}
use tesserix_mcp_runtime.Base.{is_subset}
use tesserix_mcp_runtime.Json.{object, end}
use tesserix_mcp_runtime.Manifest.{ToolManifest}
use tesserix_mcp_runtime.Policy.Rules.{ToolPolicyState}
use tesserix_mcp_runtime.Policy.Setup.{ToolPolicy, manifest_of}
use tesserix_mcp_runtime.Policy.Audit as Audit
use tesserix_mcp_runtime.Policy.Authorize.{Tool, authorize, decide, approve}
use tesserix_mcp_runtime.Application.Listing.{list_tools, authorize-listed}
use tesserix_mcp_runtime.Base.{contains, integer, pos}
use tesserix_mcp_runtime.Execution.Deadline.{Stopping}

-- a tool that answers with its argument
abbrev echo : Definition Value
echo = record {
  identity = 1;
  input_schema = object end;
  output_schema = object end;
  metadata = record {
    name = "echo";
    title = "Echo";
    description = "Answer with the argument.";
    effect = ToolEffect.read;
    approval = ApprovalRequirement.not_required;
    idempotency = IdempotencyRequirement.not_applicable;
    required_scopes = [];
    discovery = none;
  };
  parse_input = λ v. ok v;
  serialize_output = λ v. ok v;
}

abbrev host : Host Value
host = record {
  catalog = record { entries = ("echo", echo) ∷ [] };
  short_digest = λ id. "0123456789abcdef";
  redact_text = λ s. some s;
  redact = λ v. ok v;
  emits = λ log s. true;
  sample = λ id attempt. 0;
  float_length = λ x. 3;
}

abbrev limits : ExecutionLimits
limits = record { integers = λ name. 9; durations = λ name. 10 }

abbrev idle : Application
idle = record {
  state = ready;
  controller = init limits;
  tasks = [];
  limits_hit = [];
  calls = [];
  emitted = [];
  telemetry_failures = 0;
}

abbrev caller : CallContext
caller = record {
  identity = record { tenant = "acme"; subject = "cat"; issuer = "idp"; scopes = [] };
  request_id = "q-1";
  run_id = "n-1";
  deadline = none;
  cancelled = false;
  idempotency_key = none;
  approval_id = none;
}

abbrev answers : Answers Value
answers = record {
  authorized = ok tt;
  handler = λ input attempt. record { outcome = ok input; now = 1; cancelled = false };
  meanwhile = λ a. a;
}

served : (serve host caller 10 idle "echo" (text "hi") answers).1 ≡ ok (success (text "hi"))
unfolding serve validate_json_value walk passes push_children json_length is_writable escaped_length
    utf8_length get lookup run_admitted admit init reached empty answer give_back run_tool
    run_handler retry retry_loop attempts_of is_retry_safe release decrement put insert
served = refl

serve-Served_example : Served host caller 10 idle "echo" (text "hi") answers (text "hi")
serve-Served_example =
    serve-Served host caller 10 idle "echo" (text "hi") answers (text "hi") served

serve-Balanced_example :
    let a' = (serve host caller 10 idle "echo" (text "hi") answers).0 in
    (a'.controller ≡ idle.controller)
    ⊎ ((d : Definition Value) × (get host.catalog "echo" ≡ some d)
        × Balanced host caller 10 idle d answers a')
serve-Balanced_example = serve-Balanced host caller 10 idle "echo" (text "hi") answers

digest_is_text : (id : String) → is_text 256 (failed_id host id) ≡ true
unfolding failed_id is_text is_stripped is_space
digest_is_text id = refl

abbrev ready_task : Stopping
ready_task = record {
  done_at_once = true;
  done_after_turn = true;
  done_in_grace = true;
  cancelled_in_turn = false;
  cancelled_in_grace = false;
  cancelled_at_end = false;
}

abbrev turn : Turn Value
turn = record {
  task = 1;
  now = 0;
  cancelled_before = false;
  interrupted = false;
  caller_done = false;
  caller_cancelled = false;
  deadline_done = false;
  stopping = ready_task;
  stopping_late = ready_task;
  cancelled_in_cleanup = false;
  answers = answers;
  elapsed = integer (pos 2);
}

invoke-Answered_example :
    Ended host caller digest_is_text
      (limits_of idle)
      (integer (pos 2))
      (invoke host caller idle "echo" (text "hi") turn).1
invoke-Answered_example =
    invoke-Answered host caller digest_is_text idle "echo" (text "hi") turn (λ b. refl)

-- the tool that the authorizer is given
abbrev as_tool : Definition Value → Tool
as_tool d = record {
  definition = d.identity;
  metadata = d.metadata;
  input_schema = d.input_schema;
  output_schema = d.output_schema;
}

abbrev echo_manifest : ToolManifest
echo_manifest = record {
  metadata = echo.metadata;
  normalized_name = "echo";
  input_schema = object end;
  output_schema = object end;
}

abbrev echo_policy : ToolPolicy
echo_policy = record {
  server_scopes = [];
  rules = record {
    entries =
        (
          "echo",
          record {
            tool_name = "echo";
            reviewed_fingerprint = "f";
            allowed_scopes = [];
            state = ToolPolicyState.active;
            review = none;
          },
        )
        ∷ [];
  };
  fingerprints = record { entries = ("echo", "f") ∷ [] };
  tools = record { definition = 1; manifest = echo_manifest } ∷ [];
  has_store = false;
}

abbrev policy_surroundings : Audit.Surroundings
policy_surroundings = record {
  fingerprint = λ v. "f";
  digest = λ s. "d";
  casefold = λ s. s;
  redact = λ s. some s;
  clock = λ k. some k;
  sink_accepts = λ log e. true;
  fetch = λ id. Audit.missing;
  consume = λ log id act. Audit.refused;
}

abbrev journal : Audit.Journal
journal = record { audit = []; readings = 0; consumed = [] }

granted :
    (authorize policy_surroundings echo_policy caller (text "hi") (as_tool echo) journal).1 ≡ ok tt
unfolding authorize manifest_of decide get lookup is_subset approve Audit.record_decision
    Audit.event_fields Audit.append sorted
granted = refl

authorize-listed_example :
    (m : ToolManifest) × (manifest_of echo_policy.tools 1 ≡ some m)
    × (contains m.metadata.name (list_tools ready (some echo_policy) echo_policy.tools) ≡ true)
authorize-listed_example =
    authorize-listed policy_surroundings echo_policy caller (text "hi") (as_tool echo) journal
      granted
