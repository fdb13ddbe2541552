-- ===== src/Execution/Tests.antt =====
-- Limits, bulkheads, retries, deadlines and documents on small inputs, and the theorems there.
use tesserix_mcp_runtime.Base.{
  ℕ, ◌+◌, ◌≤◌, ◌<◌, ◌&&◌, true, false, String, some, none, ◌≡◌, ◌≢◌, refl, [], ◌∷◌, ◌⊎◌, ◌↔◌, inl,
  inr, arith, ℤ, pos, integer, length, leb, if◌then◌else◌, unit, is_huge,
}
use tesserix_mcp_runtime.Base.Dict.{get, lookup, empty}
use tesserix_mcp_runtime.Contracts.Vocabulary.{ErrorCode}
use tesserix_mcp_runtime.Contracts.Failure.{ok, err, each, code_failure, limit_failure}
use tesserix_mcp_runtime.Json.{count_items, count_fields, has_names, Value, text, array, cons, nil}
use tesserix_mcp_runtime.Json.Text.{utf8_length, escaped_length, json_length, is_writable}
use tesserix_mcp_runtime.Execution.Limits.{
  Settings, ExecutionLimits, IntegerLimit, DurationLimit, magnitude, ticks, max_json_nodes,
  max_global_concurrency, max_server_concurrency, max_tool_concurrency, max_tenant_concurrency,
}
use tesserix_mcp_runtime.Execution.Limits as Limits
use tesserix_mcp_runtime.Execution.Limits.Range.{InRange, build-InRange}
use tesserix_mcp_runtime.Execution.Admission.{
  Lease, ExecutionController, admit, release, init, reached,
}
use tesserix_mcp_runtime.Execution.Admission.Counts.{occurrences}
use tesserix_mcp_runtime.Execution.Admission.Invariant.{
  Inv, HasRoom, tools, tenants, admit_iff, init-Inv, release-Inv,
}
use tesserix_mcp_runtime.Execution.Admission.Histories.{begins, enters, within_limits}
use tesserix_mcp_runtime.Execution.Retry.{
  Attempt, Call, attempts_of, retry, retry_loop, retry_delay, is_caught, is_transient, is_late,
}
use tesserix_mcp_runtime.Execution.Retry.Attempts.{Retried, Ends, retry_lem}
use tesserix_mcp_runtime.Execution.Deadline.{
  View, Stopping, bounded_deadline, execute, race, await_work, stop, abandon, expire,
  is_interrupted,
}
use tesserix_mcp_runtime.Execution.Deadline.Race.{Settled, execute-ok, execute-Settled}
use tesserix_mcp_runtime.Execution.Json.{
  passes, push_children, bounds, walk, enough_fuel, validate_json_value,
}
use tesserix_mcp_runtime.Execution.Json.Walk.{size, fits, validate_json_value_lem}

-- small limits: two of everything, and durations of a few ticks
abbrev small : ExecutionLimits
small = record { integers = λ name. 2; durations = λ name. 10 }

abbrev settings : Settings
settings = record { integers = λ name. integer (pos 2); durations = λ name. integer (pos 1) }

abbrev built : ExecutionLimits
built = record {
  integers = λ name. magnitude (settings.integers name);
  durations = λ name. ticks (settings.durations name);
}

settings_pass : Limits.build settings ≡ ok built
unfolding Limits.build each Limits.check_integer Limits.check_duration Limits.integer_maxima
    Limits.duration_maxima ticks unit is_huge
settings_pass = refl

settings-InRange :
    InRange built
    × ((name : IntegerLimit) → built.integers name ≡ magnitude (settings.integers name))
    × ((name : DurationLimit) → built.durations name ≡ ticks (settings.durations name))
settings-InRange = build-InRange settings built settings_pass

abbrev lease : Lease
lease = record { tool_name = "refund"; tenant = "acme" }

admit_iff_example :
    (HasRoom (init small) [] "refund" "acme"
      × ((admit (init small) "refund" "acme").1 ≡ some lease)
      × Inv (admit (init small) "refund" "acme").0 (lease ∷ []))
    ⊎ ((¬ HasRoom (init small) [] "refund" "acme")
        × ((admit (init small) "refund" "acme").1 ≡ none)
        × Inv (admit (init small) "refund" "acme").0 [])
admit_iff_example = admit_iff (init small) [] "refund" "acme" (init-Inv small)

abbrev busy : ExecutionController
busy = (admit (init small) "refund" "acme").0

admitted : admit (init small) "refund" "acme" ≡ (busy, some lease)
unfolding admit init reached get lookup empty
admitted = refl

busy-Inv : Inv busy (lease ∷ [])
busy-Inv = elim admit_iff_example [
  | inl (room, given, v) ↦ v
  | inr (full, given, v) ↦ absurd (cc (given, admitted))
]

release-Inv_example : ((release busy lease).1 ≡ ok tt) × Inv (release busy lease).0 []
release-Inv_example = release-Inv busy [] [] lease busy-Inv

within_limits_example :
    (busy.active ≡ pos 1)
    × (1 ≤ 2)
    × (1 ≤ 2)
    × ((tool : String) → occurrences tool (tools (lease ∷ [])) ≤ 2)
    × ((tenant : String) → occurrences tenant (tenants (lease ∷ [])) ≤ 2)
within_limits_example =
    within_limits small (enters (begins refl refl) "refund" "acme" lease admitted)

-- the first attempt finds the backend unavailable, the second one succeeds
abbrev flaky : ℕ → Attempt ℕ
flaky n =
    if leb n 1
    then record { outcome = err (code_failure ErrorCode.unavailable); now = 3; cancelled = false }
    else record { outcome = ok 7; now = 9; cancelled = false }

abbrev safe_call : Call
safe_call = record { limits = small; request_id = "q-1"; deadline = some 100; safe = true }

abbrev sample : String → ℕ → ℕ
sample id attempt = 0

retried_once : retry sample safe_call flaky ≡ (ok 7, 5 ∷ [])
unfolding retry retry_loop retry_delay attempts_of is_caught is_transient is_late
retried_once = refl

two_attempts : 1 ≤ attempts_of safe_call
unfolding attempts_of
two_attempts = omega arith

retry_lem_example :
    (length (retry sample safe_call flaky).1 + 1 ≤ attempts_of safe_call)
    × (true ≡ false → (retry sample safe_call flaky).1 ≡ [])
    × Retried sample safe_call flaky 1 (retry sample safe_call flaky).1
    × Ends sample safe_call flaky 1 (retry sample safe_call flaky)
retry_lem_example = retry_lem sample safe_call flaky two_attempts

abbrev stubborn : Stopping
stubborn = record {
  done_at_once = false;
  done_after_turn = false;
  done_in_grace = false;
  cancelled_in_turn = false;
  cancelled_in_grace = false;
  cancelled_at_end = false;
}

-- work that ends in time
abbrev quick : View ℕ
quick = record {
  cancelled_before = false;
  interrupted = false;
  caller_done = false;
  caller_cancelled = false;
  deadline_done = false;
  work = ok 3;
  stopping = stubborn;
  stopping_late = stubborn;
  cancelled_in_cleanup = false;
}

-- work that outlives its deadline and its grace period
abbrev slow : View ℕ
slow = record quick { deadline_done = true }

quick_ok : (execute small 5 (some 8) quick).result ≡ ok 3
unfolding execute race await_work bounded_deadline
quick_ok = refl

slow_started : (execute small 5 (some 8) slow).task.started ≡ true
unfolding execute race expire is_interrupted bounded_deadline stop
slow_started = refl

execute-ok_example : ((execute small 5 (some 8) quick).result ≡ ok 3) ↔ (
    (false ≡ false)
    × (5 < bounded_deadline small 5 (some 8))
    × (false ≡ false)
    × (false ≡ false)
    × (false ≡ false)
    × (false ≡ false)
    × (false ≡ false)
    × (quick.work ≡ ok 3))
execute-ok_example = execute-ok small 5 (some 8) quick 3

execute-Settled_example :
    (false ≡ false → Settled (execute small 5 (some 8) slow).task)
    × ((execute small 5 (some 8) slow).task.detached ≡ true
        → ((execute small 5 (some 8) slow).task.cancelled ≡ true)
          × ((false ≡ false) ⊎ (false ≡ false)))
    × ((execute small 5 (some 8) slow).task.cancelled ≡ true
        → (execute small 5 (some 8) slow).signalled ≡ true)
execute-Settled_example = execute-Settled small 5 (some 8) slow slow_started

-- a second cancellation, while `_stop` lets the loop turn: the work goes on, and nothing stops it
abbrev twice_cancelled : View ℕ
twice_cancelled = record quick {
  caller_done = true;
  stopping = record stubborn { cancelled_in_turn = true };
}

left_running :
    (execute small 5 (some 8) twice_cancelled).task
    ≡ record { started = true; awaited = false; cancelled = false; detached = false }
unfolding execute race abandon bounded_deadline stop
left_running = refl

-- ["a"]
abbrev document : Value
document = array (cons (text "a") nil)

abbrev float_length : ℤ → ℕ
float_length x = 3

document_accepted : validate_json_value float_length small 5 document ≡ ok tt
unfolding validate_json_value walk passes push_children count_items count_fields has_names
    json_length is_writable escaped_length utf8_length
document_accepted = refl

validate_json_value_lem_example :
    (walk (bounds small) (enough_fuel (bounds small)) 0 ((document, 1) ∷ []) ≢ none)
    × (validate_json_value float_length small 5 document ≡ (
        if leb (size document) (small.integers max_json_nodes)
          && fits (bounds small) document 1
          && is_writable document
          && leb (json_length float_length document) 5
        then ok tt
        else err limit_failure))
validate_json_value_lem_example = validate_json_value_lem float_length small 5 document
