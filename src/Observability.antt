-- ===== src/Observability.antt =====
-- src/tesserix_mcp_runtime/observability.py: the counters of RuntimeObservability and what it hands to
-- an exporter.
--
-- A method with its export is one step: calls that overlap are not modelled. An exporter is what it
-- answers in one step: whether it takes the pending drops, and whether it takes the observation. A
-- capacity below 0 fails the test that 0 fails, so capacities are natural numbers. The sum of the
-- durations is rounded to a float at each step; past 2 ** 1024 it has no counterpart here. Spans, log events
-- and the rendering of the counters are not modelled.
pub mod Series
pub mod Durations
pub mod Capacity
pub mod Counted
pub mod InFlight
pub mod Recorded
pub mod Histories
mod Tests
use tesserix_mcp_runtime.Base.{
  ℕ, zero, suc, ◌+◌, ◌-◌, ◌*◌, ◌^◌, ◌/◌, ◌%◌, Bool, true, false, not, ◌&&◌, ◌||◌, String, Option,
  none, some, List, [], ◌∷◌, leb, ltb, ◌==◌, length, str_eq, ℤ, pos, negsuc, Number, integer,
  finite, unit, is_huge, is_some, if◌then◌else◌,
}
use tesserix_mcp_runtime.Base.Dict.{Dict, empty, get, put}
use tesserix_mcp_runtime.Base.Text.{codes, is_digit, is_letter, matches}
use tesserix_mcp_runtime.Contracts.Failure.{
  Result, ok, err, ◌>>=◌, ◌>>◌, check, value_failure, overflow_failure,
}
use tesserix_mcp_runtime.Application.{RuntimeOutcome, cancellation}
use tesserix_mcp_runtime.Execution.Admission.{RuntimeLimit}
use tesserix_mcp_runtime.Observability.Durations.{Histogram, observe, duration, histogram_of}
use tesserix_mcp_runtime.Observability.Series.{find, store}

pub data RuntimeOperation : Type 0 where
  mcp_request tool_call authorization tool_execution downstream : RuntimeOperation

-- `_dimension`
unfoldable pub is_dimension : List ℕ → Bool
unfolding matches
is_dimension =
    matches (λ c. is_letter c || is_digit c)
      (λ c. is_letter c || is_digit c || c == b'.' || c == b'_' || c == b'/' || c == b'-') 127

-- the tool name of an observation; without one it is "none"
unfoldable pub tool_dimension : Option String → Result String
tool_dimension none = ok "none"
tool_dimension (some tool) = do check (is_dimension (codes tool)); ok tool

pub record SeriesKey : Type 0 where
  pub operation : RuntimeOperation
  pub tool : String
  pub outcome : RuntimeOutcome

abbrev pub key_of : RuntimeOperation → String → RuntimeOutcome → SeriesKey
key_of operation tool outcome = record { operation = operation; tool = tool; outcome = outcome }

pub record Observability : Type 0 where
  pub requests : List (SeriesKey × Histogram)
  pub server_in_flight : ℕ
  pub server_capacity : Option ℕ
  pub tool_in_flight : Dict ℕ
  pub tool_capacity : Dict ℕ
  pub retries : Dict ℕ
  pub limits : List ((RuntimeLimit × String) × ℕ)
  pub cancellations : Dict ℕ
  pub dropped_events : ℕ
  pub pending_drops : ℕ

-- `RuntimeObservability.__init__`
unfoldable pub init : Observability
init = record {
  requests = [];
  server_in_flight = 0;
  server_capacity = none;
  tool_in_flight = empty;
  tool_capacity = empty;
  retries = empty;
  limits = [];
  cancellations = empty;
  dropped_events = 0;
  pending_drops = 0;
}

-- what the exporter does in one step
pub record Exporter : Type 0 where
  pub takes_drops : Bool
  pub takes_observation : Bool

-- an event that is not recorded for want of room
unfoldable pub drop : Observability → Observability
drop s = record s { dropped_events = s.dropped_events + 1 }

-- `record_dropped`
unfoldable pub lose : ℕ → Observability → Observability
lose count s = record s {
  dropped_events = s.dropped_events + count;
  pending_drops = s.pending_drops + count;
}

unfoldable pub record_dropped : ℕ → Observability → Result Observability
record_dropped count s = do check (leb 1 count && leb count 1000000); ok (lose count s)

-- `_export`: the pending drops go first, then the observation
unfoldable pub flush : Bool → Observability → Observability
flush takes_drops s = if takes_drops then record s { pending_drops = 0 } else s

unfoldable pub export : Option Exporter → Observability → Observability
export none s = s
export (some e) s =
    let flushed = flush (e.takes_drops && not (s.pending_drops == 0)) s in
    if e.takes_observation then flushed else lose 1 flushed

abbrev pub count_of : Option ℕ → ℕ
count_of none = 0
count_of (some n) = n

-- `record_retry`
unfoldable pub add_retry : Option Exporter → String → Observability → Observability
add_retry exporter tool s =
    if not (is_some (get s.retries tool)) && leb 128 (length s.retries.entries)
    then drop s
    else export exporter
        (record s { retries = put s.retries tool (count_of (get s.retries tool) + 1) })

unfoldable pub record_retry : Option Exporter → String → Observability → Result Observability
record_retry exporter tool s = do check (is_dimension (codes tool)); ok (add_retry exporter tool s)

-- the `.value` of the enumerations
abbrev limit_value : RuntimeLimit → String
limit_value RuntimeLimit.global = "global"
limit_value RuntimeLimit.server = "server"
limit_value RuntimeLimit.tool = "tool"
limit_value RuntimeLimit.tenant = "tenant"
limit_value RuntimeLimit.input = "input"
limit_value RuntimeLimit.result = "result"
limit_value RuntimeLimit.drain = "drain"
limit_value RuntimeLimit.circuit = "circuit"

abbrev operation_value : RuntimeOperation → String
operation_value mcp_request = "mcp_request"
operation_value tool_call = "tool_call"
operation_value authorization = "authorization"
operation_value tool_execution = "tool_execution"
operation_value downstream = "downstream"

abbrev outcome_value : RuntimeOutcome → String
outcome_value RuntimeOutcome.success = "success"
outcome_value RuntimeOutcome.policy_refusal = "policy_refusal"
outcome_value RuntimeOutcome.tool_failure = "tool_failure"
outcome_value RuntimeOutcome.timeout = "timeout"
outcome_value RuntimeOutcome.cancellation = "cancellation"
outcome_value RuntimeOutcome.overload = "overload"
outcome_value RuntimeOutcome.dependency_outage = "dependency_outage"
outcome_value RuntimeOutcome.invalid_input = "invalid_input"
outcome_value RuntimeOutcome.limit_exceeded = "limit_exceeded"

-- equal keys
unfoldable pub same_limit : RuntimeLimit × String → RuntimeLimit × String → Bool
same_limit (l, tool) (m, other) = str_eq (limit_value l) (limit_value m) && str_eq tool other

unfoldable pub same_series : SeriesKey → SeriesKey → Bool
same_series a b =
    str_eq (operation_value a.operation) (operation_value b.operation)
    && str_eq a.tool b.tool
    && str_eq (outcome_value a.outcome) (outcome_value b.outcome)

-- `record_limit`: at most `len(RuntimeLimit) * (_MAX_TOOLS + 1)` series
unfoldable pub add_limit : Option Exporter → RuntimeLimit × String → Observability → Observability
add_limit exporter key s =
    if not (is_some (find same_limit s.limits key)) && leb (8 * 129) (length s.limits)
    then drop s
    else export exporter (record s {
      limits = store same_limit s.limits key (count_of (find same_limit s.limits key) + 1);
    })

unfoldable pub record_limit :
    Option Exporter → Option String → RuntimeLimit → Observability → Result Observability
record_limit exporter tool_name limit s = do
  tool ← tool_dimension tool_name
  ok (add_limit exporter (limit, tool) s)

-- `record_call`
unfoldable pub add_cancellation : String → RuntimeOutcome → Dict ℕ → Dict ℕ
add_cancellation tool cancellation d = put d tool (count_of (get d tool) + 1)
add_cancellation tool outcome d = d

unfoldable pub add_call : Option Exporter → SeriesKey → ℕ → Observability → Observability
add_call exporter key value s =
    if not (is_some (find same_series s.requests key)) && leb 2048 (length s.requests)
    then drop s
    else export exporter (record s {
      requests =
          store same_series s.requests key
            (observe value (histogram_of (find same_series s.requests key)));
      cancellations = add_cancellation key.tool key.outcome s.cancellations;
    })

unfoldable pub record_call :
    Option Exporter
    → RuntimeOperation
    → Option String
    → RuntimeOutcome
    → Number
    → Observability
    → Result Observability
record_call exporter operation tool_name outcome duration_seconds s = do
  tool ← tool_dimension tool_name
  value ← duration duration_seconds
  ok (add_call exporter (key_of operation tool outcome) value s)
