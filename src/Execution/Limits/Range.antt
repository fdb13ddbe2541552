-- ===== src/Execution/Limits/Range.antt =====
-- Limits that are built, against the hard maxima.
use tesserix_mcp_runtime.Base.{ℕ, ◌*◌, ◌≤◌, ◌<◌, ◌≡◌, refl, arith, All, unit, leb→le}
use tesserix_mcp_runtime.Contracts.Failure.{ok}
use tesserix_mcp_runtime.Contracts.Laws.{each-ok, check-ok}
use tesserix_mcp_runtime.Execution.Limits.{
  IntegerLimit, DurationLimit, integer_maxima, duration_maxima, Settings, ExecutionLimits,
  magnitude, ticks, check_integer, check_duration, build, retry_base_delay_seconds,
  retry_max_delay_seconds, max_input_bytes, max_result_bytes, max_json_depth, max_object_properties,
  max_array_items, max_json_nodes, max_tools, max_global_concurrency, max_server_concurrency,
  max_tool_concurrency, max_tenant_concurrency, max_attempts, max_call_seconds, max_tool_seconds,
  cancellation_grace_seconds,
}

-- the hard maximum of each limit, by name
abbrev pub maximum : IntegerLimit → ℕ
maximum max_input_bytes = 65536
maximum max_result_bytes = 524288
maximum max_json_depth = 32
maximum max_object_properties = 256
maximum max_array_items = 4096
maximum max_json_nodes = 16384
maximum max_tools = 128
maximum max_global_concurrency = 256
maximum max_server_concurrency = 256
maximum max_tool_concurrency = 128
maximum max_tenant_concurrency = 64
maximum max_attempts = 5

abbrev pub maximum_seconds : DurationLimit → ℕ
maximum_seconds max_call_seconds = 300
maximum_seconds max_tool_seconds = 300
maximum_seconds cancellation_grace_seconds = 5
maximum_seconds retry_base_delay_seconds = 1
maximum_seconds retry_max_delay_seconds = 5

pub record InRange (l : ExecutionLimits) : Type 0 where
  pub integers : (name : IntegerLimit) → (1 ≤ l.integers name) × (l.integers name ≤ maximum name)
  pub durations :
      (name : DurationLimit)
      → (0 < l.durations name) × (l.durations name ≤ maximum_seconds name * unit)
  pub retry : l.durations retry_base_delay_seconds ≤ l.durations retry_max_delay_seconds

check_integer-range :
    (s : Settings) (name : IntegerLimit) (most : ℕ)
    → check_integer s (name, most) ≡ ok tt
    → (1 ≤ magnitude (s.integers name)) × (magnitude (s.integers name) ≤ most)
unfolding check_integer
check_integer-range s name most h = (ground arith, ground arith)

check_duration-range :
    (s : Settings) (name : DurationLimit) (most : ℕ)
    → check_duration s (name, most) ≡ ok tt
    → (0 < ticks (s.durations name)) × (ticks (s.durations name) ≤ most * unit)
unfolding check_duration
check_duration-range s name most h = (ground arith, ground arith)

built_integer :
    (s : Settings)
    → All (λ p. check_integer s p ≡ ok tt) integer_maxima
    → (name : IntegerLimit) → check_integer s (name, maximum name) ≡ ok tt
unfolding integer_maxima
built_integer s h max_input_bytes = ground arith
built_integer s h name = ground arith

built_duration :
    (s : Settings)
    → All (λ p. check_duration s p ≡ ok tt) duration_maxima
    → (name : DurationLimit) → check_duration s (name, maximum_seconds name) ≡ ok tt
unfolding duration_maxima
built_duration s h max_call_seconds = ground arith
built_duration s h name = ground arith

-- Settings are accepted only if every integer limit is between 1 and its hard maximum, every
-- duration is positive and at most its hard maximum, and the first retry delay is not above the
-- greatest; the limits that are built then have the values of the settings.
pub build-InRange :
    (s : Settings) (l : ExecutionLimits)
    → build s ≡ ok l
    → InRange l
      × ((name : IntegerLimit) → l.integers name ≡ magnitude (s.integers name))
      × ((name : DurationLimit) → l.durations name ≡ ticks (s.durations name))
unfolding build
build-InRange s l h =
    let integers_ok = built_integer s (each-ok (check_integer s) integer_maxima (ground arith)) in
    let durations_ok =
      built_duration s (each-ok (check_duration s) duration_maxima (ground arith)) in
    let built : l ≡ record {
      integers = λ name. magnitude (s.integers name);
      durations = λ name. ticks (s.durations name);
    } =
      ground arith in
    rw built (
      record {
        integers = λ name. check_integer-range s name (maximum name) (integers_ok name);
        durations = λ name. check_duration-range s name (maximum_seconds name) (durations_ok name);
        retry = leb→le _ _ (check-ok _ (ground arith));
      },
      (λ name. refl),
      (λ name. refl),
    )
