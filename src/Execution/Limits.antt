-- ===== src/Execution/Limits.antt =====
-- `ExecutionLimits`: the settings, the hard maxima, and the check of one against the other.
pub mod Range
use tesserix_mcp_runtime.Base.{
  ℕ, ◌*◌, ◌/◌, Bool, true, false, ◌&&◌, Option, none, some, List, [], ◌∷◌, leb, ltb, ℤ, pos, negsuc,
  Number, integer, finite, unit, is_huge, if◌then◌else◌,
}
use tesserix_mcp_runtime.Contracts.Failure.{
  Result, ok, err, ◌>>=◌, ◌>>◌, check, each, overflow_failure,
}

-- the names of `_INTEGER_MAXIMA`
pub data IntegerLimit : Type 0 where
  max_input_bytes max_result_bytes max_json_depth max_object_properties : IntegerLimit
  max_array_items max_json_nodes max_tools max_global_concurrency : IntegerLimit
  max_server_concurrency max_tool_concurrency max_tenant_concurrency max_attempts : IntegerLimit

-- the names of `_DURATION_MAXIMA`
pub data DurationLimit : Type 0 where
  max_call_seconds max_tool_seconds cancellation_grace_seconds : DurationLimit
  retry_base_delay_seconds retry_max_delay_seconds : DurationLimit

unfoldable pub integer_maxima : List (IntegerLimit × ℕ)
integer_maxima =
    (max_input_bytes, 65536)
    ∷ (max_result_bytes, 524288)
    ∷ (max_json_depth, 32)
    ∷ (max_object_properties, 256)
    ∷ (max_array_items, 4096)
    ∷ (max_json_nodes, 16384)
    ∷ (max_tools, 128)
    ∷ (max_global_concurrency, 256)
    ∷ (max_server_concurrency, 256)
    ∷ (max_tool_concurrency, 128)
    ∷ (max_tenant_concurrency, 64)
    ∷ (max_attempts, 5)
    ∷ []

-- in seconds; all of these floats are whole
unfoldable pub duration_maxima : List (DurationLimit × ℕ)
duration_maxima =
    (max_call_seconds, 300)
    ∷ (max_tool_seconds, 300)
    ∷ (cancellation_grace_seconds, 5)
    ∷ (retry_base_delay_seconds, 1)
    ∷ (retry_max_delay_seconds, 5)
    ∷ []

-- the keyword arguments of the data class
pub record Settings : Type 0 where
  pub integers : IntegerLimit → Number
  pub durations : DurationLimit → Number

-- an instance: durations are in ticks
pub record ExecutionLimits : Type 0 where
  pub integers : IntegerLimit → ℕ
  pub durations : DurationLimit → ℕ

abbrev pub magnitude : Number → ℕ
magnitude (integer (pos n)) = n
magnitude _ = 0

unfoldable pub ticks : Number → ℕ
ticks (integer (pos n)) = n * unit
ticks (finite (pos n)) = n
ticks _ = 0

-- one round of the first loop of `__post_init__`
unfoldable pub check_integer : Settings → IntegerLimit × ℕ → Result (Unit {0})
check_integer s (name, maximum) = elim (s.integers name) [
  | integer n ↦ check (leb 1 (magnitude (integer n)) && leb (magnitude (integer n)) maximum)
  | _ ↦ check false
]

-- one round of the second loop
unfoldable pub check_duration : Settings → DurationLimit × ℕ → Result (Unit {0})
check_duration s (name, maximum) = elim (s.durations name) [
  | integer n ↦
      if is_huge n
      then err overflow_failure
      else check (ltb 0 (ticks (integer n)) && leb (ticks (integer n)) (maximum * unit))
  | finite n ↦ check (ltb 0 (ticks (finite n)) && leb (ticks (finite n)) (maximum * unit))
  | _ ↦ check false
]

-- `__post_init__`
unfoldable pub build : Settings → Result ExecutionLimits
build s = do
  each (check_integer s) integer_maxima
  each (check_duration s) duration_maxima
  check (
      leb (ticks (s.durations retry_base_delay_seconds))
        (ticks (s.durations retry_max_delay_seconds)))
  ok (record {
    integers = λ name. magnitude (s.integers name);
    durations = λ name. ticks (s.durations name);
  })
