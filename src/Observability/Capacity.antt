-- ===== src/Observability/Capacity.antt =====
-- `change_in_flight` of RuntimeObservability: the calls in flight against the capacities.
use tesserix_mcp_runtime.Base.{
  ℕ, zero, suc, ◌+◌, Bool, ◌&&◌, String, Option, none, some, leb, ◌==◌, length, ℤ, pos, negsuc,
  if◌then◌else◌,
}
use tesserix_mcp_runtime.Base.Dict.{get, put}
use tesserix_mcp_runtime.Base.Text.{codes}
use tesserix_mcp_runtime.Contracts.Failure.{Result, ok, ◌>>◌, check}
use tesserix_mcp_runtime.Observability.{
  is_dimension, Observability, Exporter, drop, export, count_of,
}

-- a count after `delta`, which is 1 or -1; none below 0
unfoldable pub moved : ℕ → ℤ → Option ℕ
moved n (pos k) = some (n + k)
moved zero (negsuc k) = none
moved (suc n) (negsuc zero) = some n
moved (suc n) (negsuc (suc k)) = moved n (negsuc k)

abbrev pub is_unit : ℤ → Bool
is_unit (pos n) = n == 1
is_unit (negsuc n) = n == 0

-- the two counts move together, or the event is dropped
unfoldable pub settle :
    Option Exporter → String → ℕ → ℕ → Option ℕ → Option ℕ → Observability → Observability
settle exporter tool server_capacity tool_capacity (some server) (some in_tool) s =
    if leb server server_capacity && leb in_tool tool_capacity
    then export exporter
        (record s { server_in_flight = server; tool_in_flight = put s.tool_in_flight tool in_tool })
    else drop s
settle exporter tool server_capacity tool_capacity server in_tool s = drop s

unfoldable pub move_in_flight : Option Exporter → String → ℤ → ℕ → ℕ → Observability → Observability
move_in_flight exporter tool delta server_capacity tool_capacity s =
    settle exporter tool server_capacity tool_capacity (moved s.server_in_flight delta)
      (moved (count_of (get s.tool_in_flight tool)) delta) s

-- a tool that is new gets its capacity
unfoldable pub admit_tool :
    Option Exporter → String → ℤ → ℕ → ℕ → Option ℕ → Observability → Observability
admit_tool exporter tool delta server_capacity tool_capacity none s =
    if leb 128 (length s.tool_capacity.entries)
    then drop s
    else move_in_flight exporter tool delta server_capacity tool_capacity (record s {
      tool_capacity = put s.tool_capacity tool tool_capacity;
      tool_in_flight = put s.tool_in_flight tool 0;
    })
admit_tool exporter tool delta server_capacity tool_capacity (some known) s =
    if known == tool_capacity
    then move_in_flight exporter tool delta server_capacity tool_capacity s
    else drop s

unfoldable pub admit_server :
    Option Exporter → String → ℤ → ℕ → ℕ → Option ℕ → Observability → Observability
admit_server exporter tool delta server_capacity tool_capacity none s =
    admit_tool exporter tool delta server_capacity tool_capacity (get s.tool_capacity tool)
      (record s { server_capacity = some server_capacity })
admit_server exporter tool delta server_capacity tool_capacity (some known) s =
    if known == server_capacity
    then admit_tool exporter tool delta server_capacity tool_capacity (get s.tool_capacity tool) s
    else drop s

-- `change_in_flight`
unfoldable pub change_in_flight :
    Option Exporter → String → ℤ → ℕ → ℕ → Observability → Result Observability
change_in_flight exporter tool delta server_capacity tool_capacity s = do
  check (is_dimension (codes tool))
  check (is_unit delta)
  check (
      leb 1 server_capacity
      && leb server_capacity 256
      && leb 1 tool_capacity
      && leb tool_capacity 128)
  ok (admit_server exporter tool delta server_capacity tool_capacity s.server_capacity s)
