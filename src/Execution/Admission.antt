-- ===== src/Execution/Admission.antt =====
-- `ExecutionController.admit`, `release` and `_decrement`: the bulkheads of execution.py.
-- Counters are Python integers, so they are signed here. What the controller tells the
-- observability object is a list of events, the newest last.
pub mod Counts
pub mod Invariant
pub mod Histories
use tesserix_mcp_runtime.Base.{
  ℕ, Bool, true, false, String, Option, none, some, List, [], ◌∷◌, ◌++◌, ℤ, pos, negsuc, next,
  previous, reaches, if◌then◌else◌,
}
use tesserix_mcp_runtime.Base.Dict.{Dict, empty, get, put, remove}
use tesserix_mcp_runtime.Contracts.Failure.{Kind, Failure, Result, ok, err}
use tesserix_mcp_runtime.Execution.Limits.{
  ExecutionLimits, max_global_concurrency, max_server_concurrency, max_tool_concurrency,
  max_tenant_concurrency,
}

-- the limits that the runtime records
pub data RuntimeLimit : Type 0 where
  global server tool tenant input result drain circuit : RuntimeLimit

pub data Event : Type 0 where
  limit_recorded : String → RuntimeLimit → Event
  in_flight_changed : String → ℤ → Event

pub record Lease : Type 0 where
  pub tool_name : String
  pub tenant : String

pub record ExecutionController : Type 0 where
  pub limits : ExecutionLimits
  pub active : ℤ
  pub by_tool : Dict ℤ
  pub by_tenant : Dict ℤ
  pub events : List Event

unfoldable pub init : ExecutionLimits → ExecutionController
init l = record { limits = l; active = pos 0; by_tool = empty; by_tenant = empty; events = [] }

-- `counts.get(key, 0)`
abbrev pub or_zero : Option ℤ → ℤ
or_zero none = pos 0
or_zero (some n) = n

-- the first limit that is reached, in the order of the tests
unfoldable pub reached : ExecutionController → String → String → Option RuntimeLimit
reached c tool_name tenant_name =
    if reaches c.active (c.limits.integers max_global_concurrency)
    then some global
    else if reaches c.active (c.limits.integers max_server_concurrency)
    then some server
    else if reaches (or_zero (get c.by_tool tool_name)) (c.limits.integers max_tool_concurrency)
    then some tool
    else if reaches (or_zero (get c.by_tenant tenant_name))
        (c.limits.integers max_tenant_concurrency)
    then some tenant
    else none

unfoldable pub admit : ExecutionController → String → String → ExecutionController × Option Lease
admit c tool_name tenant_name = elim (reached c tool_name tenant_name) [
  | some limit ↦ (record c { events = c.events ++ limit_recorded tool_name limit ∷ [] }, none)
  | none ↦ (
    record c {
      active = next c.active;
      by_tool = put c.by_tool tool_name (next (or_zero (get c.by_tool tool_name)));
      by_tenant = put c.by_tenant tenant_name (next (or_zero (get c.by_tenant tenant_name)));
      events = c.events ++ in_flight_changed tool_name (pos 1) ∷ [];
    },
    some (record { tool_name = tool_name; tenant = tenant_name }),
  )
]

abbrev pub key_failure : Failure
key_failure = record { kind = Kind.key_error; type_name = "KeyError" }

-- `_decrement`: `counts[key]` raises KeyError on a missing key
unfoldable pub decrement : Dict ℤ → String → Result (Dict ℤ)
decrement counts key = elim (get counts key) [
  | none ↦ err key_failure
  | some n ↦ elim (previous n) [
    | pos ℕ.zero ↦ ok (remove counts key)
    | remaining ↦ ok (put counts key remaining)
  ]
]

-- `release`, and what it raises: the fields that it has written before a KeyError stay written
unfoldable pub release : ExecutionController → Lease → ExecutionController × Result (Unit {0})
release c lease =
    let c1 = record c { active = previous c.active } in
    elim (decrement c.by_tool lease.tool_name) [
      | err e ↦ (c1, err e)
      | ok by_tool ↦ elim (decrement c.by_tenant lease.tenant) [
        | err e ↦ (record c1 { by_tool = by_tool }, err e)
        | ok by_tenant ↦ (
          record c1 {
            by_tool = by_tool;
            by_tenant = by_tenant;
            events = c.events ++ in_flight_changed lease.tool_name (negsuc 0) ∷ [];
          },
          ok tt,
        )
      ]
    ]
