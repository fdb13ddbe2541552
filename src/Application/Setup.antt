-- ===== src/Application/Setup.antt =====
-- `ApplicationLimits.__post_init__`, and `Application._validate_configuration` with
-- `_validated_component_name`.
pub mod Names
mod Tests
use tesserix_mcp_runtime.Base.{
  ℕ, ◌+◌, ◌*◌, Bool, true, false, not, ◌&&◌, String, Option, none, some, List, [], ◌∷◌, leb, ltb,
  contains, Number, integer, finite, is_huge, unit, if◌then◌else◌,
}
use tesserix_mcp_runtime.Base.Text.{codes}
use tesserix_mcp_runtime.Contracts.Failure.{
  Kind, Failure, FieldPath, Result, ok, err, ◌>>=◌, ◌>>◌, check, each, overflow_failure,
}
use tesserix_mcp_runtime.Contracts.Metadata.{is_tool_name}
use tesserix_mcp_runtime.Execution.Limits.{ticks}

-- one round of the loop of `ApplicationLimits.__post_init__`, with the maximum in seconds
unfoldable pub check_timeout : Number × ℕ → Result (Unit {0})
check_timeout (value, maximum) = elim value [
  | integer n ↦
      if is_huge n
      then err overflow_failure
      else check (ltb 0 (ticks (integer n)) && leb (ticks (integer n)) (maximum * unit))
  | finite n ↦ check (ltb 0 (ticks (finite n)) && leb (ticks (finite n)) (maximum * unit))
  | _ ↦ check false
]

-- `drain_timeout` and `readiness_timeout`
unfoldable pub check_limits : Number → Number → Result (Unit {0})
check_limits drain_timeout readiness_timeout =
    each check_timeout ((drain_timeout, 300) ∷ (readiness_timeout, 5) ∷ [])

-- what reading `component.name` gives: it raises, an object that is no text, or a text
pub data Name : Type 0 where
  raises no_text : Name
  text : String → Name

-- a component: whether it implements its protocol, and its name
pub record Candidate : Type 0 where
  pub is_instance : Bool
  pub name : Name

abbrev pub configuration_error : String → FieldPath → Failure
configuration_error code path = record {
  kind = Kind.configuration code path;
  type_name = "ApplicationConfigurationError";
}

-- `_COMPONENT_NAME` is the pattern of a tool's name.
unfoldable pub component_name : FieldPath → Name → Result String
component_name path (text name) =
    if is_tool_name (codes name)
    then ok name
    else err (configuration_error "invalid_component_name" path)
component_name path _ = err (configuration_error "invalid_component_name" path)

-- the loops over `lifecycle` and `readiness_checks`
unfoldable pub check_names : String → ℕ → List Candidate → List String → Result (Unit {0})
check_names collection index [] names = ok tt
check_names collection index (c ∷ cs) names =
    if not c.is_instance
    then err (configuration_error "invalid_dependency" (FieldPath.item collection index ""))
    else elim (component_name (FieldPath.item collection index "name") c.name) [
      | err e ↦ err e
      | ok name ↦
          if contains name names
          then err (
              configuration_error "duplicate_component_name"
                (FieldPath.item collection index "name"))
          else check_names collection (index + 1) cs (name ∷ names)
    ]

unfoldable pub check_dependency : String × Bool → Result (Unit {0})
check_dependency (path, is_instance) =
    if is_instance
    then ok tt
    else err (configuration_error "invalid_dependency" (FieldPath.field path))

-- the name of `_InvocationLifecycle`
abbrev pub reserved_name : String
reserved_name = "in_flight_invocations"

-- whether each dependency implements its protocol
pub record Dependencies : Type 0 where
  pub catalog : Bool
  pub authorizer : Bool
  pub transport : Bool
  pub telemetry : Bool
  pub limits : Bool
  pub clock : Bool
  pub execution_limits : Bool
  pub redactor : Bool
  pub observability : Bool

-- `dependencies` of `_validate_configuration`
unfoldable pub dependencies_of : Dependencies → List (String × Bool)
dependencies_of d =
    ("catalog", d.catalog)
    ∷ ("authorizer", d.authorizer)
    ∷ ("transport", d.transport)
    ∷ ("telemetry", d.telemetry)
    ∷ ("limits", d.limits)
    ∷ ("clock", d.clock)
    ∷ ("execution_limits", d.execution_limits)
    ∷ ("redactor", d.redactor)
    ∷ ("observability", d.observability)
    ∷ []

-- the arguments of `_validate_configuration`, as far as it looks at them
pub record Configuration : Type 0 where
  pub dependencies : Dependencies
  pub tools : ℕ
  pub max_tools : ℕ
  pub transport : Name
  pub lifecycle : List Candidate
  pub readiness_checks : List Candidate

unfoldable pub validate_configuration : Configuration → Result (Unit {0})
unfolding dependencies_of
validate_configuration c = do
  each check_dependency (dependencies_of c.dependencies)
  (if leb c.tools c.max_tools
      then ok tt
      else err (configuration_error "tool_limit_exceeded" (FieldPath.field "catalog")))
  transport ← component_name (FieldPath.field "transport.name") c.transport
  (if contains transport (reserved_name ∷ [])
      then err (configuration_error "duplicate_component_name" (FieldPath.field "transport.name"))
      else ok tt)
  check_names "lifecycle" 0 c.lifecycle (transport ∷ reserved_name ∷ [])
  check_names "readiness_checks" 0 c.readiness_checks []
