-- ===== src/Application/Setup/Tests.antt =====
-- A configuration that is accepted, and the theorem on it.
use tesserix_mcp_runtime.Base.{true, [], ◌∷◌, ◌≡◌, refl}
use tesserix_mcp_runtime.Contracts.Failure.{ok}
use tesserix_mcp_runtime.Base.Text.{codes}
use tesserix_mcp_runtime.Base.{contains, is_unique, All, ◌≤◌}
use tesserix_mcp_runtime.Contracts.Failure.{each}
use tesserix_mcp_runtime.Contracts.Metadata.{is_tool_name}
use tesserix_mcp_runtime.Application.Setup.{
  text, Configuration, check_dependency, component_name, check_names, reserved_name,
  validate_configuration,
}
use tesserix_mcp_runtime.Application.Setup.Names.{
  AllPresent, text_of, names_onto, IsNamed, validate_configuration-ok,
}

abbrev configuration : Configuration
configuration = record {
  dependencies = record {
    catalog = true;
    authorizer = true;
    transport = true;
    telemetry = true;
    limits = true;
    clock = true;
    execution_limits = true;
    redactor = true;
    observability = true;
  };
  tools = 1;
  max_tools = 9;
  transport = text "http";
  lifecycle = record { is_instance = true; name = text "store" } ∷ [];
  readiness_checks = record { is_instance = true; name = text "store" } ∷ [];
}

accepted : validate_configuration configuration ≡ ok tt
unfolding validate_configuration each check_dependency component_name is_tool_name contains
    check_names
accepted = refl

validate_configuration-ok_example :
    AllPresent configuration.dependencies
    × (is_tool_name (codes (text_of configuration.transport)) ≡ true)
    × (1 ≤ 9)
    × All IsNamed configuration.lifecycle
    × (is_unique (
          names_onto configuration.lifecycle (text_of configuration.transport ∷ reserved_name ∷ []))
        ≡ true)
    × All IsNamed configuration.readiness_checks
    × (is_unique (names_onto configuration.readiness_checks []) ≡ true)
validate_configuration-ok_example = validate_configuration-ok configuration accepted
