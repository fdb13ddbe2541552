-- ===== src/Lib.antt =====
-- Verification of tesserix-mcp-runtime, the Python runtime that hosts MCP tools.
--
-- The runtime turns a tool call into a governed execution: a call context with an authenticated
-- identity is checked by the tool policy, admitted by the bulkheads of the execution controller, run
-- against a deadline with bounded retries, and answered by one public result; a lifecycle controller
-- starts and stops the components around it.
--
-- Files, and the code they are about; the Python modules are in src/tesserix_mcp_runtime/, from the
-- repository's root:
--   Base        shared names: Boolean tests, lists, Python numbers, `dict` and text
--   Contracts   contracts.py: enumerations, error tables, identity, context and
--               metadata records. A data class is a record, and its `__post_init__` a check that
--               returns it or raises; Failure has Python exceptions as values
--   Errors      errors.py: `map_exception`, its two views of a failure, `TerminalEmitter`
--   Lifecycle   lifecycle.py: `LifecycleController`, its hooks as an environment that answers from the
--               calls made before; a log keeps the order of the calls
--   Execution   execution.py: Limits (`ExecutionLimits`), Admission (`admit`, `release`), Retry
--               (`retry`, `_retry_delay`), Deadline (`execute`, `_stop`, `bounded_context`), Json
--               (`validate_json_value`)
--   Json        the Python objects that a JSON check sees, and the length of their canonical text
--   Manifest    tool_manifest.py: the value that a tool's fingerprint is taken of
--   Policy      policy.py: Rules (records and checks), Setup (the constructor), Audit (events, journal),
--               Authorize (`authorize`, `_authorize_approval`)
--   Application application.py: Failures (`_mapped_failure`, `_redact_result`, `_safe_request_id`), Serve
--               (`_invoke`), Invoke (`invoke`, with the checks of its records), Setup (the checks of the configuration), Listing
--               (`list_tools`), Run (`run`). A call is a pure function of the application
--               and of what the outside answers: the authorizer, the attempts of the handler, the event
--               loop, and what other calls do to the application meanwhile
--   Schema      schema_compatibility.py: the bounds (Schema), Equality (Python's `==`), Keywords (the other
--               keywords), Resolve (`_resolve`), Compare (`_is_superset`, `classify_schema_change`)
--   Tool        tool.py: Violation (`ContractViolation`), the limits (Tool), Keywords and Validate (the walk
--               over a schema), Register (`validate_schema`), Catalog (`MetadataPolicy`, `ToolCatalog`)
--   Migration   migration.py: routes, surfaces and `compare_migration_surfaces`
--   Observability observability.py: the counters of RuntimeObservability, with Capacity
--               (`change_in_flight`); a method and its export are one step
--   Redaction   redaction.py: the checked walk and the transformation of a JSON value; Decimal and Keys:
--               the suffix of a key that is taken
--
-- Conventions. Python's `int` is signed and unbounded where the code counts with it; a finite float is
-- a whole number of ticks of 2 ^ -1074, and sums of floats are exact but for the total of a histogram.
-- `raise` is the constructor `err` of `Result`. What is not in the repository is a parameter: SHA-256
-- and the canonical encoding (`fingerprint`), `str.casefold`, the substitutions in a redacted text,
-- the text of a float, the wall clock, the approval store, the audit sink, component hooks and the
-- event loop's choices.
--
-- Fuel. `walk` of Execution.Json takes one unit for each node and the code raises past
-- `max_json_nodes`, so two units more are enough; its theorem says so. `decimal_digits` of Json.Text
-- divides a number by ten with the number itself as fuel; Json.Text.Digits shows that this is enough.
-- `resolve` of Schema.Resolve has one unit more than there are definitions, and `is_superset` of
-- Schema.Compare one more than the budget of 10000 comparisons, which each comparison draws on;
-- Resolve.Ends and Compare.Ends show that this is enough. The walk of Tool.Validate recurses on
-- the levels that `max_depth` leaves. `unused_key` of Redaction has two units more than the mapping
-- has keys; Redaction.Keys shows that this is enough. `exponent` of Observability has more units than
-- a float has exponents. Other loops are structural.
--
-- Not modelled: the interpreter's limit on nested calls, which ends the comparison of a recursive
-- schema with RecursionError before its budget does; transports, spans and logs, registry
-- discovery, the patterns of redaction, and the packages beside the runtime.
pub mod Base
pub mod Contracts
pub mod Errors
pub mod Lifecycle
pub mod Execution
pub mod Json
pub mod Manifest
pub mod Policy
pub mod Application
pub mod Migration
pub mod Observability
pub mod Redaction
pub mod Schema
pub mod Tool
