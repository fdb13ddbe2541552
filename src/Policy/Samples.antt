-- ===== src/Policy/Samples.antt =====
-- A catalog with one tool, a policy on it, and what surrounds it, for the tests.
use tesserix_mcp_runtime.Base.{◌+◌, true, false, none, some, List, [], ◌∷◌}
use tesserix_mcp_runtime.Contracts.Vocabulary.{
  ToolEffect, ApprovalRequirement, IdempotencyRequirement,
}
use tesserix_mcp_runtime.Contracts.Identity.{CallContext}
use tesserix_mcp_runtime.Contracts.Metadata.{ToolMetadata}
use tesserix_mcp_runtime.Json.{object, end}
use tesserix_mcp_runtime.Manifest.{ToolManifest}
use tesserix_mcp_runtime.Policy.Rules.{ToolPolicyRule, ToolPolicyState, ApprovalRecord, ApprovalUse}
use tesserix_mcp_runtime.Policy.Setup.{CatalogTool, ToolPolicy}
use tesserix_mcp_runtime.Policy.Audit.{Surroundings, Journal, found, accepted}
use tesserix_mcp_runtime.Policy.Authorize.{Tool}

abbrev pub refund : ToolMetadata
refund = record {
  name = "refund";
  title = "Refund";
  description = "Refund an order.";
  effect = ToolEffect.external_effect;
  approval = ApprovalRequirement.required;
  idempotency = IdempotencyRequirement.required;
  required_scopes = "orders:write" ∷ [];
  discovery = none;
}

abbrev pub refund_manifest : ToolManifest
refund_manifest = record {
  metadata = refund;
  normalized_name = "refund";
  input_schema = object end;
  output_schema = object end;
}

abbrev pub refund_rule : ToolPolicyRule
refund_rule = record {
  tool_name = "refund";
  reviewed_fingerprint = "f";
  allowed_scopes = "orders:write" ∷ [];
  state = ToolPolicyState.active;
  review = some (record {
    review_id = "r-1";
    author_subject = "ann";
    reviewer_subject = "ben";
    reviewed_fingerprint = "f";
  });
}

abbrev pub catalog : List CatalogTool
catalog = record { definition = 1; manifest = refund_manifest } ∷ []

abbrev pub policy : ToolPolicy
policy = record {
  server_scopes = "orders:read" ∷ "orders:write" ∷ [];
  rules = record { entries = ("refund", refund_rule) ∷ [] };
  fingerprints = record { entries = ("refund", "f") ∷ [] };
  tools = catalog;
  has_store = true;
}

abbrev pub approval : ApprovalRecord
approval = record {
  approval_id = "a-1";
  action_fingerprint = "f";
  tenant = "acme";
  subject = "cat";
  tool_name = "refund";
  tool_fingerprint = "f";
  arguments_fingerprint = "f";
  expires_at = 100;
  use_of = ApprovalUse.one_time;
}

abbrev pub surroundings : Surroundings
surroundings = record {
  fingerprint = λ v. "f";
  digest = λ s. "d";
  casefold = λ s. s;
  redact = λ s. some s;
  clock = λ k. some (10 + k);
  sink_accepts = λ log e. true;
  fetch = λ id. found approval;
  consume = λ log id act. accepted;
}

abbrev pub caller : CallContext
caller = record {
  identity = record {
    tenant = "acme";
    subject = "cat";
    issuer = "idp";
    scopes = "orders:write" ∷ "orders:read" ∷ [];
  };
  request_id = "q-1";
  run_id = "n-1";
  deadline = none;
  cancelled = false;
  idempotency_key = some "k-1";
  approval_id = some "a-1";
}

abbrev pub stranger : CallContext
stranger = record caller {
  identity = record {
    tenant = "acme";
    subject = "cat";
    issuer = "idp";
    scopes = "orders:read" ∷ [];
  };
}

abbrev pub called : Tool
called = record {
  definition = 1;
  metadata = refund;
  input_schema = object end;
  output_schema = object end;
}

abbrev pub journal : Journal
journal = record { audit = []; readings = 0; consumed = [] }
