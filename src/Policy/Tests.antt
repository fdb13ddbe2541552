-- ===== src/Policy/Tests.antt =====
-- Runs of the policy on a small catalog, and its theorems at these inputs.
use tesserix_mcp_runtime.Base.Sets.{sorted}
use tesserix_mcp_runtime.Base.{true, some, ◌≡◌, refl, [], ◌∷◌, contains, is_subset, is_unique}
use tesserix_mcp_runtime.Base.Dict.{get, put, lookup, insert, empty}
use tesserix_mcp_runtime.Base.Text.{is_stripped}
use tesserix_mcp_runtime.Contracts.Vocabulary.{ErrorCode}
use tesserix_mcp_runtime.Contracts.Failure.{ok, err, code_failure, each}
use tesserix_mcp_runtime.Contracts.Response.{require_text, is_text}
use tesserix_mcp_runtime.Json.{object, end}
use tesserix_mcp_runtime.Policy.Rules.{
  ToolPolicyRule, ToolPolicyState, approval_action_fingerprint, require_texts,
  tool_policy_fingerprint,
}
use tesserix_mcp_runtime.Policy.Setup.{
  ToolPolicy, by_name, rules_by_name, manifest_of, check_active, check_rules, build, is_exported,
}
use tesserix_mcp_runtime.Policy.Setup.Reviewed.{IsReviewed, build-IsReviewed}
use tesserix_mcp_runtime.Policy.Audit.{accepted, event_fields, append, record_decision, deny}
use tesserix_mcp_runtime.Policy.Authorize.{
  intersection, action, binds, spend, judge, authorize_approval, approve, decide, authorize,
}
use tesserix_mcp_runtime.Policy.Authorize.Logging.{NotPermitted}
use tesserix_mcp_runtime.Policy.Authorize.Grounds.{Granted, authorize-Granted}
use tesserix_mcp_runtime.Policy.Authorize.Denial.{authorize-NotPermitted}
use tesserix_mcp_runtime.Policy.Samples.{
  refund_rule, catalog, policy, surroundings, caller, stranger, called, journal,
}

allowed_once : (authorize surroundings policy caller (object end) called journal).1 ≡ ok tt
unfolding authorize manifest_of decide get lookup is_subset contains intersection approve
    authorize_approval judge binds action approval_action_fingerprint spend record_decision
    event_fields append sorted
allowed_once = refl

spent_once :
    (authorize surroundings policy caller (object end) called journal).0.consumed
    ≡ (("a-1", "f"), accepted) ∷ []
unfolding authorize manifest_of decide get lookup is_subset contains intersection approve
    authorize_approval judge binds action approval_action_fingerprint spend record_decision
    event_fields append sorted
spent_once = refl

denied_stranger :
    (authorize surroundings policy stranger (object end) called journal).1
    ≡ err (code_failure ErrorCode.invalid_input)
unfolding authorize manifest_of decide get lookup is_subset contains intersection deny
denied_stranger = refl

authorize-Granted_example :
    Granted surroundings policy caller
      (object end)
      called
      journal
      (authorize surroundings policy caller (object end) called journal).0
authorize-Granted_example =
    authorize-Granted surroundings policy caller (object end) called journal allowed_once

authorize-NotPermitted_example :
    NotPermitted journal (authorize surroundings policy stranger (object end) called journal).0
authorize-NotPermitted_example =
    authorize-NotPermitted surroundings policy stranger (object end) called journal
      (λ e. cc (denied_stranger, e))

abbrev built : ToolPolicy
built = record policy {
  fingerprints = by_name (tool_policy_fingerprint (λ v. "f")) catalog empty;
  rules = rules_by_name (refund_rule ∷ []) empty;
}

build_accepts :
    build (λ v. "f") catalog ("orders:read" ∷ "orders:write" ∷ []) (refund_rule ∷ []) true
    ≡ ok built
unfolding build require_texts each require_text is_text is_stripped is_unique contains check_rules
    check_active by_name get put lookup insert empty tool_policy_fingerprint
build_accepts = refl

exported : is_exported built "refund" ≡ true
unfolding is_exported rules_by_name get put lookup insert empty
exported = refl

build-IsReviewed_example :
    (r : ToolPolicyRule) × (get built.rules "refund" ≡ some r)
    × (r.tool_name ≡ "refund")
    × (r.state ≡ ToolPolicyState.active)
    × IsReviewed true
        (by_name (λ m. m) catalog empty)
        (by_name (tool_policy_fingerprint (λ v. "f")) catalog empty)
        r
build-IsReviewed_example =
    build-IsReviewed (λ v. "f") catalog ("orders:read" ∷ "orders:write" ∷ []) (refund_rule ∷ [])
      true built "refund" build_accepts exported
