-- ===== src/Policy/Authorize.antt =====
-- `ToolPolicy.authorize` and `_authorize_approval`.
pub mod Logging
pub mod Approval
pub mod Grounds
pub mod Denial
pub mod Spending
pub mod Replay
pub mod Issued
mod Tests
use tesserix_mcp_runtime.Base.{
  ℕ, suc, Bool, true, false, not, ◌&&◌, ◌||◌, String, Option, none, some, List, [], ◌∷◌, ◌++◌, leb,
  contains, is_subset, is_some, str_eq, if◌then◌else◌,
}
use tesserix_mcp_runtime.Base.Dict.{get}
use tesserix_mcp_runtime.Contracts.Vocabulary.{ErrorCode, is_read, needs_approval}
use tesserix_mcp_runtime.Contracts.Failure.{Kind, Failure, Result, ok, err, code_failure}
use tesserix_mcp_runtime.Contracts.Identity.{CallContext}
use tesserix_mcp_runtime.Contracts.Metadata.{ToolMetadata}
use tesserix_mcp_runtime.Json.{Value}
use tesserix_mcp_runtime.Manifest.{ToolManifest}
use tesserix_mcp_runtime.Policy.Rules.{
  ToolPolicyDecision, ApprovalRecord, allowed, approval_denied, approval_required,
  idempotency_required, policy_denied, scope_denied, is_active, is_one_time,
  approval_action_fingerprint,
}
use tesserix_mcp_runtime.Policy.Setup.{ToolPolicy, manifest_of}
use tesserix_mcp_runtime.Policy.Audit.{
  Surroundings, Journal, fetch_raises, missing, found, consume_raises, refused, accepted,
  record_decision, deny, backend_unavailable,
}

-- the tool that is called, as a definition of some catalog
pub record Tool : Type 0 where
  pub definition : ℕ
  pub metadata : ToolMetadata
  pub input_schema : Value
  pub output_schema : Value

-- `set(a) & set(b)`, in the order of `a`
unfoldable pub intersection : List String → List String → List String
intersection [] ys = []
intersection (x ∷ xs) ys = if contains x ys then x ∷ intersection xs ys else intersection xs ys

abbrev key_failure : Failure
key_failure = record { kind = Kind.key_error; type_name = "KeyError" }

module _ (env : Surroundings) (context : CallContext) (arguments : Value) where
  -- the action that this call would perform
  unfoldable pub action : ToolManifest → String → String
  action manifest tool_fingerprint =
      approval_action_fingerprint env.fingerprint context.tenant context.subject
        manifest.metadata.name tool_fingerprint (env.fingerprint arguments)

  -- the record is for this approval, caller, tool, arguments and action
  unfoldable pub binds : ToolManifest → String → String → ApprovalRecord → Bool
  binds manifest tool_fingerprint approval_id r =
      str_eq r.approval_id approval_id
      && str_eq r.tenant context.tenant
      && str_eq r.subject context.subject
      && str_eq r.tool_name manifest.metadata.name
      && str_eq r.tool_fingerprint tool_fingerprint
      && str_eq r.arguments_fingerprint (env.fingerprint arguments)
      && str_eq r.action_fingerprint (action manifest tool_fingerprint)

module _ (env : Surroundings) (p : ToolPolicy) (context : CallContext) (arguments : Value) where
  -- the fallback manifest of `_deny`
  abbrev fallback : Tool → ToolManifest
  fallback tool = record {
    metadata = tool.metadata;
    normalized_name = env.casefold tool.metadata.name;
    input_schema = tool.input_schema;
    output_schema = tool.output_schema;
  }

  abbrev denied : ToolManifest → Journal → Journal × Result (Unit {0})
  denied manifest j = deny env p context approval_denied ErrorCode.approval_required manifest j

  -- the use of a one-time approval
  unfoldable pub spend : ToolManifest → String → String → Journal → Journal × Result (Unit {0})
  spend manifest approval_id act j =
      let answer = env.consume j.consumed approval_id act in
      let j1 = record j { consumed = j.consumed ++ ((approval_id, act), answer) ∷ [] } in
      elim answer [
        | consume_raises ↦ backend_unavailable env p context manifest j1
        | refused ↦ denied manifest j1
        | accepted ↦ (j1, ok tt)
      ]

  -- the checks of a record that was fetched; the clock is read last
  unfoldable pub judge :
      ToolManifest → String → String → ApprovalRecord → Journal → Journal × Result (Unit {0})
  judge manifest tool_fingerprint approval_id r j =
      if not (binds env context arguments manifest tool_fingerprint approval_id r)
      then denied manifest j
      else elim (env.clock j.readings) [
        | none ↦ (record j { readings = suc j.readings }, err (code_failure ErrorCode.unavailable))
        | some now ↦
            let j1 = record j { readings = suc j.readings } in
            if leb r.expires_at now
            then denied manifest j1
            else if is_one_time r.use_of
            then spend manifest approval_id (action env context arguments manifest tool_fingerprint)
                j1
            else (j1, ok tt)
      ]

  -- `_authorize_approval`
  unfoldable pub authorize_approval : ToolManifest → Journal → Journal × Result (Unit {0})
  authorize_approval manifest j = elim context.approval_id [
    | none ↦ deny env p context approval_required ErrorCode.approval_required manifest j
    | some approval_id ↦ elim (env.fetch approval_id) [
      | fetch_raises ↦ backend_unavailable env p context manifest j
      | missing ↦ denied manifest j
      | found r ↦ elim (get p.fingerprints manifest.metadata.name) [
        | none ↦ (j, err key_failure)
        | some tool_fingerprint ↦ judge manifest tool_fingerprint approval_id r j
      ]
    ]
  ]

  abbrev permit : ToolManifest → Journal → Journal × Result (Unit {0})
  permit manifest j = record_decision env p context allowed manifest j

  -- the approval, if one is needed, and the final audit event
  unfoldable pub approve : ToolManifest → Journal → Journal × Result (Unit {0})
  approve manifest j =
      if needs_approval manifest.metadata.approval
      then elim (authorize_approval manifest j).1 [
        | err e ↦ ((authorize_approval manifest j).0, err e)
        | ok done ↦ permit manifest (authorize_approval manifest j).0
      ]
      else permit manifest j

  -- the checks on a tool of the catalog
  unfoldable pub decide : ToolManifest → Journal → Journal × Result (Unit {0})
  decide manifest j = elim (get p.rules manifest.metadata.name) [
    | none ↦ deny env p context policy_denied ErrorCode.invalid_input manifest j
    | some rule ↦
        if not (is_active rule.state)
        then deny env p context policy_denied ErrorCode.invalid_input manifest j
        else if not (
            is_subset manifest.metadata.required_scopes
              (intersection (intersection context.scopes p.server_scopes) rule.allowed_scopes))
        then deny env p context scope_denied ErrorCode.invalid_input manifest j
        else if not (is_read manifest.metadata.effect) && not (is_some context.idempotency_key)
        then deny env p context idempotency_required ErrorCode.conflict manifest j
        else approve manifest j
  ]

  -- `authorize`
  unfoldable pub authorize : Tool → Journal → Journal × Result (Unit {0})
  authorize tool j = elim (manifest_of p.tools tool.definition) [
    | none ↦ deny env p context policy_denied ErrorCode.invalid_input (fallback tool) j
    | some manifest ↦ decide manifest j
  ]
