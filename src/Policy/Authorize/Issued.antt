-- ===== src/Policy/Authorize/Issued.antt =====
-- Which calls an approval that was issued with `for_action` is good for.
use tesserix_mcp_runtime.Base.{true, String, ◌≡◌, arith, eq_iff, Number, ◌↔◌, sym, subst}
use tesserix_mcp_runtime.Contracts.Failure.{ok}
use tesserix_mcp_runtime.Contracts.Identity.{CallContext}
use tesserix_mcp_runtime.Json.{Value}
use tesserix_mcp_runtime.Manifest.{ToolManifest}
use tesserix_mcp_runtime.Execution.Limits.{ticks}
use tesserix_mcp_runtime.Policy.Rules.{
  ApprovalRecord, ApprovalUse, check_approval, for_action, tool_policy_fingerprint,
  approval_action_fingerprint,
}
use tesserix_mcp_runtime.Policy.Audit.{Surroundings}
use tesserix_mcp_runtime.Policy.Authorize.{action, binds}

check_approval-same :
    (fingerprint : Value → String) (expires_at : Number) (r built : ApprovalRecord)
    → check_approval fingerprint expires_at r ≡ ok built
    → built ≡ r
unfolding check_approval
check_approval-same fingerprint expires_at r built h = ground arith

module _ (env : Surroundings) (approval_id tenant subject : String) (manifest : ToolManifest)
    (arguments : Value) (expires_at : Number) (use_of : ApprovalUse) where
  -- the call asks under this approval, for this caller, tool and arguments
  pub record Matches (context : CallContext) (asked : Value) (called : ToolManifest)
      (called_fingerprint id : String) : Type 0 where
    pub same_approval : approval_id ≡ id
    pub same_tenant : tenant ≡ context.tenant
    pub same_subject : subject ≡ context.subject
    pub same_tool : manifest.metadata.name ≡ called.metadata.name
    pub same_contract : tool_policy_fingerprint env.fingerprint manifest ≡ called_fingerprint
    pub same_arguments : env.fingerprint arguments ≡ env.fingerprint asked

  abbrev issued : ApprovalRecord
  issued = record {
    approval_id = approval_id;
    action_fingerprint =
        approval_action_fingerprint env.fingerprint tenant subject manifest.metadata.name
          (tool_policy_fingerprint env.fingerprint manifest) (env.fingerprint arguments);
    tenant = tenant;
    subject = subject;
    tool_name = manifest.metadata.name;
    tool_fingerprint = tool_policy_fingerprint env.fingerprint manifest;
    arguments_fingerprint = env.fingerprint arguments;
    expires_at = ticks expires_at;
    use_of = use_of;
  }

  binds-Matches :
      (context : CallContext) (asked : Value) (called : ToolManifest)
      (called_fingerprint id : String)
      → binds env context asked called called_fingerprint id issued ≡ true
      → Matches context asked called called_fingerprint id
  unfolding binds
  binds-Matches context asked called called_fingerprint id h = record {
    same_approval = ground (arith, eq_iff approval_id id);
    same_tenant = ground (arith, eq_iff tenant context.tenant);
    same_subject = ground (arith, eq_iff subject context.subject);
    same_tool = ground (arith, eq_iff manifest.metadata.name called.metadata.name);
    same_contract =
        ground
          (arith, eq_iff (tool_policy_fingerprint env.fingerprint manifest) called_fingerprint);
    same_arguments = ground (arith, eq_iff (env.fingerprint arguments) (env.fingerprint asked));
  }

  Matches-binds :
      (context : CallContext) (asked : Value) (called : ToolManifest)
      (called_fingerprint id : String)
      → Matches context asked called called_fingerprint id
      → binds env context asked called called_fingerprint id issued ≡ true
  unfolding binds action
  Matches-binds context asked called called_fingerprint id m =
      let same_action : issued.action_fingerprint
          ≡ action env context asked called called_fingerprint =
        cc (m.same_tenant, m.same_subject, m.same_tool, m.same_contract, m.same_arguments) in
      ground (
        arith,
        same_action,
        m.same_approval,
        m.same_tenant,
        m.same_subject,
        m.same_tool,
        m.same_contract,
        m.same_arguments,
        eq_iff approval_id id,
        eq_iff tenant context.tenant,
        eq_iff subject context.subject,
        eq_iff manifest.metadata.name called.metadata.name,
        eq_iff (tool_policy_fingerprint env.fingerprint manifest) called_fingerprint,
        eq_iff (env.fingerprint arguments) (env.fingerprint asked),
        eq_iff issued.action_fingerprint (action env context asked called called_fingerprint),
      )

  -- An approval that is issued binds a call exactly when the call is made under its id, by its tenant
  -- and subject, of its tool with the reviewed fingerprint, and with arguments of its fingerprint.
  pub for_action-binds :
      (r : ApprovalRecord)
      → for_action env.fingerprint approval_id tenant subject manifest arguments expires_at use_of
        ≡ ok r
      → (context : CallContext) (asked : Value) (called : ToolManifest)
        (called_fingerprint id : String)
      → (binds env context asked called called_fingerprint id r ≡ true)
        ↔ Matches context asked called called_fingerprint id
  unfolding for_action
  for_action-binds r h context asked called called_fingerprint id =
      let built : issued ≡ r = sym (check_approval-same env.fingerprint expires_at issued r h) in
      subst
        (λ (x : ApprovalRecord).
          (binds env context asked called called_fingerprint id x ≡ true)
          ↔ Matches context asked called called_fingerprint id)
        built
        (
          binds-Matches context asked called called_fingerprint id,
          Matches-binds context asked called called_fingerprint id,
        )
