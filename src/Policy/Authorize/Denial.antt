-- ===== src/Policy/Authorize/Denial.antt =====
-- The audit log of a call that is not allowed.
use tesserix_mcp_runtime.Base.{
  suc, String, [], ◌∷◌, ◌++◌, ◌≡◌, ◌≢◌, inl, inr, arith, Bool-cases, Option-cases,
}
use tesserix_mcp_runtime.Base.Dict.{get}
use tesserix_mcp_runtime.Contracts.Vocabulary.{ErrorCode, needs_approval}
use tesserix_mcp_runtime.Contracts.Failure.{ok, Result-cases}
use tesserix_mcp_runtime.Contracts.Identity.{CallContext}
use tesserix_mcp_runtime.Json.{Value}
use tesserix_mcp_runtime.Manifest.{ToolManifest}
use tesserix_mcp_runtime.Policy.Rules.{
  ApprovalRecord, allowed, approval_denied, approval_required, idempotency_required, policy_denied,
  scope_denied,
}
use tesserix_mcp_runtime.Policy.Setup.{ToolPolicy, manifest_of}
use tesserix_mcp_runtime.Policy.Audit.{Surroundings, Journal, record_decision, deny}
use tesserix_mcp_runtime.Policy.Authorize.{
  fallback, Tool, action, spend, judge, authorize_approval, approve, decide, authorize,
}
use tesserix_mcp_runtime.Policy.Authorize.Logging.{
  NotPermitted, record_decision-Logged, deny-NotPermitted, backend-NotPermitted,
}
use tesserix_mcp_runtime.Policy.Authorize.Grounds.{authorize_approval-quiet}
use tesserix_mcp_runtime.Policy.Authorize.Approval.{Fetched-cases}

module _ (env : Surroundings) (p : ToolPolicy) (context : CallContext) (arguments : Value) where
  denied-NotPermitted :
      (m : ToolManifest) (j : Journal)
      → NotPermitted j (deny env p context approval_denied ErrorCode.approval_required m j).0
  denied-NotPermitted m j =
      deny-NotPermitted env p context approval_denied ErrorCode.approval_required m j (λ e. cc)

  spend-NotPermitted :
      (m : ToolManifest) (id act : String) (j : Journal)
      → NotPermitted j (spend env p context arguments m id act j).0
  unfolding spend
  spend-NotPermitted m id act j =
      let j1 = record j {
        consumed = j.consumed ++ ((id, act), env.consume j.consumed id act) ∷ [];
      } in
      ground (arith, backend-NotPermitted env p context m j1, denied-NotPermitted m j1)

  judge-NotPermitted :
      (m : ToolManifest) (fp id : String) (r : ApprovalRecord) (j : Journal)
      → NotPermitted j (judge env p context arguments m fp id r j).0
  unfolding judge
  judge-NotPermitted m fp id r j =
      let j1 = record j { readings = suc j.readings } in
      ground (
        arith,
        denied-NotPermitted m j,
        denied-NotPermitted m j1,
        spend-NotPermitted m id (action env context arguments m fp) j1,
      )

  authorize_approval-NotPermitted :
      (m : ToolManifest) (j : Journal)
      → NotPermitted j (authorize_approval env p context arguments m j).0
  unfolding authorize_approval
  authorize_approval-NotPermitted m j = elim (Option-cases context.approval_id) [
    | inl e ↦ ground (
      arith,
      e,
      deny-NotPermitted env p context approval_required ErrorCode.approval_required m j (λ x. cc),
    )
    | inr (id, e) ↦ elim (Fetched-cases (env.fetch id)) [
      | inl (inl f) ↦ ground (arith, e, f, backend-NotPermitted env p context m j)
      | inl (inr f) ↦ ground (arith, e, f, denied-NotPermitted m j)
      | inr (r, f) ↦ elim (Option-cases (get p.fingerprints m.metadata.name)) [
        | inl g ↦ ground (arith, e, f, g)
        | inr (fp, g) ↦ ground (arith, e, f, g, judge-NotPermitted m fp id r j)
      ]
    ]
  ]

  unlogged :
      (m : ToolManifest) (j : Journal)
      → (record_decision env p context allowed m j).1 ≢ ok tt
      → (record_decision env p context allowed m j).0.audit ≡ j.audit
  unlogged m j n = elim (record_decision-Logged env p context allowed m j) [
    | inl (is_ok, _, _) ↦ absurd (n is_ok)
    | inr (_, same) ↦ same
  ]

  approve-NotPermitted :
      (m : ToolManifest) (j : Journal)
      → (approve env p context arguments m j).1 ≢ ok tt
      → NotPermitted j (approve env p context arguments m j).0
  unfolding approve
  approve-NotPermitted m j n = elim (Bool-cases (needs_approval m.metadata.approval)) [
    | inl needs ↦
        let asked = authorize_approval env p context arguments m j in
        elim (Result-cases asked.1) [
          | inr (e, failed) ↦ ground (arith, needs, failed, authorize_approval-NotPermitted m j)
          | inl (done, granted) ↦
              let quiet = authorize_approval-quiet env p context arguments m j granted in
              ground (arith, needs, granted, quiet, unlogged m asked.0)
        ]
    | inr free ↦ ground (arith, free, unlogged m j)
  ]

  decide-NotPermitted :
      (m : ToolManifest) (j : Journal)
      → (decide env p context arguments m j).1 ≢ ok tt
      → NotPermitted j (decide env p context arguments m j).0
  unfolding decide
  decide-NotPermitted m j n = ground (
    arith,
    deny-NotPermitted env p context policy_denied ErrorCode.invalid_input m j (λ e. cc),
    deny-NotPermitted env p context scope_denied ErrorCode.invalid_input m j (λ e. cc),
    deny-NotPermitted env p context idempotency_required ErrorCode.conflict m j (λ e. cc),
    approve-NotPermitted m j,
  )

  -- A call that is not allowed, for whatever reason, leaves at most one event in the audit log, and
  -- that event is no permission: a permission in the log means that the call went on.
  pub authorize-NotPermitted :
      (tool : Tool) (j : Journal)
      → (authorize env p context arguments tool j).1 ≢ ok tt
      → NotPermitted j (authorize env p context arguments tool j).0
  unfolding authorize
  authorize-NotPermitted tool j n = elim (Option-cases (manifest_of p.tools tool.definition)) [
    | inl e ↦ ground (
      arith,
      e,
      deny-NotPermitted env p context policy_denied ErrorCode.invalid_input
          (fallback env p context arguments tool) j (λ x. cc),
    )
    | inr (m, e) ↦ ground (arith, e, decide-NotPermitted m j)
  ]
