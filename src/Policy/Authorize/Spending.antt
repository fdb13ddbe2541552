-- ===== src/Policy/Authorize/Spending.antt =====
-- The uses of approvals that one call makes.
use tesserix_mcp_runtime.Base.{suc, String, [], ◌∷◌, ◌++◌, ◌≡◌, ◌⊎◌, inl, inr, arith, Option-cases}
use tesserix_mcp_runtime.Base.Dict.{get}
use tesserix_mcp_runtime.Contracts.Failure.{Result-cases}
use tesserix_mcp_runtime.Contracts.Identity.{CallContext}
use tesserix_mcp_runtime.Json.{Value}
use tesserix_mcp_runtime.Manifest.{ToolManifest}
use tesserix_mcp_runtime.Policy.Rules.{
  ToolPolicyDecision, ApprovalRecord, allowed, approval_denied, approval_required,
}
use tesserix_mcp_runtime.Policy.Setup.{ToolPolicy, manifest_of}
use tesserix_mcp_runtime.Policy.Audit.{
  Surroundings, Journal, Consumed, append, record_decision, deny, backend_unavailable,
}
use tesserix_mcp_runtime.Policy.Authorize.{
  Tool, fallback, action, spend, judge, authorize_approval, approve, decide, authorize,
}
use tesserix_mcp_runtime.Policy.Authorize.Approval.{Fetched-cases}

-- at most one more use is asked for
abbrev pub Spends : Journal → Journal → Type 0
Spends j j' =
    (j'.consumed ≡ j.consumed)
    ⊎ ((use_ : (String × String) × Consumed) × (j'.consumed ≡ j.consumed ++ use_ ∷ []))

module _ (env : Surroundings) (p : ToolPolicy) where
  record_decision-consumed :
      (context : CallContext) (d : ToolPolicyDecision) (m : ToolManifest) (j : Journal)
      → (record_decision env p context d m j).0.consumed ≡ j.consumed
  unfolding record_decision append
  record_decision-consumed context d m j = ground arith

  module _ (context : CallContext) (arguments : Value) where
    spend-Spends :
        (m : ToolManifest) (id act : String) (j : Journal)
        → Spends j (spend env p context arguments m id act j).0
    unfolding spend deny backend_unavailable
    spend-Spends m id act j =
        let answer = env.consume j.consumed id act in
        let j1 = record j { consumed = j.consumed ++ ((id, act), answer) ∷ [] } in
        inr (
          ((id, act), answer),
          ground (
            arith,
            record_decision-consumed context ToolPolicyDecision.policy_backend_unavailable m j1,
            record_decision-consumed context approval_denied m j1,
          ),
        )

    judge-Spends :
        (m : ToolManifest) (fp id : String) (r : ApprovalRecord) (j : Journal)
        → Spends j (judge env p context arguments m fp id r j).0
    unfolding judge deny
    judge-Spends m fp id r j =
        let j1 = record j { readings = suc j.readings } in
        ground (
          arith,
          spend-Spends m id (action env context arguments m fp) j1,
          record_decision-consumed context approval_denied m j,
          record_decision-consumed context approval_denied m j1,
        )

    authorize_approval-Spends :
        (m : ToolManifest) (j : Journal)
        → Spends j (authorize_approval env p context arguments m j).0
    unfolding authorize_approval deny backend_unavailable
    authorize_approval-Spends m j = elim (Option-cases context.approval_id) [
      | inl e ↦ ground (arith, e, record_decision-consumed context approval_required m j)
      | inr (id, e) ↦ elim (Fetched-cases (env.fetch id)) [
        | inl (inl f) ↦ ground (
          arith,
          e,
          f,
          record_decision-consumed context ToolPolicyDecision.policy_backend_unavailable m j,
        )
        | inl (inr f) ↦ ground (arith, e, f, record_decision-consumed context approval_denied m j)
        | inr (r, f) ↦ elim (Option-cases (get p.fingerprints m.metadata.name)) [
          | inl g ↦ ground (arith, e, f, g)
          | inr (fp, g) ↦ ground (arith, e, f, g, judge-Spends m fp id r j)
        ]
      ]
    ]

    approve-Spends :
        (m : ToolManifest) (j : Journal) → Spends j (approve env p context arguments m j).0
    unfolding approve
    approve-Spends m j =
        let asked = authorize_approval env p context arguments m j in
        elim (Result-cases asked.1) [
          | inr (e, f) ↦ ground (
            arith,
            f,
            authorize_approval-Spends m j,
            record_decision-consumed context allowed m j,
          )
          | inl (_, f) ↦ ground (
            arith,
            f,
            authorize_approval-Spends m j,
            record_decision-consumed context allowed m j,
            record_decision-consumed context allowed m asked.0,
          )
        ]

    decide-Spends :
        (m : ToolManifest) (j : Journal) → Spends j (decide env p context arguments m j).0
    unfolding decide deny
    decide-Spends m j = ground (
      arith,
      approve-Spends m j,
      record_decision-consumed context ToolPolicyDecision.policy_denied m j,
      record_decision-consumed context ToolPolicyDecision.scope_denied m j,
      record_decision-consumed context ToolPolicyDecision.idempotency_required m j,
    )

    pub authorize-Spends :
        (tool : Tool) (j : Journal) → Spends j (authorize env p context arguments tool j).0
    unfolding authorize deny
    authorize-Spends tool j = elim (Option-cases (manifest_of p.tools tool.definition)) [
      | inl e ↦ ground (
        arith,
        e,
        record_decision-consumed context ToolPolicyDecision.policy_denied
            (fallback env p context arguments tool) j,
      )
      | inr (m, e) ↦ ground (arith, e, decide-Spends m j)
    ]
