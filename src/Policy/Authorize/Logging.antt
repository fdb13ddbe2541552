-- ===== src/Policy/Authorize/Logging.antt =====
-- What the audit log shows after an event was recorded, or could not be.
use tesserix_mcp_runtime.Base.{
  ℕ, some, List, [], ◌∷◌, ◌++◌, ◌≡◌, ◌≢◌, ◌⊎◌, inl, inr, arith, Bool-cases, Option-cases, ap, ◌∙◌,
}
use tesserix_mcp_runtime.Contracts.Vocabulary.{ErrorCode}
use tesserix_mcp_runtime.Contracts.Failure.{ok}
use tesserix_mcp_runtime.Contracts.Identity.{CallContext}
use tesserix_mcp_runtime.Manifest.{ToolManifest}
use tesserix_mcp_runtime.Policy.Rules.{ToolPolicyDecision, allowed, policy_backend_unavailable}
use tesserix_mcp_runtime.Policy.Setup.{ToolPolicy}
use tesserix_mcp_runtime.Policy.Audit.{
  Surroundings, Journal, ToolPolicyAuditEvent, event_fields, append, record_decision, deny,
  backend_unavailable,
}

-- one event with this decision was appended, and nothing else
abbrev pub Logged : ToolPolicyDecision → Journal → Journal → Type 0
Logged d j j' = (e : ToolPolicyAuditEvent) × (j'.audit ≡ j.audit ++ e ∷ []) × (e.decision ≡ d)

-- nothing was appended, or one event that is not a permission
abbrev pub NotPermitted : Journal → Journal → Type 0
NotPermitted j j' =
    (j'.audit ≡ j.audit) ⊎ ((d : ToolPolicyDecision) × (d ≢ allowed) × Logged d j j')

pub Logged-same :
    (d : ToolPolicyDecision) (j k j' : Journal) → k.audit ≡ j.audit → Logged d k j' → Logged d j j'
Logged-same d j k j' e (ev, a, b) =
    (ev, a ∙ ap (λ (log : List ToolPolicyAuditEvent). log ++ ev ∷ []) e, b)

module _ (env : Surroundings) (p : ToolPolicy) (context : CallContext) where
  event_fields-decision :
      (d : ToolPolicyDecision) (m : ToolManifest) (at : ℕ → ToolPolicyAuditEvent)
      → event_fields env p context d m ≡ some at
      → (now : ℕ) → (at now).decision ≡ d
  unfolding event_fields
  event_fields-decision d m at h now = ground arith

  pub record_decision-Logged :
      (d : ToolPolicyDecision) (m : ToolManifest) (j : Journal)
      → (((record_decision env p context d m j).1 ≡ ok tt)
          × Logged d j (record_decision env p context d m j).0
          × ((record_decision env p context d m j).0.consumed ≡ j.consumed))
        ⊎ (((record_decision env p context d m j).1 ≢ ok tt)
            × ((record_decision env p context d m j).0.audit ≡ j.audit))
  unfolding record_decision append
  record_decision-Logged d m j = elim (Option-cases (event_fields env p context d m)) [
    | inl e ↦ inr ((λ h. ground (arith, e)), ground (arith, e))
    | inr (at, e) ↦ elim (Option-cases (env.clock j.readings)) [
      | inl f ↦ inr ((λ h. ground (arith, e, f)), ground (arith, e, f))
      | inr (now, f) ↦ elim (Bool-cases (env.sink_accepts j.audit (at now))) [
        | inl g ↦ inl (
          ground (arith, e, f, g),
          (at now, ground (arith, e, f, g), event_fields-decision d m at e now),
          ground (arith, e, f, g),
        )
        | inr g ↦ inr ((λ h. ground (arith, e, f, g)), ground (arith, e, f, g))
      ]
    ]
  ]

  pub deny-NotPermitted :
      (d : ToolPolicyDecision) (code : ErrorCode) (m : ToolManifest) (j : Journal)
      → d ≢ allowed
      → NotPermitted j (deny env p context d code m j).0
  unfolding deny
  deny-NotPermitted d code m j n = elim (record_decision-Logged d m j) [
    | inl (_, logged, _) ↦ inr (d, n, logged)
    | inr (_, same) ↦ inl same
  ]

  pub backend-NotPermitted :
      (m : ToolManifest) (j : Journal) → NotPermitted j (backend_unavailable env p context m j).0
  unfolding backend_unavailable
  backend-NotPermitted m j = elim (record_decision-Logged policy_backend_unavailable m j) [
    | inl (_, logged, _) ↦ inr (policy_backend_unavailable, (λ e. cc), logged)
    | inr (_, same) ↦ inl same
  ]
