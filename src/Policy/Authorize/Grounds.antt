-- ===== src/Policy/Authorize/Grounds.antt =====
-- On what grounds a call is authorized.
use tesserix_mcp_runtime.Base.{
  true, String, some, List, [], ◌∷◌, contains, is_subset, is_some, eq_iff, ◌≡◌, ◌⊎◌, inl, inr,
  arith, Bool-cases, Option-cases, is_subset-contains, sym, subst,
}
use tesserix_mcp_runtime.Base.Dict.{get}
use tesserix_mcp_runtime.Contracts.Vocabulary.{ToolEffect, ApprovalRequirement, needs_approval}
use tesserix_mcp_runtime.Contracts.Failure.{ok, Result-cases}
use tesserix_mcp_runtime.Contracts.Identity.{CallContext}
use tesserix_mcp_runtime.Json.{Value}
use tesserix_mcp_runtime.Manifest.{ToolManifest}
use tesserix_mcp_runtime.Policy.Rules.{ToolPolicyState, ToolPolicyRule, allowed}
use tesserix_mcp_runtime.Policy.Setup.{ToolPolicy, manifest_of}
use tesserix_mcp_runtime.Policy.Audit.{
  Surroundings, Journal, record_decision, deny, backend_unavailable,
}
use tesserix_mcp_runtime.Policy.Authorize.{
  Tool, intersection, spend, judge, authorize_approval, approve, decide, authorize,
}
use tesserix_mcp_runtime.Policy.Authorize.Logging.{Logged, Logged-same, record_decision-Logged}
use tesserix_mcp_runtime.Policy.Authorize.Approval.{Approved, authorize_approval-ok}

contains-intersection :
    (s : String) (xs ys : List String)
    → contains s (intersection xs ys) ≡ true
    → (contains s xs ≡ true) × (contains s ys ≡ true)
unfolding contains intersection
contains-intersection s [] ys h = absurd (ground arith)
contains-intersection s (x ∷ xs) ys h =
    let ih = contains-intersection s xs ys in
    (ground (arith, ih, eq_iff x s), ground (arith, ih, eq_iff x s))

module _ (env : Surroundings) (p : ToolPolicy) (context : CallContext) (arguments : Value) where
  -- what the approval stage of a granted call shows
  abbrev ApprovedIfNeeded : ToolManifest → Journal → Journal → Type 0
  ApprovedIfNeeded m j j' =
      m.metadata.approval ≡ ApprovalRequirement.required
      → (between : Journal) × Approved env p context arguments m j between
        × (j'.consumed ≡ between.consumed)

  pub authorize_approval-quiet :
      (m : ToolManifest) (j : Journal)
      → (authorize_approval env p context arguments m j).1 ≡ ok tt
      → (authorize_approval env p context arguments m j).0.audit ≡ j.audit
  unfolding authorize_approval judge spend deny backend_unavailable
  authorize_approval-quiet m j h = ground arith

  pub permit-Logged :
      (m : ToolManifest) (j : Journal)
      → (record_decision env p context allowed m j).1 ≡ ok tt
      → Logged allowed j (record_decision env p context allowed m j).0
        × ((record_decision env p context allowed m j).0.consumed ≡ j.consumed)
  permit-Logged m j h = elim (record_decision-Logged env p context allowed m j) [
    | inl (_, logged, same) ↦ (logged, same)
    | inr (not_ok, _) ↦ absurd (not_ok h)
  ]

  approve-ok :
      (m : ToolManifest) (j : Journal)
      → (approve env p context arguments m j).1 ≡ ok tt
      → ApprovedIfNeeded m j (approve env p context arguments m j).0
        × Logged allowed j (approve env p context arguments m j).0
  unfolding approve
  approve-ok m j h = elim (Bool-cases (needs_approval m.metadata.approval)) [
    | inl needs ↦
        let asked = authorize_approval env p context arguments m j in
        elim (Result-cases asked.1) [
          | inr (e, refused_) ↦ absurd (ground (arith, needs, refused_))
          | inl (done, granted) ↦
              let same : approve env p context arguments m j
                  ≡ record_decision env p context allowed m asked.0 =
                ground (arith, needs, granted) in
              let (logged, kept) = permit-Logged m asked.0 (subst (λ x. x.1 ≡ ok tt) same h) in
              let quiet = authorize_approval-quiet m j granted in
              (
                (λ _. (
                  asked.0,
                  authorize_approval-ok env p context arguments m j granted,
                  subst (λ x. x.0.consumed ≡ asked.0.consumed) (sym same) kept,
                )),
                subst (λ x. Logged allowed j x.0) (sym same)
                    (Logged-same allowed j asked.0
                      (record_decision env p context allowed m asked.0).0 quiet logged),
              )
        ]
    | inr free ↦
        let same : approve env p context arguments m j ≡ record_decision env p context allowed m j =
          ground (arith, free) in
        (
          (λ needs. absurd (ground (arith, free, needs))),
          subst (λ x. Logged allowed j x.0) (sym same)
              (permit-Logged m j (subst (λ x. x.1 ≡ ok tt) same h)).0,
        )
  ]

  -- The grounds on which a call is allowed.
  pub record Granted (tool : Tool) (j j' : Journal) : Type 0 where
    pub manifest : ToolManifest
    pub rule : ToolPolicyRule
    pub known : manifest_of p.tools tool.definition ≡ some manifest
    pub ruled : get p.rules manifest.metadata.name ≡ some rule
    pub active : rule.state ≡ ToolPolicyState.active
    pub authority :
        (scope : String)
        → contains scope manifest.metadata.required_scopes ≡ true
        → (contains scope context.scopes ≡ true)
          × (contains scope p.server_scopes ≡ true)
          × (contains scope rule.allowed_scopes ≡ true)
    pub idempotent :
        (manifest.metadata.effect ≡ ToolEffect.read) ⊎ (is_some context.idempotency_key ≡ true)
    pub approved : ApprovedIfNeeded manifest j j'
    pub logged : Logged allowed j j'

  scopes_within :
      (m : ToolManifest) (r : ToolPolicyRule)
      → is_subset m.metadata.required_scopes
          (intersection (intersection context.scopes p.server_scopes) r.allowed_scopes)
        ≡ true
      → (scope : String) → contains scope m.metadata.required_scopes ≡ true
      → (contains scope context.scopes ≡ true)
        × (contains scope p.server_scopes ≡ true)
        × (contains scope r.allowed_scopes ≡ true)
  scopes_within m r h scope needed =
      let both = intersection context.scopes p.server_scopes in
      let inside = contains-intersection scope both r.allowed_scopes (
        is_subset-contains scope m.metadata.required_scopes (intersection both r.allowed_scopes) h
          needed) in
      let (own, server) = contains-intersection scope context.scopes p.server_scopes inside.0 in
      (own, server, inside.1)

  decide-ok :
      (tool : Tool) (m : ToolManifest) (j : Journal)
      → manifest_of p.tools tool.definition ≡ some m
      → (decide env p context arguments m j).1 ≡ ok tt
      → Granted tool j (decide env p context arguments m j).0
  unfolding decide deny
  decide-ok tool m j known h = elim (Option-cases (get p.rules m.metadata.name)) [
    | inl e ↦ absurd (ground (arith, e))
    | inr (rule, e) ↦
        let same : decide env p context arguments m j ≡ approve env p context arguments m j =
          ground (arith, e) in
        let (approved, logged) = approve-ok m j (subst (λ x. x.1 ≡ ok tt) same h) in
        record {
          manifest = m;
          rule = rule;
          known = known;
          ruled = e;
          active = ground (arith, e);
          authority = scopes_within m rule (ground (arith, e));
          idempotent = ground (arith, e);
          approved = subst (λ x. ApprovedIfNeeded m j x.0) (sym same) approved;
          logged = subst (λ x. Logged allowed j x.0) (sym same) logged;
        }
  ]

  -- A call is allowed only for a tool of the catalog under an active rule, when every scope that the
  -- tool requires is held by the caller, the server and the rule, with an idempotency key unless the
  -- tool only reads, and with an unexpired approval that binds this very call if the tool needs one,
  -- consumed now if it is for one use; the one event that is logged is the permission.
  pub authorize-Granted :
      (tool : Tool) (j : Journal)
      → (authorize env p context arguments tool j).1 ≡ ok tt
      → Granted tool j (authorize env p context arguments tool j).0
  unfolding authorize deny
  authorize-Granted tool j h = elim (Option-cases (manifest_of p.tools tool.definition)) [
    | inl e ↦ absurd (ground (arith, e))
    | inr (m, e) ↦
        let same : authorize env p context arguments tool j ≡ decide env p context arguments m j =
          ground (arith, e) in
        subst (λ x. Granted tool j x.0) (sym same)
          (decide-ok tool m j e (subst (λ x. x.1 ≡ ok tt) same h))
  ]
