-- ===== src/Policy/Authorize/Approval.antt =====
-- On what an approval is granted.
use tesserix_mcp_runtime.Base.{
  ℕ, ◌<◌, true, String, some, [], ◌∷◌, ◌++◌, ◌≡◌, refl, ◌⊎◌, inl, inr, arith, Option-cases, sym,
  subst,
}
use tesserix_mcp_runtime.Base.Dict.{get}
use tesserix_mcp_runtime.Contracts.Failure.{ok}
use tesserix_mcp_runtime.Contracts.Identity.{CallContext}
use tesserix_mcp_runtime.Json.{Value}
use tesserix_mcp_runtime.Manifest.{ToolManifest}
use tesserix_mcp_runtime.Policy.Rules.{ApprovalRecord, ApprovalUse}
use tesserix_mcp_runtime.Policy.Setup.{ToolPolicy}
use tesserix_mcp_runtime.Policy.Audit.{
  Surroundings, Journal, Fetched, fetch_raises, missing, found, accepted, deny, backend_unavailable,
}
use tesserix_mcp_runtime.Policy.Authorize.{action, binds, spend, judge, authorize_approval}

pub Fetched-cases :
    (f : Fetched) → ((f ≡ fetch_raises) ⊎ (f ≡ missing)) ⊎ ((r : ApprovalRecord) × (f ≡ found r))
Fetched-cases fetch_raises = inl (inl refl)
Fetched-cases missing = inl (inr refl)
Fetched-cases (found r) = inr (r, refl)

module _ (env : Surroundings) (p : ToolPolicy) (context : CallContext) (arguments : Value) where
  -- What an approval was granted on: a record that the store has under the given id, that binds this
  -- very call, that has not expired, and that was consumed now if it is good for one use.
  pub record Approved (m : ToolManifest) (j j' : Journal) : Type 0 where
    pub approval_id : String
    pub approval : ApprovalRecord
    pub tool_fingerprint : String
    pub now : ℕ
    pub given : context.approval_id ≡ some approval_id
    pub fetched : env.fetch approval_id ≡ found approval
    pub known : get p.fingerprints m.metadata.name ≡ some tool_fingerprint
    pub bound : binds env context arguments m tool_fingerprint approval_id approval ≡ true
    pub read : env.clock j.readings ≡ some now
    pub unexpired : now < approval.expires_at
    pub spent :
        approval.use_of ≡ ApprovalUse.one_time
        → (env.consume j.consumed approval_id (action env context arguments m tool_fingerprint)
            ≡ accepted)
          × (j'.consumed
              ≡ j.consumed
                ++ ((approval_id, action env context arguments m tool_fingerprint), accepted) ∷ [])
    pub kept : approval.use_of ≡ ApprovalUse.reusable → j'.consumed ≡ j.consumed

  judge-ok :
      (m : ToolManifest) (fp id : String) (r : ApprovalRecord) (j : Journal)
      → context.approval_id ≡ some id
      → env.fetch id ≡ found r
      → get p.fingerprints m.metadata.name ≡ some fp
      → (judge env p context arguments m fp id r j).1 ≡ ok tt
      → Approved m j (judge env p context arguments m fp id r j).0
  unfolding judge spend deny backend_unavailable
  judge-ok m fp id r j given fetched known h = elim (Option-cases (env.clock j.readings)) [
    | inl e ↦ absurd (ground (arith, e))
    | inr (now, e) ↦ record {
      approval_id = id;
      approval = r;
      tool_fingerprint = fp;
      now = now;
      given = given;
      fetched = fetched;
      known = known;
      bound = ground (arith, e);
      read = e;
      unexpired = ground (arith, e);
      spent = λ u. (ground (arith, e, u), ground (arith, e, u));
      kept = λ u. ground (arith, e, u);
    }
  ]

  pub authorize_approval-ok :
      (m : ToolManifest) (j : Journal)
      → (authorize_approval env p context arguments m j).1 ≡ ok tt
      → Approved m j (authorize_approval env p context arguments m j).0
  unfolding authorize_approval deny backend_unavailable
  authorize_approval-ok m j h = elim (Option-cases context.approval_id) [
    | inl e ↦ absurd (ground (arith, e))
    | inr (id, e) ↦ elim (Fetched-cases (env.fetch id)) [
      | inl (inl f) ↦ absurd (ground (arith, e, f))
      | inl (inr f) ↦ absurd (ground (arith, e, f))
      | inr (r, f) ↦ elim (Option-cases (get p.fingerprints m.metadata.name)) [
        | inl g ↦ absurd (ground (arith, e, f, g))
        | inr (fp, g) ↦
            let judged : authorize_approval env p context arguments m j
                ≡ judge env p context arguments m fp id r j =
              ground (arith, e, f, g) in
            subst (λ x. Approved m j x.0) (sym judged)
              (judge-ok m fp id r j e f g (subst (λ x. x.1 ≡ ok tt) judged h))
      ]
    ]
  ]
