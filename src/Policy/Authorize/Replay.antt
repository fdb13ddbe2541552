-- ===== src/Policy/Authorize/Replay.antt =====
-- A one-time approval that is used again.
use mathlib.Core.List.{append_assoc}
use tesserix_mcp_runtime.Base.{
  String, some, List, [], ◌∷◌, ◌++◌, ◌≡◌, ◌≢◌, inl, inr, sym, ap, ◌∙◌, subst,
}
use tesserix_mcp_runtime.Base.Dict.{get}
use tesserix_mcp_runtime.Contracts.Vocabulary.{ApprovalRequirement}
use tesserix_mcp_runtime.Contracts.Failure.{Result, ok}
use tesserix_mcp_runtime.Contracts.Identity.{CallContext}
use tesserix_mcp_runtime.Json.{Value}
use tesserix_mcp_runtime.Manifest.{ToolManifest}
use tesserix_mcp_runtime.Policy.Rules.{ApprovalRecord, ApprovalUse}
use tesserix_mcp_runtime.Policy.Setup.{ToolPolicy, manifest_of}
use tesserix_mcp_runtime.Policy.Audit.{Surroundings, Journal, Consumed, found, accepted}
use tesserix_mcp_runtime.Policy.Authorize.{Tool, action, authorize}
use tesserix_mcp_runtime.Policy.Authorize.Approval.{Approved}
use tesserix_mcp_runtime.Policy.Authorize.Grounds.{authorize-Granted}
use tesserix_mcp_runtime.Policy.Authorize.Spending.{authorize-Spends}

-- the store has accepted this use of an approval
abbrev pub IsSpent : String × String → List ((String × String) × Consumed) → Type 0
IsSpent use_ log =
    (before : List ((String × String) × Consumed)) × (after : List ((String × String) × Consumed))
    × (log ≡ before ++ (use_, accepted) ∷ after)

IsSpent-append :
    (use_ : String × String) (log more : List ((String × String) × Consumed))
    → IsSpent use_ log
    → IsSpent use_ (log ++ more)
IsSpent-append use_ log more (before, after, e) = (
  before,
  after ++ more,
  ap (λ (l : List ((String × String) × Consumed)). l ++ more) e
      ∙ append_assoc before ((use_, accepted) ∷ after) more,
)

-- a call that is authorized
pub record Request : Type 0 where
  pub context : CallContext
  pub arguments : Value
  pub tool : Tool

module _ (env : Surroundings) (p : ToolPolicy) where
  module _ (context : CallContext) (arguments : Value) where
    -- what a granted one-time approval did to the store
    Approved-spent :
        (m : ToolManifest) (j j' : Journal) (id fp : String) (r : ApprovalRecord)
        → Approved env p context arguments m j j'
        → context.approval_id ≡ some id
        → env.fetch id ≡ found r
        → r.use_of ≡ ApprovalUse.one_time
        → get p.fingerprints m.metadata.name ≡ some fp
        → (env.consume j.consumed id (action env context arguments m fp) ≡ accepted)
          × (j'.consumed ≡ j.consumed ++ ((id, action env context arguments m fp), accepted) ∷ [])
    Approved-spent m j j' id fp r a given fetched once known =
        let same_id : a.approval_id ≡ id = cc (given, a.given) in
        let same_record : a.approval ≡ r = cc (fetched, a.fetched, same_id) in
        let same_fp : a.tool_fingerprint ≡ fp = cc (known, a.known) in
        let (consumed, appended) =
          a.spent (ap (λ (x : ApprovalRecord). x.use_of) same_record ∙ once) in
        (rw (same_id, same_fp) at consumed, rw (same_id, same_fp) at appended)

  abbrev pub ask : Request → Journal → Journal × Result (Unit {0})
  ask q j = authorize env p q.context q.arguments q.tool j

  -- the journal after some calls
  abbrev pub ask_all : List Request → Journal → Journal
  ask_all [] j = j
  ask_all (q ∷ qs) j = ask_all qs (ask q j).0

  ask-IsSpent :
      (q : Request) (j : Journal) (use_ : String × String)
      → IsSpent use_ j.consumed
      → IsSpent use_ (ask q j).0.consumed
  ask-IsSpent q j use_ spent = elim (authorize-Spends env p q.context q.arguments q.tool j) [
    | inl same ↦ subst (IsSpent use_) (sym same) spent
    | inr (more, e) ↦
        subst (IsSpent use_) (sym e) (IsSpent-append use_ j.consumed (more ∷ []) spent)
  ]

  ask_all-IsSpent :
      (qs : List Request) (j : Journal) (use_ : String × String)
      → IsSpent use_ j.consumed
      → IsSpent use_ (ask_all qs j).consumed
  ask_all-IsSpent [] j use_ spent = spent
  ask_all-IsSpent (q ∷ qs) j use_ spent =
      ask_all-IsSpent qs (ask q j).0 use_ (ask-IsSpent q j use_ spent)

  -- A call that a one-time approval stands behind.
  pub record OneTime (q : Request) : Type 0 where
    pub manifest : ToolManifest
    pub known : manifest_of p.tools q.tool.definition ≡ some manifest
    pub needed : manifest.metadata.approval ≡ ApprovalRequirement.required
    pub approval_id : String
    pub given : q.context.approval_id ≡ some approval_id
    pub approval : ApprovalRecord
    pub fetched : env.fetch approval_id ≡ found approval
    pub once : approval.use_of ≡ ApprovalUse.one_time
    pub fingerprint : String
    pub reviewed : get p.fingerprints manifest.metadata.name ≡ some fingerprint

  abbrev one_use : (q : Request) → OneTime q → String × String
  one_use q o = (o.approval_id, action env q.context q.arguments o.manifest o.fingerprint)

  granted_spends :
      (q : Request) (o : OneTime q) (j : Journal)
      → (ask q j).1 ≡ ok tt
      → (env.consume j.consumed (one_use q o).0 (one_use q o).1 ≡ accepted)
        × ((ask q j).0.consumed ≡ j.consumed ++ (one_use q o, accepted) ∷ [])
  granted_spends q o j h =
      let g = authorize-Granted env p q.context q.arguments q.tool j h in
      let same : g.manifest ≡ o.manifest = cc (g.known, o.known) in
      let (between, approved, kept) =
        g.approved (ap (λ (m : ToolManifest). m.metadata.approval) same ∙ o.needed) in
      let approved_here =
        subst (λ m. Approved env p q.context q.arguments m j between) same approved in
      let (consumed, appended) =
        Approved-spent q.context q.arguments o.manifest j between o.approval_id o.fingerprint
          o.approval approved_here o.given o.fetched o.once o.reviewed in
      (consumed, kept ∙ appended)

  -- If the store never accepts a use that it has accepted before, a call that a one-time approval allowed is not
  -- allowed again under that approval, whatever calls come in between.
  pub replay_denied :
      ((log : List ((String × String) × Consumed)) (id act : String)
        → IsSpent (id, act) log
        → env.consume log id act ≢ accepted)
      → (q : Request) → OneTime q
      → (qs : List Request) (j : Journal) → (ask q j).1 ≡ ok tt
      → (ask q (ask_all qs (ask q j).0)).1 ≢ ok tt
  replay_denied refuses q o qs j h again =
      let (_, appended) = granted_spends q o j h in
      let spent = ask_all-IsSpent qs (ask q j).0 (one_use q o) (j.consumed, [], appended) in
      let (accepted_again, _) = granted_spends q o (ask_all qs (ask q j).0) again in
      refuses (ask_all qs (ask q j).0).consumed (one_use q o).0 (one_use q o).1 spent accepted_again
