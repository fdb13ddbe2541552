-- ===== src/Policy/Setup/Reviewed.antt =====
-- The tools that a policy exports, and their reviews.
use tesserix_mcp_runtime.Base.{
  ℕ, ◌+◌, Bool, true, false, String, Option, none, some, ◌≡◌, refl, List, [], ◌∷◌, str_eq, eq_iff,
  is_some, arith, All, ◌⊎◌, inl, inr, Bool-cases, sym, ◌∙◌, subst, ap, Option-cases,
}
use tesserix_mcp_runtime.Base.Dict.{Dict, empty, get, put, get-put, get-empty}
use tesserix_mcp_runtime.Contracts.Vocabulary.{ToolEffect, ApprovalRequirement, is_read}
use tesserix_mcp_runtime.Contracts.Failure.{ok}
use tesserix_mcp_runtime.Json.{Value}
use tesserix_mcp_runtime.Manifest.{ToolManifest}
use tesserix_mcp_runtime.Policy.Rules.{
  ToolPolicyRule, ToolReview, ToolPolicyState, is_active, tool_policy_fingerprint,
}
use tesserix_mcp_runtime.Policy.Setup.{
  CatalogTool, ToolPolicy, by_name, rules_by_name, review_differs, same_text, check_active,
  check_rules, build, is_exported,
}

-- What was checked of an active rule: its tool is in the catalog, with the fingerprint that was
-- reviewed; a tool that is not read-only has a review of that fingerprint; and a tool that needs
-- approvals has a store for them.
pub record IsReviewed (has_store : Bool) (manifests : Dict ToolManifest)
    (fingerprints : Dict String) (r : ToolPolicyRule) : Type 0 where
  pub manifest : ToolManifest
  pub known : get manifests r.tool_name ≡ some manifest
  pub same : get fingerprints r.tool_name ≡ some r.reviewed_fingerprint
  pub reviewed :
      (manifest.metadata.effect ≡ ToolEffect.read)
      ⊎ ((review : ToolReview) × (r.review ≡ some review)
          × (review.reviewed_fingerprint ≡ r.reviewed_fingerprint))
  pub stored : manifest.metadata.approval ≡ ApprovalRequirement.required → has_store ≡ true

module _ (has_store : Bool) (manifests : Dict ToolManifest) (fingerprints : Dict String) where
  abbrev Passed : ToolPolicyRule → Type 0
  Passed r = is_active r.state ≡ true → IsReviewed has_store manifests fingerprints r

  review_of :
      (r : ToolPolicyRule) (review : Option ToolReview)
      → r.review ≡ review
      → is_some review ≡ true
      → review_differs r ≡ false
      → (rv : ToolReview) × (r.review ≡ some rv)
        × (rv.reviewed_fingerprint ≡ r.reviewed_fingerprint)
  review_of r none e h d = absurd (ground (arith, h))
  review_of r (some rv) e h d =
      (rv, e, ground (arith, e, eq_iff rv.reviewed_fingerprint r.reviewed_fingerprint))

  same_text-eq : (o : Option String) (s : String) → same_text o s ≡ true → o ≡ some s
  same_text-eq none s h = absurd (ground (arith, h))
  same_text-eq (some t) s h = ground (arith, eq_iff t s)

  check_active-Passed :
      (index : ℕ) (r : ToolPolicyRule) (found : Option ToolManifest)
      → get manifests r.tool_name ≡ found
      → check_active has_store manifests fingerprints index r ≡ ok tt
      → Passed r
  unfolding check_active
  check_active-Passed index r none e h a = absurd (ground (arith, e))
  check_active-Passed index r (some m) e h a = record {
    manifest = m;
    known = e;
    same = same_text-eq (get fingerprints r.tool_name) r.reviewed_fingerprint (ground (arith, e));
    reviewed = elim (Bool-cases (is_read m.metadata.effect)) [
      | inl reads ↦ inl (ground (arith, reads))
      | inr writes ↦
          inr (review_of r r.review refl (ground (arith, e, writes)) (ground (arith, e, writes)))
    ];
    stored = λ needs. ground (arith, e, needs);
  }

  check_rules-Passed :
      (index : ℕ) (rs : List ToolPolicyRule)
      → check_rules has_store manifests fingerprints index rs ≡ ok tt
      → All Passed rs
  unfolding check_rules
  check_rules-Passed index [] h = tt
  check_rules-Passed index (r ∷ rs) h = (
    check_active-Passed index r (get manifests r.tool_name) refl (ground arith),
    check_rules-Passed (index + 1) rs (ground arith),
  )

module _ (P : ToolPolicyRule → Type 0) where
  abbrev Entries : Dict ToolPolicyRule → Type 0
  Entries d = (k : String) (r : ToolPolicyRule) → get d k ≡ some r → P r × (r.tool_name ≡ k)

  put-Entries :
      (d : Dict ToolPolicyRule) (r : ToolPolicyRule)
      → P r
      → Entries d
      → Entries (put d r.tool_name r)
  put-Entries d r p h k r' e = elim (Bool-cases (str_eq r.tool_name k)) [
    | inl same ↦
        let is_r : r ≡ r' = ground (arith, e, get-put d r.tool_name k r, same) in
        (
          subst P is_r p,
          ap (λ (q : ToolPolicyRule). q.tool_name) (sym is_r) ∙ (eq_iff r.tool_name k).0 same,
        )
    | inr other ↦ h k r' (ground (arith, e, get-put d r.tool_name k r, other))
  ]

  rules_by_name-Entries :
      (rs : List ToolPolicyRule) (d : Dict ToolPolicyRule)
      → All P rs
      → Entries d
      → Entries (rules_by_name rs d)
  unfolding rules_by_name
  rules_by_name-Entries [] d ps h = h
  rules_by_name-Entries (r ∷ rs) d ps h =
      rules_by_name-Entries rs (put d r.tool_name r) ps.1 (put-Entries d r ps.0 h)

-- A policy that is built exports a tool only under an active rule for its name, whose reviewed
-- fingerprint is the one that the catalog's tool has, with a review of that fingerprint unless the
-- tool only reads, and with an approval store if the tool needs approvals.
pub build-IsReviewed :
    (fingerprint : Value → String) (tools : List CatalogTool) (server_scopes : List String)
    (rules : List ToolPolicyRule) (has_store : Bool) (p : ToolPolicy) (tool_name : String)
    → build fingerprint tools server_scopes rules has_store ≡ ok p
    → is_exported p tool_name ≡ true
    → (r : ToolPolicyRule) × (get p.rules tool_name ≡ some r)
      × (r.tool_name ≡ tool_name)
      × (r.state ≡ ToolPolicyState.active)
      × IsReviewed has_store
          (by_name (λ m. m) tools empty)
          (by_name (tool_policy_fingerprint fingerprint) tools empty)
          r
unfolding build is_exported
build-IsReviewed fingerprint tools server_scopes rules has_store p tool_name h x =
    let manifests = by_name (λ m. m) tools empty in
    let fingerprints = by_name (tool_policy_fingerprint fingerprint) tools empty in
    let passed = check_rules-Passed has_store manifests fingerprints 0 rules (ground arith) in
    let entries =
      rules_by_name-Entries (Passed has_store manifests fingerprints) rules empty passed
        (λ k r e. absurd (cc (get-empty {V = ToolPolicyRule} k))) in
    let built : p.rules ≡ rules_by_name rules empty = ground arith in
    elim (Option-cases (get p.rules tool_name)) [
      | inl missing ↦ absurd (ground (arith, missing))
      | inr (r, found) ↦
          let active_r : is_active r.state ≡ true = ground (arith, found) in
          let entry = entries tool_name r (rw built at found) in
          (r, found, entry.1, ground arith, entry.0 active_r)
    ]
