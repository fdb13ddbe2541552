-- ===== src/Policy/Setup.antt =====
-- The constructor of `ToolPolicy`: which rules a policy may be built from.
pub mod Reviewed
use tesserix_mcp_runtime.Base.{
  ℕ, ◌+◌, Bool, true, false, not, ◌&&◌, String, Option, none, some, List, [], ◌∷◌, map, is_unique,
  str_eq, ◌==◌, if◌then◌else◌, is_some,
}
use tesserix_mcp_runtime.Base.Dict.{Dict, empty, get, put}
use tesserix_mcp_runtime.Contracts.Vocabulary.{is_read, needs_approval}
use tesserix_mcp_runtime.Contracts.Failure.{
  Kind, Failure, FieldPath, Result, ok, err, ◌>>=◌, ◌>>◌, check,
}
use tesserix_mcp_runtime.Json.{Value}
use tesserix_mcp_runtime.Manifest.{ToolManifest}
use tesserix_mcp_runtime.Policy.Rules.{
  ToolPolicyRule, ToolReview, is_active, require_texts, tool_policy_fingerprint,
}

-- A tool of the catalog: the identity of its definition, and its manifest.
pub record CatalogTool : Type 0 where
  pub definition : ℕ
  pub manifest : ToolManifest

pub record ToolPolicy : Type 0 where
  pub server_scopes : List String
  pub rules : Dict ToolPolicyRule
  pub fingerprints : Dict String
  -- `_manifest_by_definition`, as the catalog's tools
  pub tools : List CatalogTool
  pub has_store : Bool

abbrev pub configuration_error : String → FieldPath → Failure
configuration_error code path = record {
  kind = Kind.configuration code path;
  type_name = "ToolPolicyConfigurationError";
}

-- `{manifest.metadata.name: f(manifest) for manifest in manifests}`: a later name wins
unfoldable pub by_name {ℓ} : {V : Type ℓ} → (ToolManifest → V) → List CatalogTool → Dict V → Dict V
by_name f [] d = d
by_name f (t ∷ ts) d = by_name f ts (put d t.manifest.metadata.name (f t.manifest))

unfoldable pub rules_by_name : List ToolPolicyRule → Dict ToolPolicyRule → Dict ToolPolicyRule
rules_by_name [] d = d
rules_by_name (r ∷ rs) d = rules_by_name rs (put d r.tool_name r)

-- `self._manifest_by_definition.get(id(tool))`
unfoldable pub manifest_of : List CatalogTool → ℕ → Option ToolManifest
manifest_of [] id = none
manifest_of (t ∷ ts) id = if t.definition == id then some t.manifest else manifest_of ts id

-- `rule.review is not None and rule.review.reviewed_fingerprint != rule.reviewed_fingerprint`
abbrev pub review_differs : ToolPolicyRule → Bool
review_differs r = elim r.review [
  | none ↦ false
  | some review ↦ not (str_eq review.reviewed_fingerprint r.reviewed_fingerprint)
]

abbrev pub same_text : Option String → String → Bool
same_text none value = false
same_text (some found) value = str_eq found value

module _ (has_store : Bool) (manifests : Dict ToolManifest) (fingerprints : Dict String) where
  -- one round of the loop over the rules
  unfoldable pub check_active : ℕ → ToolPolicyRule → Result (Unit {0})
  check_active index r =
      if not (is_active r.state) then ok tt else elim (get manifests r.tool_name) [
        | none ↦ err (configuration_error "unknown_tool" (FieldPath.item "rules" index "tool_name"))
        | some manifest ↦
            if not (same_text (get fingerprints r.tool_name) r.reviewed_fingerprint)
            then err (
                configuration_error "review_mismatch"
                  (FieldPath.item "rules" index "reviewed_fingerprint"))
            else if not (is_read manifest.metadata.effect) && not (is_some r.review)
            then err (
                configuration_error "independent_review_required"
                  (FieldPath.item "rules" index "review"))
            else if review_differs r
            then err (
                configuration_error "review_mismatch"
                  (FieldPath.item "rules" index "review.reviewed_fingerprint"))
            else if needs_approval manifest.metadata.approval && not has_store
            then err
                (configuration_error "approval_store_required" (FieldPath.field "approval_store"))
            else ok tt
      ]

  unfoldable pub check_rules : ℕ → List ToolPolicyRule → Result (Unit {0})
  check_rules index [] = ok tt
  check_rules index (r ∷ rs) = check_active index r >> check_rules (index + 1) rs

-- `ToolPolicy.__init__`
unfoldable pub build :
    (Value → String)
    → List CatalogTool
    → List String
    → List ToolPolicyRule
    → Bool
    → Result ToolPolicy
build fingerprint tools server_scopes rules has_store = do
  require_texts server_scopes
  check (is_unique (map (λ r. r.tool_name) rules))
  let manifests = by_name (λ m. m) tools empty
  let fingerprints = by_name (tool_policy_fingerprint fingerprint) tools empty
  check_rules has_store manifests fingerprints 0 rules
  ok (record {
    server_scopes = server_scopes;
    rules = rules_by_name rules empty;
    fingerprints = fingerprints;
    tools = tools;
    has_store = has_store;
  })

-- `is_exported`
unfoldable pub is_exported : ToolPolicy → String → Bool
is_exported p tool_name = elim (get p.rules tool_name) [
  | none ↦ false
  | some rule ↦ is_active rule.state
]
