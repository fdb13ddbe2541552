-- ===== src/Application/Listing.antt =====
-- `list_tools`, `list_tool_manifests` and `_is_exported` of Application: which tools a client sees.
use tesserix_mcp_runtime.Base.{
  ℕ, Bool, true, String, Option, none, some, List, [], ◌∷◌, map, contains, ◌==◌, ◌≡◌, arith,
  Bool-cases, eq_iff, inl, inr, if◌then◌else◌,
}
use tesserix_mcp_runtime.Contracts.Vocabulary.{LifecycleState, ready}
use tesserix_mcp_runtime.Contracts.Failure.{ok}
use tesserix_mcp_runtime.Contracts.Identity.{CallContext}
use tesserix_mcp_runtime.Json.{Value}
use tesserix_mcp_runtime.Manifest.{ToolManifest}
use tesserix_mcp_runtime.Policy.Setup.{CatalogTool, ToolPolicy, manifest_of, is_exported}
use tesserix_mcp_runtime.Policy.Audit.{Surroundings, Journal}
use tesserix_mcp_runtime.Policy.Authorize.{Tool, authorize}
use tesserix_mcp_runtime.Policy.Authorize.Grounds.{authorize-Granted}

-- `_is_exported`: the authorizer is a tool policy, or another one that hides nothing
unfoldable pub is_visible : Option ToolPolicy → String → Bool
is_visible none tool_name = true
is_visible (some p) tool_name = is_exported p tool_name

unfoldable pub list_tool_manifests : Option ToolPolicy → List CatalogTool → List ToolManifest
list_tool_manifests authorizer [] = []
list_tool_manifests authorizer (t ∷ ts) =
    if is_visible authorizer t.manifest.metadata.name
    then t.manifest ∷ list_tool_manifests authorizer ts
    else list_tool_manifests authorizer ts

unfoldable pub list_tools : LifecycleState → Option ToolPolicy → List CatalogTool → List String
list_tools state authorizer tools = elim state [
  | ready ↦ map (λ (m : ToolManifest). m.metadata.name) (list_tool_manifests authorizer tools)
  | _ ↦ []
]

abbrev names : List ToolManifest → List String
names = map λ m. m.metadata.name

listed :
    (authorizer : Option ToolPolicy) (tools : List CatalogTool) (definition : ℕ) (m : ToolManifest)
    → manifest_of tools definition ≡ some m
    → is_visible authorizer m.metadata.name ≡ true
    → contains m.metadata.name (names (list_tool_manifests authorizer tools)) ≡ true
unfolding list_tool_manifests manifest_of contains
listed authorizer [] definition m h v = ground arith
listed authorizer (t ∷ ts) definition m h v = elim (Bool-cases (t.definition == definition)) [
  | inl here ↦
      let same : t.manifest ≡ m = ground (arith, here) in
      let visible : is_visible authorizer t.manifest.metadata.name ≡ true = rw same v in
      rw visible (ground (arith, same, eq_iff t.manifest.metadata.name m.metadata.name))
  | inr later ↦ ground (arith, later, listed authorizer ts definition m (ground (arith, later)) v)
]

module _ (env : Surroundings) (p : ToolPolicy) (context : CallContext) (arguments : Value) where
  -- What a client can call is what it is shown: when the application is ready and its authorizer is a
  -- tool policy on the same catalog, every tool that a call is granted for is in the list of tools.
  pub authorize-listed :
      (tool : Tool) (j : Journal)
      → (authorize env p context arguments tool j).1 ≡ ok tt
      → (m : ToolManifest) × (manifest_of p.tools tool.definition ≡ some m)
        × (contains m.metadata.name (list_tools ready (some p) p.tools) ≡ true)
  unfolding list_tools
  authorize-listed tool j h =
      let g = authorize-Granted env p context arguments tool j h in
      let exported : is_exported p g.manifest.metadata.name ≡ true =
        unfold is_exported in ground (arith, g.ruled, g.active) in
      let visible : is_visible (some p) g.manifest.metadata.name ≡ true =
        unfold is_visible in exported in
      (g.manifest, g.known, listed (some p) p.tools tool.definition g.manifest g.known visible)
