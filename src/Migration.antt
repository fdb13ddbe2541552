-- ===== src/Migration.antt =====
-- src/tesserix_mcp_runtime/migration.py: routes, the surface of a server before and after a
-- migration, and the comparison of two surfaces.
--
-- The classes of arguments are given by their types. A surface holds the authorities of its egress
-- destinations, which is all that the comparison reads of the egress manifest; the schemas of a tool
-- manifest are JSON objects. A comparison without a result would be a KeyError or a comparison of
-- schemas out of fuel; Cutover shows that there is always one. `fingerprint` is the parameter of Manifest.
pub mod Cutover
mod Tests
use tesserix_mcp_runtime.Base.{
  ℕ, Bool, true, false, not, ◌&&◌, ◌||◌, String, Option, none, some, List, [], ◌∷◌, map, any, all,
  leb, ltb, ◌==◌, length, is_unique, is_some, str_eq, if◌then◌else◌,
}
use Prim.Native.String.{◌++◌}
use tesserix_mcp_runtime.Base.Chain.{◌>>=◌}
use tesserix_mcp_runtime.Base.Sets.{sorted, distinct, without_all, within_all}
use tesserix_mcp_runtime.Base.Text.{codes, is_stripped}
use tesserix_mcp_runtime.Contracts.Failure.{Result, ok, ◌>>◌, check}
use tesserix_mcp_runtime.Contracts.Metadata.{ToolDiscoveryMetadata, ToolMetadata}
use tesserix_mcp_runtime.Json.{Value, object, Fields, end}
use tesserix_mcp_runtime.Manifest.{ToolManifest, effect_value, approval_value, idempotency_value}
use tesserix_mcp_runtime.Schema.Compare.{
  SchemaChange, identical, non_breaking, breaking, SchemaDirection, input, output,
  classify_schema_change,
}

-- the pieces of `value.split("/")`, `slash` the code of "/"
unfoldable pub add_piece : ℕ → List (List ℕ) → List (List ℕ)
add_piece c [] = (c ∷ []) ∷ []
add_piece c (p ∷ ps) = (c ∷ p) ∷ ps

unfoldable pub pieces : List ℕ → List (List ℕ)
unfolding add_piece
pieces [] = [] ∷ []
pieces (c ∷ s) = if c == b'/' then [] ∷ pieces s else add_piece c (pieces s)

-- `part in {".", ".."}`
unfoldable pub is_traversal : List ℕ → Bool
is_traversal (a ∷ []) = a == b'.'
is_traversal (a ∷ b ∷ []) = a == b'.' && b == b'.'
is_traversal s = false

-- `"//" in value`
unfoldable pub has_double_slash : List ℕ → Bool
has_double_slash [] = false
has_double_slash (c ∷ []) = false
has_double_slash (c ∷ d ∷ s) = (c == b'/' && d == b'/') || has_double_slash (d ∷ s)

unfoldable pub starts_with_slash : List ℕ → Bool
starts_with_slash [] = false
starts_with_slash (c ∷ s) = c == b'/'

-- `_route_path`
unfoldable pub is_route_path : List ℕ → Bool
unfolding is_stripped pieces is_traversal has_double_slash starts_with_slash
is_route_path s =
    starts_with_slash s
    && leb (length s) 512
    && is_stripped s
    && all (λ c. not (c == b'?') && not (c == b'#')) s
    && not (has_double_slash s)
    && not (any is_traversal (pieces s))
    && all (λ c. leb 32 c) s

pub record MigrationRoute : Type 0 where
  pub name : String
  pub public_path : String
  pub upstream_path : String

-- the name of a route
unfoldable pub is_route_name : List ℕ → Bool
unfolding is_stripped
is_route_name s = ltb 0 (length s) && is_stripped s && leb (length s) 128 && all (λ c. leb 32 c) s

-- `MigrationRoute.__post_init__`
unfoldable pub check_route : MigrationRoute → Result MigrationRoute
check_route r = do
  check (is_route_name (codes r.name))
  check (is_route_path (codes r.public_path))
  check (is_route_path (codes r.upstream_path))
  ok r

-- `MigrationRoute.identifier`
unfoldable pub identifier : MigrationRoute → String
identifier r = r.name ++ (":" ++ (r.public_path ++ ("->" ++ r.upstream_path)))

pub record MigrationSurface : Type 0 where
  pub tools : List ToolManifest
  pub egress : List String
  pub routes : List MigrationRoute
  pub stateless : Bool

abbrev pub tool_names : List ToolManifest → List String
tool_names = map (λ t. t.normalized_name)

-- `MigrationSurface.__post_init__`
unfoldable pub check_surface : MigrationSurface → Result MigrationSurface
check_surface s = do
  check (is_unique (tool_names s.tools))
  check (is_unique (map identifier s.routes))
  ok s

pub record MigrationToolDiff : Type 0 where
  pub name : String
  pub input_change : SchemaChange
  pub output_change : SchemaChange
  pub description_changed : Bool
  pub scope_changed : Bool
  pub policy_changed : Bool
  pub lifecycle_changed : Bool

abbrev is_breaking : SchemaChange → Bool
is_breaking breaking = true
is_breaking change = false

-- `MigrationToolDiff.breaking`
unfoldable pub breaks : MigrationToolDiff → Bool
breaks d = is_breaking d.input_change || is_breaking d.output_change || d.policy_changed

pub record MigrationDiff : Type 0 where
  pub tool_diffs : List MigrationToolDiff
  pub added_tools : List String
  pub removed_tools : List String
  pub added_egress : List String
  pub removed_egress : List String
  pub added_routes : List String
  pub removed_routes : List String
  pub lifecycle_changed : Bool
  pub target_stateless : Bool

abbrev pub is_nonempty : List String → Bool
is_nonempty [] = false
is_nonempty (s ∷ ss) = true

-- `MigrationDiff.requires_major_version` and `MigrationDiff.cutover_ready`
unfoldable pub requires_major_version : MigrationDiff → Bool
requires_major_version d = is_nonempty d.removed_tools || any breaks d.tool_diffs

unfoldable pub cutover_ready : MigrationDiff → Bool
cutover_ready d = not (requires_major_version d) && d.target_stateless

-- `_discovery_lifecycle`
unfoldable pub discovery_lifecycle : ToolManifest → Option String
discovery_lifecycle m = lifecycle m.metadata.discovery
  where
    lifecycle : Option ToolDiscoveryMetadata → Option String
    lifecycle none = none
    lifecycle (some d) = some d.lifecycle

-- `==` on optional texts, on tuples of texts and on Booleans
abbrev same_optional : Option String → Option String → Bool
same_optional none none = true
same_optional (some a) (some b) = str_eq a b
same_optional a b = false

abbrev same_texts : List String → List String → Bool
same_texts [] [] = true
same_texts (x ∷ xs) (y ∷ ys) = str_eq x y && same_texts xs ys
same_texts xs ys = false

abbrev differ : Bool → Bool → Bool
differ a b = if a then not b else b

-- `(effect, approval, idempotency) == ...`; members of an enumeration are equal by their values
unfoldable pub same_policy : ToolMetadata → ToolMetadata → Bool
same_policy a b =
    str_eq (effect_value a.effect) (effect_value b.effect)
    && str_eq (approval_value a.approval) (approval_value b.approval)
    && str_eq (idempotency_value a.idempotency) (idempotency_value b.idempotency)

abbrev pub fields_of : Value → Fields
fields_of (object fs) = fs
fields_of v = end

-- `{tool.normalized_name: tool for tool in tools}[name]`: the last tool of the name
abbrev last_of : Option ToolManifest → ToolManifest → Bool → Option ToolManifest
last_of (some later) t is_named = some later
last_of none t is_named = if is_named then some t else none

unfoldable pub tool_named : String → List ToolManifest → Option ToolManifest
tool_named name [] = none
tool_named name (t ∷ ts) = last_of (tool_named name ts) t (str_eq t.normalized_name name)

-- `sorted` of the keys in the first set and not, or also, in the second
unfoldable pub added : List String → List String → List String
added now before = sorted (distinct (without_all now before))

unfoldable pub shared : List String → List String → List String
shared before now = sorted (distinct (within_all before now))

module _ (fingerprint : Value → String) where
  -- `_tool_diff`
  unfoldable pub tool_diff : ToolManifest → ToolManifest → Option MigrationToolDiff
  tool_diff previous current = do
    input_change ←
        classify_schema_change (λ fs. fingerprint (object fs)) (fields_of previous.input_schema)
          (fields_of current.input_schema) input
    output_change ←
        classify_schema_change (λ fs. fingerprint (object fs)) (fields_of previous.output_schema)
          (fields_of current.output_schema) output
    some (record {
      name = current.normalized_name;
      input_change = input_change;
      output_change = output_change;
      description_changed = not (str_eq previous.metadata.description current.metadata.description);
      scope_changed =
          not (same_texts previous.metadata.required_scopes current.metadata.required_scopes);
      policy_changed = not (same_policy previous.metadata current.metadata);
      lifecycle_changed =
          not (same_optional (discovery_lifecycle previous) (discovery_lifecycle current));
    })

  -- `tuple(_tool_diff(previous_tools[name], current_tools[name]) for name in names)`
  unfoldable pub tool_diffs_of :
      List ToolManifest → List ToolManifest → List String → Option (List MigrationToolDiff)
  tool_diffs_of previous current [] = some []
  tool_diffs_of previous current (name ∷ names) = do
    before ← tool_named name previous
    after ← tool_named name current
    d ← tool_diff before after
    rest ← tool_diffs_of previous current names
    some (d ∷ rest)

  -- `compare_migration_surfaces`
  unfoldable pub compare_migration_surfaces :
      MigrationSurface → MigrationSurface → Option MigrationDiff
  compare_migration_surfaces previous current = do
    diffs ←
        tool_diffs_of previous.tools current.tools
          (shared (tool_names previous.tools) (tool_names current.tools))
    some (record {
      tool_diffs = diffs;
      added_tools = added (tool_names current.tools) (tool_names previous.tools);
      removed_tools = added (tool_names previous.tools) (tool_names current.tools);
      added_egress = added current.egress previous.egress;
      removed_egress = added previous.egress current.egress;
      added_routes = added (map identifier current.routes) (map identifier previous.routes);
      removed_routes = added (map identifier previous.routes) (map identifier current.routes);
      lifecycle_changed = differ previous.stateless current.stateless;
      target_stateless = current.stateless;
    })
