-- ===== src/Migration/Tests.antt =====
-- A migration that raises the maximum of a tool's input, and the theorems at it.
use tesserix_mcp_runtime.Base.{
  ℕ, true, false, not, ◌&&◌, String, some, List, [], ◌∷◌, contains, ◌≡◌, refl, arith, eq_iff,
}
use tesserix_mcp_runtime.Base.Sets.{sorted, insert_sorted, distinct, without_all, within_all}
use tesserix_mcp_runtime.Json.{object}
use tesserix_mcp_runtime.Manifest.{ToolManifest}
use tesserix_mcp_runtime.Policy.Samples.{refund}
use tesserix_mcp_runtime.Schema.Compare.{identical, non_breaking, output, classify_schema_change}
use tesserix_mcp_runtime.Schema.Compare.Samples.{up_to, mark, raised}
use tesserix_mcp_runtime.Migration.{
  MigrationRoute, MigrationSurface, MigrationDiff, identifier, tool_named, tool_diff, tool_diffs_of,
  added, shared, breaks, requires_major_version, same_policy, compare_migration_surfaces,
  cutover_ready, discovery_lifecycle,
}
use tesserix_mcp_runtime.Migration.Cutover.{
  cutover_ready-Unbroken, compare_migration_surfaces-differences, Unbroken,
}

abbrev manifest : ℕ → ToolManifest
manifest limit = record {
  metadata = refund;
  normalized_name = "refund";
  input_schema = object (up_to limit);
  output_schema = object (up_to 9);
}

abbrev surface : ℕ → List MigrationRoute → MigrationSurface
surface limit routes = record {
  tools = manifest limit ∷ [];
  egress = "api.example:443" ∷ [];
  routes = routes;
  stateless = true;
}

abbrev route : MigrationRoute
route = record { name = "pay"; public_path = "/pay"; upstream_path = "/v2/pay" }

unchanged :
    classify_schema_change (λ fs. mark (object fs)) (up_to 9) (up_to 9) output ≡ some identical
unfolding classify_schema_change
unchanged = ground (arith, eq_iff (mark (object (up_to 9))) (mark (object (up_to 9))))

abbrev diff : MigrationDiff
diff = record {
  tool_diffs =
      record {
        name = "refund";
        input_change = non_breaking;
        output_change = identical;
        description_changed = false;
        scope_changed = false;
        policy_changed = false;
        lifecycle_changed = false;
      }
      ∷ [];
  added_tools = [];
  removed_tools = [];
  added_egress = [];
  removed_egress = [];
  added_routes = "pay:/pay->/v2/pay" ∷ [];
  removed_routes = [];
  lifecycle_changed = false;
  target_stateless = true;
}

diffs_found :
    tool_diffs_of mark (surface 9 []).tools (surface 12 []).tools ("refund" ∷ [])
    ≡ some diff.tool_diffs
unfolding tool_diffs_of tool_named tool_diff same_policy discovery_lifecycle
diffs_found = rw (raised, unchanged) refl

diff_found : compare_migration_surfaces mark (surface 9 []) (surface 12 (route ∷ [])) ≡ some diff
unfolding compare_migration_surfaces shared added sorted insert_sorted distinct without_all
    within_all contains identifier
diff_found = rw diffs_found refl

diff_ready : cutover_ready diff ≡ true
unfolding cutover_ready requires_major_version breaks
diff_ready = refl

cutover_ready-Unbroken_example :
    (true ≡ true)
    × ((x : String)
        → contains x ("refund" ∷ []) ≡ true
        → (before : ToolManifest) × (after : ToolManifest) × (tool_named x (manifest 9 ∷ [])
            ≡ some before)
          × (tool_named x (manifest 12 ∷ []) ≡ some after)
          × Unbroken mark before after)
cutover_ready-Unbroken_example =
    cutover_ready-Unbroken mark (surface 9 []) (surface 12 (route ∷ [])) diff diff_found diff_ready

compare_migration_surfaces-differences_example :
    (contains "refund" diff.added_tools
      ≡ contains "refund" ("refund" ∷ []) && not (contains "refund" ("refund" ∷ [])))
    × (contains "refund" diff.removed_tools
        ≡ contains "refund" ("refund" ∷ []) && not (contains "refund" ("refund" ∷ [])))
    × (contains "refund" diff.added_egress
        ≡ contains "refund" ("api.example:443" ∷ [])
          && not (contains "refund" ("api.example:443" ∷ [])))
    × (contains "refund" diff.removed_egress
        ≡ contains "refund" ("api.example:443" ∷ [])
          && not (contains "refund" ("api.example:443" ∷ [])))
    × (contains "refund" diff.added_routes
        ≡ contains "refund" (identifier route ∷ []) && not (contains "refund" []))
    × (contains "refund" diff.removed_routes
        ≡ contains "refund" [] && not (contains "refund" (identifier route ∷ [])))
compare_migration_surfaces-differences_example =
    compare_migration_surfaces-differences mark (surface 9 []) (surface 12 (route ∷ [])) diff
      diff_found "refund"

-- two routes that differ and have one identifier
same_identifier :
    identifier (record { name = "pay"; public_path = "/a->/b"; upstream_path = "/c" })
    ≡ identifier (record { name = "pay"; public_path = "/a"; upstream_path = "/b->/c" })
unfolding identifier
same_identifier = refl
