-- ===== src/Migration/Cutover.antt =====
-- What a comparison of two surfaces says: its result, its sets, and when a cutover is ready.
use tesserix_mcp_runtime.Base.{
  true, false, not, ◌&&◌, String, some, List, [], ◌∷◌, map, any, contains, is_some, is_some-some,
  contains-All, str_eq, ◌≡◌, ◌≢◌, refl, subst, arith, eq_iff, Bool-cases, Option-cases, inl, inr,
  All, ||-false, &&-true,
}
use tesserix_mcp_runtime.Base.Sets.{
  distinct, without_all, within_all, contains-sorted, contains-distinct, contains-without_all,
  contains-within_all,
}
use tesserix_mcp_runtime.Json.{Value, object}
use tesserix_mcp_runtime.Manifest.{ToolManifest}
use tesserix_mcp_runtime.Schema.Compare.{
  SchemaChange, breaking, input, output, classify_schema_change,
}
use tesserix_mcp_runtime.Schema.Compare.Ends.{classify_schema_change_ends}
use tesserix_mcp_runtime.Migration.{
  MigrationSurface, MigrationDiff, MigrationToolDiff, tool_names, identifier, tool_named, added,
  shared, tool_diff, tool_diffs_of, compare_migration_surfaces, fields_of, breaks, same_policy,
  requires_major_version, is_nonempty, cutover_ready,
}

contains-added :
    (x : String) (now before : List String)
    → contains x (added now before) ≡ contains x now && not (contains x before)
unfolding added
contains-added x now before = ground (
  arith,
  contains-sorted x (distinct (without_all now before)),
  contains-distinct x (without_all now before),
  contains-without_all x now before,
)

contains-shared :
    (x : String) (before now : List String)
    → contains x (shared before now) ≡ contains x before && contains x now
unfolding shared
contains-shared x before now = ground (
  arith,
  contains-sorted x (distinct (within_all before now)),
  contains-distinct x (within_all before now),
  contains-within_all x before now,
)

shared_both :
    (x : String) (before now : List String)
    → contains x (shared before now) ≡ true
    → (contains x before ≡ true) × (contains x now ≡ true)
shared_both x before now m =
    &&-true (contains x before) (contains x now) (ground (arith, contains-shared x before now, m))

contains-empty : (x : String) (xs : List String) → is_nonempty xs ≡ false → contains x xs ≡ false
unfolding contains
contains-empty x [] h = refl
contains-empty x (y ∷ ys) h = ground arith

-- a name of the tools is found
tool_named_found :
    (x : String) (ts : List ToolManifest)
    → contains x (tool_names ts) ≡ true
    → is_some (tool_named x ts) ≡ true
unfolding contains tool_named
tool_named_found x [] h = ground arith
tool_named_found x (t ∷ ts) h = elim (Option-cases (tool_named x ts)) [
  | inl missing ↦
      let here : str_eq t.normalized_name x ≡ true =
        ground (arith, h, missing, tool_named_found x ts) in
      rw (missing, here) refl
  | inr (u, there) ↦ rw there refl
]

module _ (fingerprint : Value → String) where
  tool_diff_ends : (p c : ToolManifest) → is_some (tool_diff fingerprint p c) ≡ true
  unfolding tool_diff
  tool_diff_ends p c =
      let (i, ei) = is_some-some _ (
        classify_schema_change_ends (λ fs. fingerprint (object fs)) (fields_of p.input_schema)
          (fields_of c.input_schema) input) in
      let (o, eo) = is_some-some _ (
        classify_schema_change_ends (λ fs. fingerprint (object fs)) (fields_of p.output_schema)
          (fields_of c.output_schema) output) in
      rw (ei, eo) refl

  tool_diffs_end :
      (previous current : List ToolManifest) (names : List String)
      → All (λ x. contains x (tool_names previous) ≡ true) names
      → All (λ x. contains x (tool_names current) ≡ true) names
      → is_some (tool_diffs_of fingerprint previous current names) ≡ true
  unfolding tool_diffs_of
  tool_diffs_end previous current [] h k = refl
  tool_diffs_end previous current (x ∷ xs) h k =
      let (before, eb) = is_some-some _ (tool_named_found x previous h.0) in
      let (after, ea) = is_some-some _ (tool_named_found x current k.0) in
      let (d, ed) = is_some-some _ (tool_diff_ends before after) in
      let (rest, er) = is_some-some _ (tool_diffs_end previous current xs h.1 k.1) in
      rw (eb, ea, ed, er) refl

  -- A comparison of two surfaces always has a result.
  pub compare_migration_surfaces_ends :
      (previous current : MigrationSurface)
      → is_some (compare_migration_surfaces fingerprint previous current) ≡ true
  unfolding compare_migration_surfaces
  compare_migration_surfaces_ends p c =
      let names = shared (tool_names p.tools) (tool_names c.tools) in
      let (diffs, e) = is_some-some _ (
        tool_diffs_end p.tools c.tools names (contains-All _ names (λ x m. (shared_both x _ _ m).0))
          (contains-All _ names (λ x m. (shared_both x _ _ m).1))) in
      rw e refl

  -- the tool before and after, where the comparison finds no break between them
  abbrev pub Unbroken : ToolManifest → ToolManifest → Type 0
  Unbroken before after =
      (input_change : SchemaChange) × (output_change : SchemaChange) × (classify_schema_change
          (λ fs. fingerprint (object fs)) (fields_of before.input_schema)
          (fields_of after.input_schema) input
        ≡ some input_change)
      × (input_change ≢ breaking)
      × (classify_schema_change (λ fs. fingerprint (object fs)) (fields_of before.output_schema)
            (fields_of after.output_schema) output
          ≡ some output_change)
      × (output_change ≢ breaking)
      × (same_policy before.metadata after.metadata ≡ true)

  tool_diff-Unbroken :
      (before after : ToolManifest) (d : MigrationToolDiff)
      → tool_diff fingerprint before after ≡ some d
      → breaks d ≡ false
      → Unbroken before after
  unfolding tool_diff breaks
  tool_diff-Unbroken before after d e h =
      let (i, ei) = is_some-some _ (
        classify_schema_change_ends (λ fs. fingerprint (object fs)) (fields_of before.input_schema)
          (fields_of after.input_schema) input) in
      let (o, eo) = is_some-some _ (
        classify_schema_change_ends (λ fs. fingerprint (object fs)) (fields_of before.output_schema)
          (fields_of after.output_schema) output) in
      let is_i : d.input_change ≡ i = ground (arith, e, ei, eo) in
      let is_o : d.output_change ≡ o = ground (arith, e, ei, eo) in
      let policy : d.policy_changed ≡ not (same_policy before.metadata after.metadata) =
        ground (arith, e, ei, eo) in
      (
        i,
        o,
        ei,
        (λ b. ground (arith, h, is_i, b)),
        eo,
        (λ b. ground (arith, h, is_o, b)),
        ground (arith, h, policy),
      )

  split_diffs :
      (previous current : List ToolManifest) (n : String) (ns : List String)
      (diffs : List MigrationToolDiff)
      → tool_diffs_of fingerprint previous current (n ∷ ns) ≡ some diffs
      → (before : ToolManifest) × (after : ToolManifest) × (d : MigrationToolDiff) × (rest : List
          MigrationToolDiff)
        × (tool_named n previous ≡ some before)
        × (tool_named n current ≡ some after)
        × (tool_diff fingerprint before after ≡ some d)
        × (tool_diffs_of fingerprint previous current ns ≡ some rest)
        × (diffs ≡ d ∷ rest)
  unfolding tool_diffs_of
  split_diffs previous current n ns diffs e = elim (Option-cases (tool_named n previous)) [
    | inl missing ↦ ground (arith, e, missing)
    | inr (before, eb) ↦ elim (Option-cases (tool_named n current)) [
      | inl missing ↦ ground (arith, e, eb, missing)
      | inr (after, ea) ↦
          let (d, ed) = is_some-some _ (tool_diff_ends before after) in
          elim (Option-cases (tool_diffs_of fingerprint previous current ns)) [
            | inl missing ↦ ground (arith, e, eb, ea, ed, missing)
            | inr (rest, er) ↦
                (before, after, d, rest, eb, ea, ed, er, ground (arith, e, eb, ea, ed, er))
          ]
    ]
  ]

  tool_diffs-Unbroken :
      (previous current : List ToolManifest) (names : List String) (diffs : List MigrationToolDiff)
      → tool_diffs_of fingerprint previous current names ≡ some diffs
      → any breaks diffs ≡ false
      → (x : String) → contains x names ≡ true
      → (before : ToolManifest) × (after : ToolManifest) × (tool_named x previous ≡ some before)
        × (tool_named x current ≡ some after)
        × Unbroken before after
  unfolding tool_diffs_of contains
  tool_diffs-Unbroken previous current [] diffs e h x m = ground arith
  tool_diffs-Unbroken previous current (n ∷ ns) diffs e h x m =
      let (before, after, d, rest, eb, ea, ed, er, all) =
        split_diffs previous current n ns diffs e in
      let (here, later) =
        ||-false (breaks d) (any breaks rest) (subst (λ l. any breaks l ≡ false) all h) in
      elim (Bool-cases (str_eq n x)) [
        | inl same ↦
            let at_x : n ≡ x = ground (arith, eq_iff n x, same) in
            (
              before,
              after,
              subst (λ y. tool_named y previous ≡ some before) at_x eb,
              subst (λ y. tool_named y current ≡ some after) at_x ea,
              tool_diff-Unbroken before after d ed here,
            )
        | inr other ↦
            tool_diffs-Unbroken previous current ns rest er later x (ground (arith, m, other))
      ]

  -- Where a comparison says that a cutover is ready, the new surface is stateless, and it still has
  -- every tool of the old one, with input and output schemas whose changes are not breaking and the
  -- same effect, approval and idempotency.
  pub cutover_ready-Unbroken :
      (previous current : MigrationSurface) (d : MigrationDiff)
      → compare_migration_surfaces fingerprint previous current ≡ some d
      → cutover_ready d ≡ true
      → (current.stateless ≡ true)
        × ((x : String)
            → contains x (tool_names previous.tools) ≡ true
            → (before : ToolManifest) × (after : ToolManifest) × (tool_named x previous.tools
                ≡ some before)
              × (tool_named x current.tools ≡ some after)
              × Unbroken before after)
  unfolding compare_migration_surfaces cutover_ready requires_major_version
  cutover_ready-Unbroken p c d e h =
      elim (Option-cases (tool_diffs_of fingerprint p.tools c.tools names)) [
        | inl missing ↦ ground (arith, e, missing)
        | inr (diffs, there) ↦
            let removed : d.removed_tools ≡ added (tool_names p.tools) (tool_names c.tools) =
              ground (arith, e, there) in
            let same_diffs : d.tool_diffs ≡ diffs = ground (arith, e, there) in
            let target : d.target_stateless ≡ c.stateless = ground (arith, e, there) in
            let breaks_none : any breaks diffs ≡ false = ground (arith, h, same_diffs) in
            let none_removed : is_nonempty (added (tool_names p.tools) (tool_names c.tools))
                ≡ false =
              ground (arith, h, removed) in
            let stateless : c.stateless ≡ true = ground (arith, h, target) in
            (
              stateless,
              (λ x m. tool_diffs-Unbroken p.tools c.tools names diffs there breaks_none x (
                  ground (
                    arith,
                    m,
                    contains-shared x (tool_names p.tools) (tool_names c.tools),
                    contains-added x (tool_names p.tools) (tool_names c.tools),
                    contains-empty x (added (tool_names p.tools) (tool_names c.tools)) none_removed,
                  ))),
            )
      ]
    where
      names : List String
      names = shared (tool_names p.tools) (tool_names c.tools)

  -- The names of tools, the destinations and the identifiers of routes that a comparison calls added
  -- or removed are those of one surface that the other does not have. Routes that differ may have the
  -- same identifier.
  pub compare_migration_surfaces-differences :
      (previous current : MigrationSurface) (d : MigrationDiff)
      → compare_migration_surfaces fingerprint previous current ≡ some d
      → (x : String)
      → (contains x d.added_tools
          ≡ contains x (tool_names current.tools) && not (contains x (tool_names previous.tools)))
        × (contains x d.removed_tools
            ≡ contains x (tool_names previous.tools) && not (contains x (tool_names current.tools)))
        × (contains x d.added_egress
            ≡ contains x current.egress && not (contains x previous.egress))
        × (contains x d.removed_egress
            ≡ contains x previous.egress && not (contains x current.egress))
        × (contains x d.added_routes
            ≡ contains x (map identifier current.routes)
              && not (contains x (map identifier previous.routes)))
        × (contains x d.removed_routes
            ≡ contains x (map identifier previous.routes)
              && not (contains x (map identifier current.routes)))
  unfolding compare_migration_surfaces
  compare_migration_surfaces-differences p c d e x =
      let names = shared (tool_names p.tools) (tool_names c.tools) in
      elim (Option-cases (tool_diffs_of fingerprint p.tools c.tools names)) [
        | inl missing ↦ ground (arith, e, missing)
        | inr (diffs, there) ↦ (
          differs d.added_tools _ _ (ground (arith, e, there)),
          differs d.removed_tools _ _ (ground (arith, e, there)),
          differs d.added_egress _ _ (ground (arith, e, there)),
          differs d.removed_egress _ _ (ground (arith, e, there)),
          differs d.added_routes _ _ (ground (arith, e, there)),
          differs d.removed_routes _ _ (ground (arith, e, there)),
        )
      ]
    where
      differs :
          (xs now before : List String)
          → xs ≡ added now before
          → contains x xs ≡ contains x now && not (contains x before)
      differs xs now before same = ground (arith, same, contains-added x now before)
