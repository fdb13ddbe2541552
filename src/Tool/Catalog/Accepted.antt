-- ===== src/Tool/Catalog/Accepted.antt =====
-- A catalog that is built.
use tesserix_mcp_runtime.Base.{
  ℕ, ◌+◌, Bool, true, false, String, Option, none, some, List, [], ◌∷◌, ◌++◌, map, ℤ, All, contains,
  is_unique, is_some, ◌≡◌, refl, sym, subst, ◌∙◌, ap, arith, eq_iff,
}
use mathlib.Core.List.{append_assoc, append-nil}
use tesserix_mcp_runtime.Base.Dict.{get, put, get-put}
use tesserix_mcp_runtime.Json.{Fields}
use tesserix_mcp_runtime.Schema.Equality.{entry}
use tesserix_mcp_runtime.Tool.Violation.{start, under, item, passed, chain_passed, guard_passed}
use tesserix_mcp_runtime.Tool.{SchemaPolicy, MetadataPolicy}
use tesserix_mcp_runtime.Tool.Register.{validate_schema, root_definitions, or_none}
use tesserix_mcp_runtime.Tool.Register.Bounded.{is_bounded}
use tesserix_mcp_runtime.Tool.Register.Reached.{Reached, validate_schema-is_bounded}
use tesserix_mcp_runtime.Tool.Catalog.{
  ToolDefinition, validate_metadata, ToolCatalog, manifest_for, require_new, add_definition,
  add_definitions, build_catalog,
}

-- each schema that the schema reaches is bounded
abbrev pub BoundedSchema : SchemaPolicy → Fields → Type 0
BoundedSchema policy schema =
    (t : Fields)
    → Reached (or_none (root_definitions (entry "$defs" schema))) schema t
    → is_bounded policy t ≡ true

module _ (float_length : ℤ → ℕ) (is_word : ℕ → Bool) (casefold : String → String)
    (schema_policy : SchemaPolicy) (metadata_policy : MetadataPolicy) where
  abbrev pub normalized : List ToolDefinition → List String
  normalized = map (λ d. casefold d.metadata.name)

  -- what a definition promises that was added
  abbrev pub Promised : ToolDefinition → Type 0
  Promised d =
      (validate_metadata is_word metadata_policy d.metadata ≡ passed tt)
      × BoundedSchema schema_policy d.input_schema
      × BoundedSchema schema_policy d.output_schema

  added :
      (index : ℕ) (d : ToolDefinition) (c after : ToolCatalog)
      → add_definition float_length is_word casefold schema_policy metadata_policy index d c
        ≡ passed after
      → (get c.by_normalized_name (casefold d.metadata.name) ≡ none)
        × (after.by_normalized_name ≡ put c.by_normalized_name (casefold d.metadata.name) index)
        × (after.manifests
            ≡ c.manifests
              ++ (manifest_for float_length is_word casefold schema_policy metadata_policy d ∷ []))
        × Promised d
  unfolding add_definition require_new
  added index d c after h =
      let (described, rest) =
        guard_passed (validate_metadata is_word metadata_policy d.metadata) _ after h in
      let (new, rest1) = guard_passed _ _ after rest in
      let (w1, input, rest2) =
        chain_passed
          (validate_schema float_length schema_policy
            (under (item (start "tools") index) "input_schema") d.input_schema)
          _ after rest1 in
      let (w2, output, done) =
        chain_passed
          (validate_schema float_length schema_policy
            (under (item (start "tools") index) "output_schema") d.output_schema)
          _ after rest2 in
      (
        absent (get c.by_normalized_name (casefold d.metadata.name)) new,
        ground (arith, done),
        ground (arith, done),
        (
          described,
          (validate_schema-is_bounded float_length schema_policy _ d.input_schema w1 input).1,
          (validate_schema-is_bounded float_length schema_policy _ d.output_schema w2 output).1,
        ),
      )
    where
      absent :
          (o : Option ℕ)
          → require_new float_length is_word casefold schema_policy metadata_policy o
              (under (under (item (start "tools") index) "metadata") "name")
            ≡ passed tt
          → o ≡ none
      absent none k = refl
      absent (some n) k = ground (arith, k)

  -- names that are taken stay taken, and a new one is none of them
  distinct_lem :
      (index : ℕ) (ds : List ToolDefinition) (c after : ToolCatalog)
      → add_definitions float_length is_word casefold schema_policy metadata_policy index ds c
        ≡ passed after
      → ((name : String)
          → is_some (get c.by_normalized_name name) ≡ true
          → contains name (normalized ds) ≡ false)
        × (is_unique (normalized ds) ≡ true)
  unfolding add_definitions contains is_unique
  distinct_lem index [] c after h = (λ name k. refl, refl)
  distinct_lem index (d ∷ ds) c after h =
      let (grown, first, rest) =
        chain_passed
          (add_definition float_length is_word casefold schema_policy metadata_policy index d c) _
          after h in
      let (new, named, listed, promised) = added index d c grown first in
      let (apart, unique) = distinct_lem (index + 1) ds grown after rest in
      let key = casefold d.metadata.name in
      (
        λ name k.
            ground
              (arith, k, new, eq_iff key name, apart name (taken c grown key name index named k)),
        ground (arith, unique, apart key (taken_first c grown key index named)),
      )
    where
      taken_first :
          (c grown : ToolCatalog) (key : String) (index : ℕ)
          → grown.by_normalized_name ≡ put c.by_normalized_name key index
          → is_some (get grown.by_normalized_name key) ≡ true
      taken_first c grown key index e =
          subst (λ m. is_some (get m key) ≡ true) (sym e)
            (ground (arith, get-put c.by_normalized_name key key index, eq_iff key key))

      taken :
          (c grown : ToolCatalog) (key name : String) (index : ℕ)
          → grown.by_normalized_name ≡ put c.by_normalized_name key index
          → is_some (get c.by_normalized_name name) ≡ true
          → is_some (get grown.by_normalized_name name) ≡ true
      taken c grown key name index e k =
          subst (λ m. is_some (get m name) ≡ true) (sym e)
            (ground (arith, k, get-put c.by_normalized_name key name index))

  listed_lem :
      (index : ℕ) (ds : List ToolDefinition) (c after : ToolCatalog)
      → add_definitions float_length is_word casefold schema_policy metadata_policy index ds c
        ≡ passed after
      → (after.manifests
          ≡ c.manifests
            ++ map (manifest_for float_length is_word casefold schema_policy metadata_policy) ds)
        × All Promised ds
  unfolding add_definitions
  listed_lem index [] c after h = (unchanged, tt)
    where
      unchanged : after.manifests ≡ c.manifests ++ []
      unchanged =
          let equal : c ≡ after = ground (arith, h) in
          subst (λ u. u.manifests ≡ c.manifests ++ []) equal (sym (append-nil c.manifests))
  listed_lem index (d ∷ ds) c after h =
      let (grown, first, rest) =
        chain_passed
          (add_definition float_length is_word casefold schema_policy metadata_policy index d c) _
          after h in
      let (new, named, listed, promised) = added index d c grown first in
      let (manifests, all) = listed_lem (index + 1) ds grown after rest in
      (
        manifests
            ∙ ap
                (λ m.
                  m
                  ++ map (manifest_for float_length is_word casefold schema_policy metadata_policy)
                      ds)
                listed
            ∙ append_assoc c.manifests _ _,
        (promised, all),
      )

  -- A catalog that is built holds the manifests of its definitions in their order, no two of them
  -- have the same name up to case, the texts of each are within their budgets, and each schema that
  -- an input or output schema reaches is bounded.
  pub build_catalog-Promised :
      (ds : List ToolDefinition) (c : ToolCatalog)
      → build_catalog float_length is_word casefold schema_policy metadata_policy ds ≡ passed c
      → (c.manifests
          ≡ map (manifest_for float_length is_word casefold schema_policy metadata_policy) ds)
        × (is_unique (normalized ds) ≡ true)
        × All Promised ds
  unfolding build_catalog
  build_catalog-Promised ds c h =
      let (manifests, all) = listed_lem 0 ds _ c h in (manifests, (distinct_lem 0 ds _ c h).1, all)
