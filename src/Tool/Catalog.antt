-- ===== src/Tool/Catalog.antt =====
-- src/tesserix_mcp_runtime/tool.py: the budgets on the public texts of a tool (MetadataPolicy) and
-- ToolCatalog, which checks the definitions one by one.
--
-- `is_word` is the class `\w` of the interpreter's Unicode tables and `casefold` is `str.casefold`.
-- The tests of a definition's class and of its callables are given by the types. A catalog maps its
-- names to the places of the definitions.
pub mod Accepted
use tesserix_mcp_runtime.Base.{
  ℕ, suc, ◌+◌, Bool, true, false, not, ◌&&◌, ◌||◌, String, Option, none, some, List, [], ◌∷◌, ◌++◌,
  map, leb, length, ℤ, if◌then◌else◌,
}
use tesserix_mcp_runtime.Base.Dict.{Dict, get, put, empty}
use tesserix_mcp_runtime.Base.Text.{codes, is_space}
use tesserix_mcp_runtime.Contracts.Metadata.{ToolDiscoveryMetadata, ToolMetadata}
use tesserix_mcp_runtime.Json.{Value, object, Fields}
use tesserix_mcp_runtime.Json.Text.{utf8_length}
use tesserix_mcp_runtime.Manifest.{ToolManifest, manifest_value}
use tesserix_mcp_runtime.Tool.Violation.{
  metadata_limit_exceeded, duplicate_tool_name, Place, start, under, item, Checked, passed,
  violated, ◌>>=◌, ◌>>◌, require,
}
use tesserix_mcp_runtime.Tool.{
  SchemaPolicy, MetadataPolicy, max_description_bytes, max_description_tokens, max_summary_bytes,
  max_summary_tokens, max_when_to_use_bytes, max_when_to_use_tokens, max_examples,
  max_example_bytes, max_example_tokens, max_total_example_bytes, max_total_example_tokens,
}
use tesserix_mcp_runtime.Tool.Register.{validate_schema}

-- the parts of ToolDefinition that the catalog reads
pub record ToolDefinition : Type 0 where
  pub metadata : ToolMetadata
  pub input_schema : Fields
  pub output_schema : Fields

module _ (is_word : ℕ → Bool) where
  -- `len(_PORTABLE_TOKEN.findall(value))`: runs of word characters, and other characters that are no
  -- spaces; `inside` says that a run has begun
  unfoldable pub count_tokens : Bool → List ℕ → ℕ
  unfolding is_space
  count_tokens inside [] = 0
  count_tokens inside (c ∷ s) =
      let in_run = count_tokens true s in
      let after = count_tokens false s in
      if is_word c
      then if inside then in_run else suc in_run
      else if is_space c
      then after
      else suc after

  unfoldable pub portable_token_count : String → ℕ
  portable_token_count value = count_tokens false (codes value)

  -- `_validate_text_budget`
  unfoldable pub validate_text_budget : String → Place → ℕ → ℕ → Checked (Unit {0})
  validate_text_budget value place max_bytes max_tokens =
      require
        (leb (utf8_length (codes value)) max_bytes && leb (portable_token_count value) max_tokens)
        metadata_limit_exceeded place

  module _ (policy : MetadataPolicy) where
    -- the loop over the examples, with the totals so far
    unfoldable pub validate_examples : Place → ℕ → ℕ → ℕ → List String → Checked (ℕ × ℕ)
    validate_examples place index total_bytes total_tokens [] = passed (total_bytes, total_tokens)
    validate_examples place index total_bytes total_tokens (e ∷ es) = do
      validate_text_budget e (item place index) (policy.limit max_example_bytes)
          (policy.limit max_example_tokens)
      validate_examples place (index + 1) (total_bytes + utf8_length (codes e))
          (total_tokens + portable_token_count e) es

    unfoldable pub validate_discovery : Option ToolDiscoveryMetadata → Checked (Unit {0})
    validate_discovery none = passed tt
    validate_discovery (some d) =
        let place = under (start "metadata") "discovery" in
        validate_text_budget d.summary (under place "summary") (policy.limit max_summary_bytes)
          (policy.limit max_summary_tokens)
        >> (validate_text_budget d.when_to_use (under place "when_to_use")
              (policy.limit max_when_to_use_bytes) (policy.limit max_when_to_use_tokens)
            >> (require (leb (length d.examples) (policy.limit max_examples))
                  metadata_limit_exceeded (under place "examples")
                >> (validate_examples (under place "examples") 0 0 0 d.examples >>= λ totals.
                    require
                      (leb totals.0 (policy.limit max_total_example_bytes)
                        && leb totals.1 (policy.limit max_total_example_tokens))
                      metadata_limit_exceeded (under place "examples"))))

    -- `MetadataPolicy.validate`
    unfoldable pub validate_metadata : ToolMetadata → Checked (Unit {0})
    validate_metadata m = do
      validate_text_budget m.description (under (start "metadata") "description")
          (policy.limit max_description_bytes) (policy.limit max_description_tokens)
      validate_discovery m.discovery

pub record ToolCatalog : Type 0 where
  pub by_name : Dict ℕ
  pub by_normalized_name : Dict ℕ
  pub manifests : List ToolManifest

module _ (float_length : ℤ → ℕ) (is_word : ℕ → Bool) (casefold : String → String)
    (schema_policy : SchemaPolicy) (metadata_policy : MetadataPolicy) where
  -- the manifest of an accepted definition
  unfoldable pub manifest_for : ToolDefinition → ToolManifest
  manifest_for d = record {
    metadata = d.metadata;
    normalized_name = casefold d.metadata.name;
    input_schema = object d.input_schema;
    output_schema = object d.output_schema;
  }

  -- the name is new, under the case-insensitive names
  unfoldable pub require_new : Option ℕ → Place → Checked (Unit {0})
  require_new none place = passed tt
  require_new (some first) place = violated duplicate_tool_name place

  -- one round of the loop of `__init__`
  unfoldable pub add_definition : ℕ → ToolDefinition → ToolCatalog → Checked ToolCatalog
  add_definition index d c = do
    validate_metadata is_word metadata_policy d.metadata
    require_new (get c.by_normalized_name (casefold d.metadata.name))
        (under (under (item (start "tools") index) "metadata") "name")
    input_walk ←
        validate_schema float_length schema_policy
          (under (item (start "tools") index) "input_schema") d.input_schema
    output_walk ←
        validate_schema float_length schema_policy
          (under (item (start "tools") index) "output_schema") d.output_schema
    passed (record {
      by_name = put c.by_name d.metadata.name index;
      by_normalized_name = put c.by_normalized_name (casefold d.metadata.name) index;
      manifests = c.manifests ++ (manifest_for d ∷ []);
    })

  unfoldable pub add_definitions : ℕ → List ToolDefinition → ToolCatalog → Checked ToolCatalog
  add_definitions index [] c = passed c
  add_definitions index (d ∷ ds) c = do
    grown ← add_definition index d c
    add_definitions (index + 1) ds grown

  -- `ToolCatalog.__init__`
  unfoldable pub build_catalog : List ToolDefinition → Checked ToolCatalog
  build_catalog ds =
      add_definitions 0 ds (record { by_name = empty; by_normalized_name = empty; manifests = [] })

-- `ToolCatalog.get`: the place of the definition
unfoldable pub find_tool : ToolCatalog → String → Option ℕ
find_tool c name = get c.by_name name

-- `ToolCatalog.export_metadata`
unfoldable pub export_metadata : (Value → String) → ToolCatalog → List Value
export_metadata fingerprint c = map (manifest_value fingerprint) c.manifests
