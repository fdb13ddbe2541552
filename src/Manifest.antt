-- ===== src/Manifest.antt =====
-- src/tesserix_mcp_runtime/tool_manifest.py: handler-free snapshots of tools and their fingerprints.
--
-- `fingerprint` stands for `_digest(_canonical_json(value))`, the SHA-256 of the canonical JSON text.
-- The documents are objects in the order in which the code writes them.
use tesserix_mcp_runtime.Base.{String, Option, none, some, List, [], ◌∷◌}
use tesserix_mcp_runtime.Contracts.Vocabulary.{
  ToolEffect, ApprovalRequirement, IdempotencyRequirement,
}
use tesserix_mcp_runtime.Contracts.Metadata.{ToolDiscoveryMetadata, ToolMetadata}
use tesserix_mcp_runtime.Json.{
  Value, text, array, object, Items, nil, cons, Fields, end, field, name,
}

-- the `.value` of the enumerations
abbrev pub effect_value : ToolEffect → String
effect_value ToolEffect.read = "read"
effect_value ToolEffect.write = "write"
effect_value ToolEffect.external_effect = "external_effect"

abbrev pub approval_value : ApprovalRequirement → String
approval_value ApprovalRequirement.not_required = "not_required"
approval_value ApprovalRequirement.required = "required"

abbrev pub idempotency_value : IdempotencyRequirement → String
idempotency_value IdempotencyRequirement.not_applicable = "not_applicable"
idempotency_value IdempotencyRequirement.required = "required"

-- `list(texts)`
abbrev pub texts : List String → Items
texts [] = nil
texts (s ∷ ss) = cons (text s) (texts ss)

-- `ToolDiscoveryMetadata.to_dict`
unfoldable pub discovery_value : ToolDiscoveryMetadata → Value
discovery_value d = object (
    field (name "summary") (text d.summary) (
      field (name "when_to_use") (text d.when_to_use) (
        field (name "capabilities") (array (texts d.capabilities)) (
          field (name "rate_class") (text d.rate_class) (
            field (name "lifecycle") (text d.lifecycle)
              (field (name "examples") (array (texts d.examples)) end))))))

abbrev discovery_fields : Option ToolDiscoveryMetadata → Fields
discovery_fields none = end
discovery_fields (some d) = field (name "discovery") (discovery_value d) end

-- `ToolMetadata.to_dict`
unfoldable pub metadata_value : ToolMetadata → Value
unfolding discovery_value
metadata_value m = object (
    field (name "name") (text m.name) (
      field (name "title") (text m.title) (
        field (name "description") (text m.description) (
          field (name "effect") (text (effect_value m.effect)) (
            field (name "approval") (text (approval_value m.approval)) (
              field (name "idempotency") (text (idempotency_value m.idempotency)) (
                field (name "required_scopes") (array (texts m.required_scopes))
                  (discovery_fields m.discovery))))))))

-- The schemas are kept as canonical text in the code, and read back on demand.
pub record ToolManifest : Type 0 where
  pub metadata : ToolMetadata
  pub normalized_name : String
  pub input_schema : Value
  pub output_schema : Value

module _ (fingerprint : Value → String) where
  unfoldable pub contract_fingerprint : ToolManifest → String
  contract_fingerprint m = fingerprint (
      object (
        field (name "input_schema") m.input_schema
          (field (name "output_schema") m.output_schema end)))

  -- `ToolManifest.to_dict`
  unfoldable pub manifest_value : ToolManifest → Value
  unfolding metadata_value contract_fingerprint
  manifest_value m = object (
      field (name "metadata") (metadata_value m.metadata) (
        field (name "normalized_name") (text m.normalized_name) (
          field (name "input_schema") m.input_schema (
            field (name "output_schema") m.output_schema (
              field (name "fingerprints")
                (object (
                  field (name "input") (text (fingerprint m.input_schema)) (
                    field (name "output") (text (fingerprint m.output_schema))
                      (field (name "contract") (text (contract_fingerprint m)) end))))
                end)))))
