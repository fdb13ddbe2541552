-- ===== src/Redaction/Tests.antt =====
-- The theorems on a mapping whose keys are all redacted to one text, and tests.
use tesserix_mcp_runtime.Base.{◌≤◌, true, false, String, some, [], ◌∷◌, contains, ◌≡◌, refl}
use tesserix_mcp_runtime.Contracts.Failure.{ok, err, value_failure}
use tesserix_mcp_runtime.Json.{name, Value, text, array, object, nil, cons, end, field}
use tesserix_mcp_runtime.Json.Text.{utf8_length}
use tesserix_mcp_runtime.Redaction.Decimal.{tagged}
use tesserix_mcp_runtime.Redaction.{
  RedactionLimits, unused_key, output_key, is_secret_key, check_secret, redact,
}
use tesserix_mcp_runtime.Redaction.Keys.{unused_key_ends}
use tesserix_mcp_runtime.Redaction.Measure.{nodes_of, bytes_of, levels_of, has_distinct_keys}
use tesserix_mcp_runtime.Redaction.Bounded.{redact-bounds}

same : String → String
same s = s

hide : String → String
hide s = "[REDACTED]"

abbrev limits : RedactionLimits
limits = record { max_depth = 2; max_nodes = 5; max_text_bytes = 100 }

abbrev two_keys : Value
two_keys =
    object
      (field (name "alice") (array (cons (text "bob") nil)) (field (name "api-key") (text "k") end))

abbrev hidden : Value
hidden = object (
    field (name "[REDACTED]") (array (cons (text "[REDACTED]") nil))
      (field (name "[REDACTED]#2") (text "[REDACTED]") end))

hidden_pair : redact same hide limits two_keys ≡ ok hidden
unfolding redact same hide utf8_length contains tagged
hidden_pair = refl

redact-bounds_example :
    (nodes_of hidden ≤ 5)
    × (bytes_of hidden ≤ 100)
    × (levels_of hidden ≤ 2)
    × (has_distinct_keys hidden ≡ true)
redact-bounds_example = redact-bounds same hide limits two_keys hidden hidden_pair

unused_key_ends_example :
    (found : String) × (unused_key 4 "key" 2 "key" ("key" ∷ "key#2" ∷ []) ≡ some found)
    × (output_key "key" ("key" ∷ "key#2" ∷ []) ≡ found)
    × (contains found ("key" ∷ "key#2" ∷ []) ≡ false)
unused_key_ends_example = unused_key_ends "key" ("key" ∷ "key#2" ∷ [])

third_key : output_key "key" ("key" ∷ "key#2" ∷ []) ≡ "key#3"
unfolding output_key contains tagged
third_key = refl

secret_keys : is_secret_key same hide limits "access_token" ≡ true
unfolding is_secret_key same
secret_keys = refl

short_secret : check_secret "key" ≡ err value_failure
unfolding check_secret
short_secret = refl
