-- ===== src/Redaction.antt =====
-- src/tesserix_mcp_runtime/redaction.py: the bounds of SecretRedactor, and its walk over a JSON value.
--
-- `_redact_text` and `str.casefold` are parameters: neither the patterns of secrets nor the order of the known
-- ones is modelled.
-- A value is what `json` gives, so each key of a mapping occurs once.
pub mod Decimal
pub mod Keys
pub mod Measure
pub mod Spent
pub mod Bounded
mod Tests
use tesserix_mcp_runtime.Base.{
  ℕ, zero, suc, ◌+◌, Bool, true, false, not, ◌&&◌, ◌||◌, String, Option, none, some, List, [], ◌∷◌,
  leb, ltb, ◌==◌, length, any, all, contains, str_eq, if◌then◌else◌,
}
use tesserix_mcp_runtime.Base.Text.{codes, is_lower, is_digit, is_stripped}
use tesserix_mcp_runtime.Contracts.Failure.{Failure, Kind, Result, ok, err, ◌>>=◌, ◌>>◌, check}
use tesserix_mcp_runtime.Json.{
  Key, name, not_text, Value, null, boolean, integer, floating, not_finite, text, array, object,
  opaque, Items, nil, cons, Fields, end, field,
}
use tesserix_mcp_runtime.Json.Text.{utf8_length}
use tesserix_mcp_runtime.Redaction.Decimal.{tagged}

-- RedactionError
abbrev pub redaction_error : Failure
redaction_error = record { kind = Kind.other; type_name = "RedactionError" }

-- `REDACTED_TEXT`
abbrev pub redacted_text : String
redacted_text = "[REDACTED]"

pub record RedactionLimits : Type 0 where
  pub max_depth : ℕ
  pub max_nodes : ℕ
  pub max_text_bytes : ℕ

-- `RedactionLimits.__post_init__`; a limit below 0 fails as 0 does
unfoldable pub check_limits : RedactionLimits → Result RedactionLimits
check_limits l = do
  check (leb 1 l.max_depth && leb l.max_depth 64)
  check (leb 1 l.max_nodes && leb l.max_nodes 65536)
  check (leb 1 l.max_text_bytes && leb l.max_text_bytes 1048576)
  ok l

-- `SecretValue.__init__`
unfoldable pub check_secret : String → Result String
unfolding is_stripped
check_secret value = do
  check (leb 4 (length (codes value)) && leb (length (codes value)) 4096)
  check (is_stripped (codes value))
  check (not (str_eq value redacted_text))
  check (all (λ c. not (ltb c 32 || c == 127)) (codes value))
  ok value

unfoldable same_codes : List ℕ → List ℕ → Bool
same_codes [] [] = true
same_codes (c ∷ s) (d ∷ t) = c == d && same_codes s t
same_codes s t = false

unfoldable ends_with : List ℕ → List ℕ → Bool
unfolding same_codes
ends_with [] suffix = same_codes [] suffix
ends_with (c ∷ s) suffix = same_codes (c ∷ s) suffix || ends_with s suffix

-- `_KEY_PARTS.sub("", value)`
unfoldable key_parts : List ℕ → List ℕ
key_parts [] = []
key_parts (c ∷ s) = if is_lower c || is_digit c then c ∷ key_parts s else key_parts s

unfoldable sensitive_exact : List String
sensitive_exact =
    "authorization" ∷ "proxyauthorization" ∷ "token" ∷ "password" ∷ "passwd" ∷ "credential"
    ∷ "credentials" ∷ "secret" ∷ "clientsecret" ∷ "privatekey" ∷ "apikey" ∷ "accesskey"
    ∷ "accesskeyid" ∷ "secretaccesskey" ∷ "signingkey" ∷ "encryptionkey" ∷ "accesstoken"
    ∷ "refreshtoken" ∷ "authtoken" ∷ "idtoken" ∷ []

unfoldable sensitive_suffixes : List String
sensitive_suffixes =
    "token" ∷ "password" ∷ "credential" ∷ "credentials" ∷ "secret" ∷ "privatekey" ∷ "apikey"
    ∷ "accesskeyid" ∷ "secretaccesskey" ∷ "signingkey" ∷ "encryptionkey" ∷ "accesstoken"
    ∷ "refreshtoken" ∷ "authtoken" ∷ "idtoken" ∷ []

-- `_InputBudget`
pub record InputBudget : Type 0 where
  pub nodes : ℕ
  pub text_bytes : ℕ

-- the loop that looks for a key that the output does not have yet
unfoldable pub unused_key : ℕ → String → ℕ → String → List String → Option String
unused_key zero key suffix candidate output = none
unused_key (suc fuel) key suffix candidate output = elim (contains candidate output) [
  | false ↦ some candidate
  | true ↦ unused_key fuel key (suffix + 1) (tagged key suffix) output
]

abbrev pub or_key : String → Option String → String
or_key key (some found) = found
or_key key none = key

-- two units of fuel more than there are keys are enough
unfoldable pub output_key : String → List String → String
unfolding unused_key
output_key key output = or_key key (unused_key (suc (suc (length output))) key 2 key output)

module _ (casefold redacted : String → String) (limits : RedactionLimits) where
  -- `is_secret_key`
  unfoldable pub is_secret_key : String → Bool
  unfolding key_parts same_codes ends_with sensitive_exact sensitive_suffixes
  is_secret_key value =
      let normalized = key_parts (codes (casefold value)) in
      any (λ t. same_codes normalized (codes t)) sensitive_exact
      || any (λ t. ends_with normalized (codes t)) sensitive_suffixes

  -- `_consume_text`
  unfoldable pub consume_text : String → InputBudget → Result InputBudget
  consume_text value b =
      let used = b.text_bytes + utf8_length (codes value) in
      if ltb limits.max_text_bytes used
      then err redaction_error
      else ok (record b { text_bytes = used })

  -- a node, if the depth and the budget admit it
  unfoldable pub consume_node : ℕ → InputBudget → Result InputBudget
  consume_node depth b =
      if ltb limits.max_depth depth
      then err redaction_error
      else if ltb limits.max_nodes (b.nodes + 1)
      then err redaction_error
      else ok (record b { nodes = b.nodes + 1 })

  -- `_validate`
  unfoldable mutual
    unfolding consume_text consume_node

    pub validate : Value → ℕ → InputBudget → Result InputBudget
    validate null depth b = consume_node depth b
    validate (boolean x) depth b = consume_node depth b
    validate (integer n) depth b = consume_node depth b
    validate (floating x) depth b = consume_node depth b
    validate not_finite depth b = consume_node depth b >>= λ _. err redaction_error
    validate (text s) depth b = consume_node depth b >>= λ c. consume_text s c
    validate (array vs) depth b = consume_node depth b >>= λ c. validate_items vs (depth + 1) c
    validate (object fs) depth b = consume_node depth b >>= λ c. validate_fields fs (depth + 1) c
    validate opaque depth b = consume_node depth b >>= λ _. err redaction_error

    pub validate_items : Items → ℕ → InputBudget → Result InputBudget
    validate_items nil depth b = ok b
    validate_items (cons v vs) depth b = validate v depth b >>= λ c. validate_items vs depth c

    pub validate_fields : Fields → ℕ → InputBudget → Result InputBudget
    validate_fields end depth b = ok b
    validate_fields (field (name k) v fs) depth b =
        consume_text k b >>= λ c. validate v depth c >>= λ d. validate_fields fs depth d
    validate_fields (field not_text v fs) depth b = err redaction_error

  -- `_transform`; a key that is not a text does not get here
  unfoldable mutual
    unfolding is_secret_key output_key

    pub transform : Value → Value
    transform (text s) = text (redacted s)
    transform (array vs) = array (transform_items vs)
    transform (object fs) = object (transform_fields fs [])
    transform null = null
    transform (boolean x) = boolean x
    transform (integer n) = integer n
    transform (floating x) = floating x
    transform not_finite = not_finite
    transform opaque = opaque

    pub transform_items : Items → Items
    transform_items nil = nil
    transform_items (cons v vs) = cons (transform v) (transform_items vs)

    pub transform_fields : Fields → List String → Fields
    transform_fields end output = end
    transform_fields (field (name k) v fs) output =
        let candidate = output_key (redacted k) output in
        field (name candidate) (if is_secret_key k then text redacted_text else transform v)
          (transform_fields fs (candidate ∷ output))
    transform_fields (field not_text v fs) output =
        field not_text (transform v) (transform_fields fs output)

  abbrev pub fresh : InputBudget
  fresh = record { nodes = 0; text_bytes = 0 }

  -- `redact`
  unfoldable pub redact : Value → Result Value
  unfolding validate transform
  redact v = validate v 0 fresh >>= λ _.
      let output = transform v in validate output 0 fresh >>= λ _. ok output

  -- `_check_text`
  unfoldable pub check_text : String → Result (Unit {0})
  check_text value =
      if ltb limits.max_text_bytes (utf8_length (codes value)) then err redaction_error else ok tt

  -- `redact_text`
  unfoldable pub redact_text : String → Result String
  unfolding check_text
  redact_text value = do check_text value; check_text (redacted value); ok (redacted value)
