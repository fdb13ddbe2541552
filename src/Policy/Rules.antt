-- ===== src/Policy/Rules.antt =====
-- The enumerations and data classes of policy.py, with their `__post_init__` checks.
use tesserix_mcp_runtime.Base.{
  ℕ, Bool, true, false, not, ◌&&◌, ◌||◌, String, Option, List, leb, ◌==◌, length, all, is_unique,
  str_eq, if◌then◌else◌, pos, negsuc, Number, integer, finite, is_huge,
}
use tesserix_mcp_runtime.Base.Text.{codes, is_digit}
use tesserix_mcp_runtime.Contracts.Failure.{Result, ok, err, ◌>>◌, check, each, overflow_failure}
use tesserix_mcp_runtime.Contracts.Response.{require_text}
use tesserix_mcp_runtime.Json.{Value, text, object, end, field, name}
use tesserix_mcp_runtime.Execution.Limits.{ticks}
use tesserix_mcp_runtime.Manifest.{ToolManifest, manifest_value}

pub data ToolPolicyState : Type 0 where
  experimental active disabled : ToolPolicyState

pub data ApprovalUse : Type 0 where
  one_time reusable : ApprovalUse

pub data ToolPolicyDecision : Type 0 where
  allowed approval_denied approval_required idempotency_required : ToolPolicyDecision
  policy_backend_unavailable policy_denied scope_denied : ToolPolicyDecision

-- `rule.state is ToolPolicyState.ACTIVE`
abbrev pub is_active : ToolPolicyState → Bool
is_active active = true
is_active _ = false

abbrev pub is_one_time : ApprovalUse → Bool
is_one_time one_time = true
is_one_time reusable = false

-- `_DIGEST`
unfoldable pub is_digest : String → Bool
is_digest value =
    let s = codes value in length s == 64 && all (λ c. is_digit c || (leb b'a' c && leb c b'f')) s

-- `_require_text_tuple`
unfoldable pub require_texts : List String → Result (Unit {0})
require_texts values = do
  check (leb (length values) 32)
  each (require_text 256) values
  check (is_unique values)

pub record ToolReview : Type 0 where
  pub review_id : String
  pub author_subject : String
  pub reviewer_subject : String
  pub reviewed_fingerprint : String

unfoldable pub check_review : ToolReview → Result ToolReview
check_review r = do
  require_text 256 r.review_id
  require_text 512 r.author_subject
  require_text 512 r.reviewer_subject
  check (not (str_eq r.author_subject r.reviewer_subject))
  check (is_digest r.reviewed_fingerprint)
  ok r

pub record ToolPolicyRule : Type 0 where
  pub tool_name : String
  pub reviewed_fingerprint : String
  pub allowed_scopes : List String
  pub state : ToolPolicyState
  pub review : Option ToolReview

unfoldable pub check_rule : ToolPolicyRule → Result ToolPolicyRule
check_rule r = do
  require_text 128 r.tool_name
  check (is_digest r.reviewed_fingerprint)
  require_texts r.allowed_scopes
  ok r

-- `expires_at` is in ticks once it is checked.
pub record ApprovalRecord : Type 0 where
  pub approval_id : String
  pub action_fingerprint : String
  pub tenant : String
  pub subject : String
  pub tool_name : String
  pub tool_fingerprint : String
  pub arguments_fingerprint : String
  pub expires_at : ℕ
  pub use_of : ApprovalUse

-- a finite number that is not negative, as in `expires_at` and in a reading of the wall clock
unfoldable pub check_timestamp : Number → Result (Unit {0})
check_timestamp (integer (pos n)) = if is_huge (pos n) then err overflow_failure else ok tt
check_timestamp (integer (negsuc n)) =
    if is_huge (negsuc n) then err overflow_failure else check false
check_timestamp (finite (pos n)) = ok tt
check_timestamp _ = check false

module _ (fingerprint : Value → String) where
  -- `tool_policy_fingerprint`
  unfoldable pub tool_policy_fingerprint : ToolManifest → String
  unfolding manifest_value
  tool_policy_fingerprint m = fingerprint (manifest_value fingerprint m)

  -- `_approval_action_fingerprint`
  unfoldable pub approval_action_fingerprint : String → String → String → String → String → String
  approval_action_fingerprint tenant subject tool_name tool_fingerprint arguments_fingerprint =
      fingerprint (
        object (
          field (name "tenant") (text tenant) (
            field (name "subject") (text subject) (
              field (name "tool_name") (text tool_name) (
                field (name "tool_fingerprint") (text tool_fingerprint)
                  (field (name "arguments_fingerprint") (text arguments_fingerprint) end))))))

  -- `ApprovalRecord.__post_init__`, where `expires_at` is what the record was given
  unfoldable pub check_approval : Number → ApprovalRecord → Result ApprovalRecord
  check_approval expires_at r = do
    require_text 256 r.approval_id
    require_text 256 r.tenant
    require_text 512 r.subject
    require_text 128 r.tool_name
    check (is_digest r.action_fingerprint)
    check (is_digest r.tool_fingerprint)
    check (is_digest r.arguments_fingerprint)
    check (
        str_eq r.action_fingerprint (
          approval_action_fingerprint r.tenant r.subject r.tool_name r.tool_fingerprint
            r.arguments_fingerprint))
    check_timestamp expires_at
    ok r

  -- `ApprovalRecord.for_action`
  unfoldable pub for_action :
      String → String → String → ToolManifest → Value → Number → ApprovalUse → Result ApprovalRecord
  for_action approval_id tenant subject manifest arguments expires_at use_of =
      let tool_fingerprint = tool_policy_fingerprint manifest in
      let arguments_fingerprint = fingerprint arguments in
      check_approval expires_at (record {
        approval_id = approval_id;
        action_fingerprint =
            approval_action_fingerprint tenant subject manifest.metadata.name tool_fingerprint
              arguments_fingerprint;
        tenant = tenant;
        subject = subject;
        tool_name = manifest.metadata.name;
        tool_fingerprint = tool_fingerprint;
        arguments_fingerprint = arguments_fingerprint;
        expires_at = ticks expires_at;
        use_of = use_of;
      })
