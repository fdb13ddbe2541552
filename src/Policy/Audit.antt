-- ===== src/Policy/Audit.antt =====
-- `_event`, `_append`, `_deny`, `_backend_unavailable`, `_redact_audit_text` and `_now` of ToolPolicy.
--
-- What the policy calls is a record of functions. The k-th reading of the wall clock, an append to
-- the audit sink and a use of the approval store may each raise; a journal keeps the appended
-- events, the number of clock readings and the calls of `consume` with their
-- answers.
use tesserix_mcp_runtime.Base.{
  ℕ, suc, Bool, String, Option, none, some, List, [], ◌∷◌, ◌++◌, if◌then◌else◌,
}
use tesserix_mcp_runtime.Base.Chain.{◌>>=◌}
use tesserix_mcp_runtime.Base.Dict.{get}
use tesserix_mcp_runtime.Base.Sets.{sorted}
use tesserix_mcp_runtime.Contracts.Vocabulary.{ErrorCode, ToolEffect}
use tesserix_mcp_runtime.Contracts.Failure.{Result, ok, err, code_failure}
use tesserix_mcp_runtime.Contracts.Identity.{CallContext}
use tesserix_mcp_runtime.Json.{Value}
use tesserix_mcp_runtime.Manifest.{ToolManifest}
use tesserix_mcp_runtime.Policy.Rules.{ToolPolicyDecision, ApprovalRecord, tool_policy_fingerprint}
use tesserix_mcp_runtime.Policy.Setup.{ToolPolicy}

pub record ToolPolicyAuditEvent : Type 0 where
  pub decision : ToolPolicyDecision
  pub request_id : String
  pub run_id : String
  pub tenant : String
  pub subject_hash : String
  pub tool_name : String
  pub tool_fingerprint : String
  pub effect : ToolEffect
  pub scopes : List String
  pub approval_id : Option String
  pub idempotency_key_hash : Option String
  pub occurred_at : ℕ

-- what `fetch` answers: it raises, it has no record, or it has one
pub data Fetched : Type 0 where
  fetch_raises : Fetched
  missing : Fetched
  found : ApprovalRecord → Fetched

pub data Consumed : Type 0 where
  consume_raises refused accepted : Consumed

pub record Surroundings : Type 0 where
  -- `_canonical_fingerprint`, `_digest`, `str.casefold`
  pub fingerprint : Value → String
  pub digest : String → String
  pub casefold : String → String
  -- `redact_text`: `none` if it raises
  pub redact : String → Option String
  -- a reading of the wall clock: `none` if it raises or is no finite time from 0 on
  pub clock : ℕ → Option ℕ
  pub sink_accepts : List ToolPolicyAuditEvent → ToolPolicyAuditEvent → Bool
  pub fetch : String → Fetched
  -- from the earlier calls and what they were answered
  pub consume : List ((String × String) × Consumed) → String → String → Consumed

pub record Journal : Type 0 where
  pub audit : List ToolPolicyAuditEvent
  pub readings : ℕ
  pub consumed : List ((String × String) × Consumed)

abbrev redact_all : (String → Option String) → List String → Option (List String)
redact_all redact [] = some []
redact_all redact (s ∷ ss) = do first ← redact s; rest ← redact_all redact ss; some (first ∷ rest)

abbrev redact_given : (String → Option String) → Option String → Option (Option String)
redact_given redact none = some none
redact_given redact (some s) = do t ← redact s; some (some t)

abbrev digest_given : (String → String) → Option String → Option String
digest_given digest none = none
digest_given digest (some s) = some (digest s)

abbrev or_computed : Option String → String → String
or_computed none computed = computed
or_computed (some known) computed = known

abbrev unavailable {ℓ} : {A : Type ℓ} → Result A
unavailable = err (code_failure ErrorCode.unavailable)

module _ (env : Surroundings) (p : ToolPolicy) (context : CallContext) where
  -- the fields of an event, but for its time; `none` if a redaction raises
  unfoldable pub event_fields :
      ToolPolicyDecision → ToolManifest → Option (ℕ → ToolPolicyAuditEvent)
  event_fields decision manifest = do
    request_id ← env.redact context.request_id
    run_id ← env.redact context.run_id
    tenant ← env.redact context.tenant
    tool_name ← env.redact manifest.metadata.name
    scopes ← redact_all env.redact (sorted context.scopes)
    approval_id ← redact_given env.redact context.approval_id
    some (λ now. record {
      decision = decision;
      request_id = request_id;
      run_id = run_id;
      tenant = tenant;
      subject_hash = env.digest context.subject;
      tool_name = tool_name;
      tool_fingerprint =
          or_computed (get p.fingerprints manifest.metadata.name)
            (tool_policy_fingerprint env.fingerprint manifest);
      effect = manifest.metadata.effect;
      scopes = scopes;
      approval_id = approval_id;
      idempotency_key_hash = digest_given env.digest context.idempotency_key;
      occurred_at = now;
    })

  -- `_append`
  unfoldable pub append : ToolPolicyAuditEvent → Journal → Journal × Result (Unit {0})
  append event j =
      if env.sink_accepts j.audit event
      then (record j { audit = j.audit ++ event ∷ [] }, ok tt)
      else (j, unavailable)

  -- `self._append(self._event(...))`
  unfoldable pub record_decision :
      ToolPolicyDecision → ToolManifest → Journal → Journal × Result (Unit {0})
  record_decision decision manifest j = elim (event_fields decision manifest) [
    | none ↦ (j, unavailable)
    | some at ↦ elim (env.clock j.readings) [
      | none ↦ (record j { readings = suc j.readings }, unavailable)
      | some now ↦ append (at now) (record j { readings = suc j.readings })
    ]
  ]

  -- `_deny`: a RuntimeFailure of the audit is replaced by the denial's own
  unfoldable pub deny :
      ToolPolicyDecision → ErrorCode → ToolManifest → Journal → Journal × Result (Unit {0})
  deny decision code manifest j = ((record_decision decision manifest j).0, err (code_failure code))

  -- `_backend_unavailable`
  unfoldable pub backend_unavailable : ToolManifest → Journal → Journal × Result (Unit {0})
  backend_unavailable manifest j =
      ((record_decision ToolPolicyDecision.policy_backend_unavailable manifest j).0, unavailable)
