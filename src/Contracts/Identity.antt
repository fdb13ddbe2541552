-- ===== src/Contracts/Identity.antt =====
-- `AuthenticatedIdentity` and `CallContext` of contracts.py. The trace fields, which no decision of
-- the modelled parts reads, are left out.
use tesserix_mcp_runtime.Base.{Bool, String, Option, none, some, List, is_unique, Number}
use tesserix_mcp_runtime.Contracts.Failure.{Result, ok, ◌>>◌, check, each}
use tesserix_mcp_runtime.Contracts.Response.{require_text, validate_deadline}

pub record AuthenticatedIdentity : Type 0 where
  pub tenant : String
  pub subject : String
  pub issuer : String
  pub scopes : List String

-- `AuthenticatedIdentity.__post_init__`
unfoldable pub check_identity : AuthenticatedIdentity → Result AuthenticatedIdentity
check_identity i = do
  require_text 256 i.tenant
  require_text 512 i.subject
  require_text 2048 i.issuer
  each (require_text 256) i.scopes
  check (is_unique i.scopes)
  ok i

pub record CallContext : Type 0 where
  pub identity : AuthenticatedIdentity
  pub open identity use *
  pub request_id : String
  pub run_id : String
  pub deadline : Option Number
  -- what `cancellation.cancelled` answers
  pub cancelled : Bool
  pub idempotency_key : Option String
  pub approval_id : Option String

-- `if value is not None: step(value)`
abbrev pub when_given {ℓ} : {A : Type ℓ} → (A → Result (Unit {0})) → Option A → Result (Unit {0})
when_given step none = ok tt
when_given step (some a) = step a

-- `CallContext.__post_init__`
unfoldable pub check_context : CallContext → Result CallContext
check_context c = do
  require_text 256 c.request_id
  require_text 256 c.run_id
  when_given validate_deadline c.deadline
  when_given (require_text 512) c.idempotency_key
  when_given (require_text 256) c.approval_id
  ok c
