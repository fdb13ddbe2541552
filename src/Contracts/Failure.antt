-- ===== src/Contracts/Failure.antt =====
-- Python exceptions as values, and the result of code that may raise one.
-- The classes are those that the runtime's handlers tell apart; message texts are left out, but for
-- the fields that the program's own exception classes carry.
use tesserix_mcp_runtime.Base.{
  ℕ, Bool, true, false, String, ◌≡◌, refl, List, [], ◌∷◌, ◌⊎◌, inl, inr,
}
use tesserix_mcp_runtime.Contracts.Vocabulary.{ErrorCode, LifecycleState}

-- Where a configuration error points: "field", or "collection[index]suffix".
pub data FieldPath : Type 0 where
  field : String → FieldPath
  item : String → ℕ → String → FieldPath

pub data Kind : Type 0 where
  -- RuntimeFailure and its subclasses
  runtime_failure : ErrorCode → Kind
  -- TimeoutError, asyncio.CancelledError, ConnectionError
  timeout cancelled connection : Kind
  -- ValueError, TypeError, KeyError, and ExecutionLimitExceeded, a ValueError
  value_error type_error key_error limit_exceeded : Kind
  -- LifecycleFailure(phase, component, failure_count)
  lifecycle_failure : LifecycleState → String → ℕ → Kind
  -- LifecycleTransitionError(operation, state)
  lifecycle_transition : String → LifecycleState → Kind
  -- ApplicationConfigurationError and ToolPolicyConfigurationError (code, path), both a ValueError
  configuration : String → FieldPath → Kind
  -- any other Exception
  other : Kind
  -- KeyboardInterrupt, SystemExit
  exit : Kind

-- An exception object: its class as far as handlers see it, and `type(error).__name__`.
pub record Failure : Type 0 where
  pub kind : Kind
  pub type_name : String

-- What `except Exception` catches: neither a cancellation nor an exit.
abbrev pub is_exception : Kind → Bool
is_exception Kind.cancelled = false
is_exception Kind.exit = false
is_exception _ = true

pub data Result {ℓ} (A : Type ℓ) : Type ℓ where
  ok : A → Result A
  err : Failure → Result A

infixl 5 ◌>>=◌ ◌>>◌
abbrev pub ◌>>=◌ {ℓ κ} :
    {Done : Type ℓ} {Next : Type κ} → Result Done → (Done → Result Next) → Result Next
ok value >>= continue = continue value
err failure >>= continue = err failure

abbrev pub ◌>>◌ {ℓ} : {Next : Type ℓ} → Result (Unit {0}) → Result Next → Result Next
guard >> body = guard >>= λ _. body

abbrev pub value_failure : Failure
value_failure = record { kind = Kind.value_error; type_name = "ValueError" }

abbrev pub code_failure : ErrorCode → Failure
code_failure code = record { kind = Kind.runtime_failure code; type_name = "RuntimeFailure" }

abbrev pub timeout_failure : Failure
timeout_failure = record { kind = Kind.timeout; type_name = "TimeoutError" }

abbrev pub cancelled_failure : Failure
cancelled_failure = record { kind = Kind.cancelled; type_name = "CancelledError" }

abbrev pub limit_failure : Failure
limit_failure = record { kind = Kind.limit_exceeded; type_name = "ExecutionLimitExceeded" }

-- OverflowError, which `math.isfinite` raises
abbrev pub overflow_failure : Failure
overflow_failure = record { kind = Kind.other; type_name = "OverflowError" }

-- `if not test: raise ValueError`
abbrev pub check : Bool → Result (Unit {0})
check true = ok tt
check false = err value_failure

-- `for item in items: step(item)` for a step that may raise
unfoldable pub each {ℓ} : {A : Type ℓ} → (A → Result (Unit {0})) → List A → Result (Unit {0})
each step [] = ok tt
each step (x ∷ xs) = step x >> each step xs

pub Result-cases {ℓ} :
    {A : Type ℓ} (r : Result A) → ((a : A) × (r ≡ ok a)) ⊎ ((e : Failure) × (r ≡ err e))
Result-cases (ok a) = inl (a, refl)
Result-cases (err e) = inr (e, refl)
