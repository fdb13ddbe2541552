-- ===== src/Tool/Violation.antt =====
-- ContractViolation of src/tesserix_mcp_runtime/tool.py, and the outcomes of its checks.
use tesserix_mcp_runtime.Base.{
  ℕ, Bool, true, false, String, if◌then◌else◌, ◌≡◌, refl, arith, ◌⊎◌, inl, inr,
}

-- the codes of ContractViolation
pub data Code : Type 0 where
  invalid_schema schema_limit_exceeded unsupported_schema_keyword : Code
  unsupported_schema_reference unsupported_schema_type invalid_object_schema : Code
  unbounded_string_schema unbounded_array_schema unbounded_object_schema : Code
  open_object_schema invalid_schema_reference recursive_schema : Code
  metadata_limit_exceeded invalid_tool_definition duplicate_tool_name : Code

-- the path of a violation: a start, `path.key`, `path[index]`
pub data Place : Type 0 where
  start : String → Place
  under : Place → String → Place
  item : Place → ℕ → Place

-- The outcome of a check: a result, a ContractViolation, or the OverflowError of `math.isfinite` on
-- an integer that no float is near to.
pub data Checked {ℓ} (A : Type ℓ) : Type ℓ where
  passed : A → Checked A
  violated : Code → Place → Checked A
  overflowed : Checked A

infixl 5 ◌>>=◌ ◌>>◌
abbrev pub ◌>>=◌ {ℓ κ} : {A : Type ℓ} {B : Type κ} → Checked A → (A → Checked B) → Checked B
passed a >>= continue = continue a
violated code place >>= continue = violated code place
overflowed >>= continue = overflowed

abbrev pub ◌>>◌ {ℓ} : {B : Type ℓ} → Checked (Unit {0}) → Checked B → Checked B
guard >> body = guard >>= λ _. body

-- `if not test: raise ContractViolation(code, place)`
abbrev pub require : Bool → Code → Place → Checked (Unit {0})
require true code place = passed tt
require false code place = violated code place

-- a chain that passes passes at each step
pub chain_passed {ℓ κ} :
    {A : Type ℓ} {B : Type κ} (r : Checked A) (continue : A → Checked B) (b : B)
    → (r >>= continue) ≡ passed b
    → (a : A) × (r ≡ passed a) × (continue a ≡ passed b)
chain_passed (passed a) continue b h = (a, refl, h)
chain_passed (violated code place) continue b h = ground arith
chain_passed overflowed continue b h = ground arith

pub guard_passed {ℓ} :
    {B : Type ℓ} (guard : Checked (Unit {0})) (r : Checked B) (b : B)
    → (guard >> r) ≡ passed b
    → (guard ≡ passed tt) × (r ≡ passed b)
guard_passed (passed t) r b h = (refl, h)
guard_passed (violated code place) r b h = ground arith
guard_passed overflowed r b h = ground arith

pub require_passed :
    (test : Bool) (code : Code) (place : Place) → require test code place ≡ passed tt → test ≡ true
require_passed true code place h = refl
require_passed false code place h = ground arith

-- what follows a test that raises
pub else_passed {ℓ} :
    {B : Type ℓ} (test : Bool) (code : Code) (place : Place) (r : Checked B) (b : B)
    → (if test then violated code place else r) ≡ passed b
    → (test ≡ false) × (r ≡ passed b)
else_passed true code place r b h = ground arith
else_passed false code place r b h = (refl, h)

-- the two ways through a test
pub if_passed {ℓ} :
    {B : Type ℓ} (test : Bool) (x y : Checked B) (b : B)
    → (if test then x else y) ≡ passed b
    → ((test ≡ true) × (x ≡ passed b)) ⊎ ((test ≡ false) × (y ≡ passed b))
if_passed true x y b h = inl (refl, h)
if_passed false x y b h = inr (refl, h)
