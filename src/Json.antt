-- ===== src/Json.antt =====
-- Python objects as the JSON checks of the runtime see them: `None`, `bool`, `int`, `float`, `str`,
-- `list` and mappings, whose keys need not be texts, and one constructor for every other object.
-- A finite float is given by its ticks (Base.Numbers).
pub mod Text
use tesserix_mcp_runtime.Base.{ℕ, suc, ◌+◌, Bool, true, false, ◌&&◌, String, ℤ}

pub data Key : Type 0 where
  name : String → Key
  not_text : Key

mutual
  pub data Value : Type 0 where
    null : Value
    boolean : Bool → Value
    integer : ℤ → Value
    floating : ℤ → Value
    not_finite : Value
    text : String → Value
    array : Items → Value
    object : Fields → Value
    opaque : Value

  pub data Items : Type 0 where
    nil : Items
    cons : Value → Items → Items

  pub data Fields : Type 0 where
    end : Fields
    field : Key → Value → Fields → Fields

-- `len` of a list and of a mapping
abbrev pub count_items : Items → ℕ
count_items nil = 0
count_items (cons v vs) = suc (count_items vs)

abbrev pub count_fields : Fields → ℕ
count_fields end = 0
count_fields (field k v fs) = suc (count_fields fs)

abbrev pub is_name : Key → Bool
is_name (name s) = true
is_name not_text = false

-- `all(isinstance(key, str) for key in mapping)`
abbrev pub has_names : Fields → Bool
has_names end = true
has_names (field k v fs) = is_name k && has_names fs
