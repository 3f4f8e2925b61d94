-- ===== src/Fsm/Json.antt =====
-- `_require_json_value` of src/chattice/fsm/record.py: the values that a record may hold. A float is its
-- `repr`. A key of a mapping is a `str`, or another object by its `str()`.
pub mod Revalidate
use chattice.Base.{String, Bool, Option, none, some, ◌≡◌, refl, List, arith, if◌then◌else◌}
use chattice.Base.Eq.{◌==◌, string_eq}
use chattice.Base.Int.{ℤ}

pub data Key : Type 0 where
  text_key other_key : String → Key

abbrev pub str : Key → String
str (text_key s) = s
str (other_key s) = s

-- Any Python object.
mutual
  pub data Object : Type 0 where
    py_none : Object
    py_str : String → Object
    py_bool : Bool → Object
    py_int : ℤ → Object
    py_float : String → Object
    py_enum : (value : Object) → Object
    py_mapping : Entries → Object
    py_list py_tuple : Items → Object
    py_other : (type_name : String) → Object

  pub data Items : Type 0 where
    nil : Items
    cons : Object → Items → Items

  pub data Entries : Type 0 where
    no_entry : Entries
    entry : Key → Object → Entries → Entries

-- A JSON value, which both storages accept.
mutual
  pub data Json : Type 0 where
    null : Json
    text : String → Json
    boolean : Bool → Json
    integer : ℤ → Json
    real : String → Json
    object : Fields → Json
    array : Elements → Json

  pub data Elements : Type 0 where
    no_element : Elements
    element : Json → Elements → Elements

  pub data Fields : Type 0 where
    no_field : Fields
    field : String → Json → Fields → Fields

-- An assignment `d[key] = value` in the comprehension's dict.
unfoldable pub put_field : Fields → String → Json → Fields
put_field no_field k v = field k v no_field
put_field (field j w fs) k v = if j == k then field j v fs else field j w (put_field fs k v)

infixl 5 ◌>>=◌
abbrev pub ◌>>=◌ {ℓ κ} : {A : Type ℓ} {B : Type κ} → Option A → (A → Option B) → Option B
none >>= f = none
some a >>= f = f a

-- `none` is the `TypeError`.
unfoldable mutual
  unfolding put_field

  pub require_json_value : Object → Option Json
  require_json_value py_none = some null
  require_json_value (py_str s) = some (text s)
  require_json_value (py_bool b) = some (boolean b)
  require_json_value (py_int n) = some (integer n)
  require_json_value (py_float s) = some (real s)
  require_json_value (py_enum v) = require_json_value v
  require_json_value (py_mapping es) = do fs ← require_entries es no_field; some (object fs)
  require_json_value (py_list xs) = do js ← require_items xs; some (array js)
  require_json_value (py_tuple xs) = do js ← require_items xs; some (array js)
  require_json_value (py_other t) = none

  pub require_items : Items → Option Elements
  require_items nil = some no_element
  require_items (cons x xs) = do
    j ← require_json_value x
    js ← require_items xs
    some (element j js)

  pub require_entries : Entries → Fields → Option Fields
  require_entries no_entry made = some made
  require_entries (entry k v es) made = do
    j ← require_json_value v
    require_entries es (put_field made (str k) j)
