-- ===== src/Actions.antt =====
-- src/chattice/actions.py: typed action data above the flat parameters of an action. A model is the list
-- of its dataclass fields, with what their annotations and defaults say.
pub mod Codec
pub mod RoundTrip
use chattice.Base.{
  ◌≡◌, String, Bool, true, false, Option, none, some, is_some, List, [], ◌∷◌, map, if◌then◌else◌,
}
use chattice.Base.Eq.{string_eq, ◌==◌}
use chattice.Base.Int.{ℤ}
use chattice.Base.Text.{Unicode, int_of_text, text_of_int}
use chattice.Dict.{Dict, get, put}
use chattice.Events.{Event, event, error, action, Parameter, text_parameter, other_parameter}

-- The floats of Python: `repr`, `float(...)`, none for its `ValueError`, and `math.isfinite`.
pub record Floats : Type 1 where
  pub Float : Type 0
  pub repr : Float → String
  pub float : String → Option Float
  pub isfinite : Float → Bool

-- A finite float is read back from its `repr`.
pub record ReadsRepr (floats : Floats) : Type 0 where
  pub float-repr :
      (x : floats.Float) → floats.isfinite x ≡ true → floats.float (floats.repr x) ≡ some x

-- What an enumeration derives from, beside `Enum`: an `int` with its `str(member)`, or a `float` with
-- its `repr(member)` and whether it is finite.
pub data Mixin : Type 0 where
  plain_enum str_enum : Mixin
  int_enum : (shown : String) → Mixin
  float_enum : (finite : Bool) (shown : String) → Mixin

-- `value_text` is `str(member.value)`.
pub record Member : Type 0 where
  pub name : String
  pub value_text : String
  pub mixin : Mixin

pub data Target : Type 0 where
  str_type int_type float_type bool_type : Target
  enum_type : List Member → Target
  unsupported_type : Target

-- The outcome of a decode.
pub data Decoded {ℓ} (A : Type ℓ) : Type ℓ where
  decoded : A → Decoded A
  decode_error : Decoded A

infixl 5 ◌>>=◌
abbrev pub ◌>>=◌ {ℓ κ} : {A : Type ℓ} {B : Type κ} → Decoded A → (A → Decoded B) → Decoded B
decoded a >>= f = f a
decode_error >>= f = decode_error

abbrev pub read {ℓ} : {A : Type ℓ} → Option A → Decoded A
read none = decode_error
read (some a) = decoded a

-- The member that the loop over the enumeration returns.
abbrev pub find_member : List Member → String → Option Member
find_member [] raw = none
find_member (m ∷ ms) raw = if m.value_text == raw then some m else find_member ms raw

-- `_encode_value` of a member, none for a `TypeError`
unfoldable pub encode_member : String → Mixin → Option String
encode_member value_text plain_enum = some value_text
encode_member value_text str_enum = some value_text
encode_member value_text (int_enum shown) = some shown
encode_member value_text (float_enum finite shown) = if finite then some shown else none

-- The value of a field.
pub data Value (F : Type 0) : Type 0 where
  text : String → Value F
  integer : ℤ → Value F
  real : F → Value F
  boolean : Bool → Value F
  member : Member → Value F
  unsupported : Value F

-- A field: its type without `Optional`, and its default, none where it is required.
pub record Field (F : Type 0) : Type 0 where
  pub name : String
  pub target : Target
  pub default : Option (Option (Value F))

-- What `ActionDataFilter.__call__` answers: no match, or the instance for `data`.
pub data Answer (F : Type 0) : Type 0 where
  no_match : Answer F
  matched : Dict String (Option (Value F)) → Answer F

abbrev pub answer : {F : Type 0} → Decoded (Dict String (Option (Value F))) → Answer F
answer (decoded instance_) = matched instance_
answer decode_error = no_match

-- The parameters that are texts.
unfoldable pub text_parameters : Dict String Parameter → Dict String String
text_parameters [] = []
text_parameters ((k, text_parameter v) ∷ ps) = (k, v) ∷ text_parameters ps
text_parameters ((k, other_parameter) ∷ ps) = text_parameters ps

abbrev pub attribute : {F : Type 0} → Dict String (Value F) → Field F → String × Option (Value F)
attribute values field = (
  field.name,
  elim (get values field.name) [
    | some v ↦ some v
    | none ↦ elim field.default [ some d ↦ d | none ↦ none ]
  ],
)

module _ (u : Unicode) (floats : Floats) where
  open floats use {Float, repr, float, isfinite}

  -- `_encode_value`, none for a `TypeError`
  unfoldable pub encode_value : Value Float → Option String
  unfolding encode_member
  encode_value (boolean b) = some (if b then "true" else "false")
  encode_value (text s) = some s
  encode_value (integer n) = some (text_of_int n)
  encode_value (real x) = if isfinite x then some (repr x) else none
  encode_value (member m) = encode_member m.value_text m.mixin
  encode_value unsupported = none

  abbrev finite : Option Float → Decoded (Value Float)
  finite none = decode_error
  finite (some x) = if isfinite x then decoded (real x) else decode_error

  -- `_decode_value`
  unfoldable pub decode_value : String → Target → Decoded (Value Float)
  decode_value raw str_type = decoded (text raw)
  decode_value raw int_type = read (int_of_text u raw) >>= λ n. decoded (integer n)
  decode_value raw float_type = finite (float raw)
  decode_value raw bool_type =
      if raw == "true"
      then decoded (boolean true)
      else if raw == "false"
      then decoded (boolean false)
      else decode_error
  decode_value raw (enum_type members) = read (find_member members raw) >>= λ m. decoded (member m)
  decode_value raw unsupported_type = decode_error

  -- The loop of `to_parameters` over the fields; `x` is `getattr(self, name)`.
  unfoldable pub encode_fields :
      List (Field Float)
      → (String → Option (Value Float))
      → Dict String String
      → Option (Dict String String)
  encode_fields [] x parameters = some parameters
  encode_fields (field ∷ fields) x parameters = elim (x field.name) [
    | none ↦ encode_fields fields x parameters
    | some value ↦ elim (encode_value value) [
      | none ↦ none
      | some s ↦ encode_fields fields x (put parameters field.name s)
    ]
  ]

  unfoldable pub to_parameters :
      List (Field Float) → (String → Option (Value Float)) → Option (Dict String String)
  to_parameters fields x = encode_fields fields x []

  -- The loop of `from_parameters`.
  unfoldable pub decode_fields :
      List (Field Float)
      → Dict String String
      → Dict String (Value Float)
      → Decoded (Dict String (Value Float))
  decode_fields [] parameters values = decoded values
  decode_fields (field ∷ fields) parameters values = elim (get parameters field.name) [
    | none ↦ elim field.default [
      | none ↦ decode_error
      | some d ↦ decode_fields fields parameters values
    ]
    | some raw ↦ decode_value raw field.target >>= λ value.
        decode_fields fields parameters (put values field.name value)
  ]

  -- The instance has the decoded values, and the defaults of the other fields.
  unfoldable pub from_parameters :
      List (Field Float) → Dict String String → Decoded (Dict String (Option (Value Float)))
  from_parameters fields parameters =
      decode_fields fields parameters [] >>= λ values. decoded (map (attribute values) fields)

  unfoldable pub data_filter : List (Field Float) → Event → Answer Float
  unfolding text_parameters
  data_filter fields (event c (action a)) =
      answer (from_parameters fields (text_parameters a.parameters))
  data_filter fields e = no_match
