-- ===== src/Forms.antt =====
-- src/chattice/forms.py: typed form models and their filter. A model is the list of its dataclass fields.
pub mod Decoding
pub mod Matching
pub mod Progress
use chattice.Base.{String, Bool, true, false, Option, none, some, List, [], ◌∷◌, if◌then◌else◌}
use chattice.Base.Eq.{string_eq}
use chattice.Dict.{Dict, get, put}
use chattice.Events.{
  Event, event, error, action, form_submit, FormValue, string_input, date_input, date_time_input,
  time_input, unknown_form_input, FormInputs,
}

-- The supported field types.
pub data InputKind : Type 0 where
  strings date date_time time unknown_kind : InputKind

abbrev pub kind_of : FormValue → InputKind
kind_of (string_input values) = strings
kind_of (date_input ms) = date
kind_of (date_time_input ms d t) = date_time
kind_of (time_input h m) = time
kind_of (unknown_form_input kind) = unknown_kind

abbrev pub same_kind : InputKind → InputKind → Bool
same_kind strings strings = true
same_kind date date = true
same_kind date_time date_time = true
same_kind time time = true
same_kind unknown_kind unknown_kind = true
same_kind _ _ = false

-- A field: its type without `Optional`, none when that is not supported, and whether it has no default.
pub record Field : Type 0 where
  pub name : String
  pub target : Option InputKind
  pub required : Bool

-- The values of the instance, a `FormDecodeError`, or a `TypeError`.
pub data Decoded : Type 0 where
  instance_of : Dict String FormValue → Decoded
  decode_error type_error : Decoded

abbrev pub Values : Type 0
Values = Dict String FormValue

-- One field that the inputs have, or lack.
unfoldable pub decode_present :
    Field → InputKind → FormValue → Values → (Values → Decoded) → Decoded
decode_present field kind value values rest =
    if same_kind (kind_of value) kind then rest (put values field.name value) else decode_error

unfoldable pub decode_input :
    Field → InputKind → Option FormValue → Values → (Values → Decoded) → Decoded
decode_input field kind none values rest = if field.required then decode_error else rest values
decode_input field kind (some value) values rest = decode_present field kind value values rest

unfoldable pub decode_field :
    Field → Option InputKind → FormInputs → Values → (Values → Decoded) → Decoded
decode_field field none inputs values rest = type_error
decode_field field (some kind) inputs values rest =
    decode_input field kind (get inputs field.name) values rest

-- The loop of `from_form_inputs`.
unfoldable pub decode_fields : List Field → FormInputs → Values → Decoded
decode_fields [] inputs values = instance_of values
decode_fields (field ∷ fields) inputs values =
    decode_field field field.target inputs values (decode_fields fields inputs)

unfoldable pub from_form_inputs : List Field → FormInputs → Decoded
from_form_inputs fields inputs = decode_fields fields inputs []

-- What `FormFilter.__call__` answers: no match, the instance for `form`, or the `TypeError`.
pub data Answer : Type 0 where
  no_match : Answer
  form : Values → Answer
  raises_type_error : Answer

abbrev pub answer : Decoded → Answer
answer (instance_of values) = form values
answer decode_error = no_match
answer type_error = raises_type_error

unfoldable pub form_filter : List Field → Event → Answer
form_filter fields (event c (action f)) = answer (from_form_inputs fields f.form_inputs)
form_filter fields (event c (form_submit f)) = answer (from_form_inputs fields f.form_inputs)
form_filter fields e = no_match
