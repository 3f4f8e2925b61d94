-- ===== src/Tests/Filling.antt =====
-- Form models on concrete inputs.
use chattice.Base.{◌≡◌, ◌↔◌, refl, true, false, some, List, [], ◌∷◌, All}
use chattice.Base.Eq.{string_eq}
use chattice.Dict.{get}
use chattice.Events.{Event, event, form_submit, no_context, string_input, FormInputs}
use chattice.Forms.{
  Field, strings, date, Values, instance_of, decode_fields, decode_field, decode_input,
  from_form_inputs, no_match, form_filter,
}
use chattice.Forms.Decoding.{from_form_inputs-Holds}
use chattice.Forms.Progress.{Holds, fits}

-- The model of the documentation: a required name and an optional birthday.
abbrev contact : List Field
contact =
    (record { name = "name"; target = some strings; required = true })
    ∷ (record { name = "birthday"; target = some date; required = false })
    ∷ []

abbrev filled : FormInputs
filled = ("name", string_input ("Ada" ∷ [])) ∷ []

abbrev submit : FormInputs → Event
submit inputs =
    event no_context
      (form_submit (record { function_name = "save"; parameters = []; form_inputs = inputs }))

missing_name : form_filter contact (submit []) ≡ no_match
unfolding form_filter from_form_inputs decode_fields decode_field decode_input get
missing_name = refl

from_form_inputs-Holds_example :
    All (λ field. fits field.required field.target (get filled field.name) ≡ true) contact ↔ (
      (values : Values) × (from_form_inputs contact filled ≡ instance_of values)
      × All (Holds filled values) contact)
from_form_inputs-Holds_example = from_form_inputs-Holds filled contact
