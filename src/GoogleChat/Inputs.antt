-- ===== src/GoogleChat/Inputs.antt =====
-- src/chattice/adapters/google_chat/inputs.py: the form inputs of a `CommonEventObject`.
pub mod Reading
use chattice.Base.{
  ℕ, String, Bool, true, false, Option, none, some, List, [], ◌∷◌, if◌then◌else◌, ◌&&◌, leb, keep,
}
use chattice.Base.Eq.{string_eq, ◌==◌}
use chattice.Base.Int.{ℤ, pos}
use chattice.Base.Text.{Unicode, isdigit, int_of_text}
use chattice.Dict.{Dict, get, put, has}
use chattice.Events.{
  FormValue, string_input, date_input, date_time_input, time_input, unknown_form_input, FormInputs,
}
use chattice.GoogleChat.Values.{
  Value, null, boolean, integer, text, array, mapping, Items, no_item, item, dict,
  invalid_interaction_payload, value_error, Result, ok, failed, ◌>>=◌,
}

-- `_KNOWN_INPUTS`
abbrev known_inputs : List String
known_inputs = "stringInputs" ∷ "dateInput" ∷ "dateTimeInput" ∷ "timeInput" ∷ []

unfoldable pub string_list : Items → Result (List String)
string_list no_item = ok []
string_list (item (text s) rest) = string_list rest >>= λ more. ok (s ∷ more)
string_list (item _ rest) = failed invalid_interaction_payload

unfoldable pub string_values : Option Value → Result (List String)
string_values (some (array items)) = string_list items
string_values _ = failed invalid_interaction_payload

-- `int(value)` of a text that `isdigit` accepts, whose `ValueError` nothing catches
unfoldable pub digits_value : Option ℤ → Result ℤ
digits_value none = failed value_error
digits_value (some n) = ok n

unfoldable pub epoch : Unicode → Option Value → Result ℤ
epoch u (some (integer n)) = ok n
epoch u (some (text s)) =
    if isdigit u s then digits_value (int_of_text u s) else failed invalid_interaction_payload
epoch u _ = failed invalid_interaction_payload

unfoldable pub optional_bool : Option Value → Result (Option Bool)
optional_bool none = ok none
optional_bool (some null) = ok none
optional_bool (some (boolean b)) = ok (some b)
optional_bool (some _) = failed invalid_interaction_payload

unfoldable pub time_value : Option Value → Option Value → Result FormValue
time_value (some (integer (pos hours))) (some (integer (pos minutes))) =
    if leb hours 23 && leb minutes 59
    then ok (time_input hours minutes)
    else failed invalid_interaction_payload
time_value _ _ = failed invalid_interaction_payload

unfoldable pub parse_value : Unicode → String → Dict String Value → Result FormValue
parse_value u kind body =
    if kind == "stringInputs"
    then (string_values (get body "value") >>= λ values. ok (string_input values))
    else if kind == "dateInput"
    then (epoch u (get body "msSinceEpoch") >>= λ ms. ok (date_input ms))
    else if kind == "dateTimeInput"
    then (do
      has_date ← optional_bool (get body "hasDate")
      has_time ← optional_bool (get body "hasTime")
      ms ← epoch u (get body "msSinceEpoch")
      ok (date_time_input ms has_date has_time))
    else time_value (get body "hours") (get body "minutes")

-- next(iter(input_value), "unknown")
abbrev pub first_key : Dict String Value → String
first_key [] = "unknown"
first_key ((k, v) ∷ rest) = k

-- The known variants of an input.
abbrev pub present : Dict String Value → List String
unfolding has get
present input_value = keep (has input_value) known_inputs

unfoldable pub parse_body : Unicode → String → Option Value → Result FormValue
parse_body u kind (some (mapping body)) = parse_value u kind (dict body)
parse_body u kind _ = failed invalid_interaction_payload

unfoldable pub parse_variants : Unicode → Dict String Value → List String → Result FormValue
parse_variants u input_value [] = ok (unknown_form_input (first_key input_value))
parse_variants u input_value (kind ∷ []) = parse_body u kind (get input_value kind)
parse_variants u input_value (kind ∷ other ∷ rest) = failed invalid_interaction_payload

unfoldable pub parse_input : Unicode → Value → Result FormValue
unfolding present
parse_input u (mapping m) = parse_variants u (dict m) (present (dict m))
parse_input u _ = failed invalid_interaction_payload

unfoldable pub parse_inputs : Unicode → FormInputs → Dict String Value → Result FormInputs
parse_inputs u parsed [] = ok parsed
parse_inputs u parsed ((widget, input_value) ∷ values) =
    parse_input u input_value >>= λ value. parse_inputs u (put parsed widget value) values

unfoldable pub parse_form_inputs : Unicode → Dict String Value → Result FormInputs
parse_form_inputs u values = parse_inputs u [] values
