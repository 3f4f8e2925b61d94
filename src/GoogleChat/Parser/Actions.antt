-- ===== src/GoogleChat/Parser/Actions.antt =====
-- `_common_action` of src/chattice/adapters/google_chat/parser.py: the function and the parameters of an
-- action, which come with the common part, with the action, or with both.
pub mod Agreement
use chattice.Base.{
  String, Bool, true, false, Option, none, some, or_else, and_then, List, [], ◌∷◌, if◌then◌else◌,
  not, ◌&&◌,
}
use chattice.Base.Eq.{string_eq, option_eq, ◌==◌}
use chattice.Base.Text.{Unicode, is_empty}
use chattice.Dict.{Dict, get, put, has}
use chattice.Events.{FormInputs}
use chattice.GoogleChat.Values.{
  Value, invalid_interaction_payload, conflicting_envelope_error, Result, ok, failed, ◌>>=◌, ◌>>◌,
  guard,
}
use chattice.GoogleChat.Inputs.{parse_form_inputs}
use chattice.GoogleChat.Models.{ActionParameterModel, FormActionModel, CommonEventModel}

-- The loop over the parameters of the action, which have to be distinct.
unfoldable pub collect :
    Dict String String → List ActionParameterModel → Result (Dict String String)
collect found [] = ok found
collect found (p ∷ rest) =
    let more = collect (put found p.key p.value) rest in
    if has found p.key then failed invalid_interaction_payload else more

unfoldable pub fallback_parameters : Option FormActionModel → Result (Dict String String)
unfolding collect
fallback_parameters none = ok []
fallback_parameters (some a) = collect [] a.parameters

abbrev pub is_nil {ℓ} : {A : Type ℓ} → List A → Bool
is_nil [] = true
is_nil (x ∷ xs) = false

-- Two dicts with the same keys and values: each key of one has its value in the other.
abbrev pub subset : Dict String String → Dict String String → Bool
subset [] b = true
subset ((k, v) ∷ a) b = get b k == some v && subset a b

abbrev pub dict_eq : Dict String String → Dict String String → Bool
dict_eq a b = subset a b && subset b a

-- `a or b` of two dicts and of two texts, after the test that they do not differ.
unfoldable pub agree_parameters :
    Dict String String → Dict String String → Result (Dict String String)
agree_parameters [] fallback = ok fallback
agree_parameters common [] = ok common
agree_parameters common fallback =
    if dict_eq common fallback then ok common else failed conflicting_envelope_error

-- Whether a text is given: an empty one counts as none.
abbrev pub given : Option String → String
given o = or_else o ""

unfoldable pub agree_functions : String → String → Result String
agree_functions common fallback =
    if is_empty common
    then ok fallback
    else if is_empty fallback
    then ok common
    else if common == fallback
    then ok common
    else failed conflicting_envelope_error

pub record CommonAction : Type 0 where
  pub parameters : Dict String String
  pub form_inputs : FormInputs
  pub function_name : String

abbrev pub common_parameters : Option CommonEventModel → Dict String String
common_parameters none = []
common_parameters (some c) = c.parameters

abbrev pub raw_inputs : Option CommonEventModel → Dict String Value
raw_inputs none = []
raw_inputs (some c) = c.form_inputs

unfoldable pub common_action :
    Unicode → Option CommonEventModel → Option FormActionModel → Result CommonAction
common_action u common action = do
  form_inputs ← parse_form_inputs u (raw_inputs common)
  fallback ← fallback_parameters action
  parameters ← agree_parameters (common_parameters common) fallback
  function_name ←
      agree_functions (given (and_then common (λ c. c.invoked_function)))
        (given (and_then action (λ a. a.action_method_name)))
  ok (record { parameters = parameters; form_inputs = form_inputs; function_name = function_name })
