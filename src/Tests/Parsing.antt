-- ===== src/Tests/Parsing.antt =====
-- Interactions and action data on concrete inputs.
use chattice.Base.{
  ℕ, ◌-◌, ◌≡◌, refl, String, Bool, false, Option, none, some, List, [], ◌∷◌, ◌&&◌, ◌⊎◌,
  if◌then◌else◌, leb, arith,
}
use chattice.Base.Eq.{string_eq, ◌==◌}
use chattice.Base.Int.{pos, negsuc}
use chattice.Base.Text.{Unicode, HasAscii, int_of_text, text_of_int}
use chattice.Dict.{Dict, get, put, has}
use chattice.Events.{Event, event, added_to_space, no_context, DateTime, time_input, FormInputs}
use chattice.GoogleChat.Values.{Value, integer, text, mapping, no_field, field, ok}
use chattice.GoogleChat.Envelope.{
  PayloadKey, str_key, mapping_payload, NormalizedEnvelope, normalize_envelope, string_keys,
  normalize_keyed, normalize_mapping, select_event, wrapped_event, merge_direct, merge_fields,
  merge_field, settle_common,
}
use chattice.GoogleChat.Envelope.Merging.{Describes, normalize_envelope-Describes}
use chattice.GoogleChat.Inputs.{
  parse_form_inputs, parse_inputs, parse_input, parse_variants, parse_body, parse_value, time_value,
}
use chattice.GoogleChat.Inputs.Reading.{Reads, parse_form_inputs-Reads}
use chattice.GoogleChat.Models.{InteractionModel, CommonEventModel, FormActionModel}
use chattice.GoogleChat.Parser.{
  parse_interaction, parse_model, body_of, interaction_type, require_actor_space,
}
use chattice.GoogleChat.Parser.References.{
  base_of, timestamp, user, space, thread, dialog, base_space,
}
use chattice.GoogleChat.Parser.Outcomes.{Becomes, parse_interaction-Becomes}
use chattice.GoogleChat.Parser.Actions.{
  common_action, CommonAction, fallback_parameters, agree_parameters, agree_functions,
}
use chattice.GoogleChat.Parser.Actions.Agreement.{Agrees, AgreesAt, listed, common_action-Agrees}

abbrev pub is_ascii_digit : ℕ → Bool
is_ascii_digit c = leb 48 c && leb c 57

-- The digits of ASCII alone.
abbrev pub ascii : Unicode
ascii = record {
  decimal = λ c. if is_ascii_digit c then some (c - 48) else none;
  is_digit = is_ascii_digit;
}

pub ascii-HasAscii : HasAscii ascii
ascii-HasAscii = record {
  decimal_digit = λ d h. ground arith;
  decimal_minus = refl;
  decimal_plus = refl;
}

read_underscored : int_of_text ascii " -1_0 " ≡ some (negsuc 9)
unfolding int_of_text
read_underscored = refl

written_negative : text_of_int (negsuc 41) ≡ "-42"
unfolding text_of_int
written_negative = refl

abbrev same : Value → Value → Bool
same (text a) (text b) = a == b
same _ _ = false

abbrev wrapped : List (PayloadKey × Value)
wrapped =
    (str_key "chat", mapping (field "type" (text "MESSAGE") (field "text" (text "hi") no_field)))
    ∷ (str_key "type", text "MESSAGE")
    ∷ (str_key "eventTime", text "t")
    ∷ []

abbrev normalized : NormalizedEnvelope
normalized = record {
  event = ("type", text "MESSAGE") ∷ ("text", text "hi") ∷ ("eventTime", text "t") ∷ [];
  raw =
      ("chat", mapping (field "type" (text "MESSAGE") (field "text" (text "hi") no_field)))
      ∷ ("type", text "MESSAGE")
      ∷ ("eventTime", text "t")
      ∷ [];
}

described : normalize_envelope same (mapping_payload wrapped) ≡ ok normalized
unfolding normalize_envelope normalize_keyed normalize_mapping string_keys select_event
    wrapped_event merge_direct merge_fields merge_field settle_common get put
described = refl

normalize_envelope-Describes_example :
    (string_keys wrapped ≡ some normalized.raw)
    × Describes same normalized.raw "eventTime" normalized.event
normalize_envelope-Describes_example =
    normalize_envelope-Describes same wrapped normalized "eventTime" described refl

abbrev times : Dict String Value
times =
    (
      "at",
      mapping (
          field "timeInput"
            (mapping
              (field "hours" (integer (pos 23)) (field "minutes" (integer (pos 5)) no_field)))
            no_field),
    )
    ∷ []

abbrev at_time : FormInputs
at_time = ("at", time_input 23 5) ∷ []

parsed_times : parse_form_inputs ascii times ≡ ok at_time
unfolding parse_form_inputs parse_inputs parse_input parse_variants parse_body parse_value
    time_value get put has
parsed_times = refl

parse_form_inputs-Reads_example : Reads ascii none (get times "at") (get at_time "at")
unfolding get
parse_form_inputs-Reads_example =
    parse_form_inputs-Reads ascii times "at" at_time (refl, tt) parsed_times

abbrev button : FormActionModel
button = record {
  action_method_name = some "save";
  parameters = (record { key = "id"; value = "7" }) ∷ (record { key = "kind"; value = "a" }) ∷ [];
}

abbrev common : CommonEventModel
common = record {
  user_locale = none;
  time_zone = none;
  form_inputs = times;
  parameters = ("kind", "a") ∷ ("id", "7") ∷ [];
  invoked_function = none;
}

abbrev read : CommonAction
read = record {
  parameters = ("kind", "a") ∷ ("id", "7") ∷ [];
  form_inputs = at_time;
  function_name = "save";
}

-- The order of the parameters makes no difference.
agreed : common_action ascii (some common) (some button) ≡ ok read
unfolding common_action fallback_parameters agree_parameters agree_functions parse_form_inputs
    parse_inputs parse_input parse_variants parse_body parse_value time_value get put has
agreed = refl

common_action-Agrees_example :
    (Agrees "" "save"
      × Agrees "save" "save"
      × ((read.function_name ≡ "") ⊎ (read.function_name ≡ "save")))
    × (AgreesAt "id" common.parameters read.parameters
        × AgreesAt "id" (listed (some button)) read.parameters
        × ((read.parameters ≡ common.parameters) ⊎ (read.parameters ≡ listed (some button))))
    × (parse_form_inputs ascii times ≡ ok read.form_inputs)
common_action-Agrees_example =
    common_action-Agrees ascii (some common) (some button) read "id" agreed

abbrev added : InteractionModel
added = record {
  type = "ADDED_TO_SPACE";
  event_time = none;
  message = none;
  user = some (record { name = some "users/ada"; display_name = none; type = none });
  thread = none;
  space = some (record {
    name = some "spaces/a";
    display_name = none;
    type = none;
    space_type = none;
    single_user_bot_dm = none;
  });
  action = none;
  is_dialog_event = none;
  dialog_event_type = none;
  common = none;
  app_command_metadata = none;
}

abbrev joined : Event
joined =
    event
      (record no_context {
        actor = some (record { name = some "users/ada"; display_name = none; type = none });
        space = some (record {
          name = some "spaces/a";
          display_name = none;
          type = none;
          space_type = none;
          single_user_bot_dm = none;
        });
      })
      added_to_space

abbrev no_time : String → Option DateTime
no_time s = none

abbrev validates : Dict String Value → Option InteractionModel
validates event_ = some added

joined_parsed : parse_interaction same validates ascii no_time (mapping_payload wrapped) ≡ ok joined
unfolding parse_interaction parse_model base_of timestamp user space thread dialog base_space
    body_of interaction_type require_actor_space normalize_envelope normalize_keyed
    normalize_mapping string_keys select_event wrapped_event merge_direct merge_fields merge_field
    settle_common get put
joined_parsed = refl

parse_interaction-Becomes_example :
    (n : NormalizedEnvelope) × (model : InteractionModel) × (normalize_envelope same
        (mapping_payload wrapped)
      ≡ ok n)
    × (validates n.event ≡ some model)
    × Becomes ascii no_time model joined
parse_interaction-Becomes_example =
    parse_interaction-Becomes same validates ascii no_time (mapping_payload wrapped) joined
      joined_parsed
