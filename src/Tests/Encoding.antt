-- ===== src/Tests/Encoding.antt =====
-- Action data on a concrete model.
use chattice.Base.{
  ◌≡◌, refl, String, Bool, true, false, Option, none, some, List, [], ◌∷◌, if◌then◌else◌, map,
}
use chattice.Base.Eq.{string_eq, ◌==◌}
use chattice.Base.Int.{negsuc}
use chattice.Base.Text.{text_of_int}
use chattice.Dict.{Dict, put}
use chattice.Events.{event, action, ActionFields, text_parameter, no_context}
use chattice.Actions.{
  Floats, ReadsRepr, Member, plain_enum, str_type, int_type, enum_type, Value, integer, member,
  Field, matched, to_parameters, data_filter, encode_fields, encode_value, encode_member,
}
use chattice.Actions.RoundTrip.{data_filter-to_parameters}
use chattice.Tests.Parsing.{ascii, ascii-HasAscii}

-- Two floats.
abbrev two_floats : Floats
two_floats = record {
  Float = Bool;
  repr = λ b. if b then "1.0" else "0.5";
  float = λ s. if s == "1.0" then some true else if s == "0.5" then some false else none;
  isfinite = λ b. true;
}

float-repr_lem :
    (x : Bool) → two_floats.isfinite x ≡ true → two_floats.float (two_floats.repr x) ≡ some x
float-repr_lem true h = refl
float-repr_lem false h = refl

two_floats-ReadsRepr : ReadsRepr two_floats
two_floats-ReadsRepr = record { float-repr = float-repr_lem }

abbrev high : Member
high = record { name = "HIGH"; value_text = "2"; mixin = plain_enum }

abbrev deploy : List (Field Bool)
deploy =
    (record { name = "build"; target = int_type; default = none })
    ∷ (record { name = "level"; target = enum_type (high ∷ []); default = none })
    ∷ (record { name = "note"; target = str_type; default = some none })
    ∷ []

abbrev build_7 : String → Option (Value Bool)
build_7 name =
    if name == "build"
    then some (integer (negsuc 6))
    else if name == "level"
    then some (member high)
    else none

abbrev clicked : ActionFields
clicked = record {
  name = "deploy";
  parameters = [];
  form_inputs = [];
  sender_type = none;
  source = none;
  message = none;
}

deploy_parameters :
    to_parameters ascii two_floats deploy build_7 ≡ some (("build", "-7") ∷ ("level", "2") ∷ [])
unfolding to_parameters encode_fields encode_value text_of_int put
deploy_parameters = refl

data_filter-to_parameters_example :
    (parameters : Dict String String) × (to_parameters ascii two_floats deploy build_7
      ≡ some parameters)
    × (data_filter ascii two_floats deploy (
          event no_context (
            action
              (record clicked { parameters = map (λ (k, v). (k, text_parameter v)) parameters })))
        ≡ matched (map (λ field. (field.name, build_7 field.name)) deploy))
unfolding encode_member
data_filter-to_parameters_example =
    data_filter-to_parameters ascii ascii-HasAscii two_floats two_floats-ReadsRepr build_7 deploy
      no_context clicked (tt, ((refl, refl), (refl, tt)))
