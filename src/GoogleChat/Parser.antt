-- ===== src/GoogleChat/Parser.antt =====
-- src/chattice/adapters/google_chat/parser.py: a validated interaction becomes a domain event.
pub mod References
pub mod Actions
pub mod Outcomes
use chattice.Base.{
  String, Bool, true, false, Option, none, some, is_some, and_then, List, [], ◌∷◌, map,
  if◌then◌else◌, not, ◌&&◌, ◌||◌,
}
use chattice.Base.Eq.{string_eq, ◌==◌}
use chattice.Base.Int.{ℤ}
use chattice.Base.Text.{Unicode, is_empty, strip, int_of_text}
use chattice.Dict.{Dict}
use chattice.Events.{
  Common, DateTime, DialogEventType, CommandKind, slash_command, quick_command, message_action,
  Body, Event, event, message, action, command, added_to_space, removed_from_space, app_home,
  widget_updated, form_submit, unknown, MessageRef, Parameter, text_parameter, SubmitFields,
}
use chattice.GoogleChat.Values.{
  Value, ParseError, invalid_interaction_payload, Result, ok, failed, ◌>>=◌, ◌>>◌, guard,
}
use chattice.GoogleChat.Envelope.{Payload, NormalizedEnvelope, normalize_envelope}
use chattice.GoogleChat.Models.{
  MessageModel, SlashCommandModel, UserModel, AppCommandMetadataModel, InteractionModel,
}
use References.{base_of, action_source, either}
use Actions.{CommonAction, common_action}

-- `_KNOWN_TYPES`, and the two types that stand for no event.
pub data InteractionType : Type 0 where
  message_type added_type removed_type card_clicked_type widget_updated_type : InteractionType
  app_command_type app_home_type submit_form_type unknown_type unspecified_type : InteractionType

unfoldable pub interaction_type : String → InteractionType
interaction_type t =
    if t == "UNSPECIFIED" || t == "TYPE_UNSPECIFIED"
    then unspecified_type
    else if t == "MESSAGE"
    then message_type
    else if t == "ADDED_TO_SPACE"
    then added_type
    else if t == "REMOVED_FROM_SPACE"
    then removed_type
    else if t == "APP_HOME"
    then app_home_type
    else if t == "CARD_CLICKED"
    then card_clicked_type
    else if t == "WIDGET_UPDATED"
    then widget_updated_type
    else if t == "APP_COMMAND"
    then app_command_type
    else if t == "SUBMIT_FORM"
    then submit_form_type
    else unknown_type

-- `_argument_text`
unfoldable pub argument_text : Option String → Option String
argument_text none = none
argument_text (some s) = some (strip s)

-- The command of a slash command, when its id has been read.
unfoldable pub slash_body : MessageModel → Option ℤ → Result Body
slash_body m none = failed invalid_interaction_payload
slash_body m (some id) = ok (
    command (record {
      command_id = id;
      command_type = none;
      kind = some slash_command;
      source_kind = some "SLASH_COMMAND";
      message_text = either (argument_text m.argument_text) m.text;
      target_message = none;
    }))

-- `_slash_command_event`
unfoldable pub slash_command_event : Unicode → MessageModel → SlashCommandModel → Result Body
slash_command_event u m s = slash_body m (and_then s.command_id (int_of_text u))

unfoldable pub text_body : MessageModel → Option String → Result Body
text_body m none = failed invalid_interaction_payload
text_body m (some t) = ok (
    message (record {
      text = t;
      message = some (record { name = m.name });
      matched_url = and_then m.matched_url (λ l. l.url);
      sender_type = and_then m.sender (λ s. s.type);
      argument_text = argument_text m.argument_text;
    }))

unfoldable pub message_body : Unicode → Option MessageModel → Result Body
message_body u none = failed invalid_interaction_payload
message_body u (some m) = elim m.slash_command [
  | some s ↦ slash_command_event u m s
  | none ↦ text_body m m.text
]

-- `_require_actor_space`
unfoldable pub require_actor_space : Common → Result (Unit {0})
require_actor_space base =
    guard (is_some base.actor && is_some base.space) invalid_interaction_payload

-- `_app_command_kind`
unfoldable pub app_command_kind : String → Option CommandKind
app_command_kind t =
    if t == "QUICK_COMMAND"
    then some quick_command
    else if t == "MESSAGE_ACTION"
    then some message_action
    else none

abbrev pub named_message : Option MessageModel → Option MessageRef
named_message m = and_then m (λ x. and_then x.name (λ n. some (record { name = some n })))

abbrev pub command_target : Option CommandKind → Option MessageModel → Option MessageRef
command_target (some message_action) m = named_message m
command_target _ m = none

unfoldable pub app_command_body : InteractionModel → Option ℤ → Option String → Result Body
app_command_body model (some id) (some t) = ok (
    command (record {
      command_id = id;
      command_type = some t;
      kind = app_command_kind t;
      source_kind = some t;
      message_text = and_then model.message (λ m. m.text);
      target_message = command_target (app_command_kind t) model.message;
    }))
app_command_body model _ _ = failed invalid_interaction_payload

abbrev pub as_parameters : Dict String String → Dict String Parameter
as_parameters = map (λ (k, v). (k, text_parameter v))

-- An empty name is no message.
abbrev pub clicked_message : Option MessageModel → Option MessageRef
clicked_message m =
    and_then m
      (λ x. and_then x.name (λ n. if is_empty n then none else some (record { name = some n })))

unfoldable pub card_clicked_body :
    Dict String Value → InteractionModel → Common → CommonAction → Result Body
card_clicked_body raw model base a =
    guard (not (is_empty a.function_name)) invalid_interaction_payload
    >> ok (
        action (record {
          name = a.function_name;
          parameters = as_parameters a.parameters;
          form_inputs = a.form_inputs;
          sender_type = and_then model.message (λ m. and_then m.sender (λ s. s.type));
          source = action_source raw model.message base.dialog;
          message = clicked_message model.message;
        }))

abbrev pub submitted : CommonAction → SubmitFields
submitted a = record {
  function_name = a.function_name;
  parameters = a.parameters;
  form_inputs = a.form_inputs;
}

-- The event's own part; the action is read for every type that has one, before it is looked at.
unfoldable pub body_of :
    Unicode → Dict String Value → InteractionModel → Common → InteractionType → Result Body
body_of u raw model base unspecified_type = failed invalid_interaction_payload
body_of u raw model base unknown_type = ok (unknown model.type)
body_of u raw model base message_type = message_body u model.message
body_of u raw model base added_type = require_actor_space base >> ok added_to_space
body_of u raw model base removed_type = require_actor_space base >> ok removed_from_space
body_of u raw model base app_home_type = require_actor_space base >> ok app_home
body_of u raw model base card_clicked_type = do
  a ← common_action u model.common model.action
  card_clicked_body raw model base a
body_of u raw model base widget_updated_type = do
  a ← common_action u model.common model.action
  guard (not (is_empty a.function_name)) invalid_interaction_payload
  ok (widget_updated (submitted a))
body_of u raw model base app_command_type = do
  a ← common_action u model.common model.action
  app_command_body model (and_then model.app_command_metadata (λ d. d.app_command_id))
      (and_then model.app_command_metadata (λ d. d.app_command_type))
body_of u raw model base submit_form_type = do
  a ← common_action u model.common model.action
  require_actor_space base
  ok (form_submit (submitted a))

abbrev pub is_unspecified : InteractionType → Bool
is_unspecified unspecified_type = true
is_unspecified _ = false

-- UNSPECIFIED is refused before the common parts are read.
unfoldable pub parse_model :
    Unicode → (String → Option DateTime) → Dict String Value → InteractionModel → Result Event
parse_model u fromisoformat raw model = do
  guard (not (is_unspecified (interaction_type model.type))) invalid_interaction_payload
  base ← base_of fromisoformat model
  body ← body_of u raw model base (interaction_type model.type)
  ok (event base body)

abbrev pub validated : Option InteractionModel → Result InteractionModel
validated none = failed invalid_interaction_payload
validated (some model) = ok model

-- `model_validate` is pydantic's validation of the event, none for its `ValidationError`.
unfoldable pub parse_interaction :
    (Value → Value → Bool)
    → (Dict String Value → Option InteractionModel)
    → Unicode
    → (String → Option DateTime)
    → Payload
    → Result Event
parse_interaction same model_validate u fromisoformat payload = do
  envelope ← normalize_envelope same payload
  model ← validated (model_validate envelope.event)
  parse_model u fromisoformat envelope.raw model
