-- ===== src/GoogleChat/Parser/References.antt =====
-- The parts that every event has: its time, references, dialog and source, in parser.py of
-- src/chattice/adapters/google_chat.
use chattice.Base.{String, Bool, true, false, Option, none, some, and_then, if◌then◌else◌}
use chattice.Base.Eq.{string_eq, ◌==◌}
use chattice.Dict.{Dict, get}
use chattice.Events.{
  UserRef, SpaceRef, ThreadRef, TimeZone, DateTime, DialogEventType, request_dialog, submit_dialog,
  cancel_dialog, other_dialog, ActionSource, message_source, dialog_source, home_source, Common,
}
use chattice.GoogleChat.Values.{Value, invalid_interaction_payload, Result, ok, failed, ◌>>=◌}
use chattice.GoogleChat.Envelope.{is_mapping}
use chattice.GoogleChat.Models.{
  UserModel, SpaceModel, ThreadModel, MessageModel, CommonEventModel, InteractionModel,
}

-- `value[:-1] + "+00:00"` of a text that ends with a Z
unfoldable pub utc_suffix : String → String
utc_suffix String.[] = String.[]
utc_suffix (String.◌∷◌ c String.[]) =
    if String.◌∷◌ c String.[] == "Z" then "+00:00" else String.◌∷◌ c String.[]
utc_suffix (String.◌∷◌ c s) = String.◌∷◌ c (utc_suffix s)

abbrev pub with_offset : Option DateTime → Result (Option DateTime)
with_offset none = failed invalid_interaction_payload
with_offset (some t) = elim t.utc_offset [
  | none ↦ failed invalid_interaction_payload
  | some o ↦ ok (some t)
]

-- `fromisoformat` is `datetime.fromisoformat`, none for its `ValueError`.
unfoldable pub timestamp : (String → Option DateTime) → Option String → Result (Option DateTime)
unfolding utc_suffix
timestamp fromisoformat none = ok none
timestamp fromisoformat (some value) = with_offset (fromisoformat (utc_suffix value))

unfoldable pub user : Option UserModel → Option UserRef
user none = none
user (some v) = some (record { name = v.name; display_name = v.display_name; type = v.type })

unfoldable pub space : Option SpaceModel → Option SpaceRef
space none = none
space (some v) = some (record {
  name = v.name;
  display_name = v.display_name;
  type = v.type;
  space_type = v.space_type;
  single_user_bot_dm = v.single_user_bot_dm;
})

unfoldable pub thread : Option ThreadModel → Option SpaceRef → Option ThreadRef
thread none s = none
thread (some v) s = some (record { name = v.name; thread_key = v.thread_key; space = s })

-- `DialogEventType(type_)`, or the text where it is no documented one.
unfoldable pub dialog_type : String → DialogEventType
dialog_type t =
    if t == "REQUEST_DIALOG"
    then request_dialog
    else if t == "SUBMIT_DIALOG"
    then submit_dialog
    else if t == "CANCEL_DIALOG"
    then cancel_dialog
    else other_dialog t

unfoldable pub dialog : Option Bool → Option String → Result (Option DialogEventType)
unfolding dialog_type
dialog (some true) none = failed invalid_interaction_payload
dialog _ none = ok none
dialog (some false) (some t) = failed invalid_interaction_payload
dialog _ (some t) = ok (some (dialog_type t))

unfoldable pub action_source :
    Dict String Value → Option MessageModel → Option DialogEventType → Option ActionSource
action_source raw message (some d) = some dialog_source
action_source raw none none = if is_mapping (get raw "chat") then some home_source else none
action_source raw (some m) none =
    if is_mapping (get raw "chat") then some home_source else some message_source

-- a or (b if message else None)
abbrev pub either {ℓ} : {A : Type ℓ} → Option A → Option A → Option A
either (some a) b = some a
either none b = b

abbrev pub from_message {ℓ} : {A : Type ℓ} → InteractionModel → (MessageModel → Option A) → Option A
from_message model f = and_then model.message f

-- `UserModel` and its like are objects, which Python takes for true.
unfoldable pub base_space : InteractionModel → Option SpaceRef
base_space model = space (either model.space (from_message model (λ m. m.space)))

unfoldable pub time_zone : CommonEventModel → Option TimeZone
time_zone c = and_then c.time_zone (λ z. some (record { id = z.id; offset_ms = z.offset }))

unfoldable pub base_of : (String → Option DateTime) → InteractionModel → Result Common
unfolding base_space
base_of fromisoformat model = do
  event_time ← timestamp fromisoformat model.event_time
  d ← dialog model.is_dialog_event model.dialog_event_type
  ok (record {
    event_time = event_time;
    actor = user (either model.user (from_message model (λ m. m.sender)));
    space = base_space model;
    thread = thread (either model.thread (from_message model (λ m. m.thread))) (base_space model);
    dialog = d;
    locale = and_then model.common (λ c. c.user_locale);
    timezone = and_then model.common time_zone;
  })
