-- ===== src/Events.antt =====
-- src/chattice/events: the domain events. The classes' common fields are a record, a subclass with its
-- own fields is a constructor of `Body`, and an `ErrorEvent` holds the event that failed. The raw
-- payload is left out.
use chattice.Base.{ℕ, String, Bool, Option, none, List}
use chattice.Base.Int.{ℤ}
use chattice.Dict.{Dict}
use chattice.Exceptions.{Failure}

pub record UserRef : Type 0 where
  pub name : Option String
  pub display_name : Option String
  pub type : Option String

pub record SpaceRef : Type 0 where
  pub name : Option String
  pub display_name : Option String
  pub type : Option String
  pub space_type : Option String
  pub single_user_bot_dm : Option Bool

pub record ThreadRef : Type 0 where
  pub name : Option String
  pub thread_key : Option String
  pub space : Option SpaceRef

pub record MessageRef : Type 0 where
  pub name : Option String

-- `DialogMetadata.type`: a documented type, or another text.
pub data DialogEventType : Type 0 where
  request_dialog submit_dialog cancel_dialog : DialogEventType
  other_dialog : String → DialogEventType

pub data CommandKind : Type 0 where
  slash_command quick_command message_action : CommandKind

pub data ActionSource : Type 0 where
  message_source dialog_source home_source : ActionSource

pub data FormValue : Type 0 where
  string_input : List String → FormValue
  date_input : (ms_since_epoch : ℤ) → FormValue
  date_time_input : (ms_since_epoch : ℤ) (has_date has_time : Option Bool) → FormValue
  time_input : (hours minutes : ℕ) → FormValue
  unknown_form_input : (kind : String) → FormValue

abbrev pub FormInputs : Type 0
FormInputs = Dict String FormValue

-- A value of `ActionEvent.parameters`: a text, or something else.
pub data Parameter : Type 0 where
  text_parameter : String → Parameter
  other_parameter : Parameter

pub record TimeZone : Type 0 where
  pub id : Option String
  pub offset_ms : Option ℤ

-- A `datetime`: the point in time, and its offset from UTC where it has one.
pub record DateTime : Type 0 where
  pub instant : ℤ
  pub utc_offset : Option ℤ

pub record Common : Type 0 where
  pub event_time : Option DateTime
  pub actor : Option UserRef
  pub space : Option SpaceRef
  pub thread : Option ThreadRef
  pub dialog : Option DialogEventType
  pub locale : Option String
  pub timezone : Option TimeZone

pub record MessageFields : Type 0 where
  pub text : String
  pub message : Option MessageRef
  pub matched_url : Option String
  pub sender_type : Option String
  pub argument_text : Option String

pub record ActionFields : Type 0 where
  pub name : String
  pub parameters : Dict String Parameter
  pub form_inputs : FormInputs
  pub sender_type : Option String
  pub source : Option ActionSource
  pub message : Option MessageRef

pub record CommandFields : Type 0 where
  pub command_id : ℤ
  pub command_type : Option String
  pub kind : Option CommandKind
  pub source_kind : Option String
  pub message_text : Option String
  pub target_message : Option MessageRef

pub record SubmitFields : Type 0 where
  pub function_name : String
  pub parameters : Dict String String
  pub form_inputs : FormInputs

pub data Body : Type 0 where
  message : MessageFields → Body
  action : ActionFields → Body
  command : CommandFields → Body
  added_to_space removed_from_space app_home : Body
  widget_updated form_submit : SubmitFields → Body
  unknown : (original_type : String) → Body

pub data Event : Type 0 where
  event : Common → Body → Event
  error : Common → (source_event : Event) → Failure → Event

abbrev pub common : Event → Common
common (event c b) = c
common (error c e f) = c

abbrev pub no_context : Common
no_context = record {
  event_time = none;
  actor = none;
  space = none;
  thread = none;
  dialog = none;
  locale = none;
  timezone = none;
}
