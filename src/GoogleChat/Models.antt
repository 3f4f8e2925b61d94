-- ===== src/GoogleChat/Models.antt =====
-- src/chattice/adapters/google_chat/models.py: what the validation of an interaction yields.
use chattice.Base.{String, Bool, Option, List}
use chattice.Base.Int.{ℤ}
use chattice.Dict.{Dict}
use chattice.GoogleChat.Values.{Value}

pub record UserModel : Type 0 where
  pub name : Option String
  pub display_name : Option String
  pub type : Option String

pub record SpaceModel : Type 0 where
  pub name : Option String
  pub display_name : Option String
  pub type : Option String
  pub space_type : Option String
  pub single_user_bot_dm : Option Bool

pub record ThreadModel : Type 0 where
  pub name : Option String
  pub thread_key : Option String

pub record SlashCommandModel : Type 0 where
  pub command_id : Option String

pub record MatchedUrlModel : Type 0 where
  pub url : Option String

pub record MessageModel : Type 0 where
  pub name : Option String
  pub text : Option String
  pub sender : Option UserModel
  pub space : Option SpaceModel
  pub thread : Option ThreadModel
  pub create_time : Option String
  pub argument_text : Option String
  pub slash_command : Option SlashCommandModel
  pub matched_url : Option MatchedUrlModel

pub record ActionParameterModel : Type 0 where
  pub key : String
  pub value : String

pub record FormActionModel : Type 0 where
  pub action_method_name : Option String
  pub parameters : List ActionParameterModel

pub record TimeZoneModel : Type 0 where
  pub id : Option String
  pub offset : Option ℤ

-- `form_inputs` is validated to hold mappings; the parse of the inputs tests that once more.
pub record CommonEventModel : Type 0 where
  pub user_locale : Option String
  pub time_zone : Option TimeZoneModel
  pub form_inputs : Dict String Value
  pub parameters : Dict String String
  pub invoked_function : Option String

pub record AppCommandMetadataModel : Type 0 where
  pub app_command_id : Option ℤ
  pub app_command_type : Option String

pub record InteractionModel : Type 0 where
  pub type : String
  pub event_time : Option String
  pub message : Option MessageModel
  pub user : Option UserModel
  pub thread : Option ThreadModel
  pub space : Option SpaceModel
  pub action : Option FormActionModel
  pub is_dialog_event : Option Bool
  pub dialog_event_type : Option String
  pub common : Option CommonEventModel
  pub app_command_metadata : Option AppCommandMetadataModel
