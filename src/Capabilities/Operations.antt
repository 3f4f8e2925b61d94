-- ===== src/Capabilities/Operations.antt =====
-- src/chattice/capabilities/operations.py: the outbound operations and their authorization paths.
use chattice.Base.{String, Bool, List, map}
use chattice.Base.Eq.{string_eq}
use Prim.Native.String.{◌++◌ as append}

-- src/chattice/auth: the identity that a call is made with.
pub data AuthMode : Type 0 where
  app user no_auth : AuthMode

pub data ExecutionVariant : Type 0 where
  normal admin import_variant : ExecutionVariant

pub data Operation : Type 0 where
  messages_create messages_get messages_list messages_search messages_update : Operation
  messages_delete media_upload media_download attachment_metadata_get spaces_get : Operation
  spaces_list spaces_search spaces_find_direct_message spaces_find_group_chats : Operation
  spaces_setup spaces_create spaces_update spaces_delete memberships_create : Operation
  memberships_get memberships_list memberships_update memberships_delete : Operation
  reactions_create reactions_list reactions_delete space_read_state_get : Operation
  space_read_state_update thread_read_state_get notification_setting_get : Operation
  notification_setting_update : Operation

-- An operation's value, which also stands for it as a dictionary key.
abbrev pub value : Operation → String
value messages_create = "messages.create"
value messages_get = "messages.get"
value messages_list = "messages.list"
value messages_search = "messages.search"
value messages_update = "messages.update"
value messages_delete = "messages.delete"
value media_upload = "media.upload"
value media_download = "media.download"
value attachment_metadata_get = "spaces.messages.attachments.get"
value spaces_get = "spaces.get"
value spaces_list = "spaces.list"
value spaces_search = "spaces.search"
value spaces_find_direct_message = "spaces.find_direct_message"
value spaces_find_group_chats = "spaces.find_group_chats"
value spaces_setup = "spaces.setup"
value spaces_create = "spaces.create"
value spaces_update = "spaces.update"
value spaces_delete = "spaces.delete"
value memberships_create = "memberships.create"
value memberships_get = "memberships.get"
value memberships_list = "memberships.list"
value memberships_update = "memberships.update"
value memberships_delete = "memberships.delete"
value reactions_create = "reactions.create"
value reactions_list = "reactions.list"
value reactions_delete = "reactions.delete"
value space_read_state_get = "space_read_state.get"
value space_read_state_update = "space_read_state.update"
value thread_read_state_get = "thread_read_state.get"
value notification_setting_get = "notification_setting.get"
value notification_setting_update = "notification_setting.update"

pub record AuthPath : Type 0 where
  pub identity : AuthMode
  pub any_scope : List String
  pub variant : ExecutionVariant

-- The description and the retry label, which nothing reads but messages, are left out.
pub record OperationSpec : Type 0 where
  pub operation : Operation
  pub google_method : String
  pub auth_paths : List AuthPath
  pub paginated : Bool
  pub preview : Bool

abbrev pub google_auth_scope_prefix : String
google_auth_scope_prefix = "https://www.googleapis.com/auth/"

-- `scopes`
abbrev pub scopes : List String → List String
scopes names = map (append google_auth_scope_prefix) names
