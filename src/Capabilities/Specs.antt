-- ===== src/Capabilities/Specs.antt =====
-- `SPECS` of src/chattice/capabilities/registry.py: the table of the registered operations.
use chattice.Base.{String, Bool, true, false, List, [], ◌∷◌}
use chattice.Capabilities.Operations.{
  AuthMode, app, user, normal, Operation, AuthPath, OperationSpec, scopes, messages_create,
  messages_update, messages_get, messages_list, messages_delete, media_upload, media_download,
  attachment_metadata_get, spaces_get, spaces_list, spaces_find_direct_message, spaces_setup,
  memberships_create, memberships_get, memberships_list, memberships_delete, reactions_create,
  reactions_list, reactions_delete, space_read_state_get, space_read_state_update,
  thread_read_state_get, notification_setting_get, notification_setting_update,
}

-- `AuthPath(identity, scopes(...))`
abbrev path_of : AuthMode → List String → AuthPath
path_of mode names = record { identity = mode; any_scope = scopes names; variant = normal }

abbrev spec_of : Operation → String → List AuthPath → Bool → OperationSpec
spec_of operation method paths paginated = record {
  operation = operation;
  google_method = method;
  auth_paths = paths;
  paginated = paginated;
  preview = false;
}

abbrev pub specs : List OperationSpec
specs =
    spec_of messages_create "spaces.messages.create"
      (path_of app ("chat.bot" ∷ [])
        ∷ path_of user ("chat.messages.create" ∷ "chat.messages" ∷ "chat.import" ∷ [])
        ∷ [])
      false
    ∷ spec_of messages_update "spaces.messages.update"
        (path_of app ("chat.bot" ∷ []) ∷ path_of user ("chat.messages" ∷ "chat.import" ∷ []) ∷ [])
        false
    ∷ spec_of messages_get "spaces.messages.get"
        (path_of app ("chat.bot" ∷ [])
          ∷ path_of user ("chat.messages.readonly" ∷ "chat.messages" ∷ [])
          ∷ [])
        false
    ∷ spec_of messages_list "spaces.messages.list"
        (path_of app ("chat.app.messages.readonly" ∷ [])
          ∷ path_of user ("chat.messages.readonly" ∷ "chat.messages" ∷ [])
          ∷ [])
        true
    ∷ spec_of messages_delete "spaces.messages.delete"
        (path_of app ("chat.bot" ∷ []) ∷ path_of user ("chat.messages" ∷ []) ∷ []) false
    ∷ spec_of media_upload "media.upload"
        (path_of user ("chat.messages.create" ∷ "chat.messages" ∷ "chat.import" ∷ []) ∷ []) false
    ∷ spec_of media_download "media.download"
        (path_of user ("chat.messages.readonly" ∷ "chat.messages" ∷ [])
          ∷ path_of app ("chat.bot" ∷ [])
          ∷ [])
        false
    ∷ spec_of attachment_metadata_get "spaces.messages.attachments.get"
        (path_of app ("chat.bot" ∷ []) ∷ []) false
    ∷ spec_of spaces_get "spaces.get"
        (path_of app ("chat.bot" ∷ "chat.spaces" ∷ [])
          ∷ path_of user ("chat.spaces" ∷ "chat.spaces.readonly" ∷ [])
          ∷ [])
        false
    ∷ spec_of spaces_list "spaces.list" (path_of app ("chat.bot" ∷ []) ∷ []) true
    ∷ spec_of spaces_find_direct_message "spaces.findDirectMessage"
        (path_of user ("chat.spaces" ∷ "chat.spaces.readonly" ∷ [])
          ∷ path_of app ("chat.bot" ∷ [])
          ∷ [])
        false
    ∷ spec_of spaces_setup "spaces.setup"
        (path_of user ("chat.spaces" ∷ "chat.spaces.create" ∷ []) ∷ []) false
    ∷ spec_of memberships_create "spaces.members.create"
        (path_of app ("chat.app.memberships" ∷ []) ∷ []) false
    ∷ spec_of memberships_get "spaces.members.get"
        (path_of app ("chat.bot" ∷ "chat.app.memberships" ∷ []) ∷ []) false
    ∷ spec_of memberships_list "spaces.members.list"
        (path_of app ("chat.bot" ∷ "chat.app.memberships" ∷ []) ∷ []) true
    ∷ spec_of memberships_delete "spaces.members.delete"
        (path_of app ("chat.app.memberships" ∷ []) ∷ []) false
    ∷ spec_of reactions_create "spaces.messages.reactions.create"
        (path_of user ("chat.messages.reactions" ∷ "chat.messages.reactions.create" ∷ []) ∷ [])
        false
    ∷ spec_of reactions_list "spaces.messages.reactions.list"
        (path_of user ("chat.messages.reactions" ∷ "chat.messages.reactions.readonly" ∷ []) ∷ [])
        true
    ∷ spec_of reactions_delete "spaces.messages.reactions.delete"
        (path_of user ("chat.messages.reactions" ∷ []) ∷ []) false
    ∷ spec_of space_read_state_get "users.spaces.getSpaceReadState"
        (path_of user ("chat.users.readstate" ∷ "chat.users.readstate.readonly" ∷ []) ∷ []) false
    ∷ spec_of space_read_state_update "users.spaces.updateSpaceReadState"
        (path_of user ("chat.users.readstate" ∷ []) ∷ []) false
    ∷ spec_of thread_read_state_get "users.spaces.threads.getThreadReadState"
        (path_of user ("chat.users.readstate" ∷ "chat.users.readstate.readonly" ∷ []) ∷ []) false
    ∷ spec_of notification_setting_get "users.spaces.spaceNotificationSetting.get"
        (path_of user ("chat.users.spacesettings" ∷ []) ∷ []) false
    ∷ spec_of notification_setting_update "users.spaces.spaceNotificationSetting.patch"
        (path_of user ("chat.users.spacesettings" ∷ []) ∷ []) false
    ∷ []
