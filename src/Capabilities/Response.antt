-- ===== src/Capabilities/Response.antt =====
-- src/chattice/capabilities/matrix.py: the response channel of a transport and an event.
pub mod Grants
use chattice.Base.{
  String, ◌≡◌, refl, Bool, true, false, Option, none, some, List, [], ◌∷◌, ◌++◌, str_eq, any,
  if◌then◌else◌,
}
use chattice.Events.{
  Event, event, error, Body, Common, message, action, command, added_to_space, removed_from_space,
  app_home, widget_updated, form_submit, unknown, DialogEventType, request_dialog, submit_dialog,
  cancel_dialog, other_dialog, MessageFields, ActionFields,
}

pub data ResponseCapability : Type 0 where
  sync_response dialogs app_home_response card_update_bot : ResponseCapability
  card_update_user update_widget : ResponseCapability

abbrev pub same : ResponseCapability → ResponseCapability → Bool
same sync_response sync_response = true
same dialogs dialogs = true
same app_home_response app_home_response = true
same card_update_bot card_update_bot = true
same card_update_user card_update_user = true
same update_widget update_widget = true
same _ _ = false

-- `DialogEventType.REQUEST_DIALOG`, or the text that it is.
abbrev pub requests_dialog : Option DialogEventType → Bool
requests_dialog (some request_dialog) = true
requests_dialog _ = false

-- `can_open_dialog`
abbrev pub can_open_dialog : Option Event → Bool
can_open_dialog (some (event c (command f))) = true
can_open_dialog (some (event c (action f))) = requests_dialog c.dialog
can_open_dialog _ = false

-- What the event adds after the dialogs, in the order of the source's tests.
abbrev pub sender_capability : Option String → List ResponseCapability
sender_capability none = []
sender_capability (some t) =
    if str_eq t "BOT"
    then card_update_bot ∷ []
    else (if str_eq t "HUMAN" then card_update_user ∷ [] else [])

abbrev pub url_capability : Option String → List ResponseCapability
url_capability none = []
url_capability (some url) = card_update_user ∷ []

abbrev pub event_capabilities : Option Event → List ResponseCapability
event_capabilities (some (event c app_home)) = app_home_response ∷ []
event_capabilities (some (event c (form_submit f))) = app_home_response ∷ []
event_capabilities (some (event c (widget_updated f))) = update_widget ∷ []
event_capabilities (some (event c (action f))) = sender_capability f.sender_type
event_capabilities (some (event c (message f))) = url_capability f.matched_url
event_capabilities _ = []

-- `ResponseCapabilities.resolve`; no value is the `ValueError` of an unknown transport.
abbrev pub http_capabilities : Option Event → List ResponseCapability
http_capabilities e =
    sync_response ∷ (if can_open_dialog e then dialogs ∷ [] else []) ++ event_capabilities e

unfoldable pub resolve : (transport : String) → Option Event → Option (List ResponseCapability)
resolve transport e =
    if str_eq transport "pubsub"
    then some []
    else (if str_eq transport "http" then some (http_capabilities e) else none)

-- `__contains__`, and `require`, which raises where it is false.
abbrev pub contains : List ResponseCapability → ResponseCapability → Bool
contains capabilities capability = any (same capability) capabilities
