-- ===== src/Dispatcher/Handler.antt =====
-- src/chattice/dispatcher/dependency.py and handler.py: what a handler's parameters are bound to.
pub mod Binding
use chattice.Base.{
  ℕ, String, Bool, true, false, Option, none, some, and_then, List, [], ◌∷◌, str_eq, any,
  if◌then◌else◌, ◌&&◌, not,
}
use chattice.Base.Eq.{string_eq}
use chattice.Dict.{Dict, put, get}
use chattice.Exceptions.{Raised, ExceptionClass, dependency_resolution_error, invalid_handler_error}
use chattice.Events.{
  Event, event, error, Body, message, action, command, added_to_space, removed_from_space, app_home,
  widget_updated, form_submit, unknown, Common, DialogEventType, submit_dialog, cancel_dialog,
}
use chattice.Effects.{Try, returned, raised, Action, raise, ◌>>=◌}
use chattice.Dispatcher.Filters.{Filter, untagged}

-- The event classes that an annotation can name.
pub data EventClass : Type 0 where
  any_event message_event action_event command_event added_to_space_event : EventClass
  removed_from_space_event widget_updated_event app_home_event form_submit_event : EventClass
  unknown_event error_event : EventClass

-- `isinstance(event, cls)`
abbrev pub is_instance : Event → EventClass → Bool
is_instance e any_event = true
is_instance (event c (message f)) message_event = true
is_instance (event c (action f)) action_event = true
is_instance (event c (command f)) command_event = true
is_instance (event c added_to_space) added_to_space_event = true
is_instance (event c removed_from_space) removed_from_space_event = true
is_instance (event c (widget_updated f)) widget_updated_event = true
is_instance (event c app_home) app_home_event = true
is_instance (event c (form_submit f)) form_submit_event = true
is_instance (event c (unknown t)) unknown_event = true
is_instance (error c e f) error_event = true
is_instance _ _ = false

abbrev pub dialog_alias : Option DialogEventType → List String
dialog_alias (some submit_dialog) = "dialog_submit" ∷ []
dialog_alias (some cancel_dialog) = "dialog_cancel" ∷ []
dialog_alias _ = []

abbrev pub body_aliases : Common → Body → List String
body_aliases c (message f) = "message" ∷ []
body_aliases c (action f) = "action" ∷ dialog_alias c.dialog
body_aliases c (command f) = "command" ∷ []
body_aliases c added_to_space = "added_to_space" ∷ []
body_aliases c removed_from_space = "removed_from_space" ∷ []
body_aliases c (widget_updated f) = "widget" ∷ []
body_aliases c app_home = "app_home" ∷ []
body_aliases c (form_submit f) = "form" ∷ []
body_aliases c (unknown t) = "unknown" ∷ []

-- `_event_aliases`
abbrev pub event_aliases : Event → List String
event_aliases (event c b) = "event" ∷ body_aliases c b
event_aliases (error c e f) = "event" ∷ "error" ∷ "error_event" ∷ []

-- `name in names`
abbrev pub listed : String → List String → Bool
listed name names = any (str_eq name) names

pub record ParameterPlan : Type 0 where
  pub name : String
  pub event_types : List EventClass
  pub event_alias : Bool
  pub has_default : Bool

-- The value of a keyword argument: the event itself, or a value of the context.
pub data Argument (V : Type 0) : Type 0 where
  event_argument : Event → Argument V
  context_argument : V → Argument V

-- What calling the callback gives: what it returned once it was awaited, or no awaitable at all.
pub data Called (R : Type 0) : Type 0 where
  awaited : Option R → Called R
  not_awaitable : Called R

-- `HandlerObject` with its plan; `name` is `handler_qualified_name(callback)`.
pub record Handler (W V R : Type 0) : Type 0 where
  pub name : String
  pub callback : Dict String (Argument V) → Action W (Called R)
  pub filters : List (Filter W V)
  pub parameters : List ParameterPlan

module _ {V : Type 0} where
  -- One parameter of the loop of `HandlerPlan.invoke`: what it adds to `kwargs`, or none when it cannot
  -- be resolved.
  unfoldable pub by_default :
      ParameterPlan → Dict String (Argument V) → Option (Dict String (Argument V))
  by_default p kwargs = if p.has_default then some kwargs else none

  unfoldable pub by_context :
      ParameterPlan → Option V → Dict String (Argument V) → Option (Dict String (Argument V))
  by_context p (some v) kwargs = some (put kwargs p.name (context_argument v))
  by_context p none kwargs = by_default p kwargs

  unfoldable pub by_name :
      Event
      → Dict String V
      → ParameterPlan
      → Dict String (Argument V)
      → Option (Dict String (Argument V))
  by_name e data_ p kwargs =
      if p.event_alias && listed p.name (event_aliases e)
      then some (put kwargs p.name (event_argument e))
      else by_context p (get data_ p.name) kwargs

  unfoldable pub bind_parameter :
      Event
      → Dict String V
      → ParameterPlan
      → List EventClass
      → Dict String (Argument V)
      → Option (Dict String (Argument V))
  bind_parameter e data_ p [] kwargs = by_name e data_ p kwargs
  bind_parameter e data_ p (class ∷ classes) kwargs =
      if any (is_instance e) (class ∷ classes)
      then some (put kwargs p.name (event_argument e))
      else none

  -- The loop, from the arguments that are already bound.
  unfoldable pub bind_parameters :
      Event
      → Dict String V
      → List ParameterPlan
      → Dict String (Argument V)
      → Option (Dict String (Argument V))
  bind_parameters e data_ [] kwargs = some kwargs
  bind_parameters e data_ (p ∷ ps) kwargs =
      and_then (bind_parameter e data_ p p.event_types kwargs) (bind_parameters e data_ ps)

module _ {W R : Type 0} where
  unfoldable pub returned_value : Called R → Action W (Option R)
  returned_value (awaited result) w = (returned result, w)
  returned_value not_awaitable w = (raised (untagged invalid_handler_error), w)

module _ {W V R : Type 0} where
  unfoldable pub call_with : Handler W V R → Option (Dict String (Argument V)) → Action W (Option R)
  call_with handler none = raise (untagged dependency_resolution_error)
  call_with handler (some kwargs) = handler.callback kwargs >>= returned_value

  -- `HandlerPlan.invoke`
  unfoldable pub invoke_plan : Handler W V R → Event → Dict String V → Action W (Option R)
  invoke_plan handler e data_ = call_with handler (bind_parameters e data_ handler.parameters [])
