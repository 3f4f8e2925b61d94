-- ===== src/Dispatcher/Routing.antt =====
-- The routing of src/chattice/dispatcher/dispatcher.py: `_route_event`, `_route_pass`, `_invoke`.
-- The hooks and the clock stand outside; logging is left out.
pub mod Tags
pub mod Walking
use chattice.Base.{
  String, Bool, true, false, Option, none, some, List, [], ◌∷◌, if◌then◌else◌, ◌++◌,
}
use chattice.Dict.{Dict}
use chattice.Exceptions.{
  Raised, Failure, ExceptionClass, exception, skip_handler, stop_propagation, cancelled, Stage,
  filter_stage, dependency_resolution, handler_stage, middleware_stage, dependency_resolution_error,
  unhandled_interaction_error,
}
use chattice.Events.{
  Event, event, error, Body, Common, message, action, command, added_to_space, removed_from_space,
  app_home, widget_updated, form_submit, unknown, DialogEventType, submit_dialog, cancel_dialog,
  CommandKind, slash_command, quick_command, message_action,
}
use chattice.Effects.{Try, returned, raised, Action, pure, raise, try_except, attempt, ◌>>=◌, ◌>>◌}
use chattice.Dispatcher.Scope.{Scope, on_copy, reading, attach_failure_context}
use chattice.Dispatcher.Filters.{evaluate_filters, untagged}
use chattice.Dispatcher.Handler.{Handler, invoke_plan}
use chattice.Dispatcher.Middleware.{Middleware, invoke_with_middleware}
use chattice.Dispatcher.Router.{
  ObserverName, message_observer, action_observer, command_observer, slash_command_observer,
  quick_command_observer, message_action_observer, added_to_space_observer,
  removed_from_space_observer, widget_updated_observer, app_home_observer, form_submit_observer,
  dialog_submit_observer, dialog_cancel_observer, event_observer, unknown_event_observer,
  error_observer, Observer, Node, Visit,
}

-- `_DispatchOutcome`: a handler's result, a stop, or neither.
pub data Outcome (R : Type 0) : Type 0 where
  unmatched stopped : Outcome R
  handled : Option R → Outcome R

pub data HookCall (R : Type 0) : Type 0 where
  before_event : Event → HookCall R
  after_event : Event → (result : Option R) (error : Option Raised) → HookCall R
  before_handler : Event → (handler : String) → HookCall R
  after_handler : Event → (handler : String) (result : Option R) → HookCall R

abbrev pub dialog_observer : Option DialogEventType → ObserverName
dialog_observer (some submit_dialog) = dialog_submit_observer
dialog_observer (some cancel_dialog) = dialog_cancel_observer
dialog_observer _ = action_observer

abbrev pub command_observers : Option CommandKind → List ObserverName
command_observers (some message_action) = message_action_observer ∷ command_observer ∷ []
command_observers (some slash_command) = slash_command_observer ∷ command_observer ∷ []
command_observers (some quick_command) = quick_command_observer ∷ command_observer ∷ []
command_observers none = []

abbrev pub body_observers : Common → Body → List ObserverName
body_observers c (message f) = message_observer ∷ []
body_observers c (action f) = dialog_observer c.dialog ∷ []
body_observers c (command f) = command_observers f.kind
body_observers c added_to_space = added_to_space_observer ∷ []
body_observers c removed_from_space = removed_from_space_observer ∷ []
body_observers c (widget_updated f) = widget_updated_observer ∷ []
body_observers c app_home = app_home_observer ∷ []
body_observers c (form_submit f) = form_submit_observer ∷ []
body_observers c (unknown t) = unknown_event_observer ∷ []

-- `_specific_observer_names`
abbrev pub specific_observer_names : Event → List ObserverName
specific_observer_names (event c b) = body_observers c b
specific_observer_names (error c e f) = error_observer ∷ []

-- Events of a click or a command must not pass silently under `strict_interactions`.
abbrev pub is_interactive : Event → Bool
is_interactive (event c (action f)) = true
is_interactive (event c (command f)) = true
is_interactive _ = false

-- The stage of an exception out of `HandlerPlan.invoke`.
abbrev pub invocation_stage : ExceptionClass → Stage
invocation_stage dependency_resolution_error = dependency_resolution
invocation_stage _ = handler_stage

-- An exception without a stage escaped from a middleware.
abbrev pub unless_staged : Option Stage → String → Failure → Failure
unless_staged none handler f = attach_failure_context middleware_stage (some handler) f
unless_staged (some stage) handler f = f

abbrev pub middleware_tagged : String → Failure → Failure
middleware_tagged handler f = unless_staged f.stage handler f

module _ {W R : Type 0} where
  -- A pass that comes after another one.
  unfoldable pub unless_matched : Action W (Outcome R) → Outcome R → Action W (Outcome R)
  unless_matched rest unmatched = rest
  unless_matched rest stopped = pure stopped
  unless_matched rest (handled result) = pure (handled result)

module _ {W V R : Type 0} (hook : HookCall R → Scope W V → Try Unit × Scope W V) where
  -- `_maybe_hook`
  unfoldable pub maybe_hook : HookCall R → Action (Scope W V) Unit
  maybe_hook h = try_except (hook h) (λ _. pure tt)

  -- `_invoke`
  unfoldable pub resolved_handler : Handler W V R → Event → Action (Scope W V) (Option R)
  resolved_handler handler e = try_except (reading (invoke_plan handler e)) (λ f.
      raise (exception (attach_failure_context (invocation_stage f.class) (some handler.name) f)))

  unfoldable pub invoke :
      Handler W V R → List (Middleware W V R) → Event → Action (Scope W V) (Option R)
  invoke handler middleware e = invoke_with_middleware (resolved_handler handler) middleware e

  -- The body of the `try` of one candidate, before and after its filters; no value means that the
  -- filters do not match.
  unfoldable pub run_matching :
      Handler W V R
      → List (Middleware W V R)
      → Event
      → Bool
      → Action (Scope W V) (Option (Option R))
  run_matching handler middleware e false = pure none
  run_matching handler middleware e true = do
    maybe_hook (before_handler e handler.name)
    result ← invoke handler middleware e
    pure (some result)

  unfoldable pub run_candidate :
      Handler W V R → List (Middleware W V R) → Event → Action (Scope W V) (Option (Option R))
  run_candidate handler middleware e =
      try_except (evaluate_filters handler.filters e)
        (λ f. raise (exception (attach_failure_context filter_stage (some handler.name) f)))
      >>= run_matching handler middleware e

  -- What follows a candidate's `try`; `rest` is the search among the candidates after it.
  unfoldable pub after_candidate :
      Handler W V R
      → Event
      → Action W (Outcome R)
      → Try (Option (Option R) × Dict String V)
      → Action W (Outcome R)
  after_candidate handler e rest (returned (none, context)) = rest
  after_candidate handler e rest (returned (some result, context)) = do
    on_copy context (maybe_hook (after_handler e handler.name result))
    pure (handled result)
  after_candidate handler e rest (raised skip_handler) = rest
  after_candidate handler e rest (raised stop_propagation) = pure stopped
  after_candidate handler e rest (raised cancelled) = raise cancelled
  after_candidate handler e rest (raised (exception f)) =
      raise (exception (middleware_tagged handler.name f))

  -- The loop over an observer's handlers, each on its own copy of the observer's context.
  unfoldable pub route_handlers :
      List (Handler W V R)
      → List (Middleware W V R)
      → Event
      → Dict String V
      → Action W (Outcome R)
      → Action W (Outcome R)
  route_handlers [] middleware e context rest = rest
  route_handlers (handler ∷ handlers) middleware e context rest =
      attempt (on_copy context (run_candidate handler middleware e))
        (after_candidate handler e (route_handlers handlers middleware e context rest))

  -- After the filters of an observer.
  unfoldable pub after_observer :
      List (Handler W V R)
      → List (Middleware W V R)
      → Event
      → Action W (Outcome R)
      → Try (Bool × Dict String V)
      → Action W (Outcome R)
  after_observer handlers middleware e rest (returned (true, context)) =
      route_handlers handlers middleware e context rest
  after_observer handlers middleware e rest (returned (false, context)) = rest
  after_observer handlers middleware e rest (raised skip_handler) = rest
  after_observer handlers middleware e rest (raised stop_propagation) = pure stopped
  after_observer handlers middleware e rest (raised cancelled) = raise cancelled
  after_observer handlers middleware e rest (raised (exception f)) =
      raise (exception (attach_failure_context filter_stage none f))

  unfoldable pub route_observer :
      Observer W V R
      → List (Handler W V R)
      → List (Middleware W V R)
      → Event
      → Dict String V
      → Action W (Outcome R)
      → Action W (Outcome R)
  route_observer observer [] middleware e data_ rest = rest
  route_observer observer (handler ∷ handlers) middleware e data_ rest =
      attempt (on_copy data_ (evaluate_filters observer.filters e))
        (after_observer (handler ∷ handlers) middleware e rest)

  -- `_route_pass`, on the routers that the walk yields.
  unfoldable pub route_pass :
      List (Visit W V R) → Event → Dict String V → ObserverName → Action W (Outcome R)
  route_pass [] e data_ name = pure unmatched
  route_pass ((node, middleware) ∷ visits) e data_ name =
      let observer = node.observer name in
      route_observer observer observer.handlers middleware e data_ (route_pass visits e data_ name)

  module _ (visits : List (Visit W V R)) (strict_interactions : Bool) where
    -- `_log_unmatched`
    unfoldable pub log_unmatched : Event → Action W (Outcome R)
    log_unmatched e =
        if strict_interactions
        then (if is_interactive e
            then raise (untagged unhandled_interaction_error)
            else pure unmatched)
        else pure unmatched

    unfoldable pub after_generic : Event → Outcome R → Action W (Outcome R)
    after_generic e unmatched = log_unmatched e
    after_generic e stopped = pure stopped
    after_generic e (handled result) = pure (handled result)

    -- The pass over the "event" observers, which an `ErrorEvent` does not get.
    unfoldable pub route_generic : Event → Dict String V → Action W (Outcome R)
    route_generic (event c b) data_ =
        route_pass visits (event c b) data_ event_observer >>= after_generic (event c b)
    route_generic (error c e f) data_ = pure unmatched

    unfoldable pub route_names : List ObserverName → Event → Dict String V → Action W (Outcome R)
    route_names [] e data_ = route_generic e data_
    route_names (name ∷ names) e data_ =
        route_pass visits e data_ name >>= unless_matched (route_names names e data_)

    -- `_route_event`
    unfoldable pub route_event : Event → Dict String V → Action W (Outcome R)
    route_event e data_ = route_names (specific_observer_names e) e data_
