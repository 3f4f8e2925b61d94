-- ===== src/Tests/Dispatching.antt =====
-- A dispatcher with two routers, whose handlers write their names into a log.
use chattice.Base.{true, ◌≡◌, ◌⊎◌, refl, String, false, none, some, List, [], ◌∷◌, ◌++◌, All}
use chattice.Base.Eq.{string_eq}
use chattice.Dict
use chattice.Dict.{Dict}
use chattice.Exceptions.{
  exception, skip_handler, dependency_resolution, dependency_resolution_error,
}
use chattice.Events.{Event, event, added_to_space, no_context}
use chattice.Fsm.Key.{user}
use chattice.Effects.{Try, returned, raised, pure, ◌>>=◌, raise, try_except, attempt, again}
use chattice.Dispatcher.Scope.{Scope, attach_failure_context, on_copy, reading}
use chattice.Dispatcher.Filters.{Filter, mapping, evaluate_filters, untagged, after_filter, merge}
use chattice.Dispatcher.Filters.Merging.{IsExtending, evaluate_filters-IsExtending}
use chattice.Dispatcher.Handler.{
  Handler, Argument, ParameterPlan, any_event, awaited, call_with, invoke_plan, returned_value,
  bind_parameters, bind_parameter, by_name, by_context, by_default,
}
use chattice.Dispatcher.Handler.Binding.{IsServed, invoke_plan-IsServed}
use chattice.Dispatcher.Middleware.{Next, Middleware, invoke_with_middleware, wrap, reversed}
use chattice.Dispatcher.Router.{
  ObserverName, event_observer, Observer, Node, router, leaf, child, Router, walk,
}
use chattice.Dispatcher.Routing.{
  HookCall, before_event, maybe_hook, route_handlers, route_pass, unless_matched, route_event,
  route_names, route_generic, after_generic, log_unmatched, route_observer, after_observer,
  after_candidate, run_candidate, run_matching, invoke, resolved_handler,
}
use chattice.Dispatcher.Routing.Walking.{Walks, route_pass-Walks}
use chattice.Dispatcher.Feed.{
  Dispatcher, start, routed, routed_error, feed_update, feed, prepare, with_bot, with_state,
  after_start, after_routing, after_error, concluded, reset_bot, finish,
}
use chattice.Dispatcher.Feed.Errors.{routing_answer, feed_update-answer}

abbrev Log : Type 0
Log = List String

abbrev joined : Event
joined = event no_context added_to_space

abbrev quiet : HookCall String → Scope Log String → Try Unit × Scope Log String
quiet h s = (returned tt, s)

abbrev room : Filter Log String
room e s = (returned (mapping ((some "room", "lobby") ∷ [])), s)

abbrev event_parameter : ParameterPlan
event_parameter = record {
  name = "event";
  event_types = any_event ∷ [];
  event_alias = false;
  has_default = false;
}

abbrev room_parameter : ParameterPlan
room_parameter = record {
  name = "room";
  event_types = [];
  event_alias = false;
  has_default = false;
}

abbrev greeting : Handler Log String String
greeting = record {
  name = "greet";
  callback = λ kwargs log. (returned (awaited (some "hello")), log ++ "greet" ∷ []);
  filters = room ∷ [];
  parameters = event_parameter ∷ room_parameter ∷ [];
}

abbrev skipping : Handler Log String String
skipping = record {
  name = "skip";
  callback = λ kwargs log. (raised skip_handler, log ++ "skip" ∷ []);
  filters = [];
  parameters = [];
}

abbrev broken : Handler Log String String
broken = record greeting { name = "broken"; filters = [] }

abbrev observing : List (Handler Log String String) → ObserverName → Observer Log String String
observing handlers event_observer = record { filters = []; handlers = handlers }
observing handlers _ = record { filters = []; handlers = [] }

abbrev logged : String → Middleware Log String String
logged name next e s = next e (record s { world = s.world ++ name ∷ [] })

abbrev node : String → List (Handler Log String String) → Node Log String String
node name handlers = record {
  name = name;
  observer = observing handlers;
  middleware = logged name ∷ [];
}

abbrev root : Router Log String String
root =
    router (node "root" (skipping ∷ [])) (child (router (node "child" (greeting ∷ [])) leaf) leaf)

abbrev dispatcher : Dispatcher Log String String
dispatcher = record {
  root = root;
  bot = some "bot";
  preview_capabilities = "none";
  fsm_storage = none;
  fsm_strategy = user;
  strict_interactions = false;
  hook = quiet;
  set_current_bot = λ bot log. log;
  reset_current_bot = λ log. log;
}

-- The root's handler passes the event on, and the child's runs inside the middleware of both.
greeted :
    feed_update dispatcher joined [] []
    ≡ (returned (some "hello"), "root" ∷ "skip" ∷ "root" ∷ "child" ∷ "greet" ∷ [])
unfolding feed_update feed start prepare with_bot with_state routed routed_error route_event
    route_names route_generic after_generic log_unmatched unless_matched route_pass route_observer
    after_observer route_handlers after_candidate run_candidate run_matching invoke resolved_handler
    maybe_hook invoke_with_middleware wrap reversed invoke_plan call_with returned_value
    bind_parameters bind_parameter by_name by_context by_default evaluate_filters after_filter merge
    attach_failure_context on_copy reading walk after_start after_routing after_error concluded
    reset_bot finish pure raise try_except attempt again ◌>>=◌ Dict.get Dict.put Dict.has
greeted = refl

-- The child's handler without its filter has no value for `room`.
abbrev failing_root : Router Log String String
failing_root = router (node "root" (broken ∷ [])) leaf

-- Nobody handles the failure, and it keeps the stage of the resolution.
failed :
    (feed_update (record dispatcher { root = failing_root }) joined [] []).0
    ≡ raised (
        exception (record {
          class = dependency_resolution_error;
          takes_stage = true;
          takes_handler = true;
          stage = some dependency_resolution;
          handler = some "broken";
        }))
unfolding feed_update feed start prepare with_bot with_state routed routed_error route_event
    route_names route_generic after_generic log_unmatched unless_matched route_pass route_observer
    after_observer route_handlers after_candidate run_candidate run_matching invoke resolved_handler
    maybe_hook invoke_with_middleware wrap reversed invoke_plan call_with returned_value
    bind_parameters bind_parameter by_name by_context by_default evaluate_filters after_filter merge
    attach_failure_context on_copy reading walk after_start after_routing after_error concluded
    reset_bot finish pure raise try_except attempt again ◌>>=◌ Dict.get Dict.put Dict.has
failed = refl

feed_update-answer_example :
    (let s = (maybe_hook quiet (before_event joined) (start dispatcher joined [] [])).1 in
      let routing = routed dispatcher joined s in
      (feed_update dispatcher joined [] []).0
      ≡ routing_answer (λ f. (routed_error dispatcher joined f routing.1).0) routing.0)
feed_update-answer_example = feed_update-answer dispatcher (λ h s. tt) joined [] []

-- The root passes the event on, and the child's handler ends the pass.
route_pass-Walks_example :
    Walks quiet joined
      (walk [] root)
      []
      event_observer
      []
      (route_pass quiet (walk [] root) joined [] event_observer [])
route_pass-Walks_example = route_pass-Walks quiet joined (walk [] root) [] event_observer []

evaluate_filters-IsExtending_example : IsExtending (evaluate_filters (room ∷ room ∷ []) joined)
evaluate_filters-IsExtending_example =
    evaluate_filters-IsExtending (room ∷ room ∷ []) joined (keeps, (keeps, tt))
  where
    keeps : IsExtending (room joined)
    keeps = record { at = λ s k v h. h }

invoke_plan-IsServed_example :
    ((kwargs : Dict String (Argument String)) × (invoke_plan greeting joined [] []
        ≡ call_with greeting (some kwargs) [])
      × All (IsServed kwargs) greeting.parameters)
    ⊎ (invoke_plan greeting joined [] [] ≡ (raised (untagged dependency_resolution_error), []))
invoke_plan-IsServed_example = invoke_plan-IsServed greeting joined [] []

abbrev answering : Next Log String String
answering e s = (returned (some "hello"), s)
