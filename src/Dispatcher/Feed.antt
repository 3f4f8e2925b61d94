-- ===== src/Dispatcher/Feed.antt =====
-- `Dispatcher.feed_update` of src/chattice/dispatcher/dispatcher.py.
pub mod Errors
use chattice.Base.{String, Bool, true, false, Option, none, some, List, [], ◌∷◌, if◌then◌else◌}
use chattice.Base.Eq.{string_eq}
use chattice.Dict.{Dict, put, get, has}
use chattice.Exceptions.{Raised, Failure, exception, skip_handler, stop_propagation, cancelled}
use chattice.Events.{Event, error, common}
use chattice.Fsm.Key.{FsmStrategy, StorageKey, build}
use chattice.Effects.{Try, returned, raised, Action, pure, raise, attempt, again, ◌>>=◌, ◌>>◌}
use chattice.Dispatcher.Scope.{Scope, reading}
use chattice.Dispatcher.Router.{Router, Visit, walk, error_observer}
use chattice.Dispatcher.Routing.{
  Outcome, unmatched, stopped, handled, HookCall, before_event, after_event, maybe_hook, route_pass,
  route_event,
}

-- A dispatcher's configuration. `fsm_context` is the `FSMContext` of a storage and a key, and
-- `current_bot` sets and resets the variable that the event references read.
pub record Dispatcher (W V R : Type 0) : Type 0 where
  pub root : Router W V R
  pub bot : Option V
  pub preview_capabilities : V
  pub fsm_storage : Option (Option StorageKey → V)
  pub fsm_strategy : FsmStrategy
  pub strict_interactions : Bool
  pub hook : HookCall R → Scope W V → Try Unit × Scope W V
  pub set_current_bot : Option V → W → W
  pub reset_current_bot : W → W

-- `result`, `error`, and how the outer `try` ended.
pub record Ended (R : Type 0) : Type 0 where
  pub result : Option R
  pub error : Option Raised
  pub ends : Try Unit

module _ {W V R : Type 0} (dispatcher : Dispatcher W V R) where
  unfoldable pub with_bot : Option V → Dict String V → Dict String V
  with_bot none data_ = data_
  with_bot (some bot) data_ = if has data_ "bot" then data_ else put data_ "bot" bot

  unfoldable pub with_state : Event → Option (Option StorageKey → V) → Dict String V → Dict String V
  with_state e none data_ = data_
  with_state e (some fsm_context) data_ =
      put data_ "state" (fsm_context (build e dispatcher.fsm_strategy))

  -- The context that the event is routed with.
  unfoldable pub prepare : Event → Dict String V → Dict String V
  prepare e context =
      with_state e dispatcher.fsm_storage (
        put (with_bot dispatcher.bot context) "preview_capabilities"
          dispatcher.preview_capabilities)

  abbrev pub visits : List (Visit W V R)
  visits = walk [] dispatcher.root

  unfoldable pub routed : Event → Action (Scope W V) (Outcome R)
  routed e = reading (route_event dispatcher.hook visits dispatcher.strict_interactions e)

  -- The pass of the `ErrorEvent` of a failure over the "error" observers.
  unfoldable pub routed_error : Event → Failure → Action (Scope W V) (Outcome R)
  routed_error e f =
      reading
        (λ data_. route_pass dispatcher.hook visits (error (common e) e f) data_ error_observer)

  abbrev pub result_of : Outcome R → Option R
  result_of unmatched = none
  result_of stopped = none
  result_of (handled result) = result

  -- How the failure `f` ends, after the pass of its `ErrorEvent`.
  unfoldable pub after_error : Failure → Try (Outcome R) → Action (Scope W V) (Ended R)
  after_error f (returned (handled result)) =
      pure (record { result = result; error = some (exception f); ends = returned tt })
  after_error f (returned outcome) =
      pure (record { result = none; error = some (exception f); ends = raised (exception f) })
  after_error f (raised r) =
      pure (record { result = none; error = some (exception f); ends = raised r })

  unfoldable pub after_routing : Event → Try (Outcome R) → Action (Scope W V) (Ended R)
  after_routing e (returned outcome) =
      pure (record { result = result_of outcome; error = none; ends = returned tt })
  after_routing e (raised (exception f)) = attempt (routed_error e f) (after_error f)
  after_routing e (raised r) = pure (record { result = none; error = some r; ends = raised r })

  unfoldable pub after_start : Event → Try Unit → Action (Scope W V) (Ended R)
  after_start e (returned u) = attempt (routed e) (after_routing e)
  after_start e (raised r) = pure (record { result = none; error = none; ends = raised r })

  -- What a `try` that ended gives, unless the hook of its `finally` was raised out of.
  unfoldable pub concluded : Ended R → Try Unit → Action (Scope W V) (Option R)
  concluded ended (raised r) = raise r
  concluded ended (returned u) = again ended.ends >> pure ended.result

  unfoldable pub reset_bot : Action (Scope W V) Unit
  reset_bot s = (returned tt, record s { world = dispatcher.reset_current_bot s.world })

  -- The `finally` clauses.
  unfoldable pub finish : Event → Ended R → Action (Scope W V) (Option R)
  finish e ended =
      attempt (maybe_hook dispatcher.hook (after_event e ended.result ended.error))
        (λ r. reset_bot >> concluded ended r)

  -- `feed_update`
  unfoldable pub feed : Event → Action (Scope W V) (Option R)
  feed e = attempt (maybe_hook dispatcher.hook (before_event e)) (after_start e) >>= finish e

  -- The scope that the `try` of `feed_update` starts in.
  unfoldable pub start : Event → Dict String V → W → Scope W V
  start e context world =
      let data_ = prepare e context in
      record { context = data_; world = dispatcher.set_current_bot (get data_ "bot") world }

  unfoldable pub feed_update : Event → Dict String V → Action W (Option R)
  feed_update e context world = let (r, s) = feed e (start e context world) in (r, s.world)
