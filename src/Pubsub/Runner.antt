-- ===== src/Pubsub/Runner.antt =====
-- `PubSubPullRunner._handle` of src/chattice/transports/pubsub_runner.py, and what it calls for one delivery.
-- What stands outside the runner is an `Outside`: the idempotency store, the dispatcher, the bot, the
-- hooks, the update locks, the parser and `str` of an exception. Logging, and the task that renews the
-- lease meanwhile, are left out.
pub mod Silence
pub mod Calm
pub mod Endings
pub mod Verdict
pub mod Faults
pub mod Unnumbered
use chattice.Base.{
  ℕ, String, Bool, true, false, Option, none, some, str_eq, leb, if◌then◌else◌, ◌&&◌,
}
use Prim.Native.String.{◌++◌ as append}
use chattice.Exceptions.{
  Raised, Failure, ExceptionClass, exception, cancelled, dependency_resolution_error,
  invalid_handler_error, unhandled_interaction_error, filter_error, context_conflict_error,
  capability_not_supported, fsm_error, other_exception,
}
use chattice.Events.{Event, event, error, common, action, SpaceRef, ThreadRef, MessageRef}
use chattice.Idempotency.Contract.{ClaimResult, first, completed, active}
use chattice.Effects.{
  Try, returned, raised, Action, pure, raise, try_except, attempt, unless_none, again, ◌>>=◌, ◌>>◌,
}
use chattice.Pubsub.Effects.{acked, nacked, outside, settle, Run}

-- A Pub/Sub message: its `delivery_attempt` is `None` unless the subscription has a dead-letter policy.
pub record Message (Payload : Type 0) : Type 0 where
  pub message_id : String
  pub delivery_attempt : Option ℕ
  pub payload : Payload

-- What a handler may answer.
pub data HandlerResult (Card : Type 0) : Type 0 where
  nothing : HandlerResult Card
  text : String → HandlerResult Card
  card : Card → HandlerResult Card
  dialog action_status other : HandlerResult Card

-- The body of an outgoing message.
pub data Content (Card : Type 0) : Type 0 where
  text_content : String → Content Card
  card_content : Card → Content Card

-- `_answer`'s mode.
pub data Mode : Type 0 where
  send_message update_message : Mode

pub data HookCall : Type 0 where
  before_outbound after_outbound : Event → Mode → HookCall
  delivery_acked delivery_nacked : (message_id : String) → Event → HookCall
  delivery_nacked_unparsed : (message_id : String) → HookCall

pub record Outside (W Payload Card : Type 0) : Type 0 where
  pub claim : (key owner : String) → W → Try ClaimResult × W
  pub complete : (key owner : String) → W → Try Unit × W
  pub release : (key owner : String) → W → Try Unit × W
  pub parse : Payload → Try Event
  pub received : Message Payload → Event → W → W
  pub feed_update : Event → W → Try (HandlerResult Card) × W
  pub describe : Failure → String
  pub has_bot : Bool
  pub create : (space : String) → Content Card → (thread : Option String) → W → Try Unit × W
  pub update : (message_name : String) → Content Card → W → Try Unit × W
  pub acquire_lock : (message_name : String) → W → Try Unit × W
  pub release_lock : (message_name : String) → W → W
  pub hook : HookCall → W → Try Unit × W

pub record Config : Type 0 where
  pub subscription : String
  pub max_delivery_attempts : ℕ

-- A lookup `event.space.name`.
abbrev pub space_of : Event → Option String
space_of e = elim (common e).space [ none ↦ none | some r ↦ r.name ]

abbrev pub thread_of : Event → Option String
thread_of e = elim (common e).thread [ none ↦ none | some r ↦ r.name ]

-- The name of the clicked card's message, if `event` is an `ActionEvent` that has one.
abbrev pub clicked_message : Event → Option String
clicked_message (event c (action f)) = elim f.message [ none ↦ none | some r ↦ r.name ]
clicked_message (event c b) = none
clicked_message (error c e f) = none

abbrev pub failure : ExceptionClass → Raised
failure c =
    exception
      (record { class = c; takes_stage = true; takes_handler = true; stage = none; handler = none })

-- `ThreadRef(name=thread) if thread else None`
abbrev pub nonempty : Option String → Option String
nonempty none = none
nonempty (some t) = if str_eq t "" then none else some t

-- `type(error).__name__`
abbrev pub class_name : ExceptionClass → String
class_name dependency_resolution_error = "DependencyResolutionError"
class_name invalid_handler_error = "InvalidHandlerError"
class_name unhandled_interaction_error = "UnhandledInteractionError"
class_name filter_error = "FilterError"
class_name context_conflict_error = "ContextConflictError"
class_name capability_not_supported = "CapabilityNotSupported"
class_name fsm_error = "FSMError"
class_name (other_exception name) = name

-- `isinstance(error, CapabilityNotSupported)`
abbrev pub is_capability : ExceptionClass → Bool
is_capability capability_not_supported = true
is_capability _ = false

abbrev pub poison_text : Failure → String
poison_text f = append (append "Error while processing your message (" (class_name f.class)) ")."

module _ {W Payload Card : Type 0} (out : Outside W Payload Card) where
  -- `_maybe_hook`: a failing hook never breaks delivery.
  unfoldable pub maybe_hook : HookCall → Action (Run W) Unit
  maybe_hook h = try_except (outside (out.hook h)) (λ _. pure tt)

  -- The `finally` of the update: the lock is released, and what was raised is raised on.
  unfoldable pub released : String → Try Unit → Action (Run W) Unit
  released name r = do outside (λ w. (returned tt, out.release_lock name w)); again r

  -- `try: update` / `finally: release`, under the message's lock.
  unfoldable pub locked_update : String → Card → Action (Run W) Unit
  locked_update name c = do
    outside (out.acquire_lock name)
    attempt (outside (out.update name (card_content c))) (released name)

  -- The two sends of `_answer`, with their hooks.
  unfoldable pub send_answer :
      Event → String → Content Card → Option String → Action (Run W) (Option Mode)
  send_answer e space content thread = do
    maybe_hook (before_outbound e send_message)
    outside (out.create space content thread)
    maybe_hook (after_outbound e send_message)
    pure (some send_message)

  unfoldable pub update_answer : Event → String → Card → Action (Run W) (Option Mode)
  update_answer e name c = do
    locked_update name c
    maybe_hook (after_outbound e update_message)
    pure (some update_message)

  -- `_answer` once the bot and the space are there.
  unfoldable pub answer_in : Event → String → HandlerResult Card → Action (Run W) (Option Mode)
  answer_in e space (text t) = send_answer e space (text_content t) (nonempty (thread_of e))
  answer_in e space (card c) =
      unless_none (clicked_message e) (send_answer e space (card_content c) none)
        (λ name. update_answer e name c)
  answer_in e space result = pure none

  unfoldable pub answer_outbound : Event → HandlerResult Card → Action (Run W) (Option Mode)
  answer_outbound e result =
      if out.has_bot
      then unless_none (space_of e) (pure none) (λ space. answer_in e space result)
      else pure none

  unfoldable pub answer : Event → HandlerResult Card → Action (Run W) (Option Mode)
  answer e nothing = pure none
  answer e dialog = raise (failure capability_not_supported)
  answer e action_status = raise (failure capability_not_supported)
  answer e result = answer_outbound e result

  -- The `except CapabilityNotSupported` clause of `_handle` up to `complete`: the space is told `str(error)`.
  unfoldable pub tell_space : Event → Failure → Action (Run W) Unit
  tell_space e f =
      if out.has_bot
      then unless_none (space_of e) (pure tt)
          (λ space. outside (out.create space (text_content (out.describe f)) none))
      else pure tt

  unfoldable pub notify_poison : Option Event → Failure → Action (Run W) Unit
  notify_poison none f = pure tt
  notify_poison (some e) f =
      if out.has_bot
      then unless_none (space_of e) (pure tt) (λ space.
        try_except (outside (out.create space (text_content (poison_text f)) none)) (λ _. pure tt))
      else pure tt

  module _ (config : Config) (message : Message Payload) (owner : String) where
    abbrev pub key : String
    key = append (append config.subscription ":") message.message_id

    -- The `except CapabilityNotSupported` clause of `_handle`.
    unfoldable pub unless_capability : Event → Failure → Action (Run W) Bool
    unless_capability e f =
        if is_capability f.class then (tell_space e f >> pure false) else raise (exception f)

    -- From `_log_delivery_received` to `complete`; the answer says whether the delivery was answered, or
    -- rejected for want of a capability.
    unfoldable pub work : Event → Action (Run W) Bool
    work e = do
      outside (λ w. (returned tt, out.received message e w))
      result ← outside (out.feed_update e)
      answered ← try_except (answer e result >> pure true) (unless_capability e)
      outside (out.complete key owner)
      pure answered

    -- After `complete`: `ack`, and for an answered delivery the hook.
    unfoldable pub acknowledge : Event → Bool → Action (Run W) Unit
    acknowledge e true = do settle acked; maybe_hook (delivery_acked message.message_id e)
    acknowledge e false = settle acked

    unfoldable pub process : Event → Action (Run W) Unit
    process e = work e >>= acknowledge e

    abbrev pub nacked_hook : Option Event → HookCall
    nacked_hook none = delivery_nacked_unparsed message.message_id
    nacked_hook (some e) = delivery_nacked message.message_id e

    -- The `except Exception` clause after the release; `None >= max` is a `TypeError`.
    unfoldable pub settle_failure : Option Event → Failure → Option ℕ → Action (Run W) Unit
    settle_failure e f none = raise (failure (other_exception "TypeError"))
    settle_failure e f (some number) =
        if leb config.max_delivery_attempts number
        then (notify_poison e f >> settle acked)
        else (settle nacked >> maybe_hook (nacked_hook e))

    -- The whole clause: a failing release is passed over.
    unfoldable pub fail_delivery : Option Event → Failure → Action (Run W) Unit
    fail_delivery e f = do
      try_except (outside (out.release key owner)) (λ _. pure tt)
      settle_failure e f message.delivery_attempt

    -- The handlers around the body of a FIRST delivery.
    unfoldable pub on_raise : Option Event → Raised → Action (Run W) Unit
    on_raise e (exception f) = fail_delivery e f
    on_raise e cancelled = settle nacked >> raise cancelled
    on_raise e r = raise r

    unfoldable pub settled_or : Option Event → Try Unit → Action (Run W) Unit
    settled_or e (returned u) = pure u
    settled_or e (raised r) = on_raise e r

    unfoldable pub first_delivery : Action (Run W) Unit
    first_delivery = elim (out.parse message.payload) [
      | raised r ↦ on_raise none r
      | returned e ↦ attempt (process e) (settled_or (some e))
    ]

    unfoldable pub claimed : ClaimResult → Action (Run W) Unit
    claimed completed = settle acked
    claimed active = settle nacked
    claimed first = first_delivery

    unfoldable pub after_claim : Try ClaimResult → Action (Run W) Unit
    after_claim (returned r) = claimed r
    after_claim (raised (exception f)) = settle nacked
    after_claim (raised r) = raise r

    -- `_handle`: a claim that fails gives the delivery back.
    unfoldable pub handle : Action (Run W) Unit
    handle = attempt (outside (out.claim key owner)) after_claim
