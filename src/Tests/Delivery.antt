-- ===== src/Tests/Delivery.antt =====
-- Deliveries to a runner whose world is the log of what it did outside.
use chattice.Base.{ℕ, ◌≡◌, refl, String, true, Option, none, some, List, [], ◌∷◌, ◌++◌}
use chattice.Exceptions.{Failure, exception, cancelled, other_exception}
use chattice.Events.{Event, event, message, no_context}
use chattice.Idempotency.Contract.{first}
use chattice.Effects.{Try, returned, raised, pure, raise, try_except, attempt, ◌>>=◌}
use chattice.Pubsub.Effects.{acked, nacked, Run, outside, settle}
use chattice.Pubsub.Runner.{
  Message, HandlerResult, nothing, Outside, Config, failure, handle, work, answer,
  unless_capability, after_claim, claimed, first_delivery, settled_or, on_raise, fail_delivery,
  settle_failure, process, acknowledge, notify_poison, maybe_hook,
}
use chattice.Pubsub.Runner.Calm.{CalmOutside}
use chattice.Pubsub.Runner.Verdict.{verdict, succeeds, handle-settled}
use chattice.Pubsub.Runner.Faults.{cancelled_hook}
use chattice.Pubsub.Runner.Unnumbered.{unnumbered, EndsWith, handle-unnumbered}

abbrev Log : Type 0
Log = List String

abbrev hello : Event
hello = event no_context (
    message (record {
      text = "hello";
      message = none;
      matched_url = none;
      sender_type = none;
      argument_text = none;
    }))

abbrev ends : Try Unit → String → Log → Try Unit × Log
ends r name log = (r, log ++ name ∷ [])

-- The handler ends in `handled`, and the hooks end in `hooked`.
abbrev outside_of : Try (HandlerResult Unit) → Try Unit → Outside Log Unit Unit
outside_of handled hooked = record {
  claim = λ key owner log. (returned first, log ++ "claim" ∷ []);
  complete = λ key owner. ends (returned tt) "complete";
  release = λ key owner. ends (returned tt) "release";
  parse = λ p. returned hello;
  received = λ m e log. log;
  feed_update = λ e log. (handled, log ++ "handler" ∷ []);
  describe = λ f. "failed";
  has_bot = true;
  create = λ space content thread. ends (returned tt) "create";
  update = λ name content. ends (returned tt) "update";
  acquire_lock = λ name. ends (returned tt) "lock";
  release_lock = λ name log. log ++ "unlock" ∷ [];
  hook = λ h. ends hooked "hook";
}

abbrev boom : Failure
boom = record {
  class = other_exception "ValueError";
  takes_stage = true;
  takes_handler = true;
  stage = none;
  handler = none;
}

abbrev config : Config
config = record { subscription = "projects/p/subscriptions/s"; max_delivery_attempts = 5 }

abbrev delivery : Option ℕ → Message Unit
delivery number = record { message_id = "7"; delivery_attempt = number; payload = tt }

abbrev fresh : Run Log
fresh = record { world = []; settled = [] }

abbrev failing : Outside Log Unit Unit
failing = outside_of (raised (exception boom)) (returned tt)

failing-calm : CalmOutside failing
failing-calm = record {
  claim = λ key owner w. tt;
  complete = λ key owner w. tt;
  release = λ key owner w. tt;
  parse = λ p. tt;
  feed_update = λ e w. tt;
  create = λ space c t w. tt;
  update = λ name c w. tt;
  acquire_lock = λ name w. tt;
  hook = λ h w. tt;
}

-- The second attempt of a delivery whose handler fails is given back.
handle-settled_example :
    (handle failing config (delivery (some 2)) "me" fresh).1.settled
    ≡ fresh.settled
      ++ verdict 5 2
          (returned first)
          (succeeds failing config (delivery (some 2)) "me" (record fresh { world = "claim" ∷ [] }))
        ∷ []
handle-settled_example =
    handle-settled failing config (delivery (some 2)) "me" failing-calm 2 refl fresh

second_attempt :
    (handle failing config (delivery (some 2)) "me" fresh).1
    ≡ record { world = "claim" ∷ "handler" ∷ "release" ∷ "hook" ∷ []; settled = nacked ∷ [] }
unfolding handle after_claim claimed first_delivery settled_or on_raise fail_delivery settle_failure
    process acknowledge work answer unless_capability notify_poison maybe_hook settle outside
    try_except attempt pure raise ◌>>=◌
second_attempt = refl

fifth_attempt : (handle failing config (delivery (some 5)) "me" fresh).1.settled ≡ acked ∷ []
unfolding handle after_claim claimed first_delivery settled_or on_raise fail_delivery settle_failure
    process acknowledge work answer unless_capability notify_poison maybe_hook settle outside
    try_except attempt pure raise ◌>>=◌
fifth_attempt = refl

abbrev stopping : Outside Log Unit Unit
stopping = outside_of (raised cancelled) (returned tt)

handle-unnumbered_example :
    EndsWith failing config
      (delivery none)
      "me"
      fresh
      (unnumbered
        (returned first)
        (succeeds failing config (delivery none) "me" (record fresh { world = "claim" ∷ [] })))
      (handle failing config (delivery none) "me" fresh)
handle-unnumbered_example =
    handle-unnumbered failing config (delivery none) "me" failing-calm refl fresh

-- The TypeError of the comparison, and no settlement.
unsettled :
    ((handle failing config (delivery none) "me" fresh).0
      ≡ raised (failure (other_exception "TypeError")))
    × ((handle failing config (delivery none) "me" fresh).1.settled ≡ [])
unfolding handle after_claim claimed first_delivery settled_or on_raise fail_delivery settle_failure
    process acknowledge work answer unless_capability notify_poison maybe_hook settle outside
    try_except attempt pure raise ◌>>=◌
unsettled = (refl, refl)

abbrev interrupted : Outside Log Unit Unit
interrupted = outside_of (returned nothing) (raised cancelled)

cancelled_hook_example :
    (handle interrupted config (delivery (some 1)) "me" fresh).1.settled ≡ acked ∷ nacked ∷ []
unfolding work answer unless_capability outside try_except pure ◌>>=◌
cancelled_hook_example =
    cancelled_hook interrupted config (delivery (some 1)) "me" fresh hello refl refl refl refl
