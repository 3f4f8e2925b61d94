-- ===== src/Dispatcher/Feed/Errors.antt =====
-- How `feed_update` ends.
use chattice.Base.{◌≡◌, refl, Option, none, String, arith}
use chattice.Dict.{Dict}
use chattice.Exceptions.{Failure, exception, skip_handler, stop_propagation, cancelled}
use chattice.Events.{Event}
use chattice.Effects.{
  Try, returned, raised, pure, attempt, again, try_except, handle_exception, continue, ◌>>=◌,
}
use chattice.Dispatcher.Scope.{Scope}
use chattice.Dispatcher.Routing.{
  Outcome, unmatched, stopped, handled, HookCall, before_event, after_event, maybe_hook,
}
use chattice.Dispatcher.Feed.{
  Dispatcher, Ended, routed, routed_error, after_error, after_routing, after_start, concluded,
  reset_bot, finish, feed, start, feed_update,
}

-- The hooks return or raise an `Exception`; they are not cancelled.
abbrev pub IsOrdinary : Try Unit → Type 0
IsOrdinary (returned u) = Unit
IsOrdinary (raised (exception f)) = Unit
IsOrdinary (raised skip_handler) = ⊥
IsOrdinary (raised stop_propagation) = ⊥
IsOrdinary (raised cancelled) = ⊥

module _ {W V R : Type 0} where
  abbrev pub HooksEnd : Dispatcher W V R → Type 0
  HooksEnd dispatcher = (h : HookCall R) (s : Scope W V) → IsOrdinary (dispatcher.hook h s).0

module _ {R : Type 0} where
  -- What a failure of the routing comes to: an "error" handler's result replaces it, an exception of an
  -- "error" handler replaces it, and without either it is raised on.
  abbrev pub failure_answer : Failure → Try (Outcome R) → Try (Option R)
  failure_answer f (returned (handled result)) = returned result
  failure_answer f (returned unmatched) = raised (exception f)
  failure_answer f (returned stopped) = raised (exception f)
  failure_answer f (raised r) = raised r

  abbrev pub routing_answer : (Failure → Try (Outcome R)) → Try (Outcome R) → Try (Option R)
  routing_answer error_pass (returned (handled result)) = returned result
  routing_answer error_pass (returned unmatched) = returned none
  routing_answer error_pass (returned stopped) = returned none
  routing_answer error_pass (raised (exception f)) = failure_answer f (error_pass f)
  routing_answer error_pass (raised skip_handler) = raised skip_handler
  routing_answer error_pass (raised stop_propagation) = raised stop_propagation
  routing_answer error_pass (raised cancelled) = raised cancelled

module _ {W V R : Type 0} (dispatcher : Dispatcher W V R) (ends : HooksEnd dispatcher)
    (e : Event) where
  abbrev answer_of : Try Unit → Option R → Try (Option R)
  answer_of (returned u) result = returned result
  answer_of (raised r) result = raised r

  swallowed_result :
      (r : Try Unit) (t : Scope W V)
      → IsOrdinary r
      → (handle_exception (λ _. pure tt) r t).0 ≡ returned tt
  unfolding pure
  swallowed_result (returned u) t o = refl
  swallowed_result (raised (exception f)) t o = refl
  swallowed_result (raised skip_handler) t o = elim o [ ]
  swallowed_result (raised stop_propagation) t o = elim o [ ]
  swallowed_result (raised cancelled) t o = elim o [ ]

  swallowed : (h : HookCall R) (s : Scope W V) → (maybe_hook dispatcher.hook h s).0 ≡ returned tt
  unfolding maybe_hook try_except
  swallowed h s = swallowed_result (dispatcher.hook h s).0 (dispatcher.hook h s).1 (ends h s)

  again-answer :
      (r : Try Unit) (result : Option R) (s : Scope W V)
      → (continue r (λ _. pure result) s).0 ≡ answer_of r result
  unfolding pure
  again-answer (returned u) result s = refl
  again-answer (raised r) result s = refl

  concluded-lem :
      (ended : Ended R) (r : Try Unit) (s : Scope W V)
      → r ≡ returned tt
      → (concluded dispatcher ended r s).0 ≡ answer_of ended.ends ended.result
  unfolding concluded ◌>>=◌ again
  concluded-lem ended (returned u) s h = again-answer ended.ends ended.result s
  concluded-lem ended (raised r) s h = ground (arith, h)

  finish-answer :
      (ended : Ended R) (s : Scope W V)
      → (finish dispatcher e ended s).0 ≡ answer_of ended.ends ended.result
  unfolding finish attempt ◌>>=◌ reset_bot
  finish-answer ended s =
      let hooked = maybe_hook dispatcher.hook (after_event e ended.result ended.error) s in
      concluded-lem ended hooked.0
        (record hooked.1 { world = dispatcher.reset_current_bot hooked.1.world })
        (swallowed (after_event e ended.result ended.error) s)

  error-answer :
      (f : Failure) (r : Try (Outcome R)) (s : Scope W V)
      → ((after_error dispatcher f r >>= finish dispatcher e) s).0 ≡ failure_answer f r
  unfolding ◌>>=◌ after_error pure
  error-answer f (returned (handled result)) s = finish-answer _ s
  error-answer f (returned unmatched) s = finish-answer _ s
  error-answer f (returned stopped) s = finish-answer _ s
  error-answer f (raised r) s = finish-answer _ s

  routing-answer :
      (r : Try (Outcome R)) (s : Scope W V)
      → ((after_routing dispatcher e r >>= finish dispatcher e) s).0
        ≡ routing_answer (λ f. (routed_error dispatcher e f s).0) r
  unfolding ◌>>=◌ after_routing pure attempt
  routing-answer (returned (handled result)) s = finish-answer _ s
  routing-answer (returned unmatched) s = finish-answer _ s
  routing-answer (returned stopped) s = finish-answer _ s
  routing-answer (raised (exception f)) s =
      error-answer f (routed_error dispatcher e f s).0 (routed_error dispatcher e f s).1
  routing-answer (raised skip_handler) s = finish-answer _ s
  routing-answer (raised stop_propagation) s = finish-answer _ s
  routing-answer (raised cancelled) s = finish-answer _ s

  start-answer :
      (r : Try Unit) (s : Scope W V)
      → r ≡ returned tt
      → ((after_start dispatcher e r >>= finish dispatcher e) s).0
        ≡ routing_answer
            (λ f. (routed_error dispatcher e f (routed dispatcher e s).1).0)
            (routed dispatcher e s).0
  unfolding ◌>>=◌ after_start attempt
  start-answer (returned u) s h = routing-answer (routed dispatcher e s).0 (routed dispatcher e s).1
  start-answer (raised r) s h = ground (arith, h)

  -- Where every hook returns or raises an `Exception`, `feed_update` answers with what the routing of the
  -- event gives after the `before_event` hook: a handler's result, nothing when no handler matched or the
  -- event was stopped, and what is no `Exception` it raises on. An `Exception` goes to the "error" handlers:
  -- the result of one that handles it is the answer, what they raise is raised in its place, and where they
  -- leave it unmatched or stop, it is raised on itself.
  pub feed_update-answer :
      (context : Dict String V) (w : W)
      → let s = (maybe_hook dispatcher.hook (before_event e) (start dispatcher e context w)).1 in
        let routing = routed dispatcher e s in
        (feed_update dispatcher e context w).0
        ≡ routing_answer (λ f. (routed_error dispatcher e f routing.1).0) routing.0
  unfolding feed_update feed ◌>>=◌ attempt
  feed_update-answer context w =
      let hooked = maybe_hook dispatcher.hook (before_event e) (start dispatcher e context w) in
      start-answer hooked.0 hooked.1 (swallowed (before_event e) (start dispatcher e context w))
