-- ===== src/Dispatcher/Routing/Walking.antt =====
-- Which handler a pass over the routers reaches, and how the pass ends.
use chattice.Base.{◌≡◌, refl, Bool, true, false, Option, none, some, String, List, [], ◌∷◌}
use chattice.Dict.{Dict}
use chattice.Exceptions.{
  Failure, filter_stage, exception, skip_handler, stop_propagation, cancelled,
}
use chattice.Events.{Event}
use chattice.Effects.{
  Try, returned, raised, Action, pure, raise, attempt, try_except, ◌>>=◌, continue,
  handle_exception,
}
use chattice.Dispatcher.Scope.{Scope, on_copy, paired, attach_failure_context}
use chattice.Dispatcher.Routing.Tags.{
  Marked, Escaped, attach_failure_context-Marked, unless_staged-Escaped, filtered-Marked,
}
use chattice.Dispatcher.Filters.{evaluate_filters}
use chattice.Dispatcher.Handler.{Handler}
use chattice.Dispatcher.Middleware.{Middleware}
use chattice.Dispatcher.Router.{ObserverName, Observer, Visit}
use chattice.Dispatcher.Routing.{
  Outcome, unmatched, stopped, handled, HookCall, maybe_hook, run_candidate, run_matching,
  after_candidate, route_handlers, after_observer, route_observer, route_pass, after_handler,
  middleware_tagged,
}

module _ {W V R : Type 0} (hook : HookCall R → Scope W V → Try Unit × Scope W V) (e : Event) where
  abbrev pub Ends : Type 0
  Ends = Try (Outcome R) × W

  -- A candidate has answered: its result stands, once the hook has been told.
  abbrev pub Told : {A : Type 0} → Option R → Try A × W → Ends → Type 0
  Told result (returned _, w) out = out ≡ (returned (handled result), w)
  Told result (raised r, w) out = out ≡ (raised r, w)

  -- A candidate whose filters match has run; `on` is the search among the candidates after it.
  abbrev pub Runs :
      Handler W V R → (W → Ends → Type 0) → Try (Option (Option R)) × Scope W V → Ends → Type 0
  Runs handler on (returned none, s) out = on s.world out
  Runs handler on (returned (some result), s) out =
      Told result
        (on_copy s.context (maybe_hook hook (after_handler e handler.name result)) s.world) out
  Runs handler on (raised skip_handler, s) out = on s.world out
  Runs handler on (raised stop_propagation, s) out = out ≡ (returned stopped, s.world)
  Runs handler on (raised cancelled, s) out = out ≡ (raised cancelled, s.world)
  Runs handler on (raised (exception f), s) out =
      (g : Failure) × Escaped f.stage f g × (out ≡ (raised (exception g), s.world))

  -- The filters of a candidate have answered.
  abbrev pub Meets :
      Handler W V R
      → List (Middleware W V R)
      → (W → Ends → Type 0)
      → Try Bool × Scope W V
      → Ends
      → Type 0
  Meets handler middleware on (returned true, s) out =
      Runs handler on (run_matching hook handler middleware e true s) out
  Meets handler middleware on (returned false, s) out = on s.world out
  Meets handler middleware on (raised skip_handler, s) out = on s.world out
  Meets handler middleware on (raised stop_propagation, s) out = out ≡ (returned stopped, s.world)
  Meets handler middleware on (raised cancelled, s) out = out ≡ (raised cancelled, s.world)
  Meets handler middleware on (raised (exception f), s) out =
      (g : Failure) × Marked filter_stage f.takes_stage f g
      × (out ≡ (raised (exception g), s.world))

  -- The handlers of an observer in their order, each with a copy of the observer's context.
  abbrev pub Tries :
      List (Handler W V R)
      → List (Middleware W V R)
      → Dict String V
      → (W → Ends → Type 0)
      → W
      → Ends
      → Type 0
  Tries [] middleware context on w out = on w out
  Tries (handler ∷ handlers) middleware context on w out =
      Meets handler middleware (Tries handlers middleware context on)
        (evaluate_filters handler.filters e (record { context = context; world = w })) out

  -- The filters of an observer have answered.
  abbrev pub Enters :
      List (Handler W V R)
      → List (Middleware W V R)
      → (W → Ends → Type 0)
      → Try Bool × Scope W V
      → Ends
      → Type 0
  Enters handlers middleware on (returned true, s) out =
      Tries handlers middleware s.context on s.world out
  Enters handlers middleware on (returned false, s) out = on s.world out
  Enters handlers middleware on (raised skip_handler, s) out = on s.world out
  Enters handlers middleware on (raised stop_propagation, s) out = out ≡ (returned stopped, s.world)
  Enters handlers middleware on (raised cancelled, s) out = out ≡ (raised cancelled, s.world)
  Enters handlers middleware on (raised (exception f), s) out =
      (g : Failure) × Marked filter_stage f.takes_stage f g
      × (out ≡ (raised (exception g), s.world))

  abbrev pub Looks :
      Observer W V R
      → List (Handler W V R)
      → List (Middleware W V R)
      → Dict String V
      → (W → Ends → Type 0)
      → W
      → Ends
      → Type 0
  Looks observer [] middleware data_ on w out = on w out
  Looks observer (handler ∷ handlers) middleware data_ on w out =
      Enters (handler ∷ handlers) middleware on
        (evaluate_filters observer.filters e (record { context = data_; world = w })) out

  -- The routers of a pass in their order.
  abbrev pub Walks : List (Visit W V R) → Dict String V → ObserverName → W → Ends → Type 0
  Walks [] data_ name w out = out ≡ (returned unmatched, w)
  Walks ((node, middleware) ∷ visits) data_ name w out =
      let observer = node.observer name in
      Looks observer observer.handlers middleware data_ (Walks visits data_ name) w out

  told :
      (result : Option R) (c : Dict String V) (r : Try (Unit × Dict String V)) (w : W)
      → Told result (r, w) (continue r (λ _. pure (handled result)) w)
  unfolding pure
  told result c (returned u) w = refl
  told result c (raised x) w = refl

  module _ (middleware : List (Middleware W V R)) (rest : Action W (Outcome R))
      (on : W → Ends → Type 0) (goes : (w : W) → on w (rest w)) where
    after_candidate-Runs :
        (handler : Handler W V R) (r : Try (Option (Option R)) × Scope W V)
        → let p = paired r in Runs handler on r (after_candidate hook handler e rest p.0 p.1)
    unfolding after_candidate pure raise ◌>>=◌
    after_candidate-Runs handler (returned none, s) = goes s.world
    after_candidate-Runs handler (returned (some x), s) =
        let t = on_copy s.context (maybe_hook hook (after_handler e handler.name x)) s.world in
        told x s.context t.0 t.1
    after_candidate-Runs handler (raised skip_handler, s) = goes s.world
    after_candidate-Runs handler (raised stop_propagation, s) = refl
    after_candidate-Runs handler (raised cancelled, s) = refl
    after_candidate-Runs handler (raised (exception f), s) =
        (middleware_tagged handler.name f, unless_staged-Escaped f.stage handler.name f, refl)

    -- The body of a candidate's `try`, once its filters have answered.
    abbrev candidate : Handler W V R → Try Bool × Scope W V → Try (Option (Option R)) × Scope W V
    candidate handler (r, s) =
        let (q, t) =
          handle_exception
            (λ f. raise (exception (attach_failure_context filter_stage (some handler.name) f))) r
            s in
        continue q (run_matching hook handler middleware e) t

    after_candidate-Meets :
        (handler : Handler W V R) (r : Try Bool × Scope W V)
        → let p = paired (candidate handler r) in
          Meets handler middleware on r (after_candidate hook handler e rest p.0 p.1)
    unfolding after_candidate pure raise run_matching
    after_candidate-Meets handler (returned true, s) =
        after_candidate-Runs handler (run_matching hook handler middleware e true s)
    after_candidate-Meets handler (returned false, s) = goes s.world
    after_candidate-Meets handler (raised skip_handler, s) = goes s.world
    after_candidate-Meets handler (raised stop_propagation, s) = refl
    after_candidate-Meets handler (raised cancelled, s) = refl
    after_candidate-Meets handler (raised (exception f), s) =
        let g = attach_failure_context filter_stage (some handler.name) f in
        let (marked, takes) = attach_failure_context-Marked filter_stage (some handler.name) f in
        (
          middleware_tagged handler.name g,
          filtered-Marked g.stage f.takes_stage f g (middleware_tagged handler.name g) refl takes
              marked (unless_staged-Escaped g.stage handler.name g),
          refl,
        )

  route_handlers-Tries :
      (handlers : List (Handler W V R)) (middleware : List (Middleware W V R))
      (context : Dict String V) (rest : Action W (Outcome R)) (on : W → Ends → Type 0) (w : W)
      → ((w : W) → on w (rest w))
      → Tries handlers middleware context on w
          (route_handlers hook handlers middleware e context rest w)
  unfolding route_handlers attempt on_copy run_candidate ◌>>=◌ try_except
  route_handlers-Tries [] middleware context rest on w goes = goes w
  route_handlers-Tries (handler ∷ handlers) middleware context rest on w goes =
      after_candidate-Meets middleware (route_handlers hook handlers middleware e context rest)
        (Tries handlers middleware context on)
        (λ v. route_handlers-Tries handlers middleware context rest on v goes) handler
        (evaluate_filters handler.filters e (record { context = context; world = w }))

  after_observer-Enters :
      (handlers : List (Handler W V R)) (middleware : List (Middleware W V R))
      (rest : Action W (Outcome R)) (on : W → Ends → Type 0) (r : Try Bool × Scope W V)
      → ((w : W) → on w (rest w))
      → let p = paired r in
        Enters handlers middleware on r (after_observer hook handlers middleware e rest p.0 p.1)
  unfolding after_observer pure raise
  after_observer-Enters handlers middleware rest on (returned true, s) goes =
      route_handlers-Tries handlers middleware s.context rest on s.world goes
  after_observer-Enters handlers middleware rest on (returned false, s) goes = goes s.world
  after_observer-Enters handlers middleware rest on (raised skip_handler, s) goes = goes s.world
  after_observer-Enters handlers middleware rest on (raised stop_propagation, s) goes = refl
  after_observer-Enters handlers middleware rest on (raised cancelled, s) goes = refl
  after_observer-Enters handlers middleware rest on (raised (exception f), s) goes = (
    attach_failure_context filter_stage none f,
    (attach_failure_context-Marked filter_stage none f).0,
    refl,
  )

  route_observer-Looks :
      (observer : Observer W V R) (handlers : List (Handler W V R))
      (middleware : List (Middleware W V R)) (data_ : Dict String V) (rest : Action W (Outcome R))
      (on : W → Ends → Type 0) (w : W)
      → ((w : W) → on w (rest w))
      → Looks observer handlers middleware data_ on w
          (route_observer hook observer handlers middleware e data_ rest w)
  unfolding route_observer attempt on_copy
  route_observer-Looks observer [] middleware data_ rest on w goes = goes w
  route_observer-Looks observer (handler ∷ handlers) middleware data_ rest on w goes =
      after_observer-Enters (handler ∷ handlers) middleware rest on
        (evaluate_filters observer.filters e (record { context = data_; world = w })) goes

  -- A pass tries the routers that the walk has yielded in their order, each on a copy of the data: it goes on to the next one where the
  -- observer has no handlers, its filters do not match or raise SkipHandler, or none of its handlers is
  -- left. The handlers are tried in order, each on a copy of the observer's context: one is passed over
  -- where its filters do not match, or it or its filters raise SkipHandler. The first one that is not ends
  -- the pass: with its result, once the hook after it has been told, or what that hook raises; as stopped
  -- by StopPropagation; with the cancellation; or with its exception, of the same class. An exception out
  -- of the filters of an observer or a handler carries the filter stage, and one that comes out of a
  -- middleware without a stage the middleware stage, unless it takes no tag. A pass without routers that
  -- are left is unmatched.
  pub route_pass-Walks :
      (visits : List (Visit W V R)) (data_ : Dict String V) (name : ObserverName) (w : W)
      → Walks visits data_ name w (route_pass hook visits e data_ name w)
  unfolding route_pass pure
  route_pass-Walks [] data_ name w = refl
  route_pass-Walks ((node, middleware) ∷ visits) data_ name w =
      let observer = node.observer name in
      route_observer-Looks observer observer.handlers middleware data_
        (route_pass hook visits e data_ name) (Walks visits data_ name) w
        (λ v. route_pass-Walks visits data_ name v)
