-- ===== src/Pubsub/Runner/Unnumbered.antt =====
-- How `_handle` ends on a subscription that gives its messages no attempt number.
use mathlib.Core.List.{append-nil}
use chattice.Base.{
  String, ◌≡◌, refl, ap, sym, ◌∙◌, Bool, true, false, Option, none, some, List, [], ◌∷◌, ◌++◌,
}
use chattice.Exceptions.{
  Failure, exception, cancelled, skip_handler, stop_propagation, other_exception,
}
use chattice.Events.{Event}
use chattice.Idempotency.Contract.{ClaimResult, first, completed, active}
use chattice.Effects.{Try, returned, raised, pure, raise, try_except, attempt}
use chattice.Pubsub.Effects.{
  Settlement, acked, nacked, Run, outside, settle, Ordinary, outside-IsCalm,
}
use chattice.Pubsub.Runner.{
  Message, Outside, Config, work, acknowledge, process, settle_failure, fail_delivery, on_raise,
  settled_or, first_delivery, claimed, after_claim, handle, key, failure,
}
use chattice.Pubsub.Runner.Silence.{work-IsSilent}
use chattice.Pubsub.Runner.Calm.{CalmOutside, work-IsCalm}
use chattice.Pubsub.Runner.Endings.{bind-returned, bind-raised, swallow}
use chattice.Pubsub.Runner.Verdict.{succeeds, is_returned, acknowledge-settled, release-IsSilent}

-- How a delivery without an attempt number ends, and what it is settled with.
abbrev pub unnumbered : Try ClaimResult → (succeeded : Bool) → Try Unit × List Settlement
unnumbered (raised r) ok = (returned tt, nacked ∷ [])
unnumbered (returned completed) ok = (returned tt, acked ∷ [])
unnumbered (returned active) ok = (returned tt, nacked ∷ [])
unnumbered (returned first) true = (returned tt, acked ∷ [])
unnumbered (returned first) false = (raised (failure (other_exception "TypeError")), [])

module _ {W Payload Card : Type 0} (out : Outside W Payload Card) (config : Config)
    (message : Message Payload) (owner : String) where
  -- A run that has come from `s` ends so, and is settled with these after what `s` was settled with.
  abbrev pub EndsWith : Run W → Try Unit × List Settlement → Try Unit × Run W → Type 0
  EndsWith s end r = (r.0 ≡ end.0) × (r.1.settled ≡ s.settled ++ end.1)

  module _ (calm : CalmOutside out) (no_number : message.delivery_attempt ≡ none) where
    fail-EndsWith :
        (e : Option Event) (f : Failure) (s : Run W)
        → EndsWith s
            (unnumbered (returned first) false)
            (fail_delivery out config message owner e f s)
    unfolding fail_delivery settle_failure raise
    fail-EndsWith e f s =
        let release =
          try_except (outside (out.release (key out config message owner) owner)) (λ _. pure tt) in
        let step =
          bind-returned release
            (λ _. settle_failure out config message owner e f message.delivery_attempt) s tt
            (swallow _ s (outside-IsCalm _ (calm.release (key out config message owner) owner)))
          ∙ ap (λ o. settle_failure out config message owner e f o (release s).1) no_number in
        (
          ap (λ x. x.0) step,
          ap (λ x. x.1.settled) step
              ∙ (release-IsSilent out config message owner calm).at s
              ∙ sym (append-nil s.settled),
        )

    body-EndsWith :
        (e : Event) (s : Run W) (r : Try Bool)
        → (work out config message owner e s).0 ≡ r
        → Ordinary r
        → EndsWith s (unnumbered (returned first) (is_returned r)) (
            attempt
              (process out config message owner e)
              (settled_or out config message owner (some e))
              s)
    unfolding attempt process settled_or on_raise pure
    body-EndsWith e s (returned b) w c =
        let s' = (work out config message owner e s).1 in
        let ack = acknowledge-settled out config message owner calm e b s' in
        let step =
          ap (λ x. settled_or out config message owner (some e) x.0 x.1)
            (bind-returned (work out config message owner e)
              (acknowledge out config message owner e) s b w)
          ∙ ap
              (λ r.
                settled_or out config message owner (some e) r
                  (acknowledge out config message owner e b s').1)
              ack.1 in
        (
          ap (λ x. x.0) step,
          ap (λ x. x.1.settled) step
              ∙ ack.0
              ∙ ap (λ l. l ++ acked ∷ []) ((work-IsSilent out config message owner e).at s),
        )
    body-EndsWith e s (raised (exception f)) w c =
        let s' = (work out config message owner e s).1 in
        let step =
          ap (λ x. settled_or out config message owner (some e) x.0 x.1)
            (bind-raised (work out config message owner e) (acknowledge out config message owner e)
              s (exception f) w) in
        let failing = fail-EndsWith (some e) f s' in
        (
          ap (λ x. x.0) step ∙ failing.0,
          ap (λ x. x.1.settled) step
              ∙ failing.1
              ∙ ap (λ l. l ++ []) ((work-IsSilent out config message owner e).at s),
        )
    body-EndsWith e s (raised skip_handler) w c = absurd c
    body-EndsWith e s (raised stop_propagation) w c = absurd c
    body-EndsWith e s (raised cancelled) w c = absurd c

    first-EndsWith :
        (s : Run W) (r : Try Event)
        → out.parse message.payload ≡ r
        → Ordinary r
        → EndsWith s
            (unnumbered (returned first) (succeeds out config message owner s))
            (first_delivery out config message owner s)
    unfolding first_delivery on_raise
    first-EndsWith s (returned e) p c =
        rw (first_delivery, p)
          (body-EndsWith e s (work out config message owner e s).0 refl
            ((work-IsCalm out calm config message owner e).at s))
    first-EndsWith s (raised (exception f)) p c = rw (first_delivery, p) (fail-EndsWith none f s)
    first-EndsWith s (raised skip_handler) p c = absurd c
    first-EndsWith s (raised stop_propagation) p c = absurd c
    first-EndsWith s (raised cancelled) p c = absurd c

    claimed-EndsWith :
        (s : Run W) (r : Try ClaimResult)
        → Ordinary r
        → EndsWith s
            (unnumbered r (succeeds out config message owner s))
            (after_claim out config message owner r s)
    unfolding after_claim claimed settle
    claimed-EndsWith s (returned completed) c = (refl, refl)
    claimed-EndsWith s (returned active) c = (refl, refl)
    claimed-EndsWith s (returned first) c =
        first-EndsWith s (out.parse message.payload) refl (calm.parse message.payload)
    claimed-EndsWith s (raised (exception f)) c = (refl, refl)
    claimed-EndsWith s (raised skip_handler) c = absurd c
    claimed-EndsWith s (raised stop_propagation) c = absurd c
    claimed-EndsWith s (raised cancelled) c = absurd c

    -- When nothing outside is cancelled, a message without an attempt number is acknowledged for a completed key
    -- and for a FIRST delivery that is parsed and worked on without an exception, and given back for an
    -- active key or a claim that fails; but a FIRST delivery whose parse or work fails is not settled at all,
    -- and a `TypeError` is raised out of its `except` clause.
    pub handle-unnumbered :
        (s : Run W)
        → let c = out.claim (key out config message owner) owner s.world in
          EndsWith s
            (unnumbered c.0 (succeeds out config message owner (record s { world = c.1 })))
            (handle out config message owner s)
    unfolding handle attempt outside
    handle-unnumbered s =
        let (r, w) = out.claim (key out config message owner) owner s.world in
        claimed-EndsWith (record s { world = w }) r
          (calm.claim (key out config message owner) owner s.world)
