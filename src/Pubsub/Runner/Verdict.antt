-- ===== src/Pubsub/Runner/Verdict.antt =====
-- How `_handle` settles a delivery.
use chattice.Base.{
  ℕ, String, ◌≡◌, refl, ap, ◌∙◌, Bool, true, false, Option, none, some, [], ◌∷◌, ◌++◌, leb, inl,
  inr, Bool-cases, if◌then◌else◌,
}
use chattice.Exceptions.{Failure, exception, cancelled, skip_handler, stop_propagation}
use chattice.Events.{Event}
use chattice.Idempotency.Contract.{ClaimResult, first, completed, active}
use chattice.Effects.{Try, returned, raised, pure, try_except, attempt, ◌>>=◌}
use chattice.Pubsub.Effects.{
  Settlement, acked, nacked, Run, outside, settle, IsSilent, silent_rules, Ordinary, outside-IsCalm,
}
use chattice.Pubsub.Runner.{
  Message, delivery_acked, Outside, Config, maybe_hook, notify_poison, work, acknowledge, process,
  nacked_hook, settle_failure, fail_delivery, on_raise, settled_or, first_delivery, claimed,
  after_claim, handle, key,
}
use chattice.Pubsub.Runner.Silence.{maybe_hook-IsSilent, notify_poison-IsSilent, work-IsSilent}
use chattice.Pubsub.Runner.Calm.{CalmOutside, hook-IsCalm, create-IsCalm, work-IsCalm}
use chattice.Pubsub.Runner.Endings.{
  ends_rules, bind-returned, bind-raised, settle-silent, swallow, Ends, pure-Ends, then_settle,
}

-- What the contract of `_handle` says that a delivery is settled with: by what the claim answered, by
-- whether the work, the claim's completion included, succeeded, and by the number of attempts.
abbrev pub verdict : (limit number : ℕ) → Try ClaimResult → (succeeded : Bool) → Settlement
verdict limit number (raised r) ok = nacked
verdict limit number (returned completed) ok = acked
verdict limit number (returned active) ok = nacked
verdict limit number (returned first) true = acked
verdict limit number (returned first) false = if leb limit number then acked else nacked

abbrev pub is_returned : {A : Type 0} → Try A → Bool
is_returned (returned a) = true
is_returned (raised r) = false

module _ {W Payload Card : Type 0} (out : Outside W Payload Card) (config : Config)
    (message : Message Payload) (owner : String) where
  -- The parse and the work of a FIRST delivery, on the run that its claim left.
  abbrev pub work_succeeds : Try Event → Run W → Bool
  work_succeeds (returned e) s = is_returned (work out config message owner e s).0
  work_succeeds (raised r) s = false

  abbrev pub succeeds : Run W → Bool
  succeeds = work_succeeds (out.parse message.payload)

  module _ (calm : CalmOutside out) where
    pub acknowledge-settled :
        (e : Event) (b : Bool) (s : Run W)
        → ((acknowledge out config message owner e b s).1.settled ≡ s.settled ++ acked ∷ [])
          × ((acknowledge out config message owner e b s).0 ≡ returned tt)
    unfolding acknowledge maybe_hook ◌>>=◌ settle
    acknowledge-settled e true s = (
      settle-silent acked (maybe_hook out (delivery_acked message.message_id e)) s
          (maybe_hook-IsSilent out (delivery_acked message.message_id e)),
      swallow (outside (out.hook (delivery_acked message.message_id e)))
          (record s { settled = s.settled ++ acked ∷ [] })
          (hook-IsCalm out calm (delivery_acked message.message_id e)),
    )
    acknowledge-settled e false s = (refl, refl)

    pub release-IsSilent :
        IsSilent
          (try_except (outside (out.release (key out config message owner) owner)) (λ _. pure tt))
    release-IsSilent = search silent_rules

    notify-Ends : (e : Option Event) (f : Failure) → Ends (notify_poison out e f)
    unfolding notify_poison
    notify-Ends none f = pure-Ends
    notify-Ends (some e) f = search (ends_rules, create-IsCalm out calm)

    module _ (number : ℕ) (numbered : message.delivery_attempt ≡ some number) where
      abbrev failed_verdict : Settlement
      failed_verdict = if leb config.max_delivery_attempts number then acked else nacked

      settle_failure-settled :
          (e : Option Event) (f : Failure) (s : Run W)
          → (settle_failure out config message owner e f message.delivery_attempt s).1.settled
            ≡ s.settled ++ failed_verdict ∷ []
      unfolding settle_failure
      settle_failure-settled e f s =
          rw (settle_failure, numbered)
            (elim (Bool-cases (leb config.max_delivery_attempts number)) [
              | inl poison ↦ rw poison (
                  ap (λ x. x.1.settled)
                    (then_settle (notify_poison out e f) acked s (notify_poison-IsSilent out e f)
                      (notify-Ends e f)))
              | inr retry ↦ rw retry (
                  settle-silent nacked (maybe_hook out (nacked_hook out config message owner e)) s
                    (maybe_hook-IsSilent out (nacked_hook out config message owner e)))
            ])

      fail-settled :
          (e : Option Event) (f : Failure) (s : Run W)
          → (fail_delivery out config message owner e f s).1.settled
            ≡ s.settled ++ failed_verdict ∷ []
      unfolding fail_delivery
      fail-settled e f s =
          let release =
            try_except (outside (out.release (key out config message owner) owner))
              (λ _. pure tt) in
          ap (λ x. x.1.settled)
            (bind-returned release
              (λ _. settle_failure out config message owner e f message.delivery_attempt) s tt
              (swallow _ s (outside-IsCalm _ (calm.release (key out config message owner) owner))))
          ∙ settle_failure-settled e f (release s).1
          ∙ ap (λ l. l ++ failed_verdict ∷ []) (release-IsSilent.at s)

      first_verdict : Bool → Settlement
      first_verdict ok = verdict config.max_delivery_attempts number (returned first) ok

      -- The body of a FIRST delivery, by how its work ended.
      body-settled :
          (e : Event) (s : Run W) (r : Try Bool)
          → (work out config message owner e s).0 ≡ r
          → Ordinary r
          → (attempt
              (process out config message owner e)
              (settled_or out config message owner (some e))
              s).1.settled
            ≡ s.settled ++ first_verdict (is_returned r) ∷ []
      unfolding attempt process settled_or on_raise first_verdict pure
      body-settled e s (returned b) w c =
          let s' = (work out config message owner e s).1 in
          let ack = acknowledge-settled e b s' in
          ap (λ x. (settled_or out config message owner (some e) x.0 x.1).1.settled)
            (bind-returned (work out config message owner e)
              (acknowledge out config message owner e) s b w)
          ∙ ap
              (λ r.
                (settled_or out config message owner (some e) r
                  (acknowledge out config message owner e b s').1).1.settled)
              ack.1
          ∙ ack.0
          ∙ ap (λ l. l ++ acked ∷ []) ((work-IsSilent out config message owner e).at s)
      body-settled e s (raised (exception f)) w c =
          let s' = (work out config message owner e s).1 in
          ap (λ x. (settled_or out config message owner (some e) x.0 x.1).1.settled)
            (bind-raised (work out config message owner e) (acknowledge out config message owner e)
              s (exception f) w)
          ∙ fail-settled (some e) f s'
          ∙ ap (λ l. l ++ failed_verdict ∷ []) ((work-IsSilent out config message owner e).at s)
      body-settled e s (raised skip_handler) w c = absurd c
      body-settled e s (raised stop_propagation) w c = absurd c
      body-settled e s (raised cancelled) w c = absurd c

      first-settled :
          (s : Run W) (r : Try Event)
          → out.parse message.payload ≡ r
          → Ordinary r
          → (first_delivery out config message owner s).1.settled
            ≡ s.settled ++ first_verdict (succeeds s) ∷ []
      unfolding first_delivery on_raise first_verdict
      first-settled s (returned e) p c =
          rw (first_delivery, p)
            (body-settled e s (work out config message owner e s).0 refl
              ((work-IsCalm out calm config message owner e).at s))
      first-settled s (raised (exception f)) p c = rw (first_delivery, p) (fail-settled none f s)
      first-settled s (raised skip_handler) p c = absurd c
      first-settled s (raised stop_propagation) p c = absurd c
      first-settled s (raised cancelled) p c = absurd c

      claim_result : W → Try ClaimResult
      claim_result w = (out.claim (key out config message owner) owner w).0

      claimed-settled :
          (s : Run W) (r : Try ClaimResult)
          → Ordinary r
          → (after_claim out config message owner r s).1.settled
            ≡ s.settled ++ verdict config.max_delivery_attempts number r (succeeds s) ∷ []
      unfolding after_claim claimed settle first_verdict
      claimed-settled s (returned completed) c = refl
      claimed-settled s (returned active) c = refl
      claimed-settled s (returned first) c =
          first-settled s (out.parse message.payload) refl (calm.parse message.payload)
      claimed-settled s (raised (exception f)) c = refl
      claimed-settled s (raised skip_handler) c = absurd c
      claimed-settled s (raised stop_propagation) c = absurd c
      claimed-settled s (raised cancelled) c = absurd c

      -- When nothing outside is cancelled and the message has an attempt number, one delivery is settled
      -- exactly once, with the verdict of the contract.
      pub handle-settled :
          (s : Run W)
          → (handle out config message owner s).1.settled
            ≡ s.settled
              ++ verdict config.max_delivery_attempts number
                  (out.claim (key out config message owner) owner s.world).0
                  (succeeds (record s {
                    world = (out.claim (key out config message owner) owner s.world).1;
                  }))
                ∷ []
      unfolding handle attempt outside
      handle-settled s =
          let (r, w) = out.claim (key out config message owner) owner s.world in
          claimed-settled (record s { world = w }) r
            (calm.claim (key out config message owner) owner s.world)
