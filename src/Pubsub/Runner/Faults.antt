-- ===== src/Pubsub/Runner/Faults.antt =====
-- Deliveries that the contract of `_handle` does not describe: the task is cancelled.
use chattice.Base.{String, ◌≡◌, refl, ap, ◌∙◌, Bool, true, none, some, [], ◌∷◌, ◌++◌}
use mathlib.Core.List.{append_assoc}
use chattice.Exceptions.{Raised, cancelled}
use chattice.Events.{Event}
use chattice.Idempotency.Contract.{first}
use chattice.Effects.{Try, returned, raised, Action, raise, try_except, attempt, ◌>>=◌}
use chattice.Pubsub.Effects.{acked, nacked, Run, outside, settle}
use chattice.Pubsub.Runner.{
  Message, HookCall, delivery_acked, Outside, Config, maybe_hook, work, acknowledge, process,
  on_raise, settled_or, first_delivery, claimed, after_claim, handle, key,
}
use chattice.Pubsub.Runner.Silence.{work-IsSilent}
use chattice.Pubsub.Runner.Endings.{bind-returned, bind-raised}

module _ {W Payload Card : Type 0} (out : Outside W Payload Card) (config : Config)
    (message : Message Payload) (owner : String) (s : Run W) (e : Event) {w : W}
    (claims : out.claim (key out config message owner) owner s.world ≡ (returned first, w))
    (parses : out.parse message.payload ≡ returned e) where
  -- The run after the claim.
  abbrev claimed_run : Run W
  claimed_run = record s { world = w }

  abbrev worked : Try Bool × Run W
  worked = work out config message owner e claimed_run

  hook_cancelled :
      (h : HookCall) (t : Run W)
      → (out.hook h t.world).0 ≡ raised cancelled
      → maybe_hook out h t ≡ (raised cancelled, record t { world = (out.hook h t.world).1 })
  unfolding maybe_hook try_except outside
  hook_cancelled h t stops = rw (maybe_hook, try_except, stops) refl

  parsed : Try Event → Action (Run W) Unit
  parsed (raised r) = on_raise out config message owner none r
  parsed (returned e') =
      attempt (process out config message owner e') (settled_or out config message owner (some e'))

  -- A delivery whose claim is answered FIRST and whose payload parses is its work, and how that is settled.
  handle-first :
      handle out config message owner s
      ≡ settled_or out config message owner
          (some e)
          (process out config message owner e claimed_run).0
          (process out config message owner e claimed_run).1
  unfolding handle attempt outside after_claim claimed first_delivery parsed
  handle-first =
      ap (λ x. (after_claim out config message owner x.0 (record s { world = x.1 }))) claims
      ∙ ap (λ r. parsed r claimed_run) parses

  work_raises :
      (r : Raised)
      → worked.0 ≡ raised r
      → handle out config message owner s ≡ on_raise out config message owner (some e) r worked.1
  unfolding process settled_or
  work_raises r h =
      handle-first
      ∙ ap (λ x. settled_or out config message owner (some e) x.0 x.1)
          (bind-raised (work out config message owner e) (acknowledge out config message owner e)
            claimed_run r h)

  -- A delivery that is cancelled while it is worked on is given back, once, and stays cancelled.
  cancelled_work :
      worked.0 ≡ raised cancelled
      → (handle out config message owner s).0 ≡ raised cancelled
        × ((handle out config message owner s).1.settled ≡ s.settled ++ nacked ∷ [])
  unfolding on_raise ◌>>=◌ settle raise
  cancelled_work h =
      let step = work_raises cancelled h in
      (
        ap (λ x. x.0) step,
        ap (λ x. x.1.settled) step
            ∙ ap (λ l. l ++ nacked ∷ [])
                ((work-IsSilent out config message owner e).at claimed_run),
      )

  -- An answered delivery that is cancelled while the hook after its `ack()` runs is settled twice, first
  -- with `ack()` and then with `nack()`.
  pub cancelled_hook :
      worked.0 ≡ returned true
      → (out.hook (delivery_acked message.message_id e) worked.1.world).0 ≡ raised cancelled
      → (handle out config message owner s).1.settled ≡ s.settled ++ acked ∷ nacked ∷ []
  unfolding process settled_or acknowledge ◌>>=◌ settle on_raise raise
  cancelled_hook answered stops =
      ap (λ x. x.1.settled)
        (handle-first
          ∙ ap (λ x. settled_or out config message owner (some e) x.0 x.1)
              (bind-returned (work out config message owner e)
                  (acknowledge out config message owner e) claimed_run true answered
                ∙ hook_cancelled (delivery_acked message.message_id e)
                    (record worked.1 { settled = worked.1.settled ++ acked ∷ [] }) stops))
      ∙ append_assoc worked.1.settled (acked ∷ []) (nacked ∷ [])
      ∙ ap (λ l. l ++ acked ∷ nacked ∷ [])
          ((work-IsSilent out config message owner e).at claimed_run)
