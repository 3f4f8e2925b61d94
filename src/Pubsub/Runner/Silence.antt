-- ===== src/Pubsub/Runner/Silence.antt =====
-- The parts of a delivery before its `ack()` or `nack()`, and its settlements.
use chattice.Base.{String, Option, none, some}
use chattice.Exceptions.{Failure}
use chattice.Events.{Event}
use chattice.Pubsub.Effects.{IsSilent, silent_rules}
use chattice.Pubsub.Runner.{
  Message, HandlerResult, nothing, text, card, dialog, action_status, Content, HookCall, Outside,
  Config, maybe_hook, released, locked_update, send_answer, update_answer, answer_in,
  answer_outbound, answer, tell_space, notify_poison, unless_capability, work,
}

module _ {W Payload Card : Type 0} (out : Outside W Payload Card) where
  pub maybe_hook-IsSilent : (h : HookCall) → IsSilent (maybe_hook out h)
  unfolding maybe_hook
  maybe_hook-IsSilent h = search silent_rules

  locked_update-IsSilent : (name : String) (c : Card) → IsSilent (locked_update out name c)
  unfolding locked_update released
  locked_update-IsSilent name c = search silent_rules

  send_answer-IsSilent :
      (e : Event) (space : String) (c : Content Card) (t : Option String)
      → IsSilent (send_answer out e space c t)
  unfolding send_answer
  send_answer-IsSilent e space c t = search (silent_rules, maybe_hook-IsSilent)

  update_answer-IsSilent :
      (e : Event) (name : String) (c : Card) → IsSilent (update_answer out e name c)
  unfolding update_answer
  update_answer-IsSilent e name c =
      search (silent_rules, maybe_hook-IsSilent, locked_update-IsSilent)

  answer_in-IsSilent :
      (e : Event) (space : String) (r : HandlerResult Card) → IsSilent (answer_in out e space r)
  unfolding answer_in
  answer_in-IsSilent e space (text t) = search send_answer-IsSilent
  answer_in-IsSilent e space (card c) =
      search (silent_rules, send_answer-IsSilent, update_answer-IsSilent)
  answer_in-IsSilent e space r = search silent_rules

  answer_outbound-IsSilent :
      (e : Event) (r : HandlerResult Card) → IsSilent (answer_outbound out e r)
  unfolding answer_outbound
  answer_outbound-IsSilent e r = search (silent_rules, answer_in-IsSilent)

  answer-IsSilent : (e : Event) (r : HandlerResult Card) → IsSilent (answer out e r)
  unfolding answer
  answer-IsSilent e nothing = search silent_rules
  answer-IsSilent e dialog = search silent_rules
  answer-IsSilent e action_status = search silent_rules
  answer-IsSilent e r = answer_outbound-IsSilent e _

  pub tell_space-IsSilent : (e : Event) (f : Failure) → IsSilent (tell_space out e f)
  unfolding tell_space
  tell_space-IsSilent e f = search silent_rules

  pub notify_poison-IsSilent : (e : Option Event) (f : Failure) → IsSilent (notify_poison out e f)
  unfolding notify_poison
  notify_poison-IsSilent none f = search silent_rules
  notify_poison-IsSilent (some e) f = search silent_rules

  module _ (config : Config) (message : Message Payload) (owner : String) where
    unless_capability-IsSilent :
        (e : Event) (f : Failure) → IsSilent (unless_capability out config message owner e f)
    unfolding unless_capability
    unless_capability-IsSilent e f = search (silent_rules, tell_space-IsSilent)

    pub work-IsSilent : (e : Event) → IsSilent (work out config message owner e)
    unfolding work
    work-IsSilent e = search (silent_rules, answer-IsSilent, unless_capability-IsSilent) depth 8
