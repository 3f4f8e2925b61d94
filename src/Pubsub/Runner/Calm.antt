-- ===== src/Pubsub/Runner/Calm.antt =====
-- The parts of a delivery when nothing outside is cancelled.
use chattice.Base.{String, Option, none, some}
use chattice.Exceptions.{Failure}
use chattice.Events.{Event}
use chattice.Effects.{Try}
use chattice.Pubsub.Effects.{outside, IsCalm, calm_rules, Ordinary, outside-IsCalm, again-IsCalm}
use chattice.Pubsub.Runner.{
  Message, HandlerResult, nothing, text, card, dialog, action_status, Content, HookCall, Outside,
  Config, maybe_hook, released, locked_update, send_answer, update_answer, answer_in,
  answer_outbound, answer, tell_space, notify_poison, unless_capability, work,
}

-- No call of the outside ends in a `BaseException` that is no `Exception`: the task is not cancelled.
pub record CalmOutside {W Payload Card : Type 0} (out : Outside W Payload Card) : Type 0 where
  pub claim : (key owner : String) (w : W) → Ordinary (out.claim key owner w).0
  pub complete : (key owner : String) (w : W) → Ordinary (out.complete key owner w).0
  pub release : (key owner : String) (w : W) → Ordinary (out.release key owner w).0
  pub parse : (p : Payload) → Ordinary (out.parse p)
  pub feed_update : (e : Event) (w : W) → Ordinary (out.feed_update e w).0
  pub create :
      (space : String) (c : Content Card) (t : Option String) (w : W)
      → Ordinary (out.create space c t w).0
  pub update : (name : String) (c : Content Card) (w : W) → Ordinary (out.update name c w).0
  pub acquire_lock : (name : String) (w : W) → Ordinary (out.acquire_lock name w).0
  pub hook : (h : HookCall) (w : W) → Ordinary (out.hook h w).0

module _ {W Payload Card : Type 0} (out : Outside W Payload Card) (calm : CalmOutside out) where
  pub hook-IsCalm : (h : HookCall) → IsCalm (outside (out.hook h))
  hook-IsCalm h = outside-IsCalm (out.hook h) (calm.hook h)

  pub create-IsCalm :
      (space : String) (c : Content Card) (t : Option String)
      → IsCalm (outside (out.create space c t))
  create-IsCalm space c t = outside-IsCalm (out.create space c t) (calm.create space c t)

  update-IsCalm : (name : String) (c : Content Card) → IsCalm (outside (out.update name c))
  update-IsCalm name c = outside-IsCalm (out.update name c) (calm.update name c)

  acquire_lock-IsCalm : (name : String) → IsCalm (outside (out.acquire_lock name))
  acquire_lock-IsCalm name = outside-IsCalm (out.acquire_lock name) (calm.acquire_lock name)

  feed_update-IsCalm : (e : Event) → IsCalm (outside (out.feed_update e))
  feed_update-IsCalm e = outside-IsCalm (out.feed_update e) (calm.feed_update e)

  complete-IsCalm : (key owner : String) → IsCalm (outside (out.complete key owner))
  complete-IsCalm key owner = outside-IsCalm (out.complete key owner) (calm.complete key owner)

  released-IsCalm : (name : String) (r : Try Unit) → Ordinary r → IsCalm (released out name r)
  unfolding released
  released-IsCalm name r c = search (calm_rules, again-IsCalm r c)

  ruleset outside_rules = (
    calm_rules, hook-IsCalm, create-IsCalm, update-IsCalm, acquire_lock-IsCalm, feed_update-IsCalm,
    complete-IsCalm, released-IsCalm,
  )

  pub maybe_hook-IsCalm : (h : HookCall) → IsCalm (maybe_hook out h)
  unfolding maybe_hook
  maybe_hook-IsCalm h = search outside_rules

  locked_update-IsCalm : (name : String) (c : Card) → IsCalm (locked_update out name c)
  unfolding locked_update
  locked_update-IsCalm name c = search outside_rules

  send_answer-IsCalm :
      (e : Event) (space : String) (c : Content Card) (t : Option String)
      → IsCalm (send_answer out e space c t)
  unfolding send_answer
  send_answer-IsCalm e space c t = search (outside_rules, maybe_hook-IsCalm)

  update_answer-IsCalm :
      (e : Event) (name : String) (c : Card) → IsCalm (update_answer out e name c)
  unfolding update_answer
  update_answer-IsCalm e name c = search (outside_rules, maybe_hook-IsCalm, locked_update-IsCalm)

  answer_in-IsCalm :
      (e : Event) (space : String) (r : HandlerResult Card) → IsCalm (answer_in out e space r)
  unfolding answer_in
  answer_in-IsCalm e space (text t) = search send_answer-IsCalm
  answer_in-IsCalm e space (card c) =
      search (outside_rules, send_answer-IsCalm, update_answer-IsCalm)
  answer_in-IsCalm e space r = search outside_rules

  answer_outbound-IsCalm : (e : Event) (r : HandlerResult Card) → IsCalm (answer_outbound out e r)
  unfolding answer_outbound
  answer_outbound-IsCalm e r = search (outside_rules, answer_in-IsCalm)

  answer-IsCalm : (e : Event) (r : HandlerResult Card) → IsCalm (answer out e r)
  unfolding answer
  answer-IsCalm e nothing = search outside_rules
  answer-IsCalm e dialog = search outside_rules
  answer-IsCalm e action_status = search outside_rules
  answer-IsCalm e r = answer_outbound-IsCalm e _

  pub tell_space-IsCalm : (e : Event) (f : Failure) → IsCalm (tell_space out e f)
  unfolding tell_space
  tell_space-IsCalm e f = search outside_rules

  pub notify_poison-IsCalm : (e : Option Event) (f : Failure) → IsCalm (notify_poison out e f)
  unfolding notify_poison
  notify_poison-IsCalm none f = search outside_rules
  notify_poison-IsCalm (some e) f = search outside_rules

  module _ (config : Config) (message : Message Payload) (owner : String) where
    unless_capability-IsCalm :
        (e : Event) (f : Failure) → IsCalm (unless_capability out config message owner e f)
    unfolding unless_capability
    unless_capability-IsCalm e f = search (outside_rules, tell_space-IsCalm)

    pub work-IsCalm : (e : Event) → IsCalm (work out config message owner e)
    unfolding work
    work-IsCalm e = search (outside_rules, answer-IsCalm, unless_capability-IsCalm) depth 8
