-- ===== src/Client/Messages/Identities.antt =====
-- Which identity the checks of a message look at.
use chattice.Base.{◌≡◌, true, Option}
use chattice.Capabilities.Operations.{AuthMode}
use chattice.Capabilities.Registry.{Registry}
use chattice.Client.Bot.{Bot}
use chattice.Client.Messages.{
  Draft, Media, empty, check_combination, check_draft, check_sender, plan,
}

module _ {C : Type 0} (media : Media C) (registry : Registry) (i j : AuthMode) (d : Draft C)
    (none_attached : empty d.attachments ≡ true) where
  combination_same : check_combination i d ≡ check_combination j d
  unfolding check_combination
  combination_same = rw none_attached

  check_draft_same :
      (mode : Option AuthMode) → check_draft media i mode d ≡ check_draft media j mode d
  unfolding check_draft
  check_draft_same mode = rw combination_same

  check_sender_same :
      (bot : Bot)
      → check_sender registry i d.attachments bot ≡ check_sender registry j d.attachments bot
  unfolding check_sender
  check_sender_same bot = rw none_attached

  -- The checks of a message without attachments, and the request that it becomes, are the same for both
  -- namespaces of a bot: they look at the bot's primary identity, and not at the one that sends the message.
  pub plan_identity : (bot : Bot) → plan media registry i d bot ≡ plan media registry j d bot
  unfolding plan
  plan_identity bot = simp (check_draft_same, check_sender_same)
