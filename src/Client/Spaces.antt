-- ===== src/Client/Spaces.antt =====
-- `Spaces` of src/chattice/client/resources/spaces.py.
pub mod Setup
use chattice.Base.{ℕ, String, Bool, true, false, Option, none, some, if◌then◌else◌}
use chattice.Capabilities.Operations.{
  AuthMode, spaces_get, spaces_list, spaces_find_direct_message, spaces_setup,
}
use chattice.Capabilities.Registry.{Registry}
use chattice.Client.Names.{canonical_user}
use chattice.Client.Paging.{Pages}
use chattice.Client.Errors.{not_found}
use chattice.Client.Bot.{Client, Bot, Outcome, done, raises, CallError, rejected, chat_error, ◌>>=◌}
use chattice.Client.Executor.{Response, execute}
use chattice.Client.Messages.{guard, named}

-- The request of a list: a space or a message, where it has one, and what narrows it.
pub record ListRequest : Type 0 where
  pub parent : Option String
  pub filter : Option String
  pub page_size : Option ℕ

abbrev pub is_not_found : CallError → Bool
is_not_found (chat_error not_found) = true
is_not_found _ = false

module _ {S : Type 0} (registry : Registry) (identity : AuthMode) where
  unfoldable pub get : (Client → String → Response S) → (name : String) → Bot → Outcome S × Bot
  get send name bot = execute registry spaces_get identity (λ i. send i name) bot

  -- The `fetch` of the pager.
  unfoldable pub list :
      {E : Type 0}
      → (Client → ListRequest → Response (Pages E S))
      → (filter : Option String) (page_size : Option ℕ) → Bot
      → Outcome (Pages E S) × Bot
  list send filter page_size bot =
      execute registry spaces_list identity
        (λ i. send i (record { parent = none; filter = filter; page_size = page_size })) bot

  unfoldable pub find_direct_message :
      (Client → String → Response S) → (user : Option String) → Bot → Outcome S × Bot
  find_direct_message send user bot = (named (canonical_user user), bot) >>= λ name ready.
      execute registry spaces_find_direct_message identity (λ i. send i name) ready

  unfoldable pub setup_missing :
      (Client → String → Response S) → (name : String) → Outcome S × Bot → Outcome S × Bot
  setup_missing setup name (done space, bot) = (done space, bot)
  setup_missing setup name (raises e, bot) =
      if is_not_found e
      then execute registry spaces_setup identity (λ i. setup i name) bot
      else (raises e, bot)

  -- `setup` is the remote call that sets up a direct message with the user of the name.
  unfoldable pub get_or_setup_direct_message :
      (find setup : Client → String → Response S) (allow_setup : Bool) (user : Option String)
      → Bot
      → Outcome S × Bot
  unfolding find_direct_message setup_missing
  get_or_setup_direct_message find setup allow_setup user bot =
      (guard allow_setup rejected, bot) >>= λ _ allowed.
      (named (canonical_user user), allowed) >>= λ name ready.
      setup_missing setup name (find_direct_message find user ready)
