-- ===== src/Client/Reactions.antt =====
-- `Reactions` of src/chattice/client/resources/reactions.py.
use chattice.Base.{ℕ, String, Option, none, some}
use chattice.Capabilities.Operations.{AuthMode, reactions_create, reactions_list, reactions_delete}
use chattice.Capabilities.Registry.{Registry}
use chattice.Client.Paging.{Pages}
use chattice.Client.Bot.{Client, Bot, Outcome}
use chattice.Client.Executor.{Response, execute}
use chattice.Client.Spaces.{ListRequest}

module _ {R : Type 0} (registry : Registry) (identity : AuthMode) where
  unfoldable pub create :
      (Client → (parent emoji : String) → Response R)
      → (message emoji : String) → Bot
      → Outcome R × Bot
  create send message emoji bot =
      execute registry reactions_create identity (λ i. send i message emoji) bot

  -- The `fetch` of the pager.
  unfoldable pub list :
      {E : Type 0}
      → (Client → ListRequest → Response (Pages E R))
      → (message : String) (page_size : Option ℕ) → Bot
      → Outcome (Pages E R) × Bot
  list send message page_size bot =
      execute registry reactions_list identity
        (λ i. send i (record { parent = some message; filter = none; page_size = page_size })) bot

unfoldable pub delete :
    Registry
    → AuthMode
    → (Client → String → Response (Unit {0}))
    → (name : String) → Bot
    → Outcome (Unit {0}) × Bot
delete registry identity send name bot =
    execute registry reactions_delete identity (λ i. send i name) bot
