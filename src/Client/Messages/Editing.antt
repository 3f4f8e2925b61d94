-- ===== src/Client/Messages/Editing.antt =====
-- `get`, `update`, `list` and `delete` of `Messages` in src/chattice/client/resources/messages.py.
use chattice.Base.{ℕ, String, Option, is_some, List, [], ◌∷◌, ◌++◌, if◌then◌else◌, not, ◌||◌}
use chattice.Capabilities.Operations.{
  AuthMode, no_auth, messages_get, messages_update, messages_list, messages_delete,
}
use chattice.Capabilities.Registry.{Registry, is_identity}
use chattice.Client.Paging.{Pages}
use chattice.Client.Bot.{Client, Bot, Outcome, done, rejected, not_supported, ◌>>=◌, primary_mode}
use chattice.Client.Executor.{Response, execute}
use chattice.Client.Messages.{Media, guard, card_needs_publisher, card_assets}

-- The message of an update, with its mask.
pub record Update (C : Type 0) : Type 0 where
  pub name : String
  pub text : Option String
  pub card : Option C
  pub update_mask : List String

pub record MessagesPage : Type 0 where
  pub parent : String
  pub page_size : Option ℕ

module _ {M : Type 0} (registry : Registry) (identity : AuthMode) where
  unfoldable pub get : (Client → String → Response M) → (name : String) → Bot → Outcome M × Bot
  get send name bot = execute registry messages_get identity (λ i. send i name) bot

  -- The `fetch` of the pager.
  unfoldable pub list :
      {E : Type 0}
      → (Client → MessagesPage → Response (Pages E M))
      → (parent : String) (page_size : Option ℕ) → Bot
      → Outcome (Pages E M) × Bot
  list send parent page_size bot =
      execute registry messages_list identity
        (λ i. send i (record { parent = parent; page_size = page_size })) bot

unfoldable pub delete :
    Registry
    → AuthMode
    → (Client → String → Response (Unit {0}))
    → (name : String) → Bot
    → Outcome (Unit {0}) × Bot
delete registry identity send name bot =
    execute registry messages_delete identity (λ i. send i name) bot

-- `update_paths`
abbrev pub update_paths : {C : Type 0} → Option String → Option C → List String
update_paths text card =
    (if is_some text then "text" ∷ [] else []) ++ (if is_some card then "cards_v2" ∷ [] else [])

module _ {C : Type 0} (media : Media C) where
  -- All that comes before the remote call of an update.
  unfoldable pub plan_update :
      (name : String) → Option String → Option C → Bot → Outcome (Update C) × Bot
  plan_update name text card bot =
      (guard (is_some text || is_some card) rejected, bot) >>= λ _ bot1.
      primary_mode bot1.auth_mode bot1 >>= λ mode bot2.
      (guard (not (is_identity no_auth mode)) not_supported, bot2) >>= λ _ bot3.
      (guard (not (card_needs_publisher media card)) rejected, bot3) >>= λ _ bot4.
      (card_assets media card, bot4) >>= λ resolved bot5. (
        done (record {
          name = name;
          text = text;
          card = resolved;
          update_mask = update_paths text card;
        }),
        bot5,
      )

  unfoldable pub update :
      {M : Type 0}
      → Registry
      → AuthMode
      → (Client → Update C → Response M)
      → (name : String) → Option String
      → Option C
      → Bot
      → Outcome M × Bot
  unfolding plan_update
  update registry identity send name text card bot =
      plan_update name text card bot >>= λ request ready.
      execute registry messages_update identity (λ i. send i request) ready
