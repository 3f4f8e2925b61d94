-- ===== src/Client/Executor.antt =====
-- src/chattice/client/executor.py: the one path of every remote call.
pub mod Admission
use chattice.Base.{
  String, Bool, true, false, Option, none, some, List, ◌∷◌, ◌≡◌, if◌then◌else◌, not, ◌&&◌,
}
use chattice.Capabilities.Operations.{AuthMode, app, user, no_auth, Operation, OperationSpec}
use chattice.Capabilities.Registry.{Registry, Checked, ok, failed, spec}
use chattice.Client.Errors.{ApiError, wrap_api_error}
use chattice.Client.Bot.{
  Bot, Client, Outcome, done, raises, CallError, registry_error, preview_disabled, chat_error,
  other_error, ◌>>=◌, preflight_operation, get_client, get_user_client,
}

-- How a remote call ends: a response, an error of the SDK, or any other exception.
pub data Response (A : Type 0) : Type 0 where
  response : A → Response A
  api_error : ApiError → Response A
  other_exception : String → Response A

module _ {A : Type 0} where
  unfoldable pub settle : Response A → Outcome A
  settle (response a) = done a
  settle (api_error e) = raises (chat_error (wrap_api_error e))
  settle (other_exception e) = raises (other_error e)

abbrev pub checked_spec : Checked OperationSpec → Bot → Outcome OperationSpec × Bot
checked_spec (ok s) bot = (done s, bot)
checked_spec (failed e) bot = (raises (registry_error e), bot)

-- `_resolve_client`
unfoldable pub resolve_client : AuthMode → Bot → Outcome Client × Bot
unfolding get_client get_user_client
resolve_client user bot = get_user_client bot
resolve_client _ bot = get_client bot

-- The checks of a call and its client: what a call without an effect, `_preflight`, comes to.
unfoldable pub prepare :
    Registry → Operation → AuthMode → (hidden : Bool) → Bot → Outcome Client × Bot
unfolding resolve_client preflight_operation
prepare registry operation identity true bot = (raises preview_disabled, bot)
prepare registry operation identity false bot =
    preflight_operation registry operation identity bot >>= λ _ checked.
    resolve_client identity checked

-- `_preflight` of src/chattice/client/resources/base.py
unfoldable pub preflight : Registry → Operation → AuthMode → Bot → Outcome (Unit {0}) × Bot
unfolding prepare
preflight registry operation identity bot =
    checked_spec (spec registry operation) bot
    >>= (λ s checked.
        prepare registry operation identity (s.preview && not checked.preview_enabled) checked)
    >>= λ _ ready. (done tt, ready)

module _ {A : Type 0} where
  -- The call itself, with the client at hand.
  abbrev pub perform : Operation → (Client → Response A) → Client → Bot → Outcome A × Bot
  perform operation call client bot =
      (settle (call client), record bot { calls = (client, operation) ∷ bot.calls })

  -- What follows the test for a preview operation.
  unfoldable pub admit :
      Registry
      → Operation
      → AuthMode
      → (Client → Response A)
      → (hidden : Bool) → Bot
      → Outcome A × Bot
  unfolding prepare
  admit registry operation identity call hidden bot =
      prepare registry operation identity hidden bot >>= λ client built.
      perform operation call client built

  unfoldable pub execute :
      Registry → Operation → AuthMode → (Client → Response A) → Bot → Outcome A × Bot
  unfolding admit
  execute registry operation identity call bot =
      checked_spec (spec registry operation) bot >>= λ s checked.
      admit registry operation identity call (s.preview && not checked.preview_enabled) checked
