-- ===== src/Client/Bot.antt =====
-- The credentials and clients of `Bot` in src/chattice/client/bot.py, one call at a time.
pub mod Resolving
use chattice.Base.{
  String, Bool, true, false, Option, none, some, is_some, List, [], ◌∷◌, ◌++◌, ◌≡◌, if◌then◌else◌,
  not, ◌&&◌, ◌||◌,
}
use chattice.Capabilities.Operations.{AuthMode, app, user, no_auth, Operation, normal}
use chattice.Capabilities.Registry.{
  Registry, RegistryError, Checked, ok, failed, same_mode, require,
}
use chattice.Client.Errors.{ChatErrorClass}

-- Credentials of google-auth: a subject that is not empty, whether they have a signer, a refresh token
-- that is not empty, and the scopes of three attributes, none where an attribute names no texts.
pub record Credentials : Type 0 where
  pub subject : Bool
  pub signer : Bool
  pub refresh_token : Bool
  pub granted_scopes : Option (List String)
  pub scopes : Option (List String)
  pub default_scopes : Option (List String)

-- What a call raises.
pub data CallError : Type 0 where
  bot_closed no_credentials : CallError
  registry_error : RegistryError → CallError
  preview_disabled identity_not_configured : CallError
  -- A `ChatAPIError` and a `CapabilityNotSupported` that the arguments of a call alone bring about.
  rejected not_supported : CallError
  identity_mismatch : (resolved : AuthMode) → CallError
  chat_error : ChatErrorClass → CallError
  other_error : String → CallError

pub data Outcome (A : Type 0) : Type 0 where
  done : A → Outcome A
  raises : CallError → Outcome A

-- A provider, with what it answers the next time that it is called.
pub data Provider : Type 0 where
  no_provider : Provider
  provides : Outcome (Option Credentials) → Provider

-- The two clients of a bot: the one of its primary credentials, and the one of its user credentials.
pub data Client : Type 0 where
  primary_client user_identity_client : Client

pub record Bot : Type 0 where
  pub credentials : Option Credentials
  pub credentials_provider : Provider
  pub user_credentials_provider : Provider
  pub auth_mode : Option AuthMode
  pub has_transport : Bool
  pub preview_enabled : Bool
  -- What the credential task has come to, once it is there, and what the lookup without tasks has resolved.
  pub credential_task : Option (Option Credentials)
  pub resolved_credentials : Option (Option Credentials)
  pub resolved_user : Option (Option Credentials)
  pub client : Bool
  pub user_client : Bool
  pub closed : Bool
  -- The remote calls so far, the last one first, with the client that made them.
  pub calls : List (Client × Operation)

-- `_classify`
unfoldable pub classify : Credentials → Option AuthMode
classify c =
    if c.subject
    then some user
    else if c.signer
    then some app
    else if c.refresh_token
    then some user
    else none

abbrev pub classified : Option Credentials → Option AuthMode
unfolding classify
classified none = none
classified (some c) = classify c

abbrev pub either_scopes : Option (List String) → Option (List String) → Option (List String)
either_scopes none none = none
either_scopes (some a) none = some a
either_scopes none (some b) = some b
either_scopes (some a) (some b) = some (a ++ b)

-- `_credential_scopes`
unfoldable pub credential_scopes : AuthMode → Credentials → Option (List String)
credential_scopes user c = elim c.granted_scopes [ some granted ↦ some granted | none ↦ c.scopes ]
credential_scopes app c = either_scopes c.scopes c.default_scopes
credential_scopes no_auth c = some []

-- A step of a call: its outcome and the bot after it.
infixl 5 ◌>>=◌
abbrev pub ◌>>=◌ : {A B : Type 0} → Outcome A × Bot → (A → Bot → Outcome B × Bot) → Outcome B × Bot
(done a, bot) >>= f = f a bot
(raises e, bot) >>= f = (raises e, bot)

abbrev pub answered : Provider → Option Credentials → Outcome (Option Credentials)
answered no_provider fallback = done fallback
answered (provides outcome) fallback = outcome

abbrev pub store : Outcome (Option Credentials) → Bot → Outcome (Option Credentials) × Bot
store (done c) bot =
    (done c, record bot { credential_task = some c; resolved_credentials = some c })
store (raises e) bot = (raises e, bot)

unfoldable pub resolve_from :
    Option (Option Credentials)
    → Bool
    → Option (Option Credentials)
    → Bot
    → Outcome (Option Credentials) × Bot
resolve_from (some c) closed known bot = (done c, bot)
resolve_from none true known bot = (raises bot_closed, bot)
resolve_from none false (some c) bot = store (done c) bot
resolve_from none false none bot = store (answered bot.credentials_provider bot.credentials) bot

-- `_resolve_credentials_async`: a task that is finished is kept, one that failed is not.
unfoldable pub resolve_credentials : Bot → Outcome (Option Credentials) × Bot
unfolding resolve_from
resolve_credentials bot = resolve_from bot.credential_task bot.closed bot.resolved_credentials bot

abbrev pub only_user : Option Credentials → Option Credentials
only_user c = elim (classified c) [
  | none ↦ none
  | some mode ↦ if same_mode mode user then c else none
]

abbrev pub store_user : Outcome (Option Credentials) → Bot → Outcome (Option Credentials) × Bot
store_user (done c) bot = (done c, record bot { resolved_user = some c })
store_user (raises e) bot = (raises e, bot)

unfoldable pub ask_user_provider : Provider → Bot → Outcome (Option Credentials) × Bot
unfolding resolve_credentials
ask_user_provider (provides outcome) bot = store_user outcome bot
ask_user_provider no_provider bot =
    resolve_credentials bot >>= λ c after. store_user (done (only_user c)) after

unfoldable pub resolve_user_from :
    Option (Option Credentials) → Bool → Bot → Outcome (Option Credentials) × Bot
unfolding ask_user_provider
resolve_user_from (some c) closed bot = (done c, bot)
resolve_user_from none true bot = (raises bot_closed, bot)
resolve_user_from none false bot = ask_user_provider bot.user_credentials_provider bot

-- `_resolve_user_credentials_async`
unfoldable pub resolve_user_credentials : Bot → Outcome (Option Credentials) × Bot
unfolding resolve_user_from
resolve_user_credentials bot = resolve_user_from bot.resolved_user bot.closed bot

abbrev pub lift : Checked Unit → Outcome (Unit {0})
lift (ok c) = done tt
lift (failed e) = raises (registry_error e)

unfoldable pub resolve_for : AuthMode → Bot → Outcome (Option Credentials) × Bot
unfolding resolve_credentials resolve_user_credentials
resolve_for user bot = resolve_user_credentials bot
resolve_for _ bot = resolve_credentials bot

-- The mode of the credentials against the identity that is asked for.
unfoldable pub check_mode :
    Registry → Operation → AuthMode → Credentials → Option AuthMode → Outcome (Unit {0})
unfolding credential_scopes
check_mode registry operation identity c none = done tt
check_mode registry operation identity c (some mode) =
    if same_mode mode identity
    then lift (require registry operation (some mode) (credential_scopes mode c) normal)
    else raises (identity_mismatch mode)

unfoldable pub check_credentials :
    Registry → Operation → AuthMode → Option Credentials → Outcome (Unit {0})
unfolding check_mode classify
check_credentials registry operation identity none = raises identity_not_configured
check_credentials registry operation identity (some c) =
    check_mode registry operation identity c (classify c)

-- `_preflight_operation`
unfoldable pub preflight_operation :
    Registry → Operation → AuthMode → Bot → Outcome (Unit {0}) × Bot
unfolding resolve_for check_credentials
preflight_operation registry operation identity bot =
    resolve_for identity bot >>= λ c after. (check_credentials registry operation identity c, after)

unfoldable pub build_client : Option Credentials → Bot → Outcome Client × Bot
build_client c bot =
    if is_some c || bot.has_transport
    then (done primary_client, record bot { client = true })
    else (raises no_credentials, bot)

unfoldable pub get_client_from : (built closed : Bool) → Bot → Outcome Client × Bot
unfolding resolve_credentials build_client
get_client_from true closed bot = (done primary_client, bot)
get_client_from false true bot = (raises bot_closed, bot)
get_client_from false false bot = resolve_credentials bot >>= build_client

-- `_get_client_async`
unfoldable pub get_client : Bot → Outcome Client × Bot
unfolding get_client_from
get_client bot = get_client_from bot.client bot.closed bot

unfoldable pub build_user_client : Option Credentials → Bot → Outcome Client × Bot
build_user_client none bot = (raises identity_not_configured, bot)
build_user_client (some c) bot = (done user_identity_client, record bot { user_client = true })

unfoldable pub get_user_client_from : (built closed : Bool) → Bot → Outcome Client × Bot
unfolding resolve_user_credentials build_user_client
get_user_client_from true closed bot = (done user_identity_client, bot)
get_user_client_from false true bot = (raises bot_closed, bot)
get_user_client_from false false bot = resolve_user_credentials bot >>= build_user_client

-- `_get_user_client_async`
unfoldable pub get_user_client : Bot → Outcome Client × Bot
unfolding get_user_client_from
get_user_client bot = get_user_client_from bot.user_client bot.closed bot

-- `_auth_mode_async`
unfoldable pub primary_mode : Option AuthMode → Bot → Outcome (Option AuthMode) × Bot
unfolding resolve_credentials
primary_mode (some mode) bot = (done (some mode), bot)
primary_mode none bot = resolve_credentials bot >>= λ c after. (done (classified c), after)
