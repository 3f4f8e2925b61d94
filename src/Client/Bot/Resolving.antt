-- ===== src/Client/Bot/Resolving.antt =====
-- What resolving credentials does to a bot.
use chattice.Base.{◌≡◌, refl, ap, Bool, true, false, Option, none, some, arith}
use chattice.Capabilities.Operations.{AuthMode, app, user, no_auth}
use chattice.Client.Bot.{
  Credentials, Bot, Outcome, done, raises, Provider, no_provider, provides, ◌>>=◌, store,
  store_user, only_user, resolve_credentials, ask_user_provider, resolve_from, resolve_user_from,
  resolve_user_credentials, resolve_for, answered,
}

-- The parts of a bot that resolving credentials leaves alone.
pub record Keeps (before after : Bot) : Type 0 where
  pub calls : after.calls ≡ before.calls
  pub closed : after.closed ≡ before.closed
  pub client : after.client ≡ before.client
  pub user_client : after.user_client ≡ before.user_client
  pub preview : after.preview_enabled ≡ before.preview_enabled

-- Resolving keeps these parts, and a second time gives the same credentials and changes nothing.
abbrev pub Settles :
    (Bot → Outcome (Option Credentials) × Bot) → Bot → Outcome (Option Credentials) × Bot → Type 0
Settles again before (done c, after) = Keeps before after × (again after ≡ (done c, after))
Settles again before (raises e, after) = Keeps before after

Keeps-self : (bot : Bot) → Keeps bot bot
Keeps-self bot = record {
  calls = refl;
  closed = refl;
  client = refl;
  user_client = refl;
  preview = refl;
}

store-Settles :
    (outcome : Outcome (Option Credentials)) (bot : Bot)
    → Settles resolve_credentials bot (store outcome bot)
unfolding resolve_credentials
store-Settles (done c) bot = (ground arith, refl)
store-Settles (raises e) bot = Keeps-self bot

resolve_from-Settles :
    (task known : Option (Option Credentials)) (closed : Bool) (bot : Bot)
    → bot.credential_task ≡ task
    → Settles resolve_credentials bot (resolve_from task closed known bot)
unfolding resolve_from resolve_credentials
resolve_from-Settles (some c) known closed bot e =
    (Keeps-self bot, ap (λ r. resolve_from r bot.closed bot.resolved_credentials bot) e)
resolve_from-Settles none known true bot e = Keeps-self bot
resolve_from-Settles none (some c) false bot e = store-Settles (done c) bot
resolve_from-Settles none none false bot e =
    store-Settles (answered bot.credentials_provider bot.credentials) bot

Keeps-trans : {a b c : Bot} → Keeps a b → Keeps b c → Keeps a c
Keeps-trans p q = ground (arith, p, q)

store_user-Settles :
    (before bot : Bot) (outcome : Outcome (Option Credentials))
    → Keeps before bot
    → Settles resolve_user_credentials before (store_user outcome bot)
unfolding resolve_user_credentials resolve_user_from
store_user-Settles before bot (done c) k = (ground (arith, k), refl)
store_user-Settles before bot (raises e) k = k

-- Credentials of a bot without a provider for the user.
single-Settles :
    (bot : Bot) (r : Outcome (Option Credentials) × Bot)
    → Settles resolve_credentials bot r
    → Settles resolve_user_credentials bot (r >>= λ c after. store_user (done (only_user c)) after)
single-Settles bot (done c, after) (k, _) = store_user-Settles bot after (done (only_user c)) k
single-Settles bot (raises e, after) k = k

ask_user_provider-Settles :
    (provider : Provider) (bot : Bot)
    → Settles resolve_user_credentials bot (ask_user_provider provider bot)
unfolding ask_user_provider resolve_credentials
ask_user_provider-Settles (provides outcome) bot =
    store_user-Settles bot bot outcome (Keeps-self bot)
ask_user_provider-Settles no_provider bot =
    single-Settles bot (resolve_credentials bot)
      (resolve_from-Settles bot.credential_task bot.resolved_credentials bot.closed bot refl)

resolve_user_from-Settles :
    (resolved : Option (Option Credentials)) (closed : Bool) (bot : Bot)
    → bot.resolved_user ≡ resolved
    → Settles resolve_user_credentials bot (resolve_user_from resolved closed bot)
unfolding resolve_user_from resolve_user_credentials
resolve_user_from-Settles (some c) closed bot e =
    (Keeps-self bot, ap (λ r. resolve_user_from r bot.closed bot) e)
resolve_user_from-Settles none true bot e = Keeps-self bot
resolve_user_from-Settles none false bot e =
    ask_user_provider-Settles bot.user_credentials_provider bot

pub resolve_for-Settles :
    (identity : AuthMode) (bot : Bot)
    → Settles (resolve_for identity) bot (resolve_for identity bot)
unfolding resolve_for resolve_credentials resolve_user_credentials
resolve_for-Settles user bot = resolve_user_from-Settles bot.resolved_user bot.closed bot refl
resolve_for-Settles app bot =
    resolve_from-Settles bot.credential_task bot.resolved_credentials bot.closed bot refl
resolve_for-Settles no_auth bot =
    resolve_from-Settles bot.credential_task bot.resolved_credentials bot.closed bot refl
