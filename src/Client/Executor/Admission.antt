-- ===== src/Client/Executor/Admission.antt =====
-- Which calls reach Google.
use mathlib.Core.Path.{subst}
use chattice.Base.{
  String, ◌≡◌, refl, sym, ap, ◌∙◌, Bool, true, false, Option, none, some, List, ◌∷◌, if◌then◌else◌,
  not, ◌&&◌, ◌||◌, any, Bool-cases, inl, inr,
}
use chattice.Base.Eq.{string_eq}
use chattice.Dict.{get}
use chattice.Capabilities.Operations.{
  AuthMode, app, user, no_auth, Operation, OperationSpec, value, normal,
}
use chattice.Capabilities.Registry.{
  Registry, Checked, ok, failed, same_mode, spec, found, require, unknown_operation,
  capability_not_supported,
}
use chattice.Capabilities.Registry.Preflight.{usable, require-usable}
use chattice.Client.Bot.{
  Credentials, Bot, Client, primary_client, user_identity_client, Outcome, done, raises, CallError,
  registry_error, ◌>>=◌, classify, credential_scopes, resolve_credentials, resolve_user_credentials,
  resolve_for, lift, check_mode, check_credentials, preflight_operation, build_client,
  build_user_client, get_client_from, get_client, get_user_client_from, get_user_client,
  identity_not_configured, identity_mismatch, preview_disabled,
}
use chattice.Client.Bot.Resolving.{Keeps, Settles, resolve_for-Settles}
use chattice.Client.Executor.{
  Response, settle, checked_spec, resolve_client, perform, prepare, admit, execute,
}

-- Whether the bot can give a client for the identity.
abbrev pub ready : AuthMode → Bot → Bool
ready user bot = bot.user_client || not bot.closed
ready _ bot = bot.client || not bot.closed

-- Whether credentials let an identity call the operation: credentials of a known mode are of the identity,
-- and a path of the operation has that mode and one of the known scopes.
abbrev pub permits_mode : OperationSpec → AuthMode → Credentials → Option AuthMode → Bool
permits_mode s identity c none = true
permits_mode s identity c (some mode) =
    same_mode mode identity
    && any (usable (some mode) (credential_scopes mode c) normal) s.auth_paths

abbrev pub permits : OperationSpec → AuthMode → Outcome (Option Credentials) → Bool
permits s identity (raises e) = false
permits s identity (done none) = false
permits s identity (done (some c)) = permits_mode s identity c (classify c)

abbrev pub admits_spec : AuthMode → Bot → Option OperationSpec → Bool
admits_spec identity bot none = false
admits_spec identity bot (some s) =
    (not s.preview || bot.preview_enabled)
    && (permits s identity (resolve_for identity bot).0 && ready identity bot)

abbrev pub admitted : Registry → Operation → AuthMode → Bot → Bool
admitted registry operation identity bot = admits_spec identity bot (get registry (value operation))

-- The client of an identity.
abbrev pub client_of : AuthMode → Client
client_of user = user_identity_client
client_of _ = primary_client

-- Gives the client exactly with the verdict, and changes no call.
abbrev Decides : Client → Bool → Bot → Outcome Client × Bot → Type 0
Decides client true bot r = (after : Bot) × (r ≡ (done client, after)) × (after.calls ≡ bot.calls)
Decides client false bot r =
    (e : CallError) × (after : Bot) × (r ≡ (raises e, after)) × (after.calls ≡ bot.calls)

get_client_from-Decides :
    (built closed : Bool) (bot : Bot) (c : Credentials)
    → resolve_credentials bot ≡ (done (some c), bot)
    → Decides primary_client (built || not closed) bot (get_client_from built closed bot)
unfolding get_client_from build_client
get_client_from-Decides true closed bot c h = (bot, refl, refl)
get_client_from-Decides false true bot c h = (_, bot, refl, refl)
get_client_from-Decides false false bot c h =
    (record bot { client = true }, ap (λ r. r >>= build_client) h, refl)

get_user_client_from-Decides :
    (built closed : Bool) (bot : Bot) (c : Credentials)
    → resolve_user_credentials bot ≡ (done (some c), bot)
    → Decides user_identity_client (built || not closed) bot (get_user_client_from built closed bot)
unfolding get_user_client_from build_user_client
get_user_client_from-Decides true closed bot c h = (bot, refl, refl)
get_user_client_from-Decides false true bot c h = (_, bot, refl, refl)
get_user_client_from-Decides false false bot c h =
    (record bot { user_client = true }, ap (λ r. r >>= build_user_client) h, refl)

resolve_client-Decides :
    (identity : AuthMode) (bot : Bot) (c : Credentials)
    → resolve_for identity bot ≡ (done (some c), bot)
    → Decides (client_of identity) (ready identity bot) bot (resolve_client identity bot)
unfolding resolve_client resolve_for get_client get_user_client
resolve_client-Decides user bot c h =
    get_user_client_from-Decides bot.user_client bot.closed bot c h
resolve_client-Decides app bot c h = get_client_from-Decides bot.client bot.closed bot c h
resolve_client-Decides no_auth bot c h = get_client_from-Decides bot.client bot.closed bot c h

module _ (registry : Registry) (operation : Operation) (s : OperationSpec)
    (listed : get registry (value operation) ≡ some s) where
  -- Succeeds exactly with the verdict.
  abbrev Answers : Bool → Outcome (Unit {0}) → Type 0
  Answers true o = o ≡ done tt
  Answers false o = (e : CallError) × (o ≡ raises e)

  if-Answers :
      (b : Bool)
      → Answers b (lift (if b then ok tt else failed (capability_not_supported operation)))
  if-Answers true = refl
  if-Answers false = (_, refl)

  require-Answers :
      (mode : AuthMode) (scopes : Option (List String))
      → Answers
          (any (usable (some mode) scopes normal) s.auth_paths)
          (lift (require registry operation (some mode) scopes normal))
  require-Answers mode scopes =
      let known : require registry operation (some mode) scopes normal ≡ (
          if any (usable (some mode) scopes normal) s.auth_paths
          then ok tt
          else failed (capability_not_supported operation)) =
        require-usable registry operation (some mode) scopes normal
        ∙ ap
            (λ o. elim o as (λ _. Checked Unit) [
              | none ↦ failed (unknown_operation operation)
              | some x ↦
                  if any (usable (some mode) scopes normal) x.auth_paths
                  then ok tt
                  else failed (capability_not_supported operation)
            ])
            listed in
      subst (λ r. Answers (any (usable (some mode) scopes normal) s.auth_paths) (lift r))
        (sym known) (if-Answers (any (usable (some mode) scopes normal) s.auth_paths))

  check_mode-Answers :
      (identity : AuthMode) (c : Credentials) (mode : Option AuthMode)
      → Answers (permits_mode s identity c mode) (check_mode registry operation identity c mode)
  unfolding check_mode
  check_mode-Answers identity c none = refl
  check_mode-Answers identity c (some mode) = elim (Bool-cases (same_mode mode identity)) [
    | inl e ↦ rw e (require-Answers mode (credential_scopes mode c))
    | inr e ↦ rw e (identity_mismatch mode, refl)
  ]

  check_credentials-Answers :
      (identity : AuthMode) (c : Option Credentials)
      → Answers (permits s identity (done c)) (check_credentials registry operation identity c)
  unfolding check_credentials
  check_credentials-Answers identity none = (identity_not_configured, refl)
  check_credentials-Answers identity (some c) = check_mode-Answers identity c (classify c)

module _ {A : Type 0} (registry : Registry) (operation : Operation) (identity : AuthMode)
    (call : Client → Response A) where
  -- A call that is made is the only one, with the client of the identity that was asked for, and its outcome is that of
  -- the remote call; a call that is refused raises an error and reaches nothing.
  abbrev pub Judged : Bool → Bot → Outcome A × Bot → Type 0
  Judged true bot out =
      (out.0 ≡ settle (call (client_of identity)))
      × (out.1.calls ≡ (client_of identity, operation) ∷ bot.calls)
  Judged false bot out = ((e : CallError) × (out.0 ≡ raises e)) × (out.1.calls ≡ bot.calls)

  perform-Judged :
      (b : Bool) (bot after : Bot) (r : Outcome Client × Bot)
      → Decides (client_of identity) b after r
      → after.calls ≡ bot.calls
      → Judged b bot (r >>= λ client built. perform operation call client built)
  perform-Judged true bot after r (built, e, same) k =
      subst (λ x. Judged true bot (x >>= λ client y. perform operation call client y)) (sym e)
        (refl, ap (◌∷◌ (client_of identity, operation)) (same ∙ k))
  perform-Judged false bot after r (error, built, e, same) k =
      subst (λ x. Judged false bot (x >>= λ client y. perform operation call client y)) (sym e)
        ((error, refl), same ∙ k)

  module _ (s : OperationSpec) (listed : get registry (value operation) ≡ some s) where
    checked-Judged :
        (p b : Bool) (bot after : Bot) (o : Outcome (Unit {0}))
        → Answers registry operation s listed p o
        → Decides (client_of identity) b after (resolve_client identity after)
        → after.calls ≡ bot.calls
        → Judged (p && b) bot (
            ((o, after) >>= λ _ checked. resolve_client identity checked) >>= λ client built.
            perform operation call client built)
    checked-Judged true b bot after o e d k =
        subst
          (λ x. Judged b bot (
            ((x, after) >>= λ _ checked. resolve_client identity checked) >>= λ client built.
            perform operation call client built))
          (sym e) (perform-Judged b bot after (resolve_client identity after) d k)
    checked-Judged false b bot after o (error, e) d k =
        subst
          (λ x. Judged false bot (
            ((x, after) >>= λ _ checked. resolve_client identity checked) >>= λ client built.
            perform operation call client built))
          (sym e) ((error, refl), k)

    ready_lem : (i : AuthMode) (bot after : Bot) → Keeps bot after → ready i after ≡ ready i bot
    ready_lem user bot after k = rw (k.user_client, k.closed)
    ready_lem app bot after k = rw (k.client, k.closed)
    ready_lem no_auth bot after k = rw (k.client, k.closed)

    credentials-Judged :
        (bot : Bot) (r : Outcome (Option Credentials) × Bot)
        → Settles (resolve_for identity) bot r
        → Judged (permits s identity r.0 && ready identity bot) bot (
            ((r >>= λ c after. (check_credentials registry operation identity c, after))
              >>= λ _ checked. resolve_client identity checked)
            >>= λ client built. perform operation call client built)
    unfolding check_credentials
    credentials-Judged bot (raises e, after) k = ((e, refl), k.calls)
    credentials-Judged bot (done none, after) (k, again) =
        ((identity_not_configured, refl), k.calls)
    credentials-Judged bot (done (some c), after) (k, again) =
        checked-Judged (permits s identity (done (some c))) (ready identity bot) bot after
          (check_credentials registry operation identity (some c))
          (check_credentials-Answers registry operation s listed identity (some c))
          (subst (λ b. Decides (client_of identity) b after (resolve_client identity after))
            (ready_lem identity bot after k) (resolve_client-Decides identity after c again))
          k.calls

    admit-Judged :
        (hidden : Bool) (bot : Bot)
        → Judged
            (not hidden && (permits s identity (resolve_for identity bot).0 && ready identity bot))
            bot
            (admit registry operation identity call hidden bot)
    unfolding admit prepare preflight_operation
    admit-Judged true bot = ((preview_disabled, refl), refl)
    admit-Judged false bot =
        credentials-Judged bot (resolve_for identity bot) (resolve_for-Settles identity bot)

  shown : (preview enabled : Bool) → not (preview && not enabled) ≡ (not preview || enabled)
  shown true true = refl
  shown true false = refl
  shown false enabled = refl

  spec-Judged :
      (o : Option OperationSpec) (bot : Bot)
      → get registry (value operation) ≡ o
      → Judged (admits_spec identity bot o) bot (
          checked_spec (found operation o) bot >>= λ s checked.
          admit registry operation identity call (s.preview && not checked.preview_enabled) checked)
  unfolding found
  spec-Judged none bot e = ((registry_error (unknown_operation operation), refl), refl)
  spec-Judged (some s) bot e =
      subst
        (λ b.
          Judged (b && (permits s identity (resolve_for identity bot).0 && ready identity bot)) bot
            (admit registry operation identity call (s.preview && not bot.preview_enabled) bot))
        (shown s.preview bot.preview_enabled)
        (admit-Judged s e (s.preview && not bot.preview_enabled) bot)

  -- A call is made exactly when its operation is registered, is no preview operation or previews are
  -- enabled, the credentials of the asked identity permit it, and a client of that identity is built or the
  -- bot is open; then it is one remote call with the client of that identity, whose errors are wrapped; and
  -- else an error is raised and no remote call is made.
  pub execute-Judged :
      (bot : Bot)
      → Judged
          (admitted registry operation identity bot)
          bot
          (execute registry operation identity call bot)
  unfolding execute spec
  execute-Judged bot = spec-Judged (get registry (value operation)) bot refl
