-- ===== src/Client/Spaces/Setup.antt =====
-- When a direct message is set up.
use mathlib.Core.Path.{subst}
use chattice.Base.{
  refl, ap, arith, ◌⊎◌, String, ◌≡◌, Bool, true, false, Option, some, List, ◌∷◌, Bool-cases, inl,
  inr,
}
use chattice.Capabilities.Operations.{AuthMode, Operation, spaces_find_direct_message, spaces_setup}
use chattice.Capabilities.Registry.{Registry}
use chattice.Client.Names.{canonical_user}
use chattice.Client.Errors.{not_found}
use chattice.Client.Bot.{Client, chat_error, Bot, Outcome, done, raises}
use chattice.Client.Executor.{Response, settle, execute}
use chattice.Client.Executor.Admission.{client_of, Judged, admitted, execute-Judged}
use chattice.Client.Spaces.{
  is_not_found, find_direct_message, setup_missing, get_or_setup_direct_message,
}

module _ {S : Type 0} (registry : Registry) (identity : AuthMode)
    (find setup : Client → String → Response S) where
  abbrev missing : Outcome S → Bool
  missing (done space) = false
  missing (raises e) = is_not_found e

  -- The answer that there is no such space, which `wrap_api_error` makes a `ChatNotFoundError`.
  abbrev pub IsMissing : Outcome S → Type 0
  IsMissing o = o ≡ raises (chat_error not_found)

  missing-IsMissing : (o : Outcome S) → missing o ≡ true → IsMissing o
  missing-IsMissing (done space) h = absurd (ground (arith, h))
  missing-IsMissing (raises (chat_error not_found)) h = refl
  missing-IsMissing (raises e) h = absurd (ground (arith, h))

  present-IsMissing : (o : Outcome S) → missing o ≡ false → ¬ IsMissing o
  present-IsMissing o h e = absurd (ground (arith, h, ap missing e))

  -- A call to set up the space, judged as every call.
  abbrev pub SetsUp : (name : String) (calls : List (Client × Operation)) → Outcome S × Bot → Type 0
  SetsUp name calls out =
      (searched : Bot) × (searched.calls ≡ (client_of identity, spaces_find_direct_message) ∷ calls)
      × Judged registry spaces_setup identity (λ i. setup i name)
          (admitted registry spaces_setup identity searched) searched out

  abbrev pub Answers :
      (name : String) (calls : List (Client × Operation)) → Outcome S × Bot → Type 0
  Answers name calls out =
      (out.0 ≡ settle (find (client_of identity) name))
      × (out.1.calls ≡ (client_of identity, spaces_find_direct_message) ∷ calls)

  -- The two ways on from the answer to the search.
  abbrev pub Follows :
      (name : String) (calls : List (Client × Operation)) → Outcome S × Bot → Type 0
  Follows name calls out =
      (IsMissing (settle (find (client_of identity) name)) × SetsUp name calls out)
      ⊎ ((¬ IsMissing (settle (find (client_of identity) name))) × Answers name calls out)

  setup_missing-Follows :
      (name : String) (calls : List (Client × Operation)) (r : Outcome S × Bot)
      → r.0 ≡ settle (find (client_of identity) name)
      → r.1.calls ≡ (client_of identity, spaces_find_direct_message) ∷ calls
      → Follows name calls (setup_missing registry identity setup name r)
  unfolding setup_missing
  setup_missing-Follows name calls (done space, bot) e k =
      inr (subst (λ o. ¬ IsMissing o) e (present-IsMissing (done space) refl), (e, k))
  setup_missing-Follows name calls (raises x, bot) e k = elim (Bool-cases (is_not_found x)) [
    | inr other ↦
        rw other (inr (subst (λ o. ¬ IsMissing o) e (present-IsMissing (raises x) other), (e, k)))
    | inl gone ↦ rw gone (
        inl (
          subst IsMissing e (missing-IsMissing (raises x) gone),
          (bot, k, execute-Judged registry spaces_setup identity (λ i. setup i name) bot),
        ))
  ]

  -- With the user's namespace, a user that has a name, and a search that is admitted, the search is sent, once;
  -- a space is set up exactly where the answer was that there is none, by one more call at most, which is
  -- admitted or refused as every call; and every other answer to the search, errors too, is the answer.
  pub get_or_setup_direct_message-Follows :
      (user : Option String) (name : String) (bot : Bot)
      → canonical_user user ≡ some name
      → admitted registry spaces_find_direct_message identity bot ≡ true
      → Follows name bot.calls
          (get_or_setup_direct_message registry identity find setup true user bot)
  unfolding get_or_setup_direct_message find_direct_message
  get_or_setup_direct_message-Follows user name bot named_ open_ =
      let judged : Judged registry spaces_find_direct_message identity (λ i. find i name) true bot
          (execute registry spaces_find_direct_message identity (λ i. find i name) bot) =
        subst
          (λ b.
            Judged registry spaces_find_direct_message identity (λ i. find i name) b bot
              (execute registry spaces_find_direct_message identity (λ i. find i name) bot))
          open_
          (execute-Judged registry spaces_find_direct_message identity (λ i. find i name) bot) in
      rw named_ (setup_missing-Follows name bot.calls _ judged.0 judged.1)
