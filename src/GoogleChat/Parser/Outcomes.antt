-- ===== src/GoogleChat/Parser/Outcomes.antt =====
-- Which event an interaction becomes, and what it is sure to hold.
use mathlib.Core.Path.{subst}
use chattice.Base.{
  ◌≡◌, ◌≢◌, refl, ap, ◌∙◌, String, Bool, true, false, Option, none, some, is_some, and_then, not,
  ◌&&◌, arith, any, List, [], ◌∷◌, if◌then◌else◌, Bool-cases, inl, inr, ◌⊎◌, sym,
}
use chattice.Base.Eq.{string_eq, ◌==◌}
use chattice.Base.Int.{ℤ}
use chattice.Base.Text.{Unicode, is_empty, int_of_text}
use chattice.Dict.{Dict}
use chattice.Events.{
  Common, DateTime, slash_command, Body, Event, event, message, action, command, added_to_space,
  removed_from_space, app_home, widget_updated, form_submit, unknown,
}
use chattice.GoogleChat.Values.{
  Value, ok, ◌>>◌, >>=-eq-ok, Allows, bind-Allows, bind-Allows_eq, guard-Allows,
}
use chattice.GoogleChat.Envelope.{Payload, NormalizedEnvelope, normalize_envelope}
use chattice.GoogleChat.Models.{MessageModel, SlashCommandModel, InteractionModel}
use chattice.GoogleChat.Parser.{
  InteractionType, message_type, added_type, removed_type, card_clicked_type, widget_updated_type,
  app_command_type, app_home_type, submit_form_type, unknown_type, unspecified_type,
  interaction_type, slash_body, slash_command_event, text_body, message_body, require_actor_space,
  app_command_kind, app_command_body, card_clicked_body, body_of, is_unspecified, parse_model,
  validated, parse_interaction,
}
use chattice.GoogleChat.Parser.References.{base_of}
use chattice.GoogleChat.Parser.Actions.{common_action}

-- The id of the slash command of a message.
abbrev pub slash_id : Unicode → Option MessageModel → Option ℤ
slash_id u sent =
    and_then (and_then sent (λ m. m.slash_command)) (λ s. and_then s.command_id (int_of_text u))

abbrev pub HasActorSpace : Common → Type 0
HasActorSpace base = (is_some base.actor && is_some base.space) ≡ true

-- The event that Google documents for an interaction type.
abbrev pub Documented : Unicode → InteractionModel → Common → InteractionType → Body → Type 0
Documented u model base message_type (message f) =
    (and_then model.message (λ m. m.slash_command) ≡ none)
    × (and_then model.message (λ m. m.text) ≡ some f.text)
Documented u model base message_type (command f) =
    (slash_id u model.message ≡ some f.command_id) × (f.kind ≡ some slash_command)
Documented u model base added_type added_to_space = HasActorSpace base
Documented u model base removed_type removed_from_space = HasActorSpace base
Documented u model base app_home_type app_home = HasActorSpace base
Documented u model base card_clicked_type (action f) = is_empty f.name ≡ false
Documented u model base widget_updated_type (widget_updated f) = is_empty f.function_name ≡ false
Documented u model base app_command_type (command f) =
    (and_then model.app_command_metadata (λ d. d.app_command_id) ≡ some f.command_id)
    × (and_then model.app_command_metadata (λ d. d.app_command_type) ≡ f.command_type)
    × (f.kind ≢ some slash_command)
Documented u model base submit_form_type (form_submit f) = HasActorSpace base
Documented u model base unknown_type (unknown t) = t ≡ model.type
Documented u model base _ _ = ⊥

-- The types that name an event, and those that name none.
abbrev pub known_types : List String
known_types =
    "MESSAGE" ∷ "ADDED_TO_SPACE" ∷ "REMOVED_FROM_SPACE" ∷ "CARD_CLICKED" ∷ "WIDGET_UPDATED"
    ∷ "APP_COMMAND" ∷ "APP_HOME" ∷ "SUBMIT_FORM" ∷ "UNSPECIFIED" ∷ "TYPE_UNSPECIFIED" ∷ []

-- The text of a type.
abbrev pub Names : String → InteractionType → Type 0
Names t message_type = t ≡ "MESSAGE"
Names t added_type = t ≡ "ADDED_TO_SPACE"
Names t removed_type = t ≡ "REMOVED_FROM_SPACE"
Names t card_clicked_type = t ≡ "CARD_CLICKED"
Names t widget_updated_type = t ≡ "WIDGET_UPDATED"
Names t app_command_type = t ≡ "APP_COMMAND"
Names t app_home_type = t ≡ "APP_HOME"
Names t submit_form_type = t ≡ "SUBMIT_FORM"
Names t unknown_type = any (λ known. t == known) known_types ≡ false
Names t unspecified_type = (t ≡ "UNSPECIFIED") ⊎ (t ≡ "TYPE_UNSPECIFIED")

type_named :
    (t name : String) (named others : InteractionType)
    → Names name named
    → (t == name ≡ false → Names t others)
    → Names t (if t == name then named else others)
type_named t name named others here there = elim (Bool-cases (t == name)) [
  | inl e ↦ rw e (subst (λ x. Names x named) (sym ((string_eq.beq_iff t name).0 e)) here)
  | inr e ↦ rw e (there e)
]

interaction_type-Names : (t : String) → Names t (interaction_type t)
unfolding interaction_type
interaction_type-Names t = elim (Bool-cases (t == "UNSPECIFIED")) [
  | inl e ↦ rw e (inl ((string_eq.beq_iff t "UNSPECIFIED").0 e))
  | inr n ↦ elim (Bool-cases (t == "TYPE_UNSPECIFIED")) [
    | inl e ↦ rw (n, e) (inr ((string_eq.beq_iff t "TYPE_UNSPECIFIED").0 e))
    | inr o ↦
        rw (n, o)
          (type_named t "MESSAGE" message_type _ refl (λ a.
            type_named t "ADDED_TO_SPACE" added_type _ refl (λ b.
              type_named t "REMOVED_FROM_SPACE" removed_type _ refl (λ c.
                type_named t "APP_HOME" app_home_type _ refl (λ d.
                  type_named t "CARD_CLICKED" card_clicked_type _ refl (λ f.
                    type_named t "WIDGET_UPDATED" widget_updated_type _ refl (λ g.
                      type_named t "APP_COMMAND" app_command_type _ refl (λ h.
                        type_named t "SUBMIT_FORM" submit_form_type _ refl
                          (λ k. rw (a, b, c, d, f, g, h, k, n, o) refl)))))))))
  ]
]

module _ (u : Unicode) (model : InteractionModel) (base : Common) where
  module _ (m : MessageModel) (sent : model.message ≡ some m) where
    slash_body-Documented :
        (id : Option ℤ)
        → slash_id u model.message ≡ id
        → Allows (Documented u model base message_type) (slash_body m id)
    unfolding slash_body
    slash_body-Documented none e = tt
    slash_body-Documented (some id) e = (e, refl)

    text_body-Documented :
        (t : Option String)
        → m.slash_command ≡ none
        → m.text ≡ t
        → Allows (Documented u model base message_type) (text_body m t)
    unfolding text_body
    text_body-Documented none plain e = tt
    text_body-Documented (some t) plain e = (
      ap (λ o. and_then o (λ x. x.slash_command)) sent ∙ plain,
      ap (λ o. and_then o (λ x. x.text)) sent ∙ e,
    )

    some_body-Documented :
        (s : Option SlashCommandModel)
        → m.slash_command ≡ s
        → Allows
            (Documented u model base message_type)
            (elim s [ some c ↦ slash_command_event u m c | none ↦ text_body m m.text ])
    unfolding slash_command_event
    some_body-Documented none e = text_body-Documented m.text e refl
    some_body-Documented (some c) e =
        slash_body-Documented (and_then c.command_id (int_of_text u)) (
          ap (slash_id u) sent
          ∙ ap (λ o. and_then o (λ x. and_then x.command_id (int_of_text u))) e)

  message_body-Documented :
      (m : Option MessageModel)
      → model.message ≡ m
      → Allows (Documented u model base message_type) (message_body u m)
  unfolding message_body
  message_body-Documented none e = tt
  message_body-Documented (some m) e = some_body-Documented m e m.slash_command refl

  actor_space-Documented :
      (t : InteractionType) (b : Body)
      → (HasActorSpace base → Documented u model base t b)
      → Allows (Documented u model base t) (require_actor_space base >> ok b)
  unfolding require_actor_space
  actor_space-Documented t b h =
      guard-Allows (Documented u model base t) (is_some base.actor && is_some base.space) _ (ok b) h

  kind_not_slash : (t : String) → app_command_kind t ≢ some slash_command
  unfolding app_command_kind
  kind_not_slash t h = ground (arith, h)

  app_command_body-Documented :
      (id : Option ℤ) (t : Option String)
      → and_then model.app_command_metadata (λ d. d.app_command_id) ≡ id
      → and_then model.app_command_metadata (λ d. d.app_command_type) ≡ t
      → Allows (Documented u model base app_command_type) (app_command_body model id t)
  unfolding app_command_body
  app_command_body-Documented (some id) (some t) e f = (e, f, kind_not_slash t)
  app_command_body-Documented none t e f = tt
  app_command_body-Documented (some id) none e f = tt

  body_of-Documented :
      (raw : Dict String Value) (t : InteractionType)
      → Allows (Documented u model base t) (body_of u raw model base t)
  unfolding body_of card_clicked_body
  body_of-Documented raw unspecified_type = tt
  body_of-Documented raw unknown_type = refl
  body_of-Documented raw message_type = message_body-Documented model.message refl
  body_of-Documented raw added_type = actor_space-Documented added_type added_to_space (λ h. h)
  body_of-Documented raw removed_type =
      actor_space-Documented removed_type removed_from_space (λ h. h)
  body_of-Documented raw app_home_type = actor_space-Documented app_home_type app_home (λ h. h)
  body_of-Documented raw card_clicked_type =
      bind-Allows (Documented u model base card_clicked_type)
        (common_action u model.common model.action) _
        (λ a.
          guard-Allows (Documented u model base card_clicked_type) (not (is_empty a.function_name))
            _ _ (λ h. ground (arith, h)))
  body_of-Documented raw widget_updated_type =
      bind-Allows (Documented u model base widget_updated_type)
        (common_action u model.common model.action) _
        (λ a.
          guard-Allows (Documented u model base widget_updated_type)
            (not (is_empty a.function_name)) _ _ (λ h. ground (arith, h)))
  body_of-Documented raw app_command_type =
      bind-Allows (Documented u model base app_command_type)
        (common_action u model.common model.action) _
        (λ a. app_command_body-Documented _ _ refl refl)
  body_of-Documented raw submit_form_type =
      bind-Allows (Documented u model base submit_form_type)
        (common_action u model.common model.action) _
        (λ a. actor_space-Documented submit_form_type (form_submit _) (λ h. h))

-- What an interaction that validates as `model` may become.
abbrev pub Becomes : Unicode → (String → Option DateTime) → InteractionModel → Event → Type 0
Becomes u fromisoformat model e =
    (base : Common) × (body : Body) × (type : InteractionType) × (base_of fromisoformat model
      ≡ ok base)
    × (e ≡ event base body)
    × Names model.type type
    × Documented u model base type body

validated_lem :
    (o : Option InteractionModel) (model : InteractionModel)
    → validated o ≡ ok model
    → o ≡ some model
validated_lem none model h = ground (arith, h)
validated_lem (some m) model h = ground (arith, h)

parse_model-Becomes :
    (u : Unicode) (fromisoformat : String → Option DateTime) (raw : Dict String Value)
    (model : InteractionModel)
    → Allows (Becomes u fromisoformat model) (parse_model u fromisoformat raw model)
unfolding parse_model
parse_model-Becomes u fromisoformat raw model =
    let t = interaction_type model.type in
    guard-Allows (Becomes u fromisoformat model) (not (is_unspecified t)) _ _ (λ _.
      bind-Allows_eq (Becomes u fromisoformat model) (base_of fromisoformat model) _ (λ base based.
        bind-Allows_eq (Becomes u fromisoformat model) (body_of u raw model base t) _ (λ body made.
          (
            base,
            body,
            t,
            based,
            refl,
            interaction_type-Names model.type,
            subst (Allows (Documented u model base t)) made (body_of-Documented u model base raw t),
          ))))

-- An interaction that parses has an envelope and validates as some model, and becomes the event that
-- Google documents for the type of that model, over the common parts that the model gives: a command for a
-- message with a slash command, with the number that its id is, and else the message's text; an event with
-- actor and space for the types that need them; a function name that is not empty for a click and a widget
-- update; the id and type of an app command, which is never routed as a slash command; the original type
-- for an unknown one. No unspecified interaction parses.
pub parse_interaction-Becomes :
    (same : Value → Value → Bool) (model_validate : Dict String Value → Option InteractionModel)
    (u : Unicode) (fromisoformat : String → Option DateTime) (payload : Payload) (e : Event)
    → parse_interaction same model_validate u fromisoformat payload ≡ ok e
    → (n : NormalizedEnvelope) × (model : InteractionModel) × (normalize_envelope same payload
        ≡ ok n)
      × (model_validate n.event ≡ some model)
      × Becomes u fromisoformat model e
unfolding parse_interaction
parse_interaction-Becomes same model_validate u fromisoformat payload e h =
    let (n, normal, rest) = >>=-eq-ok (normalize_envelope same payload) _ h in
    let (model, valid, done) = >>=-eq-ok (validated (model_validate n.event)) _ rest in
    (
      n,
      model,
      normal,
      validated_lem (model_validate n.event) model valid,
      subst (Allows (Becomes u fromisoformat model)) done
          (parse_model-Becomes u fromisoformat n.raw model),
    )
