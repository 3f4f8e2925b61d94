-- ===== src/Capabilities/Response/Grants.antt =====
-- When a response channel has a capability.
use chattice.Base.{
  String, ◌≡◌, refl, sym, ap, ◌∙◌, Bool, true, false, Option, none, some, List, [], ◌∷◌, ◌++◌,
  str_eq, any, if◌then◌else◌, ◌||◌, ◌&&◌, is_some, arith, Bool-cases, inl, inr,
}
use chattice.Base.Eq.{string_eq}
use chattice.Events.{
  Event, event, error, Common, message, action, command, added_to_space, removed_from_space,
  app_home, widget_updated, form_submit, unknown, MessageFields, ActionFields, DialogEventType,
  request_dialog, submit_dialog, cancel_dialog, other_dialog,
}
use chattice.Capabilities.Response.{
  ResponseCapability, sync_response, dialogs, app_home_response, card_update_bot, card_update_user,
  update_widget, same, can_open_dialog, sender_capability, event_capabilities, http_capabilities,
  contains, resolve,
}

abbrev pub sent_by : String → Option Event → Bool
sent_by sender (some (event c (action f))) = elim f.sender_type [
  | none ↦ false
  | some t ↦ str_eq t sender
]
sent_by sender _ = false

abbrev pub has_matched_url : Option Event → Bool
has_matched_url (some (event c (message f))) = is_some f.matched_url
has_matched_url _ = false

abbrev pub opens_home : Option Event → Bool
opens_home (some (event c app_home)) = true
opens_home (some (event c (form_submit f))) = true
opens_home _ = false

abbrev pub updates_widget : Option Event → Bool
updates_widget (some (event c (widget_updated f))) = true
updates_widget _ = false

-- A command opens a dialog, and a click does when Google sends it to open one.
abbrev pub opens_dialog : Option Event → Bool
opens_dialog (some (event c (command f))) = true
opens_dialog (some (event c (action f))) = elim c.dialog [
  | none ↦ false
  | some request_dialog ↦ true
  | some submit_dialog ↦ false
  | some cancel_dialog ↦ false
  | some (other_dialog t) ↦ false
]
opens_dialog _ = false

-- The rule of each capability, read off the event alone.
abbrev pub granted : ResponseCapability → Option Event → Bool
granted sync_response e = true
granted dialogs e = opens_dialog e
granted app_home_response e = opens_home e
granted card_update_bot e = sent_by "BOT" e
granted card_update_user e = sent_by "HUMAN" e || has_matched_url e
granted update_widget e = updates_widget e

click_opens :
    (k : Common) (f : ActionFields) (d : Option DialogEventType)
    → k.dialog ≡ d
    → can_open_dialog (some (event k (action f))) ≡ opens_dialog (some (event k (action f)))
click_opens k f none h = rw h refl
click_opens k f (some request_dialog) h = rw h refl
click_opens k f (some submit_dialog) h = rw h refl
click_opens k f (some cancel_dialog) h = rw h refl
click_opens k f (some (other_dialog t)) h = rw h refl

can_open_dialog-opens : (e : Option Event) → can_open_dialog e ≡ opens_dialog e
can_open_dialog-opens (some (event k (action f))) = click_opens k f k.dialog refl
can_open_dialog-opens (some (event k (command f))) = refl
can_open_dialog-opens (some (event k (message f))) = refl
can_open_dialog-opens (some (event k added_to_space)) = refl
can_open_dialog-opens (some (event k removed_from_space)) = refl
can_open_dialog-opens (some (event k app_home)) = refl
can_open_dialog-opens (some (event k (widget_updated f))) = refl
can_open_dialog-opens (some (event k (form_submit f))) = refl
can_open_dialog-opens (some (event k (unknown t))) = refl
can_open_dialog-opens (some (error k e f)) = refl
can_open_dialog-opens none = refl

any_append :
    {A : Type 0} (p : A → Bool) (xs ys : List A) → any p (xs ++ ys) ≡ (any p xs || any p ys)
any_append p [] ys = refl
any_append p (x ∷ xs) ys = ground (arith, any_append p xs ys)

if_dialogs :
    (c : ResponseCapability) (b : Bool)
    → any (same c) (if b then dialogs ∷ [] else []) ≡ (same c dialogs && b)
if_dialogs c true = ground arith
if_dialogs c false = ground arith

not_human : (t : String) → str_eq t "BOT" ≡ true → str_eq t "HUMAN" ≡ false
not_human t h = ap (λ x. str_eq x "HUMAN") ((string_eq.beq_iff t "BOT").0 h)

sender-bot : (t : String) → any (same card_update_bot) (sender_capability (some t)) ≡ str_eq t "BOT"
sender-bot t = ground arith

sender-user :
    (t : String) → any (same card_update_user) (sender_capability (some t)) ≡ str_eq t "HUMAN"
sender-user t = elim (Bool-cases (str_eq t "BOT")) [
  | inl h ↦ rw (h, not_human t h) refl
  | inr h ↦ ground (arith, h)
]

sender-other :
    (c : ResponseCapability) (t : Option String)
    → same c card_update_bot ≡ false
    → same c card_update_user ≡ false
    → any (same c) (sender_capability t) ≡ false
sender-other c none h k = refl
sender-other c (some t) h k = ground (arith, h, k)

-- What the event grants beside the response channel and the dialogs.
abbrev event_part : ResponseCapability → Option Event → Bool
event_part sync_response e = false
event_part dialogs e = false
event_part c e = granted c e

each :
    (P : ResponseCapability → Type 0)
    → P sync_response
    → P dialogs
    → P app_home_response
    → P card_update_bot
    → P card_update_user
    → P update_widget
    → (c : ResponseCapability) → P c
each P a b c d e f sync_response = a
each P a b c d e f dialogs = b
each P a b c d e f app_home_response = c
each P a b c d e f card_update_bot = d
each P a b c d e f card_update_user = e
each P a b c d e f update_widget = f

abbrev Grants : Option Event → ResponseCapability → Type 0
Grants e c = any (same c) (event_capabilities e) ≡ event_part c e

or_false : (b : Bool) → b ≡ (b || false)
or_false true = refl
or_false false = refl

action-Grants :
    (k : Common) (f : ActionFields) (t : Option String)
    → f.sender_type ≡ t
    → (c : ResponseCapability) → Grants (some (event k (action f))) c
action-Grants k f none h =
    each (Grants (some (event k (action f)))) (rw (h) refl) (rw (h) refl) (rw (h) refl)
      (rw (h) refl) (rw (h) refl) (rw (h) refl)
action-Grants k f (some t) h =
    each (Grants (some (event k (action f))))
      (rw (h) (sender-other sync_response (some t) refl refl))
      (rw (h) (sender-other dialogs (some t) refl refl))
      (rw (h) (sender-other app_home_response (some t) refl refl)) (rw (h) (sender-bot t))
      (rw (h) (sender-user t ∙ or_false (str_eq t "HUMAN")))
      (rw (h) (sender-other update_widget (some t) refl refl))

message-Grants :
    (k : Common) (f : MessageFields) (u : Option String)
    → f.matched_url ≡ u
    → (c : ResponseCapability) → Grants (some (event k (message f))) c
message-Grants k f none h =
    each (Grants (some (event k (message f)))) (rw (h) refl) (rw (h) refl) (rw (h) refl)
      (rw (h) refl) (rw (h) refl) (rw (h) refl)
message-Grants k f (some u) h =
    each (Grants (some (event k (message f)))) (rw (h) refl) (rw (h) refl) (rw (h) refl)
      (rw (h) refl) (rw (h) refl) (rw (h) refl)

event-Grants : (e : Option Event) (c : ResponseCapability) → Grants e c
event-Grants none = each (Grants none) refl refl refl refl refl refl
event-Grants (some (error k e f)) = each (Grants (some (error k e f))) refl refl refl refl refl refl
event-Grants (some (event k (message f))) = message-Grants k f f.matched_url refl
event-Grants (some (event k (action f))) = action-Grants k f f.sender_type refl
event-Grants (some (event k (command f))) =
    each (Grants (some (event k (command f)))) refl refl refl refl refl refl
event-Grants (some (event k added_to_space)) =
    each (Grants (some (event k added_to_space))) refl refl refl refl refl refl
event-Grants (some (event k removed_from_space)) =
    each (Grants (some (event k removed_from_space))) refl refl refl refl refl refl
event-Grants (some (event k app_home)) =
    each (Grants (some (event k app_home))) refl refl refl refl refl refl
event-Grants (some (event k (widget_updated f))) =
    each (Grants (some (event k (widget_updated f)))) refl refl refl refl refl refl
event-Grants (some (event k (form_submit f))) =
    each (Grants (some (event k (form_submit f)))) refl refl refl refl refl refl
event-Grants (some (event k (unknown t))) =
    each (Grants (some (event k (unknown t)))) refl refl refl refl refl refl

-- The HTTP channel of an event has exactly the capabilities that the rules grant: dialogs where the
-- event can open one, the update of the bot's or of the user's card after the sender of the clicked
-- message or for a matched URL, and App Home and autocomplete answers for their own events. The
-- Pub/Sub channel has none.
pub resolve-contains :
    (e : Option Event) (c : ResponseCapability)
    → ((capabilities : List ResponseCapability) × (resolve "http" e ≡ some capabilities)
        × (contains capabilities c ≡ granted c e))
      × (resolve "pubsub" e ≡ some [])
unfolding resolve
resolve-contains e c = ((http_capabilities e, refl, parts e c), refl)
  where
    parts :
        (e : Option Event) (c : ResponseCapability) → contains (http_capabilities e) c ≡ granted c e
    parts e c =
        ap (λ b. same c sync_response || b)
          (any_append (same c) (if can_open_dialog e then dialogs ∷ [] else [])
              (event_capabilities e)
            ∙ ap (λ b. b || any (same c) (event_capabilities e)) (if_dialogs c (can_open_dialog e))
            ∙ ap (λ b. (same c dialogs && can_open_dialog e) || b) (event-Grants e c))
        ∙ last c
      where
        last :
            (c : ResponseCapability)
            → (same c sync_response || ((same c dialogs && can_open_dialog e) || event_part c e))
              ≡ granted c e
        last =
            each
              (λ c.
                (same c sync_response || ((same c dialogs && can_open_dialog e) || event_part c e))
                ≡ granted c e)
              refl (sym (or_false (can_open_dialog e)) ∙ can_open_dialog-opens e) refl refl refl
              refl
