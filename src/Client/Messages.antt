-- ===== src/Client/Messages.antt =====
-- `Messages.create` of src/chattice/client/resources/messages.py: the checks, the uploads and the request.
pub mod Requests
pub mod Identities
pub mod Editing
use chattice.Base.{
  String, Bool, true, false, Option, none, some, is_some, and_then, List, [], ◌∷◌, ◌≡◌,
  if◌then◌else◌, not, ◌&&◌, ◌||◌, any, map,
}
use chattice.Base.Eq.{string_eq, ◌==◌}
use chattice.Capabilities.Operations.{
  AuthMode, app, user, no_auth, Operation, messages_create, media_upload,
}
use chattice.Capabilities.Registry.{Registry, same_mode, is_identity}
use chattice.Events.{ThreadRef}
use chattice.Client.Names.{canonical_space, canonical_user}
use chattice.Client.Bot.{
  Client, Bot, Credentials, Outcome, done, raises, CallError, rejected, not_supported,
  identity_not_configured, other_error, ◌>>=◌, classified, primary_mode, resolve_user_credentials,
}
use chattice.Client.Executor.{Response, execute, preflight}

-- An attachment: one that is uploaded, with its space and its reference, or a local file.
pub data Attachment : Type 0 where
  uploaded : (space : Option String) (ref : String) → Attachment
  input_file : (name : String) → Attachment

-- The arguments of `create`; a space and a viewer are the text or the name of the reference.
pub record Draft (C : Type 0) : Type 0 where
  pub space : Option String
  pub text : Option String
  pub thread : Option ThreadRef
  pub reply_option : Option String
  pub request_id : Option String
  pub message_id : Option String
  pub accessory_widgets : List String
  pub card : Option C
  pub notify : Option String
  pub private_to : Option (Option String)
  pub attachments : List Attachment

-- `CreateMessageRequest`
pub record Request (C : Type 0) : Type 0 where
  pub parent : String
  pub text : String
  pub attachments : List String
  pub private_message_viewer : Option String
  pub card : Option C
  pub accessory_widgets : List String
  pub thread_name : Option String
  pub thread_key : Option String
  pub reply_option : Option String
  pub notify : Option String
  pub request_id : Option String
  pub message_id : Option String

-- The cards' part and the files: whether a card needs a publisher that the bot lacks, the publishing of its
-- images, whether a file is still valid, and the upload, which may answer without a reference.
pub record Media (C : Type 0) : Type 0 where
  pub lacks_publisher : C → Bool
  pub resolve_assets : C → Outcome C
  pub validate : String → Outcome (Unit {0})
  pub upload : Client → (parent file : String) → Response (Option String)

infixl 5 ◌>>-◌ ◌>>◌
abbrev pub ◌>>-◌ : {A B : Type 0} → Outcome A → (A → Outcome B) → Outcome B
done a >>- f = f a
raises e >>- f = raises e

abbrev pub ◌>>◌ : {B : Type 0} → Outcome (Unit {0}) → Outcome B → Outcome B
m >> k = m >>- λ _. k

-- if not b: raise e
abbrev pub guard : Bool → CallError → Outcome (Unit {0})
guard true e = done tt
guard false e = raises e

abbrev pub named : Option String → Outcome String
named none = raises rejected
named (some name) = done name

abbrev pub empty {ℓ} : {A : Type ℓ} → List A → Bool
empty [] = true
empty (x ∷ xs) = false

-- Attachments go with no viewer and no widgets, and to the user's identity only.
unfoldable pub check_combination : {C : Type 0} → AuthMode → Draft C → Outcome (Unit {0})
check_combination identity d =
    if empty d.attachments
    then done tt
    else (guard (not (is_some d.private_to)) rejected
        >> (guard (empty d.accessory_widgets) rejected
            >> guard (same_mode identity user) not_supported))

unfoldable pub check_notify : Bool → Option AuthMode → Option String → Outcome (Unit {0})
check_notify no_attachments mode none = done tt
check_notify no_attachments mode (some notify) =
    guard (notify == "force" || notify == "silent") rejected
    >> (guard no_attachments not_supported >> guard (is_identity app mode) not_supported)

-- The viewer of a private message.
unfoldable pub viewer : Option AuthMode → Bool → Option (Option String) → Outcome (Option String)
viewer mode no_widgets none = done none
viewer mode no_widgets (some target) = named (canonical_user target) >>- λ name.
    (guard (is_identity app mode) not_supported >> (guard no_widgets rejected >> done (some name)))

abbrev pub is_input_file : Attachment → Bool
is_input_file (uploaded space ref) = false
is_input_file (input_file name) = true

-- Before any upload: the user's credentials, and the operations that they have to admit.
unfoldable pub check_user :
    Registry → AuthMode → List Attachment → Option Credentials → Bot → Outcome (Unit {0}) × Bot
check_user registry identity items none bot = (raises identity_not_configured, bot)
check_user registry identity items (some c) bot =
    if is_identity app (classified (some c))
    then (raises not_supported, bot)
    else (preflight registry messages_create identity bot >>= λ _ checked.
        if any is_input_file items
        then preflight registry media_upload identity checked
        else (done tt, checked))

unfoldable pub check_sender : Registry → AuthMode → List Attachment → Bot → Outcome (Unit {0}) × Bot
unfolding check_user
check_sender registry identity items bot =
    if empty items
    then (done tt, bot)
    else (resolve_user_credentials bot >>= check_user registry identity items)

abbrev pub referenced : Outcome (Option String) → Outcome String
referenced (raises e) = raises e
referenced (done none) = raises rejected
referenced (done (some ref)) = done ref

abbrev pub thread_given : Option ThreadRef → Bool
thread_given none = false
thread_given (some t) = is_some t.name || is_some t.thread_key

unfoldable pub build_request :
    {C : Type 0} → Draft C → String → Option String → Option C → List String → Request C
build_request d parent v card refs = record {
  parent = parent;
  text = elim d.text [ none ↦ "" | some t ↦ t ];
  attachments = refs;
  private_message_viewer = v;
  card = card;
  accessory_widgets = d.accessory_widgets;
  thread_name = and_then d.thread (λ t. t.name);
  thread_key = and_then d.thread (λ t. t.thread_key);
  reply_option = if thread_given d.thread then d.reply_option else none;
  notify = d.notify;
  request_id = d.request_id;
  message_id = d.message_id;
}

module _ {C : Type 0} (media : Media C) where
  unfoldable pub check_attachments : String → List Attachment → Outcome (Unit {0})
  check_attachments parent [] = done tt
  check_attachments parent (uploaded space ref ∷ items) = named (canonical_space space) >>- λ name.
      (guard (name == parent) rejected >> check_attachments parent items)
  check_attachments parent (input_file name ∷ items) =
      media.validate name >> check_attachments parent items

  abbrev pub card_needs_publisher : Option C → Bool
  card_needs_publisher none = false
  card_needs_publisher (some card) = media.lacks_publisher card

  -- The checks of the arguments, with the bot's primary identity: the space and the viewer.
  unfoldable pub check_draft :
      AuthMode → Option AuthMode → Draft C → Outcome (String × Option String)
  unfolding check_combination check_notify viewer check_attachments
  check_draft identity mode d =
      check_combination identity d
      >> (check_notify (empty d.attachments) mode d.notify
          >> (viewer mode (empty d.accessory_widgets) d.private_to >>- λ v.
              (guard (not (is_some d.card) || not (is_identity user mode)) not_supported
                >> (named (canonical_space d.space) >>- λ parent.
                    (check_attachments parent d.attachments
                      >> (guard (empty d.accessory_widgets || is_identity app mode) not_supported
                          >> (guard (not (is_identity no_auth mode)) not_supported
                              >> done (parent, v))))))))

  -- `Attachments.upload`, always with the user's identity
  unfoldable pub upload_file : Registry → String → String → Bot → Outcome String × Bot
  upload_file registry parent name bot =
      let (answer, after) =
        (
          named (canonical_space (some parent)) >>- λ place. (media.validate name >> done place),
          bot,
        )
        >>= λ place ready.
            execute registry media_upload user (λ i. media.upload i place name) ready in
      (referenced answer, after)

  unfoldable pub attach : Registry → String → List Attachment → Bot → Outcome (List String) × Bot
  unfolding upload_file
  attach registry parent [] bot = (done [], bot)
  attach registry parent (uploaded space ref ∷ items) bot =
      attach registry parent items bot >>= λ refs after. (done (ref ∷ refs), after)
  attach registry parent (input_file name ∷ items) bot =
      upload_file registry parent name bot >>= λ ref sent.
      attach registry parent items sent >>= λ refs after. (done (ref ∷ refs), after)

  abbrev pub card_assets : Option C → Outcome (Option C)
  card_assets none = done none
  card_assets (some card) = media.resolve_assets card >>- λ resolved. done (some resolved)

  -- All that comes before the remote call of the message.
  unfoldable pub plan : Registry → AuthMode → Draft C → Bot → Outcome (Request C) × Bot
  unfolding check_draft check_sender attach build_request
  plan registry identity d bot =
      (guard (not (card_needs_publisher d.card)) rejected, bot) >>= λ _ bot1.
      (if empty d.attachments then primary_mode bot1.auth_mode bot1 else (done (some user), bot1))
      >>= λ mode bot2. (check_draft identity mode d, bot2) >>= λ (parent, v) bot3.
          check_sender registry identity d.attachments bot3 >>= λ _ bot4.
          (card_assets d.card, bot4) >>= λ card bot5.
          attach registry parent d.attachments bot5 >>= λ refs bot6.
          (done (build_request d parent v card refs), bot6)

  unfoldable pub create :
      {M : Type 0}
      → Registry
      → AuthMode
      → (Client → Request C → Response M)
      → Draft C
      → Bot
      → Outcome M × Bot
  unfolding plan
  create registry identity send d bot = plan registry identity d bot >>= λ request ready.
      execute registry messages_create identity (λ i. send i request) ready
