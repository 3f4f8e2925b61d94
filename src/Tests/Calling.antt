-- ===== src/Tests/Calling.antt =====
-- The outgoing calls on concrete inputs.
use chattice.Base.{ℕ, ◌≡◌, refl, String, true, false, none, some, [], ◌∷◌, map}
use chattice.Base.Text.{strip}
use chattice.Dict
use chattice.Capabilities.Operations.{app, user, value, messages_create}
use chattice.Capabilities.Specs.{specs}
use chattice.Capabilities.Registry.{Registry}
use chattice.Client.Names.{canonical_space, canonical_user}
use chattice.Client.Names.Canonical.{IsCanonical, resource_names-IsCanonical}
use chattice.Client.Paging.{Pages, finished, next, collect}
use chattice.Client.Paging.Limits.{first, everything, collect-first}
use chattice.Client.Bot.{
  Client, Bot, Credentials, done, no_provider, provides, primary_mode, classify, credential_scopes,
  resolve_for,
}
use chattice.Client.Errors.{wrap_api_error}
use chattice.Client.Spaces.{get_or_setup_direct_message}
use chattice.Client.Spaces.Setup.{Follows, get_or_setup_direct_message-Follows}
use chattice.Client.Memberships.{membership_name}
use chattice.Client.Executor.{Response, response, api_error, settle, execute}
use chattice.Client.Executor.Admission.{Judged, admitted, execute-Judged}
use chattice.Client.Messages.{Draft, Request, Media, plan}
use chattice.Client.Messages.Requests.{IsSound, plan-IsSound}
use chattice.Client.Messages.Identities.{plan_identity}

abbrev table : Registry
table = map (λ s. (value s.operation, s)) specs

abbrev service_account : Credentials
service_account = record {
  subject = false;
  signer = true;
  refresh_token = false;
  granted_scopes = none;
  scopes = some ("https://www.googleapis.com/auth/chat.bot" ∷ []);
  default_scopes = none;
}

abbrev bot : Bot
bot = record {
  credentials = some service_account;
  credentials_provider = no_provider;
  user_credentials_provider = no_provider;
  auth_mode = some app;
  has_transport = false;
  preview_enabled = false;
  credential_task = none;
  resolved_credentials = none;
  resolved_user = none;
  client = false;
  user_client = false;
  closed = false;
  calls = [];
}

resource_names-IsCanonical_example :
    (IsCanonical "spaces/" "spaces/AAA" × (canonical_space (some "spaces/AAA") ≡ some "spaces/AAA"))
    × (IsCanonical "users/" "users/7" × (canonical_user (some "users/7") ≡ some "users/7"))
unfolding canonical_space canonical_user strip
resource_names-IsCanonical_example =
    resource_names-IsCanonical (some " AAA ") (some "users/7") "spaces/AAA" "users/7" refl refl

abbrev three : Pages String ℕ
three = next 1 (next 2 (next 3 finished))

collect-first_example :
    (collect none three ≡ everything three)
    × (collect (some 2) three ≡ first 2 three)
    × (collect (some 0) three ≡ first 1 three)
collect-first_example = collect-first three 1

abbrev answers : Client → Response ℕ
answers client = response 5

execute-Judged_example :
    Judged table messages_create app answers
      (admitted table messages_create app bot)
      bot
      (execute table messages_create app answers bot)
execute-Judged_example = execute-Judged table messages_create app answers bot

abbrev no_media : Media (Unit {0})
no_media = record {
  lacks_publisher = λ card. false;
  resolve_assets = λ card. done card;
  validate = λ name. done tt;
  upload = λ identity parent name. response none;
}

abbrev whisper : Draft (Unit {0})
whisper = record {
  space = some "AAA";
  text = some "psst";
  thread = none;
  reply_option = some "REPLY";
  request_id = none;
  message_id = none;
  accessory_widgets = [];
  card = none;
  notify = none;
  private_to = some (some "7");
  attachments = [];
}

abbrev whispered : Request (Unit {0})
whispered = record {
  parent = "spaces/AAA";
  text = "psst";
  attachments = [];
  private_message_viewer = some "users/7";
  card = none;
  accessory_widgets = [];
  thread_name = none;
  thread_key = none;
  reply_option = none;
  notify = none;
  request_id = none;
  message_id = none;
}

planned : plan no_media table app whisper bot ≡ (done whispered, bot)
unfolding plan primary_mode canonical_space canonical_user strip
planned = refl

plan-IsSound_example : IsSound app whisper bot whispered
plan-IsSound_example = plan-IsSound no_media table app whisper bot bot whispered planned

plan_identity_example : plan no_media table user whisper bot ≡ plan no_media table app whisper bot
plan_identity_example = plan_identity no_media table user app whisper refl bot

abbrev user_bot : Bot
user_bot = record bot {
  user_credentials_provider = provides (
      done (
        some (record {
          subject = true;
          signer = true;
          refresh_token = false;
          granted_scopes = none;
          scopes = none;
          default_scopes = none;
        })));
  auth_mode = none;
}

abbrev nobody : Client → String → Response ℕ
nobody identity name =
    api_error (record { class = "NotFound"; bases = "NotFound" ∷ "ClientError" ∷ []; message = "" })

abbrev sets_up : Client → String → Response ℕ
sets_up identity name = response 8

get_or_setup_direct_message-Follows_example :
    Follows table user nobody sets_up "users/7" []
      (get_or_setup_direct_message table user nobody sets_up true (some "7") user_bot)
unfolding canonical_user strip settle wrap_api_error resolve_for classify credential_scopes Dict.get
get_or_setup_direct_message-Follows_example =
    get_or_setup_direct_message-Follows table user nobody sets_up (some "7") "users/7" user_bot refl
      refl

-- A name without a space between the collections is taken for that of a membership.
spaceless : membership_name "spaces/members/7" ≡ some "spaces/members/7"
unfolding membership_name strip
spaceless = refl
