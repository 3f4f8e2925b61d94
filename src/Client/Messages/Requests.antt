-- ===== src/Client/Messages/Requests.antt =====
-- Which requests `create` sends.
use mathlib.Core.Path.{subst}
use chattice.Base.{
  ◌≡◌, refl, ap, ◌∙◌, String, Bool, true, false, Option, none, some, is_some, and_then, List, [],
  ◌∷◌, if◌then◌else◌, not, ◌||◌, arith, Bool-cases, inl, inr, ◌⊎◌, All,
}
use chattice.Base.Eq.{string_eq, ◌==◌}
use chattice.Capabilities.Operations.{AuthMode, app, user, no_auth}
use chattice.Capabilities.Registry.{Registry, same_mode, is_identity}
use chattice.Events.{ThreadRef}
use chattice.Client.Names.{canonical_space, canonical_user}
use chattice.Client.Bot.{
  Bot, Outcome, done, raises, CallError, rejected, not_supported, ◌>>=◌, primary_mode,
}
use chattice.Client.Messages.{
  Attachment, uploaded, input_file, Draft, Request, Media, ◌>>-◌, ◌>>◌, guard, named, empty,
  check_combination, check_notify, viewer, check_attachments, check_draft, check_sender,
  card_assets, attach, build_request, plan, card_needs_publisher, thread_given,
}

>>-eq-done :
    {A B : Type 0} (m : Outcome A) (f : A → Outcome B) {b : B}
    → (m >>- f) ≡ done b
    → (a : A) × (m ≡ done a) × (f a ≡ done b)
>>-eq-done (done a) f h = (a, refl, h)
>>-eq-done (raises e) f h = cc

guard_lem :
    {B : Type 0} (b : Bool) (e : CallError) (m : Outcome B) {r : B}
    → (guard b e >> m) ≡ done r
    → (b ≡ true) × (m ≡ done r)
guard_lem true e m h = (refl, h)
guard_lem false e m h = cc

guard_done : (b : Bool) (e : CallError) → guard b e ≡ done tt → b ≡ true
guard_done true e h = refl
guard_done false e h = cc

named_lem : (o : Option String) (name : String) → named o ≡ done name → o ≡ some name
named_lem none name h = ground (arith, h)
named_lem (some n) name h = ground (arith, h)

-- An uploaded attachment belongs to the space of the message.
abbrev pub BelongsTo : String → Attachment → Type 0
BelongsTo parent (uploaded space ref) = canonical_space space ≡ some parent
BelongsTo parent (input_file name) = Unit

-- The viewer of a message: that of a private message is a canonical user, and the message is sent by the app
-- and has no widgets.
abbrev pub HasViewer : Option AuthMode → Bool → Option (Option String) → Option String → Type 0
HasViewer mode no_widgets none v = v ≡ none
HasViewer mode no_widgets (some target) v =
    (canonical_user target ≡ v)
    × (is_some v ≡ true)
    × (is_identity app mode ≡ true)
    × (no_widgets ≡ true)

-- A message with attachments is sent by the user, and has no viewer, no widgets and no notification.
abbrev pub Combines : {C : Type 0} → AuthMode → Draft C → Type 0
Combines identity d =
    (empty d.attachments ≡ true)
    ⊎ ((is_some d.private_to ≡ false)
        × (empty d.accessory_widgets ≡ true)
        × (same_mode identity user ≡ true)
        × (d.notify ≡ none))

viewer-HasViewer :
    (mode : Option AuthMode) (no_widgets : Bool) (target : Option (Option String))
    (v : Option String)
    → viewer mode no_widgets target ≡ done v
    → HasViewer mode no_widgets target v
unfolding viewer
viewer-HasViewer mode no_widgets none v h = ground (arith, h)
viewer-HasViewer mode no_widgets (some target) v h =
    let (name, e, h1) = >>-eq-done (named (canonical_user target)) _ h in
    let (from_app, h2) = guard_lem (is_identity app mode) _ _ h1 in
    let (bare, h3) = guard_lem no_widgets _ _ h2 in
    ground (arith, named_lem (canonical_user target) name e, h3, from_app, bare)

check_attachments-BelongsTo :
    {C : Type 0} (media : Media C) (parent : String) (items : List Attachment)
    → check_attachments media parent items ≡ done tt
    → All (BelongsTo parent) items
unfolding check_attachments
check_attachments-BelongsTo media parent [] h = tt
check_attachments-BelongsTo media parent (uploaded space ref ∷ items) h =
    let (name, e, h1) = >>-eq-done (named (canonical_space space)) _ h in
    let (same, h2) = guard_lem (name == parent) _ _ h1 in
    (
      named_lem (canonical_space space) name e ∙ ap some ((string_eq.beq_iff name parent).0 same),
      check_attachments-BelongsTo media parent items h2,
    )
check_attachments-BelongsTo media parent (input_file name ∷ items) h =
    let (_, _, h1) = >>-eq-done (media.validate name) _ h in
    (tt, check_attachments-BelongsTo media parent items h1)

notify_none :
    (mode : Option AuthMode) (notify : Option String)
    → check_notify false mode notify ≡ done tt
    → notify ≡ none
unfolding check_notify
notify_none mode none h = refl
notify_none mode (some n) h = let (_, h1) = guard_lem (n == "force" || n == "silent") _ _ h in cc

check-Combines :
    {C : Type 0} (identity : AuthMode) (mode : Option AuthMode) (d : Draft C)
    → check_combination identity d ≡ done tt
    → check_notify (empty d.attachments) mode d.notify ≡ done tt
    → Combines identity d
unfolding check_combination
check-Combines identity mode d h g = elim (Bool-cases (empty d.attachments)) [
  | inl e ↦ inl e
  | inr e ↦
      let checks : (guard (not (is_some d.private_to)) rejected
            >> (guard (empty d.accessory_widgets) rejected
                >> guard (same_mode identity user) not_supported))
          ≡ done tt =
        ground (arith, h, e) in
      let (open_, h1) = guard_lem (not (is_some d.private_to)) _ _ checks in
      let (bare, h2) = guard_lem (empty d.accessory_widgets) _ _ h1 in
      inr (
        ground (arith, open_),
        bare,
        guard_done (same_mode identity user) _ h2,
        notify_none mode d.notify (subst (λ b. check_notify b mode d.notify ≡ done tt) e g),
      )
]

-- What is sure of the space and the viewer of a message whose arguments pass the checks. `mode` is the identity that the
-- checks look at.
abbrev pub Checked :
    {C : Type 0} → AuthMode → Option AuthMode → Draft C → String → Option String → Type 0
Checked identity mode d parent v =
    (canonical_space d.space ≡ some parent)
    × HasViewer mode (empty d.accessory_widgets) d.private_to v
    × Combines identity d
    × All (BelongsTo parent) d.attachments
    × ((not (is_some d.card) || not (is_identity user mode)) ≡ true)
    × ((empty d.accessory_widgets || is_identity app mode) ≡ true)

check_draft-Checked :
    {C : Type 0} (media : Media C) (identity : AuthMode) (mode : Option AuthMode) (d : Draft C)
    (parent : String) (v : Option String)
    → check_draft media identity mode d ≡ done (parent, v)
    → Checked identity mode d parent v
unfolding check_draft
check_draft-Checked media identity mode d parent v h =
    let (_, combined, h1) = >>-eq-done (check_combination identity d) _ h in
    let (_, notified, h2) = >>-eq-done (check_notify (empty d.attachments) mode d.notify) _ h1 in
    let (w, viewed, h3) = >>-eq-done (viewer mode (empty d.accessory_widgets) d.private_to) _ h2 in
    let (carded, h4) = guard_lem (not (is_some d.card) || not (is_identity user mode)) _ _ h3 in
    let (place, placed, h5) = >>-eq-done (named (canonical_space d.space)) _ h4 in
    let (_, scoped, h6) = >>-eq-done (check_attachments media place d.attachments) _ h5 in
    let (widgeted, h7) = guard_lem (empty d.accessory_widgets || is_identity app mode) _ _ h6 in
    let (_, h8) = guard_lem (not (is_identity no_auth mode)) _ _ h7 in
    let pair = ap (pair_of (place, w)) h8 in
    subst (λ (p, x). Checked identity mode d p x) pair
      (
        named_lem (canonical_space d.space) place placed,
        viewer-HasViewer mode (empty d.accessory_widgets) d.private_to w viewed,
        check-Combines identity mode d combined notified,
        check_attachments-BelongsTo media place d.attachments scoped,
        carded,
        widgeted,
      )
  where
    pair_of : String × Option String → Outcome (String × Option String) → String × Option String
    pair_of p (done q) = q
    pair_of p (raises e) = p

>>=-eq-done :
    {A B : Type 0} (r : Outcome A × Bot) (f : A → Bot → Outcome B × Bot) {b : B} {ready : Bot}
    → (r >>= f) ≡ (done b, ready)
    → (a : A) × (after : Bot) × (r ≡ (done a, after)) × (f a after ≡ (done b, ready))
>>=-eq-done (done a, after) f h = (a, after, refl, h)
>>=-eq-done (raises e, after) f h = cc

-- The identity that the checks look at: the user's for attachments, and else the bot's primary one.
abbrev pub mode_of : {C : Type 0} → Draft C → Bot → Outcome (Option AuthMode) × Bot
mode_of d bot =
    if empty d.attachments then primary_mode bot.auth_mode bot else (done (some user), bot)

-- A request comes from checked arguments, and carries their viewer, space and widgets, and a reply option only with a thread.
abbrev pub IsSound : {C : Type 0} → AuthMode → Draft C → Bot → Request C → Type 0
IsSound identity d bot request =
    (mode : Option AuthMode) × ((mode_of d bot).0 ≡ done mode)
    × Checked identity mode d request.parent request.private_message_viewer
    × (request.accessory_widgets ≡ d.accessory_widgets)
    × ((not (is_some request.reply_option)
          || (is_some request.thread_name || is_some request.thread_key))
        ≡ true)

reply_lem :
    (thread : Option ThreadRef) (option : Option String)
    → (not (is_some (if thread_given thread then option else none))
        || (is_some (and_then thread (λ t. t.name))
            || is_some (and_then thread (λ t. t.thread_key))))
      ≡ true
reply_lem none option = refl
reply_lem (some t) option = elim (Bool-cases (is_some t.name || is_some t.thread_key)) [
  | inl e ↦ ground (arith, e)
  | inr e ↦ rw e refl
]

module _ {C : Type 0} (media : Media C) (registry : Registry) (identity : AuthMode)
    (d : Draft C) where
  -- A request that passes all checks is sound: its space is canonical; a private message has the viewer it
  -- was meant for, a canonical user, and no widgets, so that no private message becomes a public one; a message
  -- that is not private has no viewer; attachments go with the user's identity only, without viewer, widgets
  -- and notification, and those that were uploaded belong to the space; by the identity that the checks look
  -- at, a card is refused to the user and viewer and widgets are left to the app; and a reply option stands only
  -- with a thread.
  pub plan-IsSound :
      (bot ready : Bot) (request : Request C)
      → plan media registry identity d bot ≡ (done request, ready)
      → IsSound identity d bot request
  unfolding plan build_request
  plan-IsSound bot ready request h =
      let (_, bot1, g, h1) =
        >>=-eq-done (guard (not (card_needs_publisher media d.card)) rejected, bot) _ h in
      let same : bot ≡ bot1 = ap (λ r. r.1) g in
      let (mode, bot2, moded, h2) = >>=-eq-done (mode_of d bot1) _ h1 in
      let ((parent, v), bot3, checked, h3) =
        >>=-eq-done (check_draft media identity mode d, bot2) _ h2 in
      let (_, bot4, _, h4) = >>=-eq-done (check_sender registry identity d.attachments bot3) _ h3 in
      let (card, bot5, _, h5) = >>=-eq-done (card_assets media d.card, bot4) _ h4 in
      let (refs, bot6, _, h6) =
        >>=-eq-done (attach media registry parent d.attachments bot5) _ h5 in
      let sound = check_draft-Checked media identity mode d parent v (ap (λ r. r.0) checked) in
      let built : done (build_request d parent v card refs) ≡ done request = ap (λ r. r.0) h6 in
      subst (IsSound identity d bot) (ap (request_of request) built) (
        mode,
        ap (λ b. (mode_of d b).0) same ∙ ap (λ r. r.0) moded,
        sound,
        refl,
        reply_lem d.thread d.reply_option,
      )
    where
      request_of : Request C → Outcome (Request C) → Request C
      request_of r (done q) = q
      request_of r (raises e) = r
