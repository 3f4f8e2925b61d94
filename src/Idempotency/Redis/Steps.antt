-- ===== src/Idempotency/Redis/Steps.antt =====
-- A step of the contract on the claim that a key has, and the changes of the server that take it.
use chattice.Base.{
  ℕ, ◌+◌, String, ◌≡◌, ◌≢◌, refl, sym, ap, ◌∙◌, false, Option, none, some, and_then,
}
use chattice.Base.Eq.{string_eq}
use chattice.Idempotency.Contract.{
  Status, free, Call, claims, completes, releases, renews, Reply, step,
}
use chattice.Idempotency.Memory.{Claim}
use chattice.Idempotency.Memory.Refines.{status_of}
use chattice.Idempotency.Redis.{
  Server, creates, Ended, returned, broken, running, execute, set_nx_from, stored_or,
}

-- What the storage relies on: a value that was set or deleted is so, other keys stay, a transaction is
-- aborted unless the watched key is as it was, and a claim is read back from its text.
pub record IsServer (server : Server) : Type 0 where
  pub get-set_self :
      (s : server.State) (key text : String) (px : ℕ)
      → server.get (server.set s key text px) key ≡ some text
  pub get-set_ne :
      (s : server.State) (key j text : String) (px : ℕ)
      → key ≢ j
      → server.get (server.set s key text px) j ≡ server.get s j
  pub get-delete_self :
      (s : server.State) (key : String) → server.get (server.delete s key) key ≡ none
  pub get-delete_ne :
      (s : server.State) (key j : String)
      → key ≢ j
      → server.get (server.delete s key) j ≡ server.get s j
  pub unchanged :
      (s t : server.State) (key : String)
      → server.changed s t key ≡ false
      → server.get t key ≡ server.get s key
  pub decode-encode : (c : Claim) → server.decode (server.encode c) ≡ some c

-- A call, as a client makes it.
pub data Op : Type 0 where
  claim_op : (owner : String) (lease now : ℕ) → Op
  complete_op : (completed_ttl : ℕ) (owner : String) → Op
  release_op : (owner : String) → Op
  renew_op : (owner : String) (lease : ℕ) → Op

-- The contract's call, with the reading of the clock at its moment.
abbrev pub call_of : Op → ℕ → Call
call_of (claim_op owner lease start) now = claims owner now (start + lease)
call_of (complete_op ttl owner) now = completes owner
call_of (release_op owner) now = releases owner
call_of (renew_op owner lease) now = renews owner (now + lease)

module _ (server : Server) where
  open server use {State, get, set, delete, changed, encode, decode}

  unfoldable pub status_at : Option String → Status
  status_at raw = status_of (and_then raw decode)

  -- The step of the contract at the state `t`, which leaves every other key.
  abbrev pub Steps : (ℕ → Call) → String → State → ℕ → Reply → State → Type 0
  Steps call key t now reply after =
      (status_at (get after key) ≡ (step (status_at (get t key)) (call now)).0)
      × (reply ≡ (step (status_at (get t key)) (call now)).1)
      × ((j : String) → key ≢ j → get after j ≡ get t j)

  -- What a decision on `raw` comes to at a state where that is what the key has.
  abbrev pub Decides : (ℕ → Call) → String → State → ℕ → Ended × State → Type 0
  Decides call key t now (returned reply, after) = Steps call key t now reply after
  Decides call key t now (broken, after) =
      (raw : String) × (get t key ≡ some raw) × (decode raw ≡ none)
  Decides call key t now (running, after) = ⊥

  module _ (laws : IsServer server) where
    open laws use {
      get-set_self, get-set_ne, get-delete_self, get-delete_ne, unchanged, decode-encode,
    }

    status-set :
        (t : State) (key : String) (c : Claim) (px : ℕ)
        → status_at (get (set t key (encode c) px) key) ≡ status_of (some c)
    unfolding status_at
    status-set t key c px =
        ap (λ raw. status_of (and_then raw decode)) (get-set_self t key (encode c) px)
        ∙ ap status_of (decode-encode c)

    module _ (key : String) (now : ℕ) (t : State) where
      -- The status of a key with a text, and with none.
      pub status_some :
          (raw : String) (c : Claim)
          → get t key ≡ some raw
          → decode raw ≡ some c
          → status_at (get t key) ≡ status_of (some c)
      unfolding status_at
      status_some raw c e d = ap (λ o. status_of (and_then o decode)) e ∙ ap status_of d

      pub status_none : get t key ≡ none → status_at (get t key) ≡ free
      unfolding status_at
      status_none e = ap (λ o. status_of (and_then o decode)) e

      -- A transaction that stores the claim `c`.
      pub set-Steps :
          (call : ℕ → Call) (c : Claim) (px : ℕ) (r : Reply)
          → step (status_at (get t key)) (call now) ≡ (status_of (some c), r)
          → Steps call key t now r (set t key (encode c) px)
      set-Steps call c px r h = (
        status-set t key c px ∙ sym (ap (λ x. x.0) h),
        sym (ap (λ x. x.1) h),
        λ j ne. get-set_ne t key j (encode c) px ne,
      )

      pub stay-Steps :
          (call : ℕ → Call) (r : Reply)
          → step (status_at (get t key)) (call now) ≡ (status_at (get t key), r)
          → Steps call key t now r t
      stay-Steps call r h = (sym (ap (λ x. x.0) h), sym (ap (λ x. x.1) h), λ j ne. refl)

      pub delete-Steps :
          (call : ℕ → Call) (r : Reply)
          → step (status_at (get t key)) (call now) ≡ (free, r)
          → Steps call key t now r (delete t key)
      unfolding status_at
      delete-Steps call r h = (
        ap (λ raw. status_of (and_then raw decode)) (get-delete_self t key) ∙ sym (ap (λ x. x.0) h),
        sym (ap (λ x. x.1) h),
        λ j ne. get-delete_ne t key j ne,
      )

      pub execute-creates :
          (text : String) (px : ℕ) (stored refused : Reply)
          → get t key ≡ none
          → execute server (creates text px stored refused) key t
            ≡ (returned stored, set t key text px)
      unfolding execute
      execute-creates text px stored refused e =
          ap (λ raw. stored_or server stored refused (set_nx_from server raw t key text px)) e
