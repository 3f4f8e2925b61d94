-- ===== src/Idempotency/Memory/Refines.antt =====
-- The in-process storage and the contract, key by key.
use chattice.Base.{
  ℕ, ◌+◌, String, ◌≡◌, ◌≢◌, true, false, Option, none, some, arith, if◌then◌else◌, Option-cases,
  inl, inr, eq_iff,
}
use chattice.Base.Eq.{string_eq}
use chattice.Dict
use chattice.Dict.{get-put, get-remove, get-put_self, get-remove_self}
use chattice.Idempotency.Contract.{
  Status, free, held, done, Call, claims, completes, releases, renews, Reply, claimed, renewed,
  silent, step,
}
use chattice.Idempotency.Memory.{Claim, Storage, prune_expired, claim, complete, release, renew}

abbrev pub status_of : Option Claim → Status
status_of none = free
status_of (some c) = if c.completed then done c.owner else held c.owner c.lease_until

unfoldable pub status : Storage → String → Status
status s key = status_of (Dict.get s.claims key)

abbrev fresh : String → ℕ → Claim
fresh owner until = record { owner = owner; lease_until = until; completed = false }

-- A call on the storage, with its key and its clock readings.
pub data Op : Type 0 where
  claim_op : (owner : String) (lease now later : ℕ) → Op
  complete_op release_op : (owner : String) → Op
  renew_op : (owner : String) (lease now : ℕ) → Op

unfoldable pub perform : Storage → String × Op → Storage × Reply
perform s (key, claim_op owner lease now later) =
    let (s', r) = claim s key owner lease now later in (s', claimed r)
perform s (key, complete_op owner) = (complete s key owner, silent)
perform s (key, release_op owner) = (release s key owner, silent)
perform s (key, renew_op owner lease now) =
    let (s', r) = renew s key owner lease now in (s', renewed r)

abbrev pub call_of : Op → Call
call_of (claim_op owner lease now later) = claims owner now (later + lease)
call_of (complete_op owner) = completes owner
call_of (release_op owner) = releases owner
call_of (renew_op owner lease now) = renews owner (now + lease)

-- On the key of the call the storage takes the contract's step, and gives its reply.
pub status-perform_self :
    (s : Storage) (key : String) (op : Op)
    → (status (perform s (key, op)).0 key ≡ (step (status s key) (call_of op)).0)
      × ((perform s (key, op)).1 ≡ (step (status s key) (call_of op)).1)
unfolding perform claim complete release renew step status
status-perform_self s key (claim_op owner lease now later) =
    elim (Option-cases (Dict.get s.claims key)) [
      | inl e ↦ ground (arith, e, get-put_self s.claims key (fresh owner (later + lease)))
      | inr (c, e) ↦ ground (
        arith,
        e,
        get-remove_self s.claims key,
        get-put_self (Dict.remove s.claims key) key (fresh owner (later + lease)),
      )
    ]
status-perform_self s key (complete_op owner) = elim (Option-cases (Dict.get s.claims key)) [
  | inl e ↦ ground (arith, e)
  | inr (c, e) ↦ ground (arith, e, get-put_self s.claims key (record c { completed = true }))
]
status-perform_self s key (release_op owner) = ground (arith, get-remove_self s.claims key)
status-perform_self s key (renew_op owner lease now) = elim (Option-cases (Dict.get s.claims key)) [
  | inl e ↦ ground (arith, e)
  | inr (c, e) ↦
      ground (arith, e, get-put_self s.claims key (record c { lease_until = now + lease }))
]

-- On every other key nothing changes.
pub status-perform_ne :
    (s : Storage) (key j : String) (op : Op)
    → key ≢ j
    → status (perform s (key, op)).0 j ≡ status s j
unfolding perform claim complete release renew status
status-perform_ne s key j (claim_op owner lease now later) h = ground (
  arith,
  eq_iff key j,
  get-remove s.claims key j,
  get-put (prune_expired s key now).claims key j (fresh owner (later + lease)),
)
status-perform_ne s key j (complete_op owner) h = elim (Option-cases (Dict.get s.claims key)) [
  | inl e ↦ ground (arith, e)
  | inr (c, e) ↦
      ground (arith, e, eq_iff key j, get-put s.claims key j (record c { completed = true }))
]
status-perform_ne s key j (release_op owner) h =
    ground (arith, eq_iff key j, get-remove s.claims key j)
status-perform_ne s key j (renew_op owner lease now) h =
    elim (Option-cases (Dict.get s.claims key)) [
      | inl e ↦ ground (arith, e)
      | inr (c, e) ↦
          ground (
            arith,
            e,
            eq_iff key j,
            get-put s.claims key j (record c { lease_until = now + lease }),
          )
    ]
