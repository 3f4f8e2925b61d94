-- ===== src/Idempotency/Memory/Exclusion.antt =====
-- Whole histories of calls on the in-process storage, over any keys.
use chattice.Base.{
  ℕ, ◌+◌, ◌≤◌, String, ◌≡◌, ◌≢◌, refl, false, List, [], ◌∷◌, arith, All, eq_iff, if◌then◌else◌, sym,
  some, Option-cases, inl, inr,
}
use chattice.Base.Eq.{◌==◌, string_eq, eq_refl}
use chattice.Dict
use chattice.Idempotency.Contract.{held, done, Call, Reply, claimed, first, step, run, replies}
use chattice.Idempotency.Contract.Exclusion.{
  Intrudes, Absorbed, run-held, replies-held, run-done, replies-done,
}
use chattice.Idempotency.Memory.{Storage, Claim, claim, complete, release, renew}
use chattice.Idempotency.Memory.Refines.{
  Op, claim_op, complete_op, perform, call_of, status, status-perform_self, status-perform_ne,
}

pub perform_all : Storage → List (String × Op) → Storage
perform_all s [] = s
perform_all s (c ∷ cs) = perform_all (perform s c).0 cs

-- The contract's calls for one key, out of a history for all.
abbrev pub calls_on : String → List (String × Op) → List Call
calls_on k [] = []
calls_on k ((j, op) ∷ cs) = let rest = calls_on k cs in if j == k then call_of op ∷ rest else rest

-- What the storage replied to the calls on one key.
pub replies_on : String → Storage → List (String × Op) → List Reply
replies_on k s [] = []
replies_on k s ((j, op) ∷ cs) =
    let rest = replies_on k (perform s (j, op)).0 cs in
    if j == k then (perform s (j, op)).1 ∷ rest else rest

-- After any history the key's status, and its replies along the way, are those of the contract run on
-- the calls for that key alone.
pub perform_all-refines :
    (k : String) (s : Storage) (cs : List (String × Op))
    → (status (perform_all s cs) k ≡ run (status s k) (calls_on k cs))
      × (replies_on k s cs ≡ replies (status s k) (calls_on k cs))
unfolding perform_all replies_on run replies
perform_all-refines k s [] = (refl, refl)
perform_all-refines k s ((j, op) ∷ cs) = ground (
  arith,
  eq_iff j k,
  status-perform_self s k op,
  status-perform_ne s j k op,
  perform_all-refines k (perform s (j, op)).0 cs,
)

-- A claim answered FIRST leaves its owner holding the key.
status-first :
    (s : Storage) (key owner : String) (lease now later : ℕ)
    → (perform s (key, claim_op owner lease now later)).1 ≡ claimed first
    → status (perform s (key, claim_op owner lease now later)).0 key ≡ held owner (later + lease)
unfolding step
status-first s key owner lease now later h =
    ground (arith, status-perform_self s key (claim_op owner lease now later), status s key)

-- Once a claim of a key was answered FIRST, then, as long as the others read the clock before its
-- lease ends and the owner itself does nothing, no claim of that key is answered FIRST again, and the
-- owner still holds it, whatever happens on any key.
pub claim_exclusive :
    (s : Storage) (key owner : String) (lease now later : ℕ) (cs : List (String × Op))
    → (perform s (key, claim_op owner lease now later)).1 ≡ claimed first
    → All (Intrudes owner (later + lease)) (calls_on key cs)
    → All
        (λ r. r ≢ claimed first)
        (replies_on key (perform s (key, claim_op owner lease now later)).0 cs)
      × (status (perform_all (perform s (key, claim_op owner lease now later)).0 cs) key
          ≡ held owner (later + lease))
claim_exclusive s key owner lease now later cs h foreign =
    let s' = (perform s (key, claim_op owner lease now later)).0 in
    let now_held = status-first s key owner lease now later h in
    let refined = perform_all-refines key s' cs in
    (
      rw (refined.1, now_held) (replies-held owner (later + lease) cs' foreign),
      rw (refined.0, now_held) (run-held owner (later + lease) cs' foreign),
    )
  where
    cs' : List Call
    cs' = calls_on key cs

status-completed :
    (s : Storage) (key owner : String) (u : ℕ)
    → status s key ≡ held owner u
    → status (perform s (key, complete_op owner)).0 key ≡ done owner
unfolding step
status-completed s key owner u h =
    ground (arith, status-perform_self s key (complete_op owner), h, eq_refl owner)

-- When the owner of a held key completes it, no later claim of the key is answered FIRST, and it stays
-- done by that owner, whatever is called on any key and whenever, until the owner itself releases it.
pub complete_absorbs :
    (s : Storage) (key owner : String) (u : ℕ) (cs : List (String × Op))
    → status s key ≡ held owner u
    → All (Absorbed owner) (calls_on key cs)
    → All (λ r. r ≢ claimed first) (replies_on key (perform s (key, complete_op owner)).0 cs)
      × (status (perform_all (perform s (key, complete_op owner)).0 cs) key ≡ done owner)
complete_absorbs s key owner u cs h others =
    let s' = (perform s (key, complete_op owner)).0 in
    let now_done = status-completed s key owner u h in
    let refined = perform_all-refines key s' cs in
    (
      rw (refined.1, now_done) (replies-done owner (calls_on key cs) others),
      rw (refined.0, now_done) (run-done owner (calls_on key cs) others),
    )

claim_lapsed :
    (s : Storage) (key old new : String) (u lease now later : ℕ)
    → status s key ≡ held old u
    → u ≤ now
    → ((claim s key new lease now later).1 ≡ first)
      × (status (claim s key new lease now later).0 key ≡ held new (later + lease))
unfolding perform step
claim_lapsed s key old new u lease now later h lapsed =
    ground (arith, status-perform_self s key (claim_op new lease now later), h)

held_inv :
    (s : Storage) (key owner : String) (u : ℕ)
    → status s key ≡ held owner u
    → (c : Claim) × (Dict.get s.claims key ≡ some c) × (c.owner ≡ owner)
unfolding status
held_inv s key owner u h = elim (Option-cases (Dict.get s.claims key)) [
  | inl e ↦ absurd (ground (arith, e))
  | inr (c, e) ↦ (c, e, ground (arith, e))
]

not_owner :
    (s : Storage) (key owner other : String) (u : ℕ)
    → owner ≢ other
    → status s key ≡ held owner u
    → (complete s key other ≡ s)
      × (release s key other ≡ s)
      × ((lease now : ℕ) → renew s key other lease now ≡ (s, false))
unfolding complete release renew
not_owner s key owner other u ne h =
    let (c, e, o) = held_inv s key owner u h in
    (
      ground (arith, e, o, eq_iff c.owner other),
      ground (arith, e, o, eq_iff c.owner other),
      λ lease now. ground (arith, e, o, eq_iff c.owner other),
    )

-- An owner that let its lease lapse loses the key to the next claim of another owner, which is answered FIRST;
-- a `complete` or `release` of the old owner then changes nothing at all, and its `renew` is refused.
pub takeover_disarms :
    (s : Storage) (key old new : String) (u lease now later : ℕ)
    → old ≢ new
    → status s key ≡ held old u
    → u ≤ now
    → ((claim s key new lease now later).1 ≡ first)
      × (complete (claim s key new lease now later).0 key old ≡ (claim s key new lease now later).0)
      × (release (claim s key new lease now later).0 key old ≡ (claim s key new lease now later).0)
      × ((l t : ℕ)
          → renew (claim s key new lease now later).0 key old l t
            ≡ ((claim s key new lease now later).0, false))
takeover_disarms s key old new u lease now later ne h lapsed =
    let won = claim_lapsed s key old new u lease now later h lapsed in
    let others =
      not_owner (claim s key new lease now later).0 key new old (later + lease) (λ e. ne (sym e))
        won.1 in
    (won.0, others.0, others.1, others.2)
