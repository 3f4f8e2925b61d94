-- ===== src/Idempotency/Redis.antt =====
-- `RedisIdempotencyStorage` of src/chattice/idempotency.py: the loops that watch a key, read it, and replace it
-- in a transaction. Times are milliseconds.
pub mod Steps
pub mod Deciding
pub mod Linear
use chattice.Base.{
  ℕ, ◌+◌, String, Bool, true, false, Option, none, some, is_some, and_then, List, [], ◌∷◌,
  if◌then◌else◌, not, ◌||◌, leb, ltb,
}
use chattice.Base.Eq.{◌==◌, string_eq}
use chattice.Idempotency.Contract.{first, completed, active, Reply, claimed, renewed, silent}
use chattice.Idempotency.Memory.{Claim}

-- The redis client, and `json` on the texts that the storage writes: `decode` is none where it raises.
-- `changed` tells of a watched key whether EXEC is aborted, from the state at WATCH and the state at EXEC.
pub record Server : Type 1 where
  pub State : Type 0
  pub get : State → String → Option String
  pub set : State → String → String → (px : ℕ) → State
  pub delete : State → String → State
  pub changed : (watched now : State) → String → Bool
  pub encode : Claim → String
  pub decode : String → Option Claim

-- What one pass of a loop decides on what it has read: to return, to run a transaction and return then, or
-- the raise of a text that is no claim. `create` is SET with NX, which answers whether it stored.
pub data Decision : Type 0 where
  answers : Reply → Decision
  writes : (text : String) (px : ℕ) → Reply → Decision
  creates : (text : String) (px : ℕ) (stored refused : Reply) → Decision
  deletes : Reply → Decision
  fails : Decision

-- How a method ends; `running` is a loop whose passes are used up.
pub data Ended : Type 0 where
  returned : Reply → Ended
  broken : Ended
  running : Ended

-- max(1, ms)
abbrev pub at_least_one : ℕ → ℕ
at_least_one ms = if leb 1 ms then ms else 1

abbrev pub lease_claim : (owner : String) (until : ℕ) → Claim
lease_claim owner until = record { owner = owner; lease_until = until; completed = false }

module _ (server : Server) where
  open server use {State, get, set, delete, changed, encode, decode}

  -- A pass: what others do before it reads, and from there to its EXEC, and its reading of the clock.
  pub record Round : Type 0 where
    pub before : State → State
    pub meanwhile : State → State
    pub now : ℕ

  -- SET with NX
  abbrev pub set_nx_from : (existing : Option String) → State → String → String → ℕ → State × Bool
  set_nx_from none s key text px = (set s key text px, true)
  set_nx_from (some old) s key text px = (s, false)

  abbrev pub set_nx : State → String → String → ℕ → State × Bool
  set_nx s key text px = set_nx_from (get s key) s key text px

  -- `executed[0]`
  abbrev pub stored_or : (stored refused : Reply) → State × Bool → Ended × State
  stored_or stored refused (s, done) = (returned (if done then stored else refused), s)

  -- `pipe.execute()` of a transaction that is not aborted
  unfoldable pub execute : Decision → String → State → Ended × State
  execute (answers r) key s = (returned r, s)
  execute (writes text px r) key s = (returned r, set s key text px)
  execute (creates text px stored refused) key s = stored_or stored refused (set_nx s key text px)
  execute (deletes r) key s = (returned r, delete s key)
  execute fails key s = (broken, s)

  -- A pass that decides to return, or to raise, has no EXEC that could be aborted.
  abbrev pub needs_exec : Decision → Bool
  needs_exec (answers r) = false
  needs_exec fails = false
  needs_exec _ = true

  abbrev pub finish_round :
      Decision → (aborted : Bool) → String → (read exec : State) → (Ended × State) → Ended × State
  unfolding execute
  finish_round d aborted key read exec rest =
      if needs_exec d then (if aborted then rest else execute d key exec) else execute d key read

  -- while True: watch, get, decide, execute, once more on a WatchError
  unfoldable pub transact :
      (ℕ → Option String → Decision) → String → List Round → State → Ended × State
  unfolding execute
  transact decide key [] s = (running, s)
  transact decide key (r ∷ rounds) s =
      let read = r.before s in
      let exec = r.meanwhile read in
      let rest = transact decide key rounds exec in
      finish_round (decide r.now (get read key)) (changed read exec key) key read exec rest

  unfoldable pub claim_existing : (text : String) (px now : ℕ) → Option Claim → Decision
  claim_existing text px now none = fails
  claim_existing text px now (some c) =
      if c.completed
      then answers (claimed completed)
      else if ltb now c.lease_until
      then answers (claimed active)
      else writes text px (claimed first)

  unfoldable pub claim_decision : (text : String) (px now : ℕ) → Option String → Decision
  unfolding claim_existing
  claim_decision text px now none = creates text px (claimed first) (claimed active)
  claim_decision text px now (some raw) = claim_existing text px now (decode raw)

  unfoldable pub claim_from :
      (existing : Option String) (text : String) (px : ℕ)
      → String
      → List Round
      → State
      → Ended × State
  unfolding transact claim_decision
  claim_from none text px key rounds s = (returned (claimed first), set s key text px)
  claim_from (some raw) text px key rounds s = transact (claim_decision text px) key rounds s

  -- `now` is the reading of the clock at the call.
  unfoldable pub claim :
      (owner : String) (lease now : ℕ) → String → List Round → State → Ended × State
  unfolding claim_from
  claim owner lease now key rounds s =
      claim_from (get s key) (encode (lease_claim owner (now + lease))) (at_least_one lease) key
        rounds s

  -- `_owner_op`, as `complete` and `release` call it.
  pub data OwnerOp : Type 0 where
    completes_op : (px : ℕ) → OwnerOp
    deletes_op : OwnerOp

  abbrev pub owner_write : OwnerOp → Claim → Decision
  owner_write (completes_op px) c = writes (encode (record c { completed = true })) px silent
  owner_write deletes_op c = deletes silent

  unfoldable pub owner_existing : OwnerOp → (owner : String) → Option Claim → Decision
  owner_existing op owner none = fails
  owner_existing op owner (some c) =
      if not (c.owner == owner) then answers silent else owner_write op c

  unfoldable pub owner_decision : OwnerOp → (owner : String) (now : ℕ) → Option String → Decision
  unfolding owner_existing
  owner_decision op owner now none = answers silent
  owner_decision op owner now (some raw) = owner_existing op owner (decode raw)

  unfoldable pub complete :
      (completed_ttl : ℕ) (owner : String) → String → List Round → State → Ended × State
  unfolding transact owner_decision
  complete completed_ttl owner key rounds s =
      transact (owner_decision (completes_op completed_ttl) owner) key rounds s

  unfoldable pub release : (owner : String) → String → List Round → State → Ended × State
  unfolding transact owner_decision
  release owner key rounds s = transact (owner_decision deletes_op owner) key rounds s

  unfoldable pub renew_existing : (owner : String) (lease now : ℕ) → Option Claim → Decision
  renew_existing owner lease now none = fails
  renew_existing owner lease now (some c) =
      if not (c.owner == owner) || c.completed
      then answers (renewed false)
      else writes (encode (lease_claim owner (now + lease))) (at_least_one lease) (renewed true)

  unfoldable pub renew_decision : (owner : String) (lease now : ℕ) → Option String → Decision
  unfolding renew_existing
  renew_decision owner lease now none = answers (renewed false)
  renew_decision owner lease now (some raw) = renew_existing owner lease now (decode raw)

  unfoldable pub renew : (owner : String) (lease : ℕ) → String → List Round → State → Ended × State
  unfolding transact renew_decision
  renew owner lease key rounds s = transact (renew_decision owner lease) key rounds s
