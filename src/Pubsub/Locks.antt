-- ===== src/Pubsub/Locks.antt =====
-- `_KeyedLockRegistry` of src/chattice/transports/pubsub_runner.py, and the tasks that use it. An `asyncio.Lock`
-- is an object with a number; a task waits for its lock until it is free and is given to it.
pub mod Counting
pub mod Holding
pub mod Cleaning
pub mod Exclusion
use chattice.Base.{
  ℕ, suc, ◌+◌, ◌-◌, ◌≡◌, String, Bool, true, false, Option, none, some, and_then, or_else, leb,
  nat_beq, List, [], ◌∷◌, if◌then◌else◌,
}
use chattice.Base.Eq.{string_eq, ◌==◌}
use chattice.Dict.{Dict, get, put, remove}

pub record Registry : Type 0 where
  pub locks : Dict String ℕ
  pub waiters : Dict String ℕ
  -- `lock.locked()`, and the number of the next lock to be made.
  pub locked : ℕ → Bool
  pub next : ℕ

abbrev pub empty : Registry
empty = record { locks = []; waiters = []; locked = λ l. false; next = 0 }

abbrev pub waiting : Registry → String → ℕ
waiting r key = or_else (get r.waiters key) 0

abbrev pub set_locked : (ℕ → Bool) → ℕ → Bool → ℕ → Bool
set_locked locked l b j = if nat_beq l j then b else locked j

-- `_drop_waiter`
unfoldable pub drop_waiter : Registry → String → Registry
drop_waiter r key = record r {
  waiters =
      if leb (waiting r key) 1 then remove r.waiters key else put r.waiters key (waiting r key - 1);
}

-- The lock of a key, which is made when it is missing.
unfoldable pub lock_of : Registry → String → Option ℕ → Registry × ℕ
lock_of r key (some l) = (r, l)
lock_of r key none = (record r { locks = put r.locks key r.next; next = suc r.next }, r.next)

-- `acquire` up to the wait for the lock.
unfoldable pub arrive : Registry → String → Registry × ℕ
arrive r key =
    let (r', l) = lock_of r key (get r.locks key) in
    (record r' { waiters = put r'.waiters key (waiting r' key + 1) }, l)

-- `release`; no value is the `KeyError` of a missing lock, or the `RuntimeError` of one that is not
-- locked.
unfoldable pub unlock : Registry → ℕ → Option Registry
unlock r l = if r.locked l then some (record r { locked = set_locked r.locked l false }) else none

unfoldable pub clean_up : String → Registry → Registry
clean_up key r = if nat_beq (waiting r key) 0 then record r { locks = remove r.locks key } else r

unfoldable pub release : Registry → String → Option Registry
release r key =
    let r' = drop_waiter r key in
    and_then (and_then (get r'.locks key) (unlock r')) (λ r''. some (clean_up key r''))

-- A task between the begin of `acquire` and the end of `release`.
pub record Task : Type 0 where
  pub key : String
  pub lock : ℕ
  pub holding : Bool

pub record System : Type 0 where
  pub registry : Registry
  pub tasks : List Task

-- `rest` is `tasks` without the task `t`.
pub data Take (t : Task) : List Task → List Task → Type 0 where
  here : {rest : List Task} → Take t (t ∷ rest) rest
  there : {u : Task} {tasks rest : List Task} → Take t tasks rest → Take t (u ∷ tasks) (u ∷ rest)

-- What a task does next: it arrives, it is given the free lock that it waits for, it is cancelled while
-- it waits, or it releases.
pub data Step : System → System → Type 0 where
  arrives :
      {r : Registry} {tasks : List Task} (key : String)
      → Step
          (record { registry = r; tasks = tasks })
          (record {
            registry = (arrive r key).0;
            tasks = record { key = key; lock = (arrive r key).1; holding = false } ∷ tasks;
          })
  is_given :
      {r : Registry} {tasks rest : List Task} (t : Task)
      → Take t tasks rest
      → t.holding ≡ false
      → r.locked t.lock ≡ false
      → Step
          (record { registry = r; tasks = tasks })
          (record {
            registry = record r { locked = set_locked r.locked t.lock true };
            tasks = record t { holding = true } ∷ rest;
          })
  is_cancelled :
      {r : Registry} {tasks rest : List Task} (t : Task)
      → Take t tasks rest
      → t.holding ≡ false
      → Step
          (record { registry = r; tasks = tasks })
          (record { registry = drop_waiter r t.key; tasks = rest })
  releases :
      {r r' : Registry} {tasks rest : List Task} (t : Task)
      → Take t tasks rest
      → t.holding ≡ true
      → release r t.key ≡ some r'
      → Step (record { registry = r; tasks = tasks }) (record { registry = r'; tasks = rest })

-- The systems that the steps reach from an unused registry.
pub data Reachable : System → Type 0 where
  begins : Reachable (record { registry = empty; tasks = [] })
  goes_on : {s s' : System} → Reachable s → Step s s' → Reachable s'
