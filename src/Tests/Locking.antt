-- ===== src/Tests/Locking.antt =====
-- Two tasks at the update lock of one message.
use chattice.Base.{◌≡◌, ◌≤◌, nat_beq, if◌then◌else◌, refl, String, true, false, some, List, [], ◌∷◌}
use chattice.Base.Eq.{string_eq}
use chattice.Dict.{get, put, remove}
use chattice.Pubsub.Locks.{
  Registry, drop_waiter, lock_of, arrive, clean_up, release, Task, System, Take, here, arrives,
  is_given, Reachable, begins, goes_on,
}
use chattice.Pubsub.Locks.Counting.{holders}
use chattice.Pubsub.Locks.Exclusion.{locks_exclude}

abbrev registry : Registry
registry = record {
  locks = ("m", 0) ∷ [];
  waiters = ("m", 2) ∷ [];
  locked = λ l. if nat_beq 0 l then true else false;
  next = 1;
}

abbrev waits : Task
waits = record { key = "m"; lock = 0; holding = false }

abbrev holds : Task
holds = record { key = "m"; lock = 0; holding = true }

abbrev two_tasks : System
two_tasks = record { registry = registry; tasks = waits ∷ holds ∷ [] }

-- The first task arrives and is given the lock, and the second arrives.
reached : Reachable two_tasks
unfolding arrive lock_of get put
reached =
    goes_on (goes_on (goes_on begins (arrives "m")) (is_given waits here refl refl)) (arrives "m")

locks_exclude_example :
    ((k : String) → holders k two_tasks.tasks ≤ 1)
    × ((t : Task) (rest : List Task)
        → Take t two_tasks.tasks rest
        → t.holding ≡ true
        → (r : Registry) × (release two_tasks.registry t.key ≡ some r))
locks_exclude_example = locks_exclude reached

-- When the first releases and the second is cancelled before it is given the lock, the idle lock stays
-- in the registry.
kept_lock :
    get
      (drop_waiter
        (clean_up "m" (record (drop_waiter registry "m") { locked = λ l. false }))
        "m").locks
      "m"
    ≡ some 0
unfolding drop_waiter clean_up get put remove
kept_lock = refl
