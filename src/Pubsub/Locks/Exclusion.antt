-- ===== src/Pubsub/Locks/Exclusion.antt =====
-- How many tasks hold the lock of a key.
use chattice.Base.{
  ℕ, suc, ◌≤◌, ◌<◌, ◌≡◌, refl, ap, sym, ◌∙◌, String, Bool, true, false, Option, none, some, List,
  if◌then◌else◌, arith, Bool-cases, inl, inr,
}
use mathlib.Core.Path.{subst}
use mathlib.Core.Option.{some-injective}
use chattice.Base.Eq.{string_eq, ◌==◌}
use chattice.Dict.{get, put, get-put, get-put_self}
use chattice.Pubsub.Locks.{
  Registry, lock_of, arrive, clean_up, release, Task, System, Take, Step, arrives, is_given,
  is_cancelled, releases, Reachable, begins, goes_on,
}
use chattice.Pubsub.Locks.Counting.{
  Uses-unused, users, holders, Uses, Agrees, Inv, begins-Inv, holders-le,
}
use chattice.Pubsub.Locks.Holding.{cancel-Inv, Agrees-at, give-Inv, unlocked, unlock-Inv}
use chattice.Pubsub.Locks.Cleaning.{clean_up-Inv, release-unlocked, join-Inv}

unused :
    (r : Registry) (key : String) (ts : List Task)
    → Inv r ts
    → get r.locks key ≡ none
    → users key ts ≡ 0
unused r key ts i e = subst (Agrees r (users key ts) (holders key ts)) e (i.agrees key)

-- A new lock for a key without one.
new_lock-Inv :
    (r : Registry) (key : String) (ts : List Task)
    → get r.locks key ≡ none
    → Inv r ts
    → Inv (record r { locks = put r.locks key r.next; next = suc r.next }) ts
new_lock-Inv r key ts e i = record {
  counted = i.counted;
  uses = λ k. rw (get-put r.locks key k r.next) (uses_new k);
  agrees = λ k. rw (get-put r.locks key k r.next) (agrees_new k);
  fresh = λ l le. i.fresh l (omega (arith, le));
  own = λ j k l g h. ground (
    arith,
    get-put r.locks key j r.next,
    get-put r.locks key k r.next,
    i.own j k l,
    below j l,
    below k l,
    string_eq.beq_iff key j,
    string_eq.beq_iff key k,
  );
}
  where
    idle : users key ts ≡ 0
    idle = unused r key ts i e

    below : (j : String) (l : ℕ) → get r.locks j ≡ some l → l < r.next
    below j l g = (Agrees-at r ts j l i g).0

    uses_new : (k : String) → Uses (if key == k then some r.next else get r.locks k) k ts
    uses_new k = elim (Bool-cases (key == k)) [
      | inl equals ↦
          Uses-unused (if key == k then some r.next else get r.locks k) k ts
            (ap (λ j. users j ts) (sym ((string_eq.beq_iff key k).0 equals)) ∙ idle)
      | inr differs ↦ rw (differs) (i.uses k)
    ]

    raise_bound :
        (k : String) (o : Option ℕ)
        → Agrees r (users k ts) (holders k ts) o
        → Agrees (record r { next = suc r.next }) (users k ts) (holders k ts) o
    raise_bound k none a = a
    raise_bound k (some l) (lt, a) = (omega (arith, lt), a)

    agrees_new :
        (k : String)
        → Agrees
            (record r { next = suc r.next })
            (users k ts)
            (holders k ts)
            (if key == k then some r.next else get r.locks k)
    agrees_new k = elim (Bool-cases (key == k)) [
      | inl equals ↦
          rw (equals, i.fresh r.next (omega arith))
            (
              omega arith,
              omega (
                arith,
                holders-le k ts,
                ap (λ j. users j ts) (sym ((string_eq.beq_iff key k).0 equals)) ∙ idle,
              ),
            )
      | inr differs ↦ rw (differs) (raise_bound k (get r.locks k) (i.agrees k))
    ]

lock_of-Inv :
    (r : Registry) (key : String) (ts : List Task) (o : Option ℕ)
    → get r.locks key ≡ o
    → Inv r ts
    → Inv (lock_of r key o).0 ts × (get (lock_of r key o).0.locks key ≡ some (lock_of r key o).1)
unfolding lock_of
lock_of-Inv r key ts none e i = (new_lock-Inv r key ts e i, get-put_self r.locks key r.next)
lock_of-Inv r key ts (some l) e i = (i, e)

Step-Inv : {s s' : System} → Step s s' → Inv s.registry s.tasks → Inv s'.registry s'.tasks
unfolding arrive
Step-Inv (arrives {r} {tasks} key) i =
    let (kept, e) = lock_of-Inv r key tasks (get r.locks key) refl i in
    join-Inv (lock_of r key (get r.locks key)).0 key (lock_of r key (get r.locks key)).1 tasks e
      kept
Step-Inv (is_given {r} t p idle free) i = give-Inv r t p idle free i
Step-Inv (is_cancelled {r} t p idle) i = cancel-Inv r t p idle i
Step-Inv (releases {r} {r'} {tasks} {rest} t p holds e) i =
    subst (λ x. Inv x rest) (some-injective _ _ (sym (release-unlocked r t p holds i) ∙ e))
      (clean_up-Inv (unlocked r t) t.key rest (unlock-Inv r t p holds i))

Reachable-Inv : {s : System} → Reachable s → Inv s.registry s.tasks
Reachable-Inv begins = begins-Inv
Reachable-Inv (goes_on h step) = Step-Inv step (Reachable-Inv h)

bit-le : (b : Bool) → (if b then 1 else 0) ≤ 1
bit-le true = omega arith
bit-le false = omega arith

at-most-one : (r : Registry) (n h : ℕ) (o : Option ℕ) → h ≤ n → Agrees r n h o → h ≤ 1
at-most-one r n h none le a = omega (arith, a)
at-most-one r n h (some l) le (lt, a) = rw (a) (bit-le (r.locked l))

-- Whatever order the tasks arrive, are given their locks, are cancelled and release in, at most one task
-- at a time holds the lock of a key, and a task that holds one releases it without an error.
pub locks_exclude :
    {s : System}
    → Reachable s
    → ((k : String) → holders k s.tasks ≤ 1)
      × ((t : Task) (rest : List Task)
          → Take t s.tasks rest
          → t.holding ≡ true
          → (r : Registry) × (release s.registry t.key ≡ some r))
locks_exclude {s} h =
    let i = Reachable-Inv h in
    (
      λ k.
          at-most-one s.registry (users k s.tasks) (holders k s.tasks) (get s.registry.locks k)
            (holders-le k s.tasks) (i.agrees k),
      λ t rest p holds.
          (clean_up t.key (unlocked s.registry t), release-unlocked s.registry t p holds i),
    )
