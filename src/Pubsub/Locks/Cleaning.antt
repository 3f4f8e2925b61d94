-- ===== src/Pubsub/Locks/Cleaning.antt =====
-- The invariant when a task arrives and when an idle lock is dropped.
use chattice.Base.{
  ℕ, ◌+◌, ◌≡◌, refl, ap, sym, ◌∙◌, String, true, false, Option, none, some, and_then, nat_beq,
  nat_beq_iff, List, ◌∷◌, if◌then◌else◌, arith, Bool-cases, inl, inr,
}
use chattice.Base.Eq.{string_eq, ◌==◌}
use chattice.Dict.{get, put, remove, get-put, get-remove}
use chattice.Pubsub.Locks.{Registry, waiting, drop_waiter, unlock, clean_up, release, Task, Take}
use chattice.Pubsub.Locks.Counting.{Uses-unused, one, both, users, holders, Uses, Agrees, Inv}
use chattice.Pubsub.Locks.Holding.{both-false, own_lock, held_of, unlocked}

pub clean-Agrees :
    (r : Registry) (key k : String) (ts : List Task)
    → users key ts ≡ 0
    → Inv r ts
    → Agrees r (users k ts) (holders k ts) (if key == k then none else get r.locks k)
clean-Agrees r key k ts idle i = elim (Bool-cases (key == k)) [
  | inl equals ↦
      rw (equals) (ap (λ j. users j ts) (sym ((string_eq.beq_iff key k).0 equals)) ∙ idle)
  | inr differs ↦ rw (differs) (i.agrees k)
]

pub clean-Uses :
    (r : Registry) (key k : String) (ts : List Task)
    → users key ts ≡ 0
    → Inv r ts
    → Uses (if key == k then none else get r.locks k) k ts
clean-Uses r key k ts idle i = elim (Bool-cases (key == k)) [
  | inl equals ↦
      Uses-unused (if key == k then none else get r.locks k) k ts
        (ap (λ j. users j ts) (sym ((string_eq.beq_iff key k).0 equals)) ∙ idle)
  | inr differs ↦ rw (differs) (i.uses k)
]

pub drop-lock-Inv :
    (r : Registry) (key : String) (ts : List Task)
    → users key ts ≡ 0
    → Inv r ts
    → Inv (record r { locks = remove r.locks key }) ts
drop-lock-Inv r key ts idle i = record {
  counted = i.counted;
  uses = λ k. rw (get-remove r.locks key k) (clean-Uses r key k ts idle i);
  agrees = λ k. rw (get-remove r.locks key k) (clean-Agrees r key k ts idle i);
  fresh = i.fresh;
  own =
      λ j k l e g. ground (arith, get-remove r.locks key j, get-remove r.locks key k, i.own j k l);
}

pub clean_up-Inv :
    (r : Registry) (key : String) (ts : List Task) → Inv r ts → Inv (clean_up key r) ts
unfolding clean_up
clean_up-Inv r key ts i = elim (Bool-cases (nat_beq (waiting r key) 0)) [
  | inl idle ↦
      rw (clean_up, idle)
        (drop-lock-Inv r key ts (sym (i.counted key) ∙ (nat_beq_iff (waiting r key) 0).0 idle) i)
  | inr busy ↦ rw (clean_up, busy) i
]

-- A task that holds a lock releases it without an error.
pub release-unlocked :
    (r : Registry) (t : Task) {ts rest : List Task}
    → Take t ts rest
    → t.holding ≡ true
    → Inv r ts
    → release r t.key ≡ some (clean_up t.key (unlocked r t))
unfolding release drop_waiter unlock
release-unlocked r t p holds i =
    ap (λ o. and_then (and_then o (unlock (drop_waiter r t.key))) (λ r'. some (clean_up t.key r')))
      (own_lock r t p i)
    ∙ ap (λ b. and_then (if b then some (unlocked r t) else none) (λ r'. some (clean_up t.key r')))
        (held_of r t p i holds)

pub join-Inv :
    (r : Registry) (key : String) (l : ℕ) (ts : List Task)
    → get r.locks key ≡ some l
    → Inv r ts
    → Inv
        (record r { waiters = put r.waiters key (waiting r key + 1) })
        (record { key = key; lock = l; holding = false } ∷ ts)
unfolding users holders
join-Inv r key l ts e i = record {
  counted = λ k. ground (
    arith,
    get-put r.waiters key k (waiting r key + 1),
    i.counted k,
    i.counted key,
    string_eq.beq_iff key k,
  );
  uses = λ k. (λ same. ap (get r.locks) (sym same) ∙ e, i.uses k);
  agrees = λ k. joined k (get r.locks k) refl (i.agrees k);
  fresh = i.fresh;
  own = i.own;
}
  where
    joined :
        (k : String) (o : Option ℕ)
        → get r.locks k ≡ o
        → Agrees r (users k ts) (holders k ts) o
        → Agrees r (one (key == k) + users k ts) (both (key == k) false + holders k ts) o
    joined k (some m) g (lt, a) =
        (lt, ap (λ x. x + holders k ts) (both-false (key == k) false refl) ∙ omega (arith, a))
    joined k none g a = elim (Bool-cases (key == k)) [
      | inl equals ↦
          ground (arith, sym e ∙ ap (get r.locks) ((string_eq.beq_iff key k).0 equals) ∙ g)
      | inr differs ↦ rw (differs) (omega (arith, a))
    ]
