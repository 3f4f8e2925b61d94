-- ===== src/Pubsub/Locks/Holding.antt =====
-- The invariant when a task is cancelled, is given its lock, or unlocks it.
use chattice.Base.{
  ℕ, ◌+◌, ◌≤◌, ◌<◌, ◌≡◌, refl, ap, sym, ◌∙◌, String, Bool, true, false, Option, none, some, nat_beq,
  nat_beq_iff, List, ◌∷◌, if◌then◌else◌, arith, Bool-cases, inl, inr,
}
use mathlib.Core.Path.{subst}
use mathlib.Core.Option.{some-injective}
use chattice.Base.Eq.{string_eq, ◌==◌}
use chattice.Dict.{get}
use chattice.Pubsub.Locks.{Registry, set_locked, drop_waiter, Task, Take}
use chattice.Pubsub.Locks.Counting.{
  users-Take, Uses-Take, one, both, users, holders, Agrees, Inv, holders-Take, waiting-drop,
}

pub Agrees-less :
    (r : Registry) (o : Option ℕ) (n n' h h' : ℕ)
    → Agrees r n h o
    → n' ≤ n
    → h' ≡ h
    → Agrees r n' h' o
Agrees-less r none n n' h h' a le e = omega (arith, a)
Agrees-less r (some l) n n' h h' (lt, a) le e = (lt, e ∙ a)

pub both-false : (b h : Bool) → h ≡ false → both b h ≡ 0
both-false true h e = ap one e
both-false false h e = refl

pub cancel-Inv :
    (r : Registry) (t : Task) {ts rest : List Task}
    → Take t ts rest
    → t.holding ≡ false
    → Inv r ts
    → Inv (drop_waiter r t.key) rest
unfolding drop_waiter
cancel-Inv r t p idle i = record {
  counted = λ k. waiting-drop r t.key k ∙ omega (arith, i.counted k, users-Take k t p);
  uses = λ k. (Uses-Take (get r.locks k) k t p (i.uses k)).1;
  agrees = λ k.
      Agrees-less (drop_waiter r t.key) (get r.locks k) _ _ _ _ (i.agrees k)
        (omega (arith, users-Take k t p))
        (omega (arith, holders-Take k t p, both-false (t.key == k) t.holding idle));
  fresh = i.fresh;
  own = i.own;
}

-- The lock that a task refers to is the lock of its key.
pub own_lock :
    (r : Registry) (t : Task) {ts rest : List Task}
    → Take t ts rest
    → Inv r ts
    → get r.locks t.key ≡ some t.lock
own_lock r t p i = (Uses-Take (get r.locks t.key) t.key t p (i.uses t.key)).0 refl

pub one-if : (b : Bool) → one b ≡ (if b then 1 else 0)
one-if true = refl
one-if false = refl

pub set-true :
    (b held : Bool) (rest h h' : ℕ)
    → h ≡ one held + rest
    → h ≡ (if held then 1 else 0)
    → h' ≡ one b + rest
    → h' ≡ (if b then 1 else 0)
set-true b held rest h h' e a e' = omega (arith, e, a, e', one-if b, one-if held)

-- The agreement of a key after the lock of `t` has changed to `b`, which is what `t` now holds.
pub Agrees-set :
    (r : Registry) (t : Task) (k : String) (o : Option ℕ) (n n' h h' rest : ℕ) (b : Bool)
    → get r.locks t.key ≡ some t.lock
    → ((l : ℕ) → get r.locks t.key ≡ some l → o ≡ some l → t.key ≡ k)
    → (t.key ≡ k → o ≡ some t.lock)
    → r.locked t.lock ≡ t.holding
    → h ≡ both (t.key == k) t.holding + rest
    → h' ≡ both (t.key == k) b + rest
    → n' ≤ n
    → Agrees r n h o
    → Agrees (record r { locked = set_locked r.locked t.lock b }) n' h' o
Agrees-set r t k none n n' h h' rest b mine own same held e e' le a = omega (arith, a)
Agrees-set r t k (some l) n n' h h' rest b mine own same held e e' le (lt, a) = (
  lt,
  elim (Bool-cases (t.key == k)) [
    | inl equals ↦
        let here : l ≡ t.lock = some-injective _ _ (same ((string_eq.beq_iff t.key k).0 equals)) in
        rw (here, beq_self t.lock)
          (set-true b t.holding rest h h' (rw (equals) at e)
            (a ∙ ap (λ x. if x then 1 else 0) (ap r.locked here ∙ held)) (rw (equals) at e'))
    | inr differs ↦
        let other : nat_beq t.lock l ≡ false = apart differs in
        rw (other) (omega (arith, (rw (differs) at e'), (rw (differs) at e)) ∙ a)
  ],
)
  where
    beq_self : (n : ℕ) → nat_beq n n ≡ true
    beq_self n = (nat_beq_iff n n).1 refl

    clash : (t.key == k) ≡ false → t.lock ≡ l → ⊥
    clash differs eq =
        ground (arith, string_eq.beq_iff t.key k, own t.lock mine (ap some (sym eq)), differs)

    apart : (t.key == k) ≡ false → nat_beq t.lock l ≡ false
    apart differs = elim (Bool-cases (nat_beq t.lock l)) [
      | inl eq ↦ absurd (clash differs ((nat_beq_iff t.lock l).0 eq))
      | inr ne ↦ ne
    ]

pub Agrees-at :
    (r : Registry) (ts : List Task) (k : String) (l : ℕ)
    → Inv r ts
    → get r.locks k ≡ some l
    → (l < r.next) × (holders k ts ≡ (if r.locked l then 1 else 0))
Agrees-at r ts k l i e = subst (Agrees r (users k ts) (holders k ts)) e (i.agrees k)

pub locked-one : (b : Bool) (n : ℕ) → 1 + n ≡ (if b then 1 else 0) → b ≡ true
locked-one true n h = refl
locked-one false n h = absurd (omega (arith, h))

-- The lock of a task that holds it is locked.
pub held_of :
    (r : Registry) (t : Task) {ts rest : List Task}
    → Take t ts rest
    → Inv r ts
    → t.holding ≡ true
    → r.locked t.lock ≡ true
held_of r t {ts} {rest} p i holds = locked-one (r.locked t.lock) (holders t.key rest) (
    sym (holders-Take t.key t p ∙ ap (λ x. x + holders t.key rest) (ap₂_both (self t.key) holds))
    ∙ (Agrees-at r ts t.key t.lock i (own_lock r t p i)).1)
  where
    self : (k : String) → (k == k) ≡ true
    self k = (string_eq.beq_iff k k).1 refl

    ap₂_both : {a b : Bool} → a ≡ true → b ≡ true → both a b ≡ 1
    ap₂_both e f = rw (e, f) refl

-- The lock of `t` is set to what `t` holds next.
pub set-fresh :
    (r : Registry) (t : Task) {ts rest : List Task} (b : Bool)
    → Take t ts rest
    → Inv r ts
    → (l : ℕ) → r.next ≤ l
    → set_locked r.locked t.lock b l ≡ false
set-fresh r t {ts} b p i l le =
    ground (arith, i.fresh l le, (Agrees-at r ts t.key t.lock i (own_lock r t p i)).0)

pub give-Inv :
    (r : Registry) (t : Task) {ts rest : List Task}
    → Take t ts rest
    → t.holding ≡ false
    → r.locked t.lock ≡ false
    → Inv r ts
    → Inv
        (record r { locked = set_locked r.locked t.lock true })
        (record t { holding = true } ∷ rest)
unfolding users holders
give-Inv r t {ts} {rest} p idle free i = record {
  counted = λ k. i.counted k ∙ users-Take k t p;
  uses = λ k. Uses-Take (get r.locks k) k t p (i.uses k);
  agrees = λ k.
      Agrees-set r t k (get r.locks k) (users k ts) _ (holders k ts) _ (holders k rest) true
        (own_lock r t p i) (λ l e g. i.own t.key k l e g)
        (Uses-Take (get r.locks k) k t p (i.uses k)).0 (free ∙ sym idle) (holders-Take k t p) refl
        (omega (arith, users-Take k t p)) (i.agrees k);
  fresh = set-fresh r t true p i;
  own = i.own;
}

-- The registry of a release, before the idle lock is dropped.
abbrev pub unlocked : Registry → Task → Registry
unlocked r t = record (drop_waiter r t.key) { locked = set_locked r.locked t.lock false }

pub unlock-Inv :
    (r : Registry) (t : Task) {ts rest : List Task}
    → Take t ts rest
    → t.holding ≡ true
    → Inv r ts
    → Inv (unlocked r t) rest
unfolding drop_waiter
unlock-Inv r t {ts} {rest} p holds i = record {
  counted = λ k. waiting-drop r t.key k ∙ omega (arith, i.counted k, users-Take k t p);
  uses = λ k. (Uses-Take (get r.locks k) k t p (i.uses k)).1;
  agrees = λ k.
      Agrees-set r t k (get r.locks k) (users k ts) _ (holders k ts) _ (holders k rest) false
        (own_lock r t p i) (λ l e g. i.own t.key k l e g)
        (Uses-Take (get r.locks k) k t p (i.uses k)).0 (held_of r t p i holds ∙ sym holds)
        (holders-Take k t p) (omega (arith, both-false (t.key == k) false refl))
        (omega (arith, users-Take k t p)) (i.agrees k);
  fresh = set-fresh r t false p i;
  own = i.own;
}
