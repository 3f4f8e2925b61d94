-- ===== src/Pubsub/Locks/Counting.antt =====
-- The tasks on a key, those that hold its lock, and the invariant that relates them to the registry.
use chattice.Base.{
  ℕ, ◌+◌, ◌-◌, ◌≤◌, ◌<◌, ◌≡◌, refl, String, Bool, true, false, Option, none, some, List, [], ◌∷◌,
  if◌then◌else◌, arith,
}
use chattice.Base.Eq.{string_eq, ◌==◌}
use chattice.Dict.{get, get-put, get-remove}
use chattice.Pubsub.Locks.{Registry, empty, waiting, drop_waiter, Task, Take, here, there}

abbrev pub one : Bool → ℕ
one true = 1
one false = 0

abbrev pub both : Bool → Bool → ℕ
both true b = one b
both false b = 0

-- The tasks on a key, and those of them that hold its lock.
unfoldable pub users : String → List Task → ℕ
users k [] = 0
users k (t ∷ ts) = one (t.key == k) + users k ts

unfoldable pub holders : String → List Task → ℕ
holders k [] = 0
holders k (t ∷ ts) = both (t.key == k) t.holding + holders k ts

-- Each task on the key refers to the lock `l`.
abbrev pub Uses : Option ℕ → String → List Task → Type 0
Uses o k [] = Unit
Uses o k (t ∷ ts) = (t.key ≡ k → o ≡ some t.lock) × Uses o k ts

-- The lock of a key is locked exactly when one task on the key holds it.
abbrev pub Agrees : Registry → ℕ → ℕ → Option ℕ → Type 0
Agrees r n h none = n ≡ 0
Agrees r n h (some l) = (l < r.next) × (h ≡ (if r.locked l then 1 else 0))

pub record Inv (r : Registry) (ts : List Task) : Type 0 where
  pub counted : (k : String) → waiting r k ≡ users k ts
  pub uses : (k : String) → Uses (get r.locks k) k ts
  pub agrees : (k : String) → Agrees r (users k ts) (holders k ts) (get r.locks k)
  pub fresh : (l : ℕ) → r.next ≤ l → r.locked l ≡ false
  pub own : (j k : String) (l : ℕ) → get r.locks j ≡ some l → get r.locks k ≡ some l → j ≡ k

pub begins-Inv : Inv empty []
unfolding get users holders
begins-Inv = record {
  counted = λ k. refl;
  uses = λ k. tt;
  agrees = λ k. refl;
  fresh = λ l h. refl;
  own = λ j k l h g. ground (arith, h);
}

pub users-Take :
    (k : String) (t : Task) {ts rest : List Task}
    → Take t ts rest
    → users k ts ≡ one (t.key == k) + users k rest
unfolding users
users-Take k t here = refl
users-Take k t (there {u} p) = omega (arith, users-Take k t p)

pub holders-Take :
    (k : String) (t : Task) {ts rest : List Task}
    → Take t ts rest
    → holders k ts ≡ both (t.key == k) t.holding + holders k rest
unfolding holders
holders-Take k t here = refl
holders-Take k t (there {u} p) = omega (arith, holders-Take k t p)

pub Uses-Take :
    (o : Option ℕ) (k : String) (t : Task) {ts rest : List Task}
    → Take t ts rest
    → Uses o k ts
    → (t.key ≡ k → o ≡ some t.lock) × Uses o k rest
Uses-Take o k t here h = h
Uses-Take o k t (there {u} p) h = let (a, b) = Uses-Take o k t p h.1 in (a, (h.0, b))

pub both-le : (a b : Bool) → both a b ≤ one a
both-le true true = omega arith
both-le true false = omega arith
both-le false b = omega arith

pub holders-le : (k : String) (ts : List Task) → holders k ts ≤ users k ts
unfolding holders users
holders-le k [] = omega arith
holders-le k (t ∷ ts) = omega (arith, holders-le k ts, both-le (t.key == k) t.holding)

pub one-zero : (b : Bool) (n : ℕ) → one b + n ≡ 0 → (b ≡ false) × (n ≡ 0)
one-zero true n h = absurd (omega (arith, h))
one-zero false n h = (refl, omega (arith, h))

pub Uses-unused : (o : Option ℕ) (k : String) (ts : List Task) → users k ts ≡ 0 → Uses o k ts
unfolding users
Uses-unused o k [] h = tt
Uses-unused o k (t ∷ ts) h =
    let (ne, none_left) = one-zero (t.key == k) (users k ts) h in
    (λ e. ground (arith, string_eq.beq_iff t.key k, e, ne), Uses-unused o k ts none_left)

-- What dropping a waiter leaves on each key.
pub waiting-drop :
    (r : Registry) (key k : String) → waiting (drop_waiter r key) k ≡ waiting r k - one (key == k)
unfolding drop_waiter
waiting-drop r key k = ground (
  arith,
  get-remove r.waiters key k,
  get-put r.waiters key k (waiting r key - 1),
  string_eq.beq_iff key k,
)
