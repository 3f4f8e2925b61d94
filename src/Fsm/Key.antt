-- ===== src/Fsm/Key.antt =====
-- `StorageKey` and `FSMStrategy` of src/chattice/fsm/storage.py.
use chattice.Base.{String, ◌≡◌, ◌↔◌, Bool, true, ◌&&◌, Option, none, some, arith, is_some}
use chattice.Base.Eq.{Eq, ◌==◌, string_eq, option_eq, option_beq_iff}
use chattice.Events.{UserRef, SpaceRef, ThreadRef, Event, common}

pub data FsmStrategy : Type 0 where
  user_in_space user space : FsmStrategy

pub record StorageKey : Type 0 where
  pub user : Option String
  pub space : Option String
  pub thread : Option String

unfoldable pub key_beq : StorageKey → StorageKey → Bool
key_beq a b = a.user == b.user && (a.space == b.space && a.thread == b.thread)

pub key_beq_iff : (a b : StorageKey) → (key_beq a b ≡ true) ↔ (a ≡ b)
unfolding key_beq
key_beq_iff a b = ground (
  arith,
  option_beq_iff a.user b.user,
  option_beq_iff a.space b.space,
  option_beq_iff a.thread b.thread,
)

instance abbrev pub key_eq : Eq StorageKey
key_eq = record { beq = key_beq; beq_iff = key_beq_iff }

unfoldable pub user_name : Option UserRef → Option String
user_name none = none
user_name (some r) = r.name

unfoldable pub space_name : Option SpaceRef → Option String
space_name none = none
space_name (some r) = r.name

unfoldable pub thread_name : Option ThreadRef → Option String
thread_name none = none
thread_name (some r) = r.name

-- `StorageKey.build`, once the names are read off the event.
build_from : FsmStrategy → Option String → Option String → Option String → Option StorageKey
build_from user_in_space (some u) (some s) t =
    some (record { user = some u; space = some s; thread = t })
build_from user_in_space _ _ t = none
build_from user (some u) s t = some (record { user = some u; space = none; thread = none })
build_from user none s t = none
build_from space u (some s) t = some (record { user = none; space = some s; thread = none })
build_from space u none t = none

unfoldable pub build : Event → FsmStrategy → Option StorageKey
unfolding build_from user_name space_name thread_name
build e strategy =
    build_from strategy (user_name (common e).actor) (space_name (common e).space)
      (thread_name (common e).thread)

-- What a strategy needs of the names, and the key that it then gives.
abbrev pub Keyed : FsmStrategy → Option String → Option String → Option String → StorageKey → Type 0
Keyed user_in_space u s t k =
    (is_some u ≡ true) × (is_some s ≡ true) × (k ≡ record { user = u; space = s; thread = t })
Keyed user u s t k = (is_some u ≡ true) × (k ≡ record { user = u; space = none; thread = none })
Keyed space u s t k = (is_some s ≡ true) × (k ≡ record { user = none; space = s; thread = none })

build_from-Keyed :
    (strategy : FsmStrategy) (u s t : Option String) (k : StorageKey)
    → (build_from strategy u s t ≡ some k) ↔ Keyed strategy u s t k
unfolding build_from
build_from-Keyed user_in_space (some u) (some s) t k = ground arith
build_from-Keyed user_in_space (some u) none t k = ground arith
build_from-Keyed user_in_space none s t k = ground arith
build_from-Keyed user (some u) s t k = ground arith
build_from-Keyed user none s t k = ground arith
build_from-Keyed space u (some s) t k = ground arith
build_from-Keyed space u none t k = ground arith

-- A key is built exactly when the event names what the strategy needs, and then from those names alone.
pub build-Keyed :
    (e : Event) (strategy : FsmStrategy) (k : StorageKey)
    → (build e strategy ≡ some k)
      ↔ Keyed strategy
          (user_name (common e).actor)
          (space_name (common e).space)
          (thread_name (common e).thread)
          k
unfolding build
build-Keyed e strategy k =
    build_from-Keyed strategy (user_name (common e).actor) (space_name (common e).space)
      (thread_name (common e).thread) k
