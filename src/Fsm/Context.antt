-- ===== src/Fsm/Context.antt =====
-- src/chattice/fsm/context.py, filter.py and states.py: the context of one event, over any storage that
-- keeps the contract of `BaseStorage`.
pub mod Routing
use chattice.Base.{
  ◌≡◌, ◌≢◌, String, Bool, true, false, Option, none, some, List, [], ◌∷◌, any, str_eq,
}
use Prim.Native.String.{◌++◌ as append}
use chattice.Dict.{Dict}
use chattice.Fsm.Key.{StorageKey}
use chattice.Fsm.Json.{Object, Json}
use chattice.Fsm.Memory
use chattice.Fsm.Memory.{MemoryStorage}
use chattice.Fsm.Contract.{
  View, StorageCall, set_state_call, set_data_call, update_data_call, finish_call, effect,
}
use chattice.Fsm.Contract.InMemory
use chattice.Fsm.Contract.InMemory.{view-perform_self, view-perform_ne}

-- What the context needs of a storage: reads, writes, and that they keep the contract.
pub record BaseStorage (S : Type 0) : Type 0 where
  pub get_state : S → StorageKey → Option String
  pub get_data : S → StorageKey → Dict String Object
  pub perform : S → StorageKey → StorageCall → S
  pub perform_self :
      (s : S) (key : StorageKey) (c : StorageCall)
      → ◌≡◌ {A = View}
          (get_state (perform s key c) key, get_data (perform s key c) key)
          (effect c (get_state s key, get_data s key))
  pub perform_ne :
      (s : S) (key j : StorageKey) (c : StorageCall)
      → key ≢ j
      → ◌≡◌ {A = View}
          (get_state (perform s key c) j, get_data (perform s key c) j)
          (get_state s j, get_data s j)

-- The in-process storage is one.
instance abbrev pub memory_storage : BaseStorage MemoryStorage
memory_storage = record {
  get_state = Memory.get_state;
  get_data = Memory.get_data;
  perform = InMemory.perform;
  perform_self = view-perform_self;
  perform_ne = view-perform_ne;
}

-- A `State`: its explicit key, or its group and its name once it is a member of a group.
pub record State : Type 0 where
  pub explicit : Option String
  pub bound : Option (String × String)

-- `State.state`; no value is the `RuntimeError` of an unbound state.
unfoldable pub bound_key : Option (String × String) → Option String
bound_key none = none
bound_key (some (group, name)) = some (append (append group ":") name)

unfoldable pub key_of : Option String → Option (String × String) → Option String
key_of (some key) bound = some key
key_of none bound = bound_key bound

unfoldable pub state_key : State → Option String
state_key state = key_of state.explicit state.bound

-- An `FSMContext` is the key that it is bound to, or none.
abbrev pub Context : Type 0
Context = Option StorageKey

-- The last tests of `StateFilter.__call__`: a filter without states takes any state.
unfoldable pub in_states : List String → Option String → Bool
in_states states none = false
in_states [] (some current) = true
in_states (state ∷ states) (some current) = any (str_eq current) (state ∷ states)

module _ {S : Type 0} ⦃storage : BaseStorage S⦄ where
  unfoldable pub get_state : Context → S → Option String
  get_state none s = none
  get_state (some key) s = storage.get_state s key

  unfoldable pub get_data : Context → S → Dict String Object
  get_data none s = []
  get_data (some key) s = storage.get_data s key

  -- The writes; no value is the `FSMError` of a context without a key.
  unfoldable pub call : Context → StorageCall → S → Option S
  call none c s = none
  call (some key) c s = some (storage.perform s key c)

  -- `StateFilter.__call__`, on what stands under "state" if it is a context.
  unfoldable pub state_filter : List String → Option Context → S → Bool
  state_filter states none s = false
  state_filter states (some context) s = in_states states (get_state context s)
