-- ===== src/Fsm/Memory.antt =====
-- `MemoryStorage` of src/chattice/fsm/storage.py. The body under a key's lock awaits nothing, so each call
-- is one step.
use chattice.Base.{String, Option, none, some, [], if◌then◌else◌, ◌&&◌, not, is_some}
use chattice.Dict
use chattice.Dict.{Dict}
use chattice.Base.Eq.{string_eq}
use chattice.Fsm.Key.{StorageKey, key_eq}
use chattice.Fsm.Json.{Object}

-- `_Record`
pub record StateRecord : Type 0 where
  pub state : Option String
  pub data_fields : Dict String Object

pub record MemoryStorage : Type 0 where
  pub records : Dict StorageKey StateRecord

abbrev pub init : MemoryStorage
init = record { records = [] }

abbrev pub new_record : StateRecord
new_record = record { state = none; data_fields = [] }

-- `_record`: the key's record, which is created if it is missing.
unfoldable pub record_for : MemoryStorage → StorageKey → MemoryStorage × StateRecord
record_for s key = elim (Dict.get s.records key) [
  | none ↦ (record s { records = Dict.put s.records key new_record }, new_record)
  | some r ↦ (s, r)
]

unfoldable pub get_state : MemoryStorage → StorageKey → Option String
get_state s key = elim (Dict.get s.records key) [ none ↦ none | some r ↦ r.state ]

unfoldable pub set_state : MemoryStorage → StorageKey → Option String → MemoryStorage
unfolding Dict.has
set_state s key state =
    if not (is_some state) && not (Dict.has s.records key)
    then s
    else (let (s', r) = record_for s key in
        record s' { records = Dict.put s'.records key (record r { state = state }) })

unfoldable pub get_data : MemoryStorage → StorageKey → Dict String Object
get_data s key = elim (Dict.get s.records key) [ none ↦ [] | some r ↦ r.data_fields ]

unfoldable pub set_data : MemoryStorage → StorageKey → Dict String Object → MemoryStorage
set_data s key d =
    let (s', r) = record_for s key in
    record s' { records = Dict.put s'.records key (record r { data_fields = d }) }

unfoldable pub update_data :
    MemoryStorage → StorageKey → Dict String Object → MemoryStorage × Dict String Object
update_data s key partial =
    let (s', r) = record_for s key in
    let merged = Dict.update r.data_fields partial in
    (record s' { records = Dict.put s'.records key (record r { data_fields = merged }) }, merged)

unfoldable pub finish : MemoryStorage → StorageKey → MemoryStorage
finish s key = record s { records = Dict.remove s.records key }
