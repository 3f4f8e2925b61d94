-- ===== src/Fsm/Contract/InMemory.antt =====
-- `MemoryStorage` and the contract of the storages.
use chattice.Base.{◌≡◌, ◌≢◌, Option, none, some, arith, Option-cases, inl, inr, if◌then◌else◌}
use chattice.Base.Eq.{string_eq}
use chattice.Dict
use chattice.Dict.{Dict, get-put, get-remove, get-put_self, get-remove_self}
use chattice.Fsm.Key.{StorageKey, key_beq, key_eq, key_beq_iff}
use chattice.Fsm.Record.Data.{embed_dict}
use chattice.Fsm.Memory
use chattice.Fsm.Memory.{MemoryStorage, StateRecord, new_record, record_for}
use chattice.Fsm.Contract.{
  View, StorageCall, set_state_call, set_data_call, update_data_call, finish_call, effect,
}

abbrev pub view : MemoryStorage → StorageKey → View
view s key = (Memory.get_state s key, Memory.get_data s key)

unfoldable pub perform : MemoryStorage → StorageKey → StorageCall → MemoryStorage
perform s key (set_state_call state) = Memory.set_state s key state
perform s key (set_data_call d) = Memory.set_data s key (embed_dict d)
perform s key (update_data_call partial) = (Memory.update_data s key (embed_dict partial)).0
perform s key finish_call = Memory.finish s key

-- What each call leaves under its key, by whether the key had a record.
abbrev base : Option StateRecord → StateRecord
base none = new_record
base (some r) = r

-- Whatever the record of the key was, the writes end in one `put`.
put_state :
    (s : MemoryStorage) (key j : StorageKey) (r : StateRecord)
    → (Dict.get (Dict.put (record_for s key).0.records key r) j
        ≡ (if key_beq key j then some r else Dict.get s.records j))
      × ((record_for s key).1 ≡ base (Dict.get s.records key))
unfolding record_for
put_state s key j r = elim (Option-cases (Dict.get s.records key)) [
  | inl e ↦ ground (
    arith,
    e,
    get-put (Dict.put s.records key new_record) key j r,
    get-put s.records key j new_record,
  )
  | inr (q, e) ↦ ground (arith, e, get-put s.records key j r)
]

-- A call changes its key's view as the contract says.
pub view-perform_self :
    (s : MemoryStorage) (key : StorageKey) (c : StorageCall)
    → view (perform s key c) key ≡ effect c (view s key)
unfolding perform Memory.set_state Memory.set_data Memory.update_data Memory.finish Memory.get_state
    Memory.get_data
view-perform_self s key (set_state_call state) = ground (
  arith,
  key_beq_iff key key,
  put_state s key key (record (record_for s key).1 { state = state }),
)
view-perform_self s key (set_data_call d) = ground (
  arith,
  key_beq_iff key key,
  put_state s key key (record (record_for s key).1 { data_fields = embed_dict d }),
)
view-perform_self s key (update_data_call p) = ground (
  arith,
  key_beq_iff key key,
  put_state s key key (record (record_for s key).1 {
    data_fields = Dict.update (record_for s key).1.data_fields (embed_dict p);
  }),
)
view-perform_self s key finish_call =
    ground (arith, key_beq_iff key key, get-remove s.records key key)

-- A call leaves the views of all other keys as they are.
pub view-perform_ne :
    (s : MemoryStorage) (key j : StorageKey) (c : StorageCall)
    → key ≢ j
    → view (perform s key c) j ≡ view s j
unfolding perform Memory.set_state Memory.set_data Memory.update_data Memory.finish Memory.get_state
    Memory.get_data
view-perform_ne s key j (set_state_call state) ne =
    ground
      (arith, key_beq_iff key j, put_state s key j (record (record_for s key).1 { state = state }))
view-perform_ne s key j (set_data_call d) ne = ground (
  arith,
  key_beq_iff key j,
  put_state s key j (record (record_for s key).1 { data_fields = embed_dict d }),
)
view-perform_ne s key j (update_data_call p) ne = ground (
  arith,
  key_beq_iff key j,
  put_state s key j (record (record_for s key).1 {
    data_fields = Dict.update (record_for s key).1.data_fields (embed_dict p);
  }),
)
view-perform_ne s key j finish_call ne =
    ground (arith, key_beq_iff key j, get-remove s.records key j)
