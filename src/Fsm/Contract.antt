-- ===== src/Fsm/Contract.antt =====
-- The contract of `BaseStorage` in src/chattice/fsm/storage.py: a state and a dict under each key, and what
-- the calls make of them.
pub mod InMemory
pub mod OverRecords
use chattice.Base.{String, Option, none, some, []}
use chattice.Base.Eq.{string_eq}
use chattice.Dict
use chattice.Dict.{Dict}
use chattice.Fsm.Json.{Object, Json}
use chattice.Fsm.Record.Data.{embed_dict}

abbrev pub View : Type 0
View = Option String × Dict String Object

-- The calls that write; their data is JSON, which both storages accept.
pub data StorageCall : Type 0 where
  set_state_call : Option String → StorageCall
  set_data_call update_data_call : Dict String Json → StorageCall
  finish_call : StorageCall

abbrev pub effect : StorageCall → View → View
effect (set_state_call state) v = (state, v.1)
effect (set_data_call d) v = (v.0, embed_dict d)
effect (update_data_call partial) v = (v.0, Dict.update v.1 (embed_dict partial))
effect finish_call v = (none, [])
