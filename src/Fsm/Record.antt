-- ===== src/Fsm/Record.antt =====
-- `FSMRecord` and `MemoryFSMRecordStorage` of src/chattice/fsm/record.py. A time is a number of clock
-- ticks, and a reading of the clock is an argument: `now` is the first reading, `later` the next. The
-- body under a key's lock awaits nothing, so each call is one step.
pub mod Data
pub mod Revisions
pub mod Storage
use chattice.Base.{
  ℕ, zero, suc, ◌+◌, String, Bool, false, Option, none, some, List, [], ◌∷◌, leb, nat_beq,
  if◌then◌else◌,
}
use chattice.Dict
use chattice.Dict.{Dict}
use chattice.Fsm.Key.{StorageKey, key_eq}
use chattice.Fsm.Json.{Json}

pub record FsmRecord : Type 0 where
  pub state : Option String
  pub data_fields : Dict String Json
  pub revision : ℕ
  pub updated_at : Option ℕ
  pub expires_at : Option ℕ
  pub schema_version : ℕ

pub record MemoryRecords : Type 0 where
  pub records : Dict StorageKey FsmRecord

abbrev pub init : MemoryRecords
init = record { records = [] }

unfoldable pub expired : FsmRecord → ℕ → Bool
expired r now = elim r.expires_at [ none ↦ false | some t ↦ leb t now ]

unfoldable pub get_record : MemoryRecords → StorageKey → ℕ → MemoryRecords × Option FsmRecord
unfolding expired
get_record s key now = elim (Dict.get s.records key) [
  | none ↦ (s, none)
  | some r ↦
      if expired r now
      then (record s { records = Dict.remove s.records key }, none)
      else (s, some r)
]

-- `FSMRecordConflict` names the revision that was expected and the one that was found.
pub data Outcome : Type 0 where
  stored : FsmRecord → Outcome
  conflict : (expected found : ℕ) → Outcome

abbrev pub revision_of : Option FsmRecord → ℕ
revision_of none = 0
revision_of (some r) = r.revision

-- The lines of `compare_and_set` after the expired record is dropped.
unfoldable pub replace_current :
    MemoryRecords → StorageKey → Option FsmRecord → ℕ → FsmRecord → ℕ → MemoryRecords × Outcome
replace_current s key current expected replacement later =
    if nat_beq (revision_of current) expected
    then (let r : FsmRecord = record replacement {
      revision = revision_of current + 1;
      updated_at = some later;
    } in
        (record s { records = Dict.put s.records key r }, stored r))
    else (s, conflict expected (revision_of current))

unfoldable pub compare_and_set :
    MemoryRecords → StorageKey → ℕ → FsmRecord → ℕ → ℕ → MemoryRecords × Outcome
unfolding expired replace_current get_record
compare_and_set s key expected replacement now later =
    let (s', current) = get_record s key now in
    replace_current s' key current expected replacement later

-- A call that any task may make on the shared storage.
pub data RecordCall : Type 0 where
  get_call : StorageKey → (now : ℕ) → RecordCall
  cas_call : StorageKey → (expected : ℕ) → FsmRecord → (now later : ℕ) → RecordCall

unfoldable pub call : MemoryRecords → RecordCall → MemoryRecords
call s (get_call key now) = (get_record s key now).0
call s (cas_call key expected r now later) = (compare_and_set s key expected r now later).0

unfoldable pub calls : MemoryRecords → List RecordCall → MemoryRecords
calls s [] = s
calls s (c ∷ cs) = calls (call s c) cs
