-- ===== src/Fsm/Record/Storage.antt =====
-- `BaseStorageFromRecord` of src/chattice/fsm/record.py over the in-process record store. Between the read
-- of the record and the compare-and-set other tasks may run: their calls are part of a `Round`.
pub mod Passes
pub mod Updates
use chattice.Base.{ℕ, String, Option, none, some, List, [], ◌∷◌}
use chattice.Dict
use chattice.Dict.{Dict}
use chattice.Base.Eq.{string_eq}
use chattice.Fsm.Key.{StorageKey, key_eq}
use chattice.Fsm.Json.{Object, Json}
use chattice.Fsm.Record.{
  FsmRecord, MemoryRecords, get_record, Outcome, stored, conflict, revision_of, compare_and_set,
  RecordCall, calls,
}
use chattice.Fsm.Record.Data.{require_dict, embed_dict}

-- One pass from the read to the write: the clock at the read, what the others call, and the clock's two
-- readings at the write.
pub record Round : Type 0 where
  pub read : ℕ
  pub between : List RecordCall
  pub now : ℕ
  pub later : ℕ

-- `running`: the rounds that are given end before the loop does.
pub data Answer (A : Type 0) : Type 0 where
  returned : A → Answer A
  type_error running : Answer A
  conflicted : (expected found : ℕ) → Answer A

abbrev pub state_of : Option FsmRecord → Option String
state_of none = none
state_of (some r) = r.state

abbrev pub data_of : Option FsmRecord → Dict String Object
data_of none = []
data_of (some r) = embed_dict r.data_fields

abbrev pub expires_of : Option FsmRecord → Option ℕ
expires_of none = none
expires_of (some r) = r.expires_at

abbrev pub schema_of : Option FsmRecord → ℕ
schema_of none = 0
schema_of (some r) = r.schema_version

unfoldable pub get_state : MemoryRecords → StorageKey → ℕ → MemoryRecords × Option String
get_state s key now = let (s', r) = get_record s key now in (s', state_of r)

unfoldable pub get_data : MemoryRecords → StorageKey → ℕ → MemoryRecords × Dict String Object
get_data s key now = let (s', r) = get_record s key now in (s', data_of r)

-- `FSMRecord(state=..., data=..., expires_at=..., schema_version=...)` with the last two of the record
-- that was read.
unfoldable pub make_record :
    Option FsmRecord → Option String → Dict String Object → Option FsmRecord
unfolding require_dict
make_record current state d = elim (require_dict d) [
  | none ↦ none
  | some js ↦ some (record {
    state = state;
    data_fields = js;
    revision = 0;
    updated_at = none;
    expires_at = expires_of current;
    schema_version = schema_of current;
  })
]

-- The others' calls, and the write with the revision that was read.
unfoldable pub write :
    MemoryRecords
    → StorageKey
    → Option FsmRecord
    → Option FsmRecord
    → Round
    → MemoryRecords × Answer Unit
write s key current none round = (s, type_error)
write s key current (some replacement) round =
    let (s', outcome) =
      compare_and_set (calls s round.between) key (revision_of current) replacement round.now
        round.later in
    (s', elim outcome [ stored r ↦ returned tt | conflict e f ↦ conflicted e f ])

abbrev pub provided {ℓ} : {A : Type ℓ} → Option A → A → A
provided none d = d
provided (some a) d = a

-- A `state` of `none` is `_NOT_PROVIDED`.
unfoldable pub mutate :
    MemoryRecords
    → StorageKey
    → Option (Option String)
    → Option (Dict String Object)
    → Round
    → MemoryRecords × Answer Unit
mutate s key state d round =
    let (s', current) = get_record s key round.read in
    write s' key current
      (make_record current (provided state (state_of current)) (provided d (data_of current))) round

unfoldable pub set_state :
    MemoryRecords → StorageKey → Option String → Round → MemoryRecords × Answer Unit
set_state s key state round = mutate s key (some state) none round

unfoldable pub set_data :
    MemoryRecords → StorageKey → Dict String Object → Round → MemoryRecords × Answer Unit
set_data s key d round = mutate s key none (some d) round

-- `finish` reads the record, and then `_mutate` reads it again: `before` is what the others call between
-- the two.
unfoldable pub finish :
    MemoryRecords → StorageKey → ℕ → List RecordCall → Round → MemoryRecords × Answer Unit
finish s key first_read before round =
    let (s', current) = get_record s key first_read in
    elim current [
      | none ↦ (s', returned tt)
      | some r ↦ mutate (calls s' before) key (some none) (some []) round
    ]

-- The end of a pass of `update_data`: the answer, or the next pass.
unfoldable pub after_pass :
    Dict String Object
    → (MemoryRecords → MemoryRecords × Answer (Dict String Object))
    → MemoryRecords × Answer Unit
    → MemoryRecords × Answer (Dict String Object)
after_pass merged again (s, returned u) = (s, returned merged)
after_pass merged again (s, type_error) = (s, type_error)
after_pass merged again (s, conflicted e f) = again s
after_pass merged again (s, running) = (s, running)

-- The loop of `update_data`, one round for each pass.
unfoldable pub update_data :
    MemoryRecords
    → StorageKey
    → Dict String Object
    → List Round
    → MemoryRecords × Answer (Dict String Object)
update_data s key partial [] = (s, running)
update_data s key partial (round ∷ rounds) =
    let (s', current) = get_record s key round.read in
    let merged = Dict.update (data_of current) partial in
    after_pass merged (λ t. update_data t key partial rounds)
      (write s' key current (make_record current (state_of current) merged) round)
