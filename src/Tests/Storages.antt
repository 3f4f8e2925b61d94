-- ===== src/Tests/Storages.antt =====
-- The in-process storages on concrete histories.
use chattice.Base.{
  ℕ, ◌≡◌, ◌≢◌, ◌↔◌, ◌⊎◌, inl, inr, Bool-cases, if◌then◌else◌, sym, ◌∙◌, refl, ap, str_eq, eq_iff,
  String, true, false, none, some, List, [], ◌∷◌, arith, All,
}
use mathlib.Core.Path.{subst}
use mathlib.Core.Option.{some-injective}
use chattice.Base.Eq.{string_eq}
use chattice.Base.Int.{pos}
use chattice.Dict
use chattice.Events.{Event, event, added_to_space, no_context}
use chattice.Idempotency.Contract.{first, held, done, claimed, run, replies}
use chattice.Idempotency.Memory.{Storage, init, claim, complete, release, renew}
use chattice.Idempotency.Memory.Refines.{Op, claim_op, complete_op, perform, status}
use chattice.Idempotency.Memory.Exclusion.{
  perform_all, calls_on, replies_on, perform_all-refines, claim_exclusive, complete_absorbs,
  takeover_disarms,
}
use chattice.Fsm.Key.{
  user, StorageKey, key_eq, key_beq, user_name, space_name, thread_name, Keyed, build, build-Keyed,
}
use chattice.Fsm.Json.{Object, py_enum, py_str, text, integer, require_json_value}
use chattice.Fsm.Json.Revalidate.{embed, IsDict, require_json_value_idem}
use chattice.Fsm.Memory
use chattice.Fsm.Record.{
  FsmRecord, MemoryRecords, get_record, replace_current, call, expired, compare_and_set, RecordCall,
  cas_call, calls,
}
use chattice.Fsm.Record.Data.{require_dict, embed_dict, IsData}
use chattice.Fsm.Record.Revisions.{
  Persistent, is_stored, compare_and_set_exact, expired_revision_reused,
}
use chattice.Fsm.Record.Storage.{
  Round, returned, running, write, make_record, after_pass, update_data,
}
use chattice.Fsm.Record.Storage.Updates.{Merged, calls_in, update_data_merges, update_data_ends}
use chattice.Fsm.Context.{memory_storage, get_data, call as context_call, state_filter}
use chattice.Fsm.Context.Routing.{Admits, state_filter-call}
use chattice.Fsm.Contract.{set_state_call, finish_call, StorageCall, update_data_call, effect}
use chattice.Fsm.Contract.InMemory.{view, view-perform_self, view-perform_ne}
use chattice.Fsm.Contract.InMemory
use chattice.Fsm.Contract.OverRecords
use chattice.Fsm.Contract.OverRecords.{Valid, Effect, perform-Effect}

distinct : (a b : String) → str_eq a b ≡ false → a ≢ b
distinct a b h e = ground (arith, eq_iff a b)

abbrev rivals : List (String × Op)
rivals = ("m1", claim_op "b" 10 5 6) ∷ ("m2", claim_op "b" 10 5 6) ∷ ("m1", complete_op "b") ∷ []

-- The storage after owner `a` has claimed `m1` from time 1 to time 11.
abbrev claimed_m1 : Storage
claimed_m1 = (perform init ("m1", claim_op "a" 10 0 1)).0

perform_all-refines_example :
    (status (perform_all init rivals) "m1" ≡ run (status init "m1") (calls_on "m1" rivals))
    × (replies_on "m1" init rivals ≡ replies (status init "m1") (calls_on "m1" rivals))
perform_all-refines_example = perform_all-refines "m1" init rivals

claim_exclusive_example :
    All (λ r. r ≢ claimed first) (replies_on "m1" claimed_m1 rivals)
    × (status (perform_all claimed_m1 rivals) "m1" ≡ held "a" 11)
unfolding perform claim Dict.get
claim_exclusive_example =
    claim_exclusive init "m1" "a" 10 0 1 rivals claims (omega arith, (distinct "a" "b" refl, tt))
  where
    claims : (perform init ("m1", claim_op "a" 10 0 1)).1 ≡ claimed first
    claims = refl

takeover_disarms_example :
    (let taken = (claim claimed_m1 "m1" "b" 10 12 13).0 in
      ((claim claimed_m1 "m1" "b" 10 12 13).1 ≡ first)
      × (complete taken "m1" "a" ≡ taken)
      × (release taken "m1" "a" ≡ taken)
      × ((l t : ℕ) → renew taken "m1" "a" l t ≡ (taken, false)))
unfolding perform claim status Dict.get Dict.put
takeover_disarms_example =
    takeover_disarms claimed_m1 "m1" "a" "b" 11 10 12 13 (distinct "a" "b" refl) refl (omega arith)

complete_absorbs_example :
    All
      (λ r. r ≢ claimed first)
      (replies_on "m1" (perform claimed_m1 ("m1", complete_op "a")).0 rivals)
    × (status (perform_all (perform claimed_m1 ("m1", complete_op "a")).0 rivals) "m1" ≡ done "a")
unfolding status Dict.get perform claim Dict.put
complete_absorbs_example = complete_absorbs claimed_m1 "m1" "a" 11 rivals holds (tt, (tt, tt))
  where
    holds : status claimed_m1 "m1" ≡ held "a" 11
    holds = refl

abbrev ada : StorageKey
ada = record { user = some "users/ada"; space = none; thread = none }

abbrev bob : StorageKey
bob = record { user = some "users/bob"; space = none; thread = none }

abbrev of_ada : Event
of_ada =
    event
      (record no_context {
        actor = some (record { name = some "users/ada"; display_name = none; type = none });
      })
      added_to_space

build-Keyed_example : (build of_ada user ≡ some ada) ↔ Keyed user (some "users/ada") none none ada
unfolding user_name space_name thread_name
build-Keyed_example = build-Keyed of_ada user ada

abbrev colour : Object
colour = py_enum (py_str "red")

require_json_value_idem_example : require_json_value (embed (text "red")) ≡ some (text "red")
unfolding require_json_value
require_json_value_idem_example = require_json_value_idem colour (text "red") refl

abbrev step_one : StorageCall
step_one = update_data_call (("step", integer (pos 1)) ∷ [])

view-perform_self_example :
    view (InMemory.perform Memory.init ada step_one) ada ≡ effect step_one (view Memory.init ada)
view-perform_self_example = view-perform_self Memory.init ada step_one

-- A record of revision 1 without a time to live.
abbrev stored_record : FsmRecord
stored_record = record {
  state = some "Order:size";
  data_fields = ("size", text "M") ∷ [];
  revision = 1;
  updated_at = some 3;
  expires_at = none;
  schema_version = 0;
}

abbrev one_record : MemoryRecords
one_record = record { records = (ada, stored_record) ∷ [] }

one_record-Persistent : Persistent one_record
unfolding Dict.get
one_record-Persistent = record { at = λ k r h. ground (arith, h) }

-- Another task stores the record of `bob`, and one overtakes the record of `ada`.
abbrev elsewhere : List RecordCall
elsewhere = cas_call bob 0 stored_record 5 5 ∷ []

abbrev overtaken : List RecordCall
overtaken = cas_call ada 1 stored_record 5 5 ∷ []

compare_and_set_exact_example :
    (is_stored (compare_and_set (calls one_record overtaken) ada 1 stored_record 6 6).1 ≡ true)
    ↔ (Dict.get (calls one_record overtaken).records ada ≡ Dict.get one_record.records ada)
unfolding Dict.get key_beq
compare_and_set_exact_example =
    compare_and_set_exact one_record overtaken ada stored_record 6 6 one_record-Persistent
      (refl, tt)

-- A record that lives until time 9.
abbrev short_lived : FsmRecord
short_lived = record stored_record { expires_at = some 9 }

abbrev one_short_lived : MemoryRecords
one_short_lived = record { records = (ada, short_lived) ∷ [] }

expired_revision_reused_example :
    (is_stored (compare_and_set one_short_lived ada 0 stored_record 10 10).1 ≡ true)
    × (let s = (compare_and_set one_short_lived ada 0 stored_record 10 10).0 in
        let s' = (compare_and_set s ada 1 short_lived 11 11).0 in
        Dict.get s'.records ada ≡ some (record short_lived { revision = 2; updated_at = some 11 }))
unfolding Dict.get key_beq
expired_revision_reused_example =
    expired_revision_reused one_short_lived ada short_lived stored_record short_lived 9 10 10 11 11
      refl refl refl (omega arith) refl

abbrev partial : Dict.Dict String Object
partial = ("step", py_str "two") ∷ []

-- Another task overtakes the first pass; the second is left alone.
abbrev overtaken_round : Round
overtaken_round = record { read = 4; between = overtaken; now = 5; later = 5 }

abbrev quiet_round : Round
quiet_round = record { read = 6; between = []; now = 6; later = 6 }

abbrev two_rounds : List Round
two_rounds = overtaken_round ∷ quiet_round ∷ []

abbrev merged : Dict.Dict String Object
merged = ("size", py_str "M") ∷ ("step", py_str "two") ∷ []

update_data_merges_example :
    (n : ℕ) × Merged ada partial
      (calls one_record (calls_in n two_rounds))
      (update_data one_record ada partial two_rounds).0
      merged
unfolding update_data get_record compare_and_set replace_current write make_record require_dict
    after_pass calls call expired embed_dict embed key_beq Dict.get Dict.put Dict.update
    require_json_value
update_data_merges_example =
    update_data_merges one_record (update_data one_record ada partial two_rounds).0 ada partial
      merged two_rounds refl one_record-Persistent ((refl, tt), (tt, tt))

update_data_ends_example : (update_data one_record ada partial two_rounds).1 ≢ running
update_data_ends_example =
    update_data_ends one_record ada partial (overtaken_round ∷ []) quiet_round refl
      one_record-Persistent ((refl, tt), tt)

one_record-Valid : Valid one_record
unfolding Dict.get IsDict
one_record-Valid = record {
  persistent = one_record-Persistent;
  at = λ k r h. at_record k r (Bool-cases (key_beq ada k)) h;
}
  where
    at_record :
        (k : StorageKey) (r : FsmRecord)
        → ((key_beq ada k ≡ true) ⊎ (key_beq ada k ≡ false))
        → Dict.get one_record.records k ≡ some r
        → IsData r.data_fields
    at_record k r (inl same) h =
        let e : some stored_record ≡ some r =
          sym (ap (λ b. if b then some stored_record else none) same) ∙ h in
        subst (λ q. IsData q.data_fields) (some-injective stored_record r e) (tt, tt)
    at_record k r (inr other) h = ground (arith, other, h)

perform-Effect_example :
    ((OverRecords.perform one_record ada 4 5 5 step_one).1 ≡ returned tt)
    × Effect one_record ada 4 5 5 step_one (OverRecords.perform one_record ada 4 5 5 step_one).0
unfolding IsDict
perform-Effect_example = perform-Effect one_record ada 4 5 5 step_one one_record-Valid (tt, tt)

state_filter-call_example :
    ((state_filter
          ("Order:size" ∷ [])
          (some (some ada))
          (InMemory.perform Memory.init ada (set_state_call (some "Order:size")))
        ≡ true)
      ↔ Admits ("Order:size" ∷ []) "Order:size")
    × (state_filter
          ("Order:size" ∷ [])
          (some (some ada))
          (InMemory.perform Memory.init ada finish_call)
        ≡ false)
    × (get_data (some ada) (InMemory.perform Memory.init ada finish_call) ≡ [])
    × (state_filter
          ("Order:size" ∷ [])
          (some (some bob))
          (InMemory.perform Memory.init ada (set_state_call (some "Order:size")))
        ≡ state_filter ("Order:size" ∷ []) (some (some bob)) Memory.init)
    × (state_filter
          ("Order:size" ∷ [])
          (some (some bob))
          (InMemory.perform Memory.init ada finish_call)
        ≡ state_filter ("Order:size" ∷ []) (some (some bob)) Memory.init)
unfolding context_call
state_filter-call_example =
    state_filter-call ada bob "Order:size" ("Order:size" ∷ []) Memory.init
      (InMemory.perform Memory.init ada (set_state_call (some "Order:size")))
      (InMemory.perform Memory.init ada finish_call) ne refl refl
  where
    ne : ada ≢ bob
    ne e = distinct "users/ada" "users/bob" refl (some-injective _ _ (ap (λ k. k.user) e))
