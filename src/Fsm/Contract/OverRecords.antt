-- ===== src/Fsm/Contract/OverRecords.antt =====
-- `BaseStorageFromRecord` and the contract of the storages, over records that do not expire and while no
-- other task writes.
use chattice.Base.{
  ℕ, ◌+◌, String, ◌≡◌, ◌≢◌, refl, Option, none, some, [], ◌∷◌, arith, Option-cases, Bool-cases, inl,
  inr, ap, ◌∙◌, sym,
}
use mathlib.Core.Path.{subst}
use chattice.Base.Eq.{string_eq}
use chattice.Dict
use chattice.Dict.{Dict, get-put, get-put_self}
use chattice.Fsm.Key.{StorageKey, key_beq, key_eq, key_beq_iff}
use chattice.Fsm.Json.{Object, Json}
use chattice.Fsm.Record.{FsmRecord, MemoryRecords, revision_of, replace_current, calls}
use chattice.Fsm.Record.Data.{
  embed_dict, IsData, require_dict-embed_dict, embed_dict-update, update-IsData,
}
use chattice.Fsm.Record.Revisions.{
  Persistent, get_record-Persistent, compare_and_set-Persistent, put-Persistent,
}
use chattice.Fsm.Record.Storage
use chattice.Fsm.Record.Storage.{
  Round, Answer, returned, type_error, running, conflicted, state_of, data_of, expires_of,
  schema_of, provided, make_record, write, mutate, after_pass,
}
use chattice.Fsm.Record.Storage.Passes.{update_data-Persistent}
use chattice.Fsm.Contract.{
  View, StorageCall, set_state_call, set_data_call, update_data_call, finish_call, effect,
}

-- A record, and calls, whose data `_require_json_value` has made or would accept as it is.
pub record Valid (s : MemoryRecords) : Type 0 where
  pub persistent : Persistent s
  pub at : (k : StorageKey) (r : FsmRecord) → Dict.get s.records k ≡ some r → IsData r.data_fields

abbrev pub ValidCall : StorageCall → Type 0
ValidCall (set_data_call d) = IsData d
ValidCall (update_data_call d) = IsData d
ValidCall _ = Unit

abbrev pub view : MemoryRecords → StorageKey → View
view s key = (state_of (Dict.get s.records key), data_of (Dict.get s.records key))

-- A pass without interference.
abbrev pub alone : ℕ → ℕ → ℕ → Round
alone read now later = record { read = read; between = []; now = now; later = later }

abbrev pub no_data : Option FsmRecord → Dict String Json
no_data none = []
no_data (some r) = r.data_fields

module _ (s : MemoryRecords) (key : StorageKey) (read now later : ℕ) where
  abbrev current : Option FsmRecord
  current = Dict.get s.records key

  abbrev round : Round
  round = alone read now later

  -- The record that a write of a state and of accepted data leaves.
  abbrev made : Option String → Dict String Json → FsmRecord
  made state js = record {
    state = state;
    data_fields = js;
    revision = revision_of current + 1;
    updated_at = some later;
    expires_at = expires_of current;
    schema_version = schema_of current;
  }

  abbrev put_made : Option String → Dict String Json → MemoryRecords
  put_made state js = record s { records = Dict.put s.records key (made state js) }

  write_alone :
      (state : Option String) (js : Dict String Json)
      → Persistent s
      → IsData js
      → write s key current (make_record current state (embed_dict js)) round
        ≡ (put_made state js, returned tt)
  unfolding make_record write calls replace_current
  write_alone state js p d =
      rw
        (
          make_record,
          require_dict-embed_dict js d,
          write,
          compare_and_set-Persistent s key (revision_of current) _ now later p,
        )
        (ground arith)

  data_of-no_data : (r : Option FsmRecord) → data_of r ≡ embed_dict (no_data r)
  unfolding embed_dict
  data_of-no_data none = refl
  data_of-no_data (some r) = refl

  no_data-IsData : Valid s → IsData (no_data current)
  no_data-IsData v = by_record current refl
    where
      by_record : (o : Option FsmRecord) → current ≡ o → IsData (no_data o)
      by_record none e = tt
      by_record (some r) e = v.at key r e

  put_made-Valid :
      (state : Option String) (js : Dict String Json)
      → Valid s
      → IsData js
      → Valid (put_made state js)
  put_made-Valid state js v d = record {
    persistent =
        put-Persistent s key (made state js) v.persistent (keeps current refl) (omega arith);
    at = λ k r e. elim (Bool-cases (key_beq key k)) [
      | inl hit ↦ subst IsData (ap no_data (rw (get-put, hit) at e)) d
      | inr miss ↦ v.at k r (rw (get-put, miss) at e)
    ];
  }
    where
      keeps : (o : Option FsmRecord) → current ≡ o → expires_of o ≡ none
      keeps none e = refl
      keeps (some r) e = (v.persistent.at key r e).0

  -- What a call leaves: the contract's view under its key, the other keys as they were, a valid store.
  pub record Effect (c : StorageCall) (after : MemoryRecords) : Type 0 where
    pub viewed : view after key ≡ effect c (view s key)
    pub others : (j : StorageKey) → key ≢ j → view after j ≡ view s j
    pub valid : Valid after

  put_made-Effect :
      (c : StorageCall) (state : Option String) (js : Dict String Json)
      → Valid s
      → IsData js
      → (state, embed_dict js) ≡ effect c (view s key)
      → Effect c (put_made state js)
  put_made-Effect c state js v d e = record {
    viewed = rw (get-put_self s.records key (made state js)) e;
    others = λ j ne.
        ap (λ (o : Option FsmRecord). (state_of o, data_of o))
          (ground (arith, get-put s.records key j (made state js), key_beq_iff key j));
    valid = put_made-Valid state js v d;
  }

  mutate-Persistent :
      (state : Option (Option String)) (d : Option (Dict String Object))
      → Persistent s
      → mutate s key state d round
        ≡ write s key current
            (make_record current (provided state (state_of current)) (provided d (data_of current)))
            round
  unfolding mutate
  mutate-Persistent state d p =
      ap
        (λ (x : MemoryRecords × Option FsmRecord).
          write x.0 key x.1
            (make_record x.1 (provided state (state_of x.1)) (provided d (data_of x.1))) round)
        (get_record-Persistent s key read p)

  unfoldable pub perform : StorageCall → MemoryRecords × Answer Unit
  perform (set_state_call state) = Storage.set_state s key state round
  perform (set_data_call d) = Storage.set_data s key (embed_dict d) round
  perform (update_data_call p) =
      let (s', answer) = Storage.update_data s key (embed_dict p) (round ∷ []) in
      (
        s',
        elim answer [
          | returned m ↦ returned tt
          | type_error ↦ type_error
          | running ↦ running
          | conflicted e f ↦ conflicted e f
        ],
      )
  perform finish_call = Storage.finish s key read [] round

  by_write :
      (c : StorageCall) (x : MemoryRecords × Answer Unit) (state : Option String)
      (js : Dict String Json)
      → x ≡ (put_made state js, returned tt)
      → Valid s
      → IsData js
      → (state, embed_dict js) ≡ effect c (view s key)
      → (x.1 ≡ returned tt) × Effect c x.0
  by_write c x state js e v d same = (
    ap (λ y. y.1) e,
    subst (Effect c) (sym (ap (λ y. y.0) e)) (put_made-Effect c state js v d same),
  )

  update_alone :
      (p : Dict String Json)
      → Valid s
      → IsData p
      → Storage.update_data s key (embed_dict p) (round ∷ []) ≡ (
        put_made (state_of current) (Dict.update (no_data current) p),
        returned (Dict.update (data_of current) (embed_dict p)),
      )
  unfolding after_pass
  update_alone p v d =
      let merged = Dict.update (no_data current) p in
      update_data-Persistent s key (embed_dict p) round [] v.persistent
      ∙ ap
          (λ m.
            after_pass (Dict.update (data_of current) (embed_dict p))
              (λ t. Storage.update_data t key (embed_dict p) [])
              (write s key current (make_record current (state_of current) m) round))
          (ap (λ b. Dict.update b (embed_dict p)) (data_of-no_data current)
            ∙ sym (embed_dict-update (no_data current) p))
      ∙ ap
          (after_pass (Dict.update (data_of current) (embed_dict p))
            (λ t. Storage.update_data t key (embed_dict p) []))
          (write_alone (state_of current) merged v.persistent
            (update-IsData (no_data current) p (no_data-IsData v) d))

  finish_alone :
      (r : FsmRecord)
      → current ≡ some r
      → Persistent s
      → Storage.finish s key read [] round ≡ mutate s key (some none) (some []) round
  unfolding Storage.finish calls
  finish_alone r e p =
      ap
        (λ (x : MemoryRecords × Option FsmRecord). elim x.1 [
          | none ↦ (x.0, returned tt)
          | some q ↦ mutate (calls x.0 []) key (some none) (some []) round
        ])
        (get_record-Persistent s key read p ∙ ap (λ o. (s, o)) e)

  finish_missing :
      current ≡ none → Persistent s → Storage.finish s key read [] round ≡ (s, returned tt)
  unfolding Storage.finish
  finish_missing e p =
      ap
        (λ (x : MemoryRecords × Option FsmRecord). elim x.1 [
          | none ↦ (x.0, returned tt)
          | some q ↦ mutate (calls x.0 []) key (some none) (some []) round
        ])
        (get_record-Persistent s key read p ∙ ap (λ o. (s, o)) e)

  -- On a store whose records have no time to live and hold JSON data, a writing call with JSON data that is
  -- left alone returns, changes the view of its key as the contract says and no other, and leaves such a store.
  pub perform-Effect :
      (c : StorageCall)
      → Valid s
      → ValidCall c
      → ((perform c).1 ≡ returned tt) × Effect c (perform c).0
  unfolding perform Storage.set_state Storage.set_data embed_dict
  perform-Effect (set_state_call state) v d =
      by_write (set_state_call state) _ state (no_data current)
        (mutate-Persistent (some state) none v.persistent
          ∙ ap (λ b. write s key current (make_record current state b) round)
              (data_of-no_data current)
          ∙ write_alone state (no_data current) v.persistent (no_data-IsData v))
        v (no_data-IsData v) (ap (λ b. (state, b)) (sym (data_of-no_data current)))
  perform-Effect (set_data_call js) v d =
      by_write (set_data_call js) _ (state_of current) js
        (mutate-Persistent none (some (embed_dict js)) v.persistent
          ∙ write_alone (state_of current) js v.persistent d)
        v d refl
  perform-Effect (update_data_call p) v d =
      by_write (update_data_call p) _ (state_of current) (Dict.update (no_data current) p)
        (ap
          (λ (x : MemoryRecords × Answer (Dict String Object)). (
            x.0,
            elim x.1 [
              | returned m ↦ returned tt
              | type_error ↦ type_error
              | running ↦ running
              | conflicted e f ↦ conflicted e f
            ],
          ))
          (update_alone p v d))
        v (update-IsData (no_data current) p (no_data-IsData v) d)
        (ap (λ b. (state_of current, b))
          (embed_dict-update (no_data current) p
            ∙ ap (λ b. Dict.update b (embed_dict p)) (sym (data_of-no_data current))))
  perform-Effect finish_call v d = elim (Option-cases current) [
    | inl e ↦ (
      ap (λ x. x.1) (finish_missing e v.persistent),
      subst (Effect finish_call) (sym (ap (λ x. x.0) (finish_missing e v.persistent))) (record {
        viewed = ap (λ (o : Option FsmRecord). (state_of o, data_of o)) e;
        others = λ j ne. refl;
        valid = v;
      }),
    )
    | inr (r, e) ↦
        by_write finish_call _ none []
          (finish_alone r e v.persistent
            ∙ mutate-Persistent (some none) (some []) v.persistent
            ∙ write_alone none [] v.persistent tt)
          v tt refl
  ]
