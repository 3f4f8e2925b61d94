-- ===== src/Fsm/Record/Storage/Passes.antt =====
-- The ends of one pass of `update_data`.
use chattice.Base.{
  ◌+◌, ◌<◌, ◌≡◌, refl, Option, none, some, List, ◌∷◌, arith, All, ◌⊎◌, inl, inr, ap, Option-cases,
  String,
}
use chattice.Base.Eq.{string_eq}
use chattice.Dict
use chattice.Dict.{Dict, get-put, get-put_self}
use chattice.Fsm.Key.{StorageKey, key_eq}
use chattice.Fsm.Json.{Object}
use chattice.Fsm.Record.{FsmRecord, MemoryRecords, revision_of, replace_current, calls}
use chattice.Fsm.Record.Revisions.{
  Persistent, PersistentCall, get_record-Persistent, compare_and_set-Persistent, calls-Persistent,
  calls-Grows,
}
use chattice.Fsm.Record.Storage.{
  Round, returned, type_error, conflicted, state_of, data_of, make_record, write, after_pass,
  update_data,
}

-- The record that a successful write leaves.
abbrev pub written : Option FsmRecord → FsmRecord → Round → FsmRecord
written current replacement round = record replacement {
  revision = revision_of current + 1;
  updated_at = some round.later;
}

module _ (s : MemoryRecords) (key : StorageKey) (round : Round) (p : Persistent s)
    (q : All PersistentCall round.between) where
  abbrev after : MemoryRecords
  after = calls s round.between

  write_cases :
      (r : FsmRecord)
      → ((Dict.get after.records key ≡ Dict.get s.records key)
          × (write s key (Dict.get s.records key) (some r) round ≡ (
            record after {
              records = Dict.put after.records key (written (Dict.get s.records key) r round);
            },
            returned tt,
          )))
        ⊎ ((revision_of (Dict.get s.records key) < revision_of (Dict.get after.records key))
            × (write s key (Dict.get s.records key) (some r) round ≡ (
              after,
              conflicted
                  (revision_of (Dict.get s.records key))
                  (revision_of (Dict.get after.records key)),
            )))
  unfolding write replace_current
  write_cases r = elim (calls-Grows s round.between key p q) [
    | inl same ↦ inl (
      same,
      rw
          (
            write,
            compare_and_set-Persistent after key (revision_of (Dict.get s.records key)) r round.now
                round.later (calls-Persistent s round.between p q),
          )
          (ground (arith, ap revision_of same)),
    )
    | inr lt ↦ inr (
      lt,
      rw
          (
            write,
            compare_and_set-Persistent after key (revision_of (Dict.get s.records key)) r round.now
                round.later (calls-Persistent s round.between p q),
          )
          (ground arith),
    )
  ]

abbrev pub merge : MemoryRecords → StorageKey → Dict String Object → Dict String Object
merge s key partial = Dict.update (data_of (Dict.get s.records key)) partial

abbrev pub replacement_for : MemoryRecords → StorageKey → Dict String Object → Option FsmRecord
replacement_for s key partial =
    make_record (Dict.get s.records key) (state_of (Dict.get s.records key)) (merge s key partial)

pub update_data-Persistent :
    (s : MemoryRecords) (key : StorageKey) (partial : Dict String Object) (round : Round)
    (rounds : List Round)
    → Persistent s
    → update_data s key partial (round ∷ rounds)
      ≡ after_pass
          (merge s key partial)
          (λ t. update_data t key partial rounds)
          (write s key (Dict.get s.records key) (replacement_for s key partial) round)
unfolding update_data
update_data-Persistent s key partial round rounds p =
    ap
      (λ (x : MemoryRecords × Option FsmRecord).
        let merged = Dict.update (data_of x.1) partial in
        after_pass merged (λ t. update_data t key partial rounds)
          (write x.0 key x.1 (make_record x.1 (state_of x.1) merged) round))
      (get_record-Persistent s key round.read p)

-- How one pass of the loop ends: the data is refused, it is written, or a later revision is found.
pub pass_cases :
    (s : MemoryRecords) (key : StorageKey) (partial : Dict String Object) (round : Round)
    (rounds : List Round)
    → Persistent s
    → All PersistentCall round.between
    → (let s' = calls s round.between in
        let current = Dict.get s.records key in
        ((replacement_for s key partial ≡ none)
          × (update_data s key partial (round ∷ rounds) ≡ (s, type_error)))
        ⊎ (((r : FsmRecord) × (replacement_for s key partial ≡ some r)
              × (Dict.get s'.records key ≡ current)
              × (update_data s key partial (round ∷ rounds) ≡ (
                record s' { records = Dict.put s'.records key (written current r round) },
                returned (merge s key partial),
              )))
            ⊎ ((revision_of current < revision_of (Dict.get s'.records key))
                × (update_data s key partial (round ∷ rounds)
                    ≡ update_data s' key partial rounds))))
unfolding after_pass write
pass_cases s key partial round rounds p q =
    let step = update_data-Persistent s key partial round rounds p in
    elim (Option-cases (replacement_for s key partial)) [
      | inl e ↦ inl (e, rw (step, e) refl)
      | inr (r, e) ↦ inr (elim (write_cases s key round p q r) [
        | inl (same, w) ↦ inl (
          r,
          e,
          same,
          rw (step, e)
              (ap (after_pass (merge s key partial) (λ t. update_data t key partial rounds)) w),
        )
        | inr (lt, w) ↦ inr (
          lt,
          rw (step, e)
              (ap (after_pass (merge s key partial) (λ t. update_data t key partial rounds)) w),
        )
      ])
    ]
