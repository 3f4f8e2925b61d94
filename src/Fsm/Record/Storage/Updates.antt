-- ===== src/Fsm/Record/Storage/Updates.antt =====
-- `update_data` of `BaseStorageFromRecord` while other tasks use the store.
use chattice.Base.{
  ℕ, zero, suc, ◌+◌, ◌<◌, ◌≡◌, ◌≢◌, refl, Option, some, List, [], ◌∷◌, ◌++◌, arith, All, inl, inr,
  ap, Option-cases, String, sym, ◌∙◌,
}
use mathlib.Core.Path.{subst, subst₂}
use mathlib.Core.List.{append-nil}
use chattice.Base.Eq.{string_eq}
use chattice.Dict
use chattice.Dict.{Dict, get-put, get-put_self}
use chattice.Fsm.Key.{StorageKey, key_eq, key_beq_iff}
use chattice.Fsm.Json.{Object}
use chattice.Fsm.Record.{FsmRecord, MemoryRecords, revision_of, RecordCall, call, calls}
use chattice.Fsm.Record.Data.{require_dict}
use chattice.Fsm.Record.Revisions.{Persistent, PersistentCall, calls-Persistent}
use chattice.Fsm.Record.Storage.{
  Round, returned, running, state_of, data_of, make_record, update_data,
}
use chattice.Fsm.Record.Storage.Passes.{written, merge, replacement_for, pass_cases}

-- `after` is `before` with the key's record replaced by one that has its state, the partial data merged
-- into its own, and the next revision; `m` is the data that the caller is given.
pub record Merged (key : StorageKey) (partial : Dict String Object) (before after : MemoryRecords)
    (m : Dict String Object) : Type 0 where
  pub merged : m ≡ merge before key partial
  pub replaced :
      (r : FsmRecord) × (Dict.get after.records key ≡ some r)
      × (require_dict m ≡ some r.data_fields)
      × (r.state ≡ state_of (Dict.get before.records key))
      × (r.revision ≡ revision_of (Dict.get before.records key) + 1)
  pub others : (j : StorageKey) → key ≢ j → Dict.get after.records j ≡ Dict.get before.records j

calls-append :
    (s : MemoryRecords) (cs ds : List RecordCall) → calls s (cs ++ ds) ≡ calls (calls s cs) ds
unfolding calls
calls-append s [] ds = refl
calls-append s (c ∷ cs) ds = calls-append (call s c) cs ds

make_record_inv :
    (current : Option FsmRecord) (state : Option String) (d : Dict String Object) (r : FsmRecord)
    → make_record current state d ≡ some r
    → (require_dict d ≡ some r.data_fields) × (r.state ≡ state)
unfolding make_record
make_record_inv current state d r h = elim (Option-cases (require_dict d)) [
  | inl e ↦ absurd (ground (arith, e))
  | inr (js, e) ↦ ground (arith, e)
]

put-Merged :
    (s t : MemoryRecords) (key : StorageKey) (partial : Dict String Object) (round : Round)
    (r : FsmRecord)
    → replacement_for s key partial ≡ some r
    → Dict.get t.records key ≡ Dict.get s.records key
    → Merged key partial t
        (record t { records = Dict.put t.records key (written (Dict.get s.records key) r round) })
        (merge s key partial)
put-Merged s t key partial round r e same =
    let current = Dict.get s.records key in
    let (d, st) = make_record_inv current (state_of current) (merge s key partial) r e in
    record {
      merged = ap (λ o. Dict.update (data_of o) partial) (sym same);
      replaced = (
        written current r round,
        get-put_self t.records key (written current r round),
        d,
        st ∙ ap state_of (sym same),
        ap (λ o. revision_of o + 1) (sym same),
      );
      others = λ j ne.
          ground (arith, get-put t.records key j (written current r round), key_beq_iff key j);
    }

returned-inj : {A : Type 0} {a b : A} → returned a ≡ returned b → a ≡ b
returned-inj h = cc

-- What the other tasks call in the first `n` passes.
abbrev pub calls_in : (n : ℕ) → List Round → List RecordCall
calls_in zero rounds = []
calls_in (suc n) [] = []
calls_in (suc n) (round ∷ rounds) = round.between ++ calls_in n rounds

abbrev pub PersistentRounds : List Round → Type 0
PersistentRounds = All (λ (r : Round). All PersistentCall r.between)

-- While no record has a time to live: when `update_data` returns, the store had, after what the other tasks
-- called in the first passes, a state from which the returned data, and the stored record, were merged, and in which
-- nothing but that record was replaced. So no field that another task wrote is lost.
pub update_data_merges :
    (s s' : MemoryRecords) (key : StorageKey) (partial m : Dict String Object) (rounds : List Round)
    → update_data s key partial rounds ≡ (s', returned m)
    → Persistent s
    → PersistentRounds rounds
    → (n : ℕ) × Merged key partial (calls s (calls_in n rounds)) s' m
unfolding update_data
update_data_merges s s' key partial m [] h p q = absurd (ground arith)
update_data_merges s s' key partial m (round ∷ rounds) h p q =
    let t = calls s round.between in
    elim (pass_cases s key partial round rounds p q.0) [
      | inl (e, step) ↦ absurd (ground (arith, sym step ∙ h))
      | inr (inl (r, e, same, step)) ↦ (
        1,
        (let ends = sym step ∙ h in
            subst (λ b. Merged key partial b s' m) (ap (calls s) (sym (append-nil round.between)))
              (subst₂ (Merged key partial t) (ap (λ x. x.0) ends)
                (returned-inj (ap (λ x. x.1) ends)) (put-Merged s t key partial round r e same))),
      )
      | inr (inr (lt, step)) ↦
          let (n, done) =
            update_data_merges t s' key partial m rounds (sym step ∙ h)
              (calls-Persistent s round.between p q.0) q.1 in
          (
            suc n,
            subst (λ b. Merged key partial b s' m)
                (sym (calls-append s round.between (calls_in n rounds))) done,
          )
    ]

lt_irrefl : (n : ℕ) → ¬ (n < n)
lt_irrefl n h = omega arith

-- While no record has a time to live, one pass during which the others leave the store alone ends the loop,
-- whatever they called in the passes before it.
pub update_data_ends :
    (s : MemoryRecords) (key : StorageKey) (partial : Dict String Object) (rounds : List Round)
    (quiet : Round)
    → quiet.between ≡ []
    → Persistent s
    → PersistentRounds rounds
    → (update_data s key partial (rounds ++ quiet ∷ [])).1 ≢ running
unfolding calls
update_data_ends s key partial [] quiet e p q =
    elim (pass_cases s key partial quiet [] p (rw e tt)) [
      | inl (e', step) ↦ rw step (ground arith)
      | inr (inl (r, e', same, step)) ↦ rw step (ground arith)
      | inr (inr (lt, step)) ↦
          absurd (lt_irrefl (revision_of (Dict.get s.records key)) (rw (e, calls) at lt))
    ]
update_data_ends s key partial (round ∷ rounds) quiet e p q =
    elim (pass_cases s key partial round (rounds ++ quiet ∷ []) p q.0) [
      | inl (e', step) ↦ rw step (ground arith)
      | inr (inl (r, e', same, step)) ↦ rw step (ground arith)
      | inr (inr (lt, step)) ↦ rw step (
          update_data_ends (calls s round.between) key partial rounds quiet e
            (calls-Persistent s round.between p q.0) q.1)
    ]
