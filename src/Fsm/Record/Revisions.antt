-- ===== src/Fsm/Record/Revisions.antt =====
-- What a revision number tells of the record, with and without records that expire.
use chattice.Base.{
  ℕ, ◌+◌, ◌≤◌, ◌<◌, ◌≡◌, ◌↔◌, refl, Bool, true, false, Option, none, some, List, [], ◌∷◌, arith,
  All, ◌⊎◌, inl, inr, ap, ◌∙◌, Option-cases,
}
use chattice.Dict
use chattice.Dict.{get-put, get-remove, get-put_self}
use chattice.Fsm.Key.{StorageKey, key_eq, key_beq_iff}
use chattice.Fsm.Record.{
  FsmRecord, MemoryRecords, expired, get_record, Outcome, stored, conflict, revision_of,
  replace_current, compare_and_set, RecordCall, get_call, cas_call, call, calls,
}

-- No record of the store has a time to live, and each has been stored at least once.
pub record Persistent (s : MemoryRecords) : Type 0 where
  pub at :
      (k : StorageKey) (r : FsmRecord)
      → Dict.get s.records k ≡ some r
      → (r.expires_at ≡ none) × (0 < r.revision)

abbrev pub PersistentCall : RecordCall → Type 0
PersistentCall (get_call k now) = Unit
PersistentCall (cas_call k expected r now later) = r.expires_at ≡ none

-- Between two looks at a key, its record is the same or has a greater revision.
abbrev pub Grows : Option FsmRecord → Option FsmRecord → Type 0
Grows a b = (b ≡ a) ⊎ (revision_of a < revision_of b)

Grows-trans : (a b c : Option FsmRecord) → Grows a b → Grows b c → Grows a c
Grows-trans a b c (inl p) (inl q) = inl (q ∙ p)
Grows-trans a b c (inl p) (inr q) = inr (rw (← p) q)
Grows-trans a b c (inr p) (inl q) = inr (rw q p)
Grows-trans a b c (inr p) (inr q) = inr (omega arith)

pub get_record-Persistent :
    (s : MemoryRecords) (k : StorageKey) (now : ℕ)
    → Persistent s
    → get_record s k now ≡ (s, Dict.get s.records k)
unfolding get_record expired
get_record-Persistent s k now p = elim (Option-cases (Dict.get s.records k)) [
  | inl e ↦ rw (e, get_record)
  | inr (r, e) ↦ ground (arith, e, p.at k r e)
]

pub put-Persistent :
    (s : MemoryRecords) (k : StorageKey) (r : FsmRecord)
    → Persistent s
    → r.expires_at ≡ none
    → 0 < r.revision
    → Persistent (record s { records = Dict.put s.records k r })
put-Persistent s k r p h pos = record {
  at = λ j q e. ground (arith, get-put s.records k j r, p.at j q);
}

pub compare_and_set-Persistent :
    (s : MemoryRecords) (k : StorageKey) (expected : ℕ) (r : FsmRecord) (now later : ℕ)
    → Persistent s
    → compare_and_set s k expected r now later
      ≡ replace_current s k (Dict.get s.records k) expected r later
unfolding compare_and_set
compare_and_set-Persistent s k expected r now later p =
    ap (λ (x : MemoryRecords × Option FsmRecord). replace_current x.0 k x.1 expected r later)
      (get_record-Persistent s k now p)

pub call-Persistent :
    (s : MemoryRecords) (c : RecordCall) → Persistent s → PersistentCall c → Persistent (call s c)
unfolding call replace_current
call-Persistent s (get_call k now) p h = rw (call, get_record-Persistent s k now p) p
call-Persistent s (cas_call k expected r now later) p h =
    rw (call, compare_and_set-Persistent s k expected r now later p)
      (ground (
        arith,
        p,
        put-Persistent s k
            (record r {
              revision = revision_of (Dict.get s.records k) + 1;
              updated_at = some later;
            })
            p h,
      ))

pub call-Grows :
    (s : MemoryRecords) (c : RecordCall) (k : StorageKey)
    → Persistent s
    → Grows (Dict.get s.records k) (Dict.get (call s c).records k)
unfolding call replace_current
call-Grows s (get_call j now) k p = rw (call, get_record-Persistent s j now p) (inl refl)
call-Grows s (cas_call j expected r now later) k p =
    rw (call, compare_and_set-Persistent s j expected r now later p)
      (ground (
        arith,
        get-put s.records j k (record r {
          revision = revision_of (Dict.get s.records j) + 1;
          updated_at = some later;
        }),
        key_beq_iff j k,
      ))

pub calls-Persistent :
    (s : MemoryRecords) (cs : List RecordCall)
    → Persistent s
    → All PersistentCall cs
    → Persistent (calls s cs)
unfolding calls
calls-Persistent s [] p h = p
calls-Persistent s (c ∷ cs) p h = calls-Persistent (call s c) cs (call-Persistent s c p h.0) h.1

pub calls-Grows :
    (s : MemoryRecords) (cs : List RecordCall) (k : StorageKey)
    → Persistent s
    → All PersistentCall cs
    → Grows (Dict.get s.records k) (Dict.get (calls s cs).records k)
unfolding calls
calls-Grows s [] k p h = inl refl
calls-Grows s (c ∷ cs) k p h =
    Grows-trans (Dict.get s.records k) (Dict.get (call s c).records k)
      (Dict.get (calls (call s c) cs).records k) (call-Grows s c k p)
      (calls-Grows (call s c) cs k (call-Persistent s c p h.0) h.1)

abbrev pub is_stored : Outcome → Bool
is_stored (stored r) = true
is_stored (conflict e f) = false

is_stored-replace_current :
    (s : MemoryRecords) (k : StorageKey) (current : Option FsmRecord) (expected : ℕ) (r : FsmRecord)
    (later : ℕ)
    → (is_stored (replace_current s k current expected r later).1 ≡ true)
      ↔ (revision_of current ≡ expected)
unfolding replace_current
is_stored-replace_current s k current expected r later = ground arith

-- While no record has a time to live: after any calls of other tasks, a compare-and-set with the
-- revision that was read before them stores exactly when the key's record is still the one that was
-- read.
pub compare_and_set_exact :
    (s : MemoryRecords) (cs : List RecordCall) (k : StorageKey) (r : FsmRecord) (now later : ℕ)
    → Persistent s
    → All PersistentCall cs
    → (is_stored (compare_and_set (calls s cs) k (revision_of (Dict.get s.records k)) r now later).1
        ≡ true)
      ↔ (Dict.get (calls s cs).records k ≡ Dict.get s.records k)
compare_and_set_exact s cs k r now later p h =
    let before = Dict.get s.records k in
    let after = Dict.get (calls s cs).records k in
    let test = is_stored-replace_current (calls s cs) k after (revision_of before) r later in
    rw
      (compare_and_set-Persistent (calls s cs) k (revision_of before) r now later
        (calls-Persistent s cs p h))
      (unchanged before after test (calls-Grows s cs k p h))
  where
    unchanged :
        {P : Type 0} (a b : Option FsmRecord)
        → (P ↔ (revision_of b ≡ revision_of a))
        → Grows a b
        → P ↔ (b ≡ a)
    unchanged a b t (inl e) = (λ _. e, λ _. t.1 (ap revision_of e))
    unchanged a b t (inr lt) =
        (λ x. absurd (omega (arith, t.0 x)), λ e. absurd (omega (arith, ap revision_of e)))

cas_after_expiry :
    (s : MemoryRecords) (k : StorageKey) (read theirs : FsmRecord) (t now later : ℕ)
    → Dict.get s.records k ≡ some read
    → read.expires_at ≡ some t
    → t ≤ now
    → compare_and_set s k 0 theirs now later ≡ (
      record s {
        records =
            Dict.put
              (Dict.remove s.records k)
              k
              (record theirs { revision = 1; updated_at = some later });
      },
      stored (record theirs { revision = 1; updated_at = some later }),
    )
unfolding compare_and_set get_record expired replace_current
cas_after_expiry s k read theirs t now later e ttl past = ground (arith, e, ttl)

cas_unexpired :
    (s : MemoryRecords) (k : StorageKey) (current mine : FsmRecord) (now later : ℕ)
    → Dict.get s.records k ≡ some current
    → current.expires_at ≡ none
    → (compare_and_set s k current.revision mine now later).0 ≡ record s {
      records =
          Dict.put s.records k
            (record mine { revision = current.revision + 1; updated_at = some later });
    }
unfolding compare_and_set get_record expired replace_current
cas_unexpired s k current mine now later e keeps = ground (arith, e, keeps)

-- A record that expires takes its revision with it: when a record read at revision 1 has expired and
-- another task has stored a new one without a time to live, with a compare-and-set for a missing record, the
-- compare-and-set of the first task with revision 1 replaces the new record.
pub expired_revision_reused :
    (s : MemoryRecords) (k : StorageKey) (read theirs mine : FsmRecord)
    (t now later now' later' : ℕ)
    → Dict.get s.records k ≡ some read
    → read.revision ≡ 1
    → read.expires_at ≡ some t
    → t ≤ now
    → theirs.expires_at ≡ none
    → (is_stored (compare_and_set s k 0 theirs now later).1 ≡ true)
      × (let s' = (compare_and_set s k 0 theirs now later).0 in
          let s'' = (compare_and_set s' k read.revision mine now' later').0 in
          Dict.get s''.records k ≡ some (record mine { revision = 2; updated_at = some later' }))
expired_revision_reused s k read theirs mine t now later now' later' e one ttl past keeps =
    let stored_theirs = cas_after_expiry s k read theirs t now later e ttl past in
    let new : FsmRecord = record theirs { revision = 1; updated_at = some later } in
    let s' : MemoryRecords = record s { records = Dict.put (Dict.remove s.records k) k new } in
    rw (stored_theirs, one)
      (
        refl,
        rw
            (cas_unexpired s' k new mine now' later' (get-put_self (Dict.remove s.records k) k new)
              keeps)
            (get-put_self s'.records k (record mine { revision = 2; updated_at = some later' })),
      )
