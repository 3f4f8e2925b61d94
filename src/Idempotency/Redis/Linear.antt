-- ===== src/Idempotency/Redis/Linear.antt =====
-- The calls of the Redis storage against the contract.
use chattice.Base.{
  ℕ, ◌+◌, String, ◌≡◌, refl, false, Option, none, some, List, [], ◌∷◌, arith, Bool-cases, inl, inr,
  ◌⊎◌,
}
use chattice.Base.Eq.{string_eq}
use chattice.Idempotency.Contract.{Call, claimed, step, first}
use chattice.Idempotency.Redis.{
  Server, Decision, Ended, returned, broken, running, at_least_one, lease_claim, Round, execute,
  claim_from, needs_exec, transact, claim, completes_op, deletes_op, owner_decision, complete,
  release, renew_decision, renew,
}
use chattice.Idempotency.Redis.Steps.{
  IsServer, Op, claim_op, complete_op, release_op, renew_op, call_of, Steps, Decides, set-Steps,
  status_none,
}
use chattice.Idempotency.Redis.Deciding.{claim_lem, renew_lem, complete_lem, release_lem}

module _ (server : Server) where
  open server use {State, get, set, delete, changed, encode, decode}

  unfoldable pub perform : Op → String → List (Round server) → State → Ended × State
  unfolding claim complete release renew
  perform (claim_op owner lease now) key rounds s = claim server owner lease now key rounds s
  perform (complete_op ttl owner) key rounds s = complete server ttl owner key rounds s
  perform (release_op owner) key rounds s = release server owner key rounds s
  perform (renew_op owner lease) key rounds s = renew server owner lease key rounds s

  -- The states of the server at the read and at the transaction of a pass, with the pass's reading of the clock.
  abbrev pub InPass : State → List (Round server) → State → ℕ → Type 0
  InPass s [] t now = ⊥
  InPass s (r ∷ rounds) t now =
      (((t ≡ r.before s) ⊎ (t ≡ r.meanwhile (r.before s))) × (now ≡ r.now))
      ⊎ InPass (r.meanwhile (r.before s)) rounds t now

  -- The moments of a call: those of its passes, and for a claim that of its first SET, with the clock at the call.
  abbrev pub Moment : Op → State → List (Round server) → State → ℕ → Type 0
  Moment (claim_op owner lease start) s rounds t now =
      ((t ≡ s) × (now ≡ start)) ⊎ InPass s rounds t now
  Moment op s rounds t now = InPass s rounds t now

  -- In one pass nobody touches the key between the read and the transaction.
  abbrev pub HasQuiet : String → State → List (Round server) → Type 0
  HasQuiet key s [] = ⊥
  HasQuiet key s (r ∷ rounds) =
      (changed (r.before s) (r.meanwhile (r.before s)) key ≡ false)
      ⊎ HasQuiet key (r.meanwhile (r.before s)) rounds

  -- How the passes end: a return is a step of the contract at a moment, with the clock of that moment, and it is
  -- raised only for a text that is no claim.
  abbrev Ends : (ℕ → Call) → String → (State → ℕ → Type 0) → Ended × State → Type 0
  Ends call key at (returned reply, after) =
      (t : State) × (now : ℕ) × at t now × Steps server call key t now reply after
  Ends call key at (broken, after) =
      (t : State) × (now : ℕ) × (raw : String) × at t now
      × (get t key ≡ some raw)
      × (decode raw ≡ none)
  Ends call key at (running, after) = ⊥

  abbrev pub IsLinear : Op → String → State → List (Round server) → Ended × State → Type 0
  IsLinear op key s rounds out = Ends (call_of op) key (Moment op s rounds) out

  Ends-at :
      (call : ℕ → Call) (key : String) (at_ there : State → ℕ → Type 0) (out : Ended × State)
      → ((t : State) (now : ℕ) → at_ t now → there t now)
      → Ends call key at_ out
      → Ends call key there out
  Ends-at call key at_ there (returned reply, after) f (t, now, m, d) = (t, now, f t now m, d)
  Ends-at call key at_ there (broken, after) f (t, now, raw, m, e, d) =
      (t, now, raw, f t now m, e, d)
  Ends-at call key at_ there (running, after) f d = d

  module _ (laws : IsServer server) where
    module _ (call : ℕ → Call) (decide : ℕ → Option String → Decision)
        (sound : (key : String) (now : ℕ) (t : State) (raw : Option String)
          → get t key ≡ raw
          → Decides server call key t now (execute server (decide now raw) key t)) where
      -- A call that has ended in the state `t` has taken its step there.
      at_moment :
          (key : String) (at_ : State → ℕ → Type 0) (t : State) (now : ℕ) (out : Ended × State)
          → at_ t now
          → Decides server call key t now out
          → Ends call key at_ out
      at_moment key at_ t now (returned reply, after) m d = (t, now, m, d)
      at_moment key at_ t now (broken, after) m (raw, e, f) = (t, now, raw, m, e, f)
      at_moment key at_ t now (running, after) m d = d

      transact-IsLinear :
          (key : String) (rounds : List (Round server)) (s : State)
          → HasQuiet key s rounds
          → Ends call key (InPass s rounds) (transact server decide key rounds s)
      unfolding transact
      transact-IsLinear key [] s q = absurd q
      transact-IsLinear key (r ∷ rounds) s q =
          let read = r.before s in
          let exec = r.meanwhile read in
          let d = decide r.now (get read key) in
          let at_ = InPass s (r ∷ rounds) in
          let at_read =
            at_moment key at_ read r.now (execute server d key read) (inl (inl refl, refl))
              (sound key r.now read (get read key) refl) in
          elim (Bool-cases (needs_exec server d)) [
            | inr idle ↦ rw idle at_read
            | inl needed ↦ elim (Bool-cases (changed read exec key)) [
              | inl conflict ↦
                  rw (needed, conflict)
                    (Ends-at call key (InPass exec rounds) at_ _ (λ t now m. inr m)
                      (transact-IsLinear key rounds exec (elim q [
                        | inl calm ↦ absurd (ground (arith, conflict, calm))
                        | inr rest ↦ rest
                      ])))
              | inr calm ↦
                  rw (needed, calm)
                    (at_moment key at_ exec r.now (execute server d key exec) (inl (inr refl, refl))
                      (sound key r.now exec (get read key) (laws.unchanged read exec key calm)))
            ]
          ]

    module _ (key : String) (rounds : List (Round server)) (s : State)
        (quiet : HasQuiet key s rounds) where
      claim_from-IsLinear :
          (owner : String) (lease start : ℕ) (existing : Option String)
          → get s key ≡ existing
          → IsLinear (claim_op owner lease start) key s rounds (
              claim_from server existing
                (encode (lease_claim owner (start + lease)))
                (at_least_one lease)
                key
                rounds
                s)
      unfolding step claim_from
      claim_from-IsLinear owner lease start none e =
          let call = call_of (claim_op owner lease start) in
          let value = lease_claim owner (start + lease) in
          (
            s,
            start,
            inl (refl, refl),
            set-Steps server laws key start s call value (at_least_one lease) (claimed first)
                (ground (arith, status_none server laws key start s e)),
          )
      claim_from-IsLinear owner lease start (some raw) e =
          Ends-at _ key (InPass s rounds) (Moment (claim_op owner lease start) s rounds) _
            (λ t now m. inr m)
            (transact-IsLinear (call_of (claim_op owner lease start)) _
              (λ k now t raw e.
                claim_lem server laws k now t owner lease start (at_least_one lease) raw e)
              key rounds s quiet)

    -- Whatever other clients do meanwhile, a call during which the key is left alone for one pass ends: it has
    -- then taken the contract's step for its key, with that step's reply, at one moment of the call and
    -- with the clock that the call has read for it, and no other key has changed; or it has met a text that is no
    -- claim.
    pub perform-IsLinear :
        (op : Op) (key : String) (rounds : List (Round server)) (s : State)
        → HasQuiet key s rounds
        → IsLinear op key s rounds (perform op key rounds s)
    unfolding perform claim complete release renew
    perform-IsLinear (claim_op owner lease start) key rounds s quiet =
        claim_from-IsLinear key rounds s quiet owner lease start (get s key) refl
    perform-IsLinear (complete_op ttl owner) key rounds s quiet =
        transact-IsLinear (call_of (complete_op ttl owner))
          (owner_decision server (completes_op ttl) owner)
          (λ k now t raw e. complete_lem server laws k now t owner ttl raw e) key rounds s quiet
    perform-IsLinear (release_op owner) key rounds s quiet =
        transact-IsLinear (call_of (release_op owner)) (owner_decision server deletes_op owner)
          (λ k now t raw e. release_lem server laws k now t owner raw e) key rounds s quiet
    perform-IsLinear (renew_op owner lease) key rounds s quiet =
        transact-IsLinear (call_of (renew_op owner lease)) (renew_decision server owner lease)
          (λ k now t raw e. renew_lem server laws k now t owner lease 0 raw e) key rounds s quiet
