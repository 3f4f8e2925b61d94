-- ===== src/Idempotency/Redis/Deciding.antt =====
-- What the passes of the loops decide, against the contract.
use mathlib.Core.Path.{subst}
use chattice.Base.{
  ℕ, ◌+◌, String, ◌≡◌, refl, sym, true, false, Option, none, some, arith, Bool-cases, inl, inr, ltb,
  eq_iff,
}
use chattice.Base.Eq.{string_eq, ◌==◌}
use chattice.Idempotency.Contract.{claimed, renewed, silent, step, first, active, completed}
use chattice.Idempotency.Memory.{Claim}
use chattice.Idempotency.Redis.{
  Server, at_least_one, lease_claim, execute, claim_existing, claim_decision, completes_op,
  deletes_op, owner_existing, owner_decision, renew_existing, renew_decision,
}
use chattice.Idempotency.Redis.Steps.{
  IsServer, claim_op, complete_op, release_op, renew_op, call_of, Decides, set-Steps, stay-Steps,
  delete-Steps, execute-creates, status_some, status_none,
}

module _ (server : Server) (laws : IsServer server) where
  open server use {State, get, set, delete, changed, encode, decode}

  module _ (key : String) (now : ℕ) (t : State) where
    module _ (owner : String) (lease start : ℕ) where
      abbrev fresh : Claim
      fresh = lease_claim owner (start + lease)

      claim_existing_lem :
          (px : ℕ) (raw : String) (c : Claim)
          → get t key ≡ some raw
          → decode raw ≡ some c
          → Decides server
              (call_of (claim_op owner lease start))
              key
              t
              now
              (execute server (claim_existing server (encode fresh) px now (some c)) key t)
      unfolding claim_existing execute step
      claim_existing_lem px raw c e d =
          let known = status_some server laws key now t raw c e d in
          let call = call_of (claim_op owner lease start) in
          elim (Bool-cases c.completed) [
            | inl over ↦ rw over (
                stay-Steps server laws key now t call (claimed completed)
                  (ground (arith, known, over)))
            | inr open_ ↦ elim (Bool-cases (ltb now c.lease_until)) [
              | inl held_ ↦
                  rw (open_, held_)
                    (stay-Steps server laws key now t call (claimed active)
                      (ground (arith, known, open_, held_)))
              | inr lapsed ↦
                  rw (open_, lapsed)
                    (set-Steps server laws key now t call fresh px (claimed first)
                      (ground (arith, known, open_, lapsed)))
            ]
          ]

      claim_text_lem :
          (px : ℕ) (raw : String) (found : Option Claim)
          → get t key ≡ some raw
          → decode raw ≡ found
          → Decides server
              (call_of (claim_op owner lease start))
              key
              t
              now
              (execute server (claim_existing server (encode fresh) px now found) key t)
      unfolding claim_existing execute
      claim_text_lem px raw none e d = (raw, e, d)
      claim_text_lem px raw (some c) e d = claim_existing_lem px raw c e d

      pub claim_lem :
          (px : ℕ) (raw : Option String)
          → get t key ≡ raw
          → Decides server
              (call_of (claim_op owner lease start))
              key
              t
              now
              (execute server (claim_decision server (encode fresh) px now raw) key t)
      unfolding claim_decision step
      claim_lem px none e =
          let call = call_of (claim_op owner lease start) in
          subst (Decides server call key t now)
            (sym (
              execute-creates server laws key now t (encode fresh) px (claimed first)
                (claimed active) e))
            (set-Steps server laws key now t call fresh px (claimed first)
              (ground (arith, status_none server laws key now t e)))
      claim_lem px (some raw) e = claim_text_lem px raw (decode raw) e refl

      renew_text_lem :
          (raw : String) (found : Option Claim)
          → get t key ≡ some raw
          → decode raw ≡ found
          → Decides server
              (call_of (renew_op owner lease))
              key
              t
              now
              (execute server (renew_existing server owner lease now found) key t)
      unfolding renew_existing execute step
      renew_text_lem raw none e d = (raw, e, d)
      renew_text_lem raw (some c) e d =
          let known = status_some server laws key now t raw c e d in
          let call = call_of (renew_op owner lease) in
          let renewed_claim = lease_claim owner (now + lease) in
          elim (Bool-cases (c.owner == owner)) [
            | inr other ↦ rw other (
                stay-Steps server laws key now t call (renewed false)
                  (ground (arith, known, other)))
            | inl own ↦ elim (Bool-cases c.completed) [
              | inl over ↦
                  rw (own, over)
                    (stay-Steps server laws key now t call (renewed false)
                      (ground (arith, known, own, over)))
              | inr open_ ↦
                  rw (own, open_)
                    (set-Steps server laws key now t call renewed_claim (at_least_one lease)
                      (renewed true) (ground (arith, known, own, open_, eq_iff c.owner owner)))
            ]
          ]

      pub renew_lem :
          (raw : Option String)
          → get t key ≡ raw
          → Decides server
              (call_of (renew_op owner lease))
              key
              t
              now
              (execute server (renew_decision server owner lease now raw) key t)
      unfolding renew_decision execute step
      renew_lem none e =
          stay-Steps server laws key now t (call_of (renew_op owner lease)) (renewed false)
            (ground (arith, status_none server laws key now t e))
      renew_lem (some raw) e = renew_text_lem raw (decode raw) e refl

    module _ (owner : String) where
      complete_text_lem :
          (ttl : ℕ) (raw : String) (found : Option Claim)
          → get t key ≡ some raw
          → decode raw ≡ found
          → Decides server
              (call_of (complete_op ttl owner))
              key
              t
              now
              (execute server (owner_existing server (completes_op ttl) owner found) key t)
      unfolding owner_existing execute step
      complete_text_lem ttl raw none e d = (raw, e, d)
      complete_text_lem ttl raw (some c) e d =
          let known = status_some server laws key now t raw c e d in
          let call = call_of (complete_op ttl owner) in
          elim (Bool-cases (c.owner == owner)) [
            | inr other ↦
                rw other
                  (stay-Steps server laws key now t call silent (ground (arith, known, other)))
            | inl own ↦ rw own (
                set-Steps server laws key now t call (record c { completed = true }) ttl silent
                  (ground (arith, known, own)))
          ]

      pub complete_lem :
          (ttl : ℕ) (raw : Option String)
          → get t key ≡ raw
          → Decides server
              (call_of (complete_op ttl owner))
              key
              t
              now
              (execute server (owner_decision server (completes_op ttl) owner now raw) key t)
      unfolding owner_decision execute step
      complete_lem ttl none e =
          stay-Steps server laws key now t (call_of (complete_op ttl owner)) silent
            (ground (arith, status_none server laws key now t e))
      complete_lem ttl (some raw) e = complete_text_lem ttl raw (decode raw) e refl

      release_text_lem :
          (raw : String) (found : Option Claim)
          → get t key ≡ some raw
          → decode raw ≡ found
          → Decides server
              (call_of (release_op owner))
              key
              t
              now
              (execute server (owner_existing server deletes_op owner found) key t)
      unfolding owner_existing execute step
      release_text_lem raw none e d = (raw, e, d)
      release_text_lem raw (some c) e d =
          let known = status_some server laws key now t raw c e d in
          let call = call_of (release_op owner) in
          elim (Bool-cases (c.owner == owner)) [
            | inr other ↦
                rw other
                  (stay-Steps server laws key now t call silent (ground (arith, known, other)))
            | inl own ↦
                rw own (delete-Steps server laws key now t call silent (ground (arith, known, own)))
          ]

      pub release_lem :
          (raw : Option String)
          → get t key ≡ raw
          → Decides server
              (call_of (release_op owner))
              key
              t
              now
              (execute server (owner_decision server deletes_op owner now raw) key t)
      unfolding owner_decision execute step
      release_lem none e =
          stay-Steps server laws key now t (call_of (release_op owner)) silent
            (ground (arith, status_none server laws key now t e))
      release_lem (some raw) e = release_text_lem raw (decode raw) e refl
