-- ===== src/Idempotency/Memory.antt =====
-- `MemoryIdempotencyStorage` of src/chattice/idempotency.py. A time is a number of clock ticks, and a
-- reading of the clock is an argument of the operation: `now` is the first reading, `later` the next.
-- The body under a key's lock awaits nothing, so each operation is one step.
pub mod Refines
pub mod Exclusion
use chattice.Base.{
  ℕ, ◌+◌, String, Bool, true, false, Option, none, some, ◌||◌, not, leb, if◌then◌else◌, [],
}
use chattice.Base.Eq.{◌==◌, string_eq}
use chattice.Dict
use chattice.Dict.{Dict}
use chattice.Idempotency.Contract.{ClaimResult, first, completed, active}

pub record Claim : Type 0 where
  pub owner : String
  pub lease_until : ℕ
  pub completed : Bool

pub record Storage : Type 0 where
  pub claims : Dict String Claim

abbrev pub init : Storage
init = record { claims = [] }

unfoldable pub lapsed : ℕ → Claim → Bool
lapsed now c = if not c.completed then leb c.lease_until now else false

unfoldable pub prune_expired : Storage → String → ℕ → Storage
unfolding lapsed
prune_expired s key now = elim (Dict.get s.claims key) [
  | none ↦ s
  | some c ↦ if lapsed now c then record s { claims = Dict.remove s.claims key } else s
]

unfoldable pub claim : Storage → String → String → ℕ → ℕ → ℕ → Storage × ClaimResult
unfolding prune_expired
claim s key owner lease now later =
    let s' = prune_expired s key now in
    elim (Dict.get s'.claims key) [
      | none ↦
          let c : Claim = record {
            owner = owner;
            lease_until = later + lease;
            completed = false;
          } in
          (record s' { claims = Dict.put s'.claims key c }, first)
      | some c ↦ if c.completed then (s', completed) else (s', active)
    ]

unfoldable pub complete : Storage → String → String → Storage
complete s key owner = elim (Dict.get s.claims key) [
  | none ↦ s
  | some c ↦
      if c.owner == owner
      then record s { claims = Dict.put s.claims key (record c { completed = true }) }
      else s
]

unfoldable pub release : Storage → String → String → Storage
release s key owner = elim (Dict.get s.claims key) [
  | none ↦ s
  | some c ↦ if c.owner == owner then record s { claims = Dict.remove s.claims key } else s
]

unfoldable pub renew : Storage → String → String → ℕ → ℕ → Storage × Bool
renew s key owner lease now = elim (Dict.get s.claims key) [
  | none ↦ (s, false)
  | some c ↦ if not (c.owner == owner) || c.completed then (s, false) else (
    record s { claims = Dict.put s.claims key (record c { lease_until = now + lease }) },
    true,
  )
]
