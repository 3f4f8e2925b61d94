-- ===== src/Idempotency/Contract.antt =====
-- The contract of `IdempotencyStorage` in src/chattice/idempotency.py, for one key: a small state machine.
-- Times are clock readings, `until` the end of a lease.
pub mod Exclusion
use chattice.Base.{ℕ, String, Bool, true, false, leb, if◌then◌else◌, List, [], ◌∷◌}
use chattice.Base.Eq.{◌==◌, string_eq}

pub data ClaimResult : Type 0 where
  first completed active : ClaimResult

pub data Status : Type 0 where
  free : Status
  held : (owner : String) (until : ℕ) → Status
  done : (owner : String) → Status

pub data Call : Type 0 where
  claims : (owner : String) (now until : ℕ) → Call
  completes releases : (owner : String) → Call
  renews : (owner : String) (until : ℕ) → Call

pub data Reply : Type 0 where
  claimed : ClaimResult → Reply
  renewed : Bool → Reply
  silent : Reply

unfoldable pub step : Status → Call → Status × Reply
step free (claims o now until) = (held o until, claimed first)
step (held h u) (claims o now until) =
    if leb u now then (held o until, claimed first) else (held h u, claimed active)
step (done h) (claims o now until) = (done h, claimed completed)
step free (completes o) = (free, silent)
step (held h u) (completes o) = if h == o then (done h, silent) else (held h u, silent)
step (done h) (completes o) = (done h, silent)
step free (releases o) = (free, silent)
step (held h u) (releases o) = if h == o then (free, silent) else (held h u, silent)
step (done h) (releases o) = if h == o then (free, silent) else (done h, silent)
step free (renews o until) = (free, renewed false)
step (held h u) (renews o until) =
    if h == o then (held h until, renewed true) else (held h u, renewed false)
step (done h) (renews o until) = (done h, renewed false)

unfoldable pub run : Status → List Call → Status
run s [] = s
run s (c ∷ cs) = run (step s c).0 cs

unfoldable pub replies : Status → List Call → List Reply
replies s [] = []
replies s (c ∷ cs) = (step s c).1 ∷ replies (step s c).0 cs
