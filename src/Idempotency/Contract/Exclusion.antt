-- ===== src/Idempotency/Contract/Exclusion.antt =====
-- A held and a completed key in the contract, under the calls of the other attempts.
use chattice.Base.{ℕ, ◌<◌, String, ◌≡◌, ◌≢◌, refl, List, [], ◌∷◌, arith, All, eq_iff}
use chattice.Base.Eq.{string_eq}
use chattice.Idempotency.Contract.{
  held, done, Call, claims, completes, releases, renews, claimed, first, step, run, replies,
}

-- A call of another owner, or any claim, before the lease of `o` ends at `u`.
abbrev pub Intrudes : String → ℕ → Call → Type 0
Intrudes o u (claims p now until) = now < u
Intrudes o u (completes p) = o ≢ p
Intrudes o u (releases p) = o ≢ p
Intrudes o u (renews p until) = o ≢ p

pub step-held : (o : String) (u : ℕ) (c : Call) → Intrudes o u c → (step (held o u) c).0 ≡ held o u
unfolding step
step-held o u (claims p now until) h = ground arith
step-held o u (completes p) h = ground (arith, eq_iff o p)
step-held o u (releases p) h = ground (arith, eq_iff o p)
step-held o u (renews p until) h = ground (arith, eq_iff o p)

step-ne-first :
    (o : String) (u : ℕ) (c : Call) → Intrudes o u c → (step (held o u) c).1 ≢ claimed first
unfolding step
step-ne-first o u (claims p now until) h = ground arith
step-ne-first o u (completes p) h = ground (arith, eq_iff o p)
step-ne-first o u (releases p) h = ground (arith, eq_iff o p)
step-ne-first o u (renews p until) h = ground (arith, eq_iff o p)

pub run-held :
    (o : String) (u : ℕ) (cs : List Call) → All (Intrudes o u) cs → run (held o u) cs ≡ held o u
unfolding run
run-held o u [] h = refl
run-held o u (c ∷ cs) h = rw (step-held o u c h.0) (run-held o u cs h.1)

pub replies-held :
    (o : String) (u : ℕ) (cs : List Call)
    → All (Intrudes o u) cs
    → All (λ r. r ≢ claimed first) (replies (held o u) cs)
unfolding replies
replies-held o u [] h = tt
replies-held o u (c ∷ cs) h =
    (step-ne-first o u c h.0, rw (step-held o u c h.0) (replies-held o u cs h.1))

-- Any call but the owner's release.
abbrev pub Absorbed : String → Call → Type 0
Absorbed o (releases p) = o ≢ p
Absorbed o _ = Unit

step-done : (o : String) (c : Call) → Absorbed o c → (step (done o) c).0 ≡ done o
unfolding step
step-done o (claims p now until) h = refl
step-done o (completes p) h = refl
step-done o (releases p) h = ground (arith, eq_iff o p)
step-done o (renews p until) h = refl

done-ne-first : (o : String) (c : Call) → (step (done o) c).1 ≢ claimed first
unfolding step
done-ne-first o (claims p now until) = ground arith
done-ne-first o (completes p) = ground arith
done-ne-first o (releases p) = ground arith
done-ne-first o (renews p until) = ground arith

pub run-done : (o : String) (cs : List Call) → All (Absorbed o) cs → run (done o) cs ≡ done o
unfolding run
run-done o [] h = refl
run-done o (c ∷ cs) h = rw (step-done o c h.0) (run-done o cs h.1)

pub replies-done :
    (o : String) (cs : List Call)
    → All (Absorbed o) cs
    → All (λ r. r ≢ claimed first) (replies (done o) cs)
unfolding replies
replies-done o [] h = tt
replies-done o (c ∷ cs) h = (done-ne-first o c, rw (step-done o c h.0) (replies-done o cs h.1))
